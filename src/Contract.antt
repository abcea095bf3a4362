-- ===== src/Contract.antt =====
-- tg_testcase/contract_types.py and internal_errors.py: the checks of single values, and the codes
-- of the errors.
use my_ops.Prelude.{
  ℕ, ◌+◌, ◌-◌, ◌*◌, String, Bool, false, not, ◌&&◌, ◌||◌, Option, none, some, List, [], ◌∷◌, Result,
  ok, err, raise_if, all, length, ltb, leb, ◌==◌, nat_eq, list_eq, if◌then◌else◌, codes,
}
use my_ops.Storage.{is_safe_name}

-- `ErrorCode`
pub data ErrorCode : Type 0 where
  auth_invalid auth_replay owner_mismatch policy_invalid root_ambiguous credential_stale : ErrorCode
  policy_revoked scope_denied workspace_mismatch job_cancelled job_timeout fenced : ErrorCode
  lease_lost reference_invalid root_type_mismatch version_conflict request_conflict : ErrorCode
  digest_conflict package_invalid property_id_invalid locator_collision notion_auth_failed :
      ErrorCode
  notion_resource_unavailable pagination_invalid view_unresolved resource_limit : ErrorCode
  attachment_ssrf_blocked attachment_redirect_rejected attachment_expired : ErrorCode
  rate_limit_exhausted upstream_unavailable storage_failure receipt_pending : ErrorCode
  receipt_not_found internal_failure : ErrorCode

-- the first column of `_ROWS`
unfoldable pub priority : ErrorCode → ℕ
priority auth_invalid = 10
priority auth_replay = 11
priority owner_mismatch = 12
priority policy_invalid = 20
priority root_ambiguous = 21
priority credential_stale = 22
priority policy_revoked = 23
priority scope_denied = 24
priority workspace_mismatch = 25
priority job_cancelled = 30
priority job_timeout = 31
priority fenced = 32
priority lease_lost = 33
priority reference_invalid = 40
priority root_type_mismatch = 41
priority version_conflict = 42
priority request_conflict = 43
priority digest_conflict = 44
priority package_invalid = 45
priority property_id_invalid = 46
priority locator_collision = 47
priority notion_auth_failed = 50
priority notion_resource_unavailable = 51
priority pagination_invalid = 52
priority view_unresolved = 53
priority resource_limit = 54
priority attachment_ssrf_blocked = 55
priority attachment_redirect_rejected = 56
priority attachment_expired = 57
priority rate_limit_exhausted = 60
priority upstream_unavailable = 61
priority storage_failure = 62
priority receipt_pending = 63
priority receipt_not_found = 64
priority internal_failure = 90

-- What the job registry raises: `fail(code)`, the `ValueError` of `require`, a `KeyError`, and the
-- error of a constraint of the database.
pub data JobError : Type 0 where
  contract_error : ErrorCode → JobError
  contract_value_error contract_key_error contract_integrity_error : JobError

-- `fail(code)` under a test
abbrev pub fail_if : Bool → ErrorCode → Result JobError (Unit {0})
fail_if test code = raise_if test (contract_error code)

-- `min(codes, key=priority)`: of two with one priority the first
unfoldable pub least : ErrorCode → List ErrorCode → ErrorCode
unfolding priority
least c [] = c
least c (d ∷ ds) = least (if ltb (priority d) (priority c) then d else c) ds

-- `if errors: fail(select_error(errors))`
unfoldable pub fail_all : List ErrorCode → Result JobError (Unit {0})
unfolding least
fail_all [] = ok tt
fail_all (c ∷ cs) = err (contract_error (least c cs))

unfoldable pub require : Bool → Result JobError (Unit {0})
require condition = raise_if (not condition) contract_value_error

-- `MAX_I63`
abbrev pub max_i63 : ℕ
max_i63 = 9223372036854775807

-- `integer(value, minimum, maximum)`
unfoldable pub integer_in : ℕ → ℕ → ℕ → Result JobError (Unit {0})
unfolding require
integer_in minimum maximum value = require (leb minimum value && leb value maximum)

-- `integer(value)`
abbrev pub integer : ℕ → Result JobError (Unit {0})
integer value = integer_in 0 max_i63 value

-- `identifier`: the same names as `safe_name`
unfoldable pub identifier : String → Result JobError (Unit {0})
unfolding require is_safe_name
identifier value = require (is_safe_name value)

abbrev pub is_digit : ℕ → Bool
is_digit c = leb b'0' c && leb c b'9'

abbrev pub is_lower : ℕ → Bool
is_lower c = leb b'a' c && leb c b'z'

-- `[0-9a-f]`
abbrev pub is_hex : ℕ → Bool
is_hex c = is_digit c || (leb b'a' c && leb c b'f')

-- `[0-9a-f]{n}`
unfoldable pub is_hex_text : ℕ → String → Bool
is_hex_text n value = all is_hex (codes value) && length (codes value) == n

-- `id32`
unfoldable pub id32 : String → Result JobError (Unit {0})
unfolding require is_hex_text
id32 value = require (is_hex_text 32 value)

-- `sha`
unfoldable pub sha : String → Result JobError (Unit {0})
unfolding require is_hex_text
sha value = require (is_hex_text 64 value)

-- `[a-z][a-z0-9_-]{0,63}`
unfoldable pub matches_ref : List ℕ → Bool
matches_ref [] = false
matches_ref (c ∷ cs) =
    is_lower c
    && (all (λ d. is_lower d || is_digit d || d == b'_' || d == b'-') cs && leb (length cs) 63)

-- `name`
unfoldable pub ref_name : String → Result JobError (Unit {0})
unfolding require matches_ref
ref_name value = require (matches_ref (codes value))

-- The number that a text of digits writes, after what stands before it.
unfoldable pub decimal : ℕ → List ℕ → ℕ
decimal n [] = n
decimal n (c ∷ cs) = decimal (n * 10 + (c - b'0')) cs

-- `[1-9][0-9]{0,15}` and the bound of the number
unfoldable pub matches_user : List ℕ → Bool
unfolding decimal
matches_user [] = false
matches_user (c ∷ cs) =
    (leb b'1' c && leb c b'9')
    && (all is_digit cs && (leb (length cs) 15 && leb (decimal 0 (c ∷ cs)) 4503599627370495))

-- `value` after `prefix`, where it begins with it
unfoldable pub after : List ℕ → List ℕ → Option (List ℕ)
after [] value = some value
after (p ∷ prefix) [] = none
after (p ∷ prefix) (c ∷ value) = let rest = after prefix value in if p == c then rest else none

unfoldable pub is_user : Option (List ℕ) → Bool
unfolding matches_user
is_user none = false
is_user (some user) = matches_user user

-- `principal`
unfoldable pub principal_name : String → Result JobError (Unit {0})
unfolding require after is_user
principal_name value = require (is_user (after (codes "telegram:") (codes value)))
