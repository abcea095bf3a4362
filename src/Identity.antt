-- ===== src/Identity.antt =====
-- tg_testcase/telegram_identity.py: the ledgers of messages, in which an update is handled once. The
-- numbers of a message are natural: a negative one passes no check. An action is its canonical text.
pub mod Same
pub mod Shares
pub mod Once
pub mod Replay
pub mod Authentic
pub mod Traces
pub mod Gateway
use Prim.Native.String.{◌++◌ as str_append}
use my_ops.Prelude.{
  ℕ, ◌+◌, ◌++◌, String, Bool, true, false, not, ◌&&◌, ◌||◌, Option, none, some, List, [], ◌∷◌,
  Result, ok, err, ◌>>=◌, ◌>>◌, raise_if, any, select, first, update_where, leb, ltb, ◌==◌, nat_eq,
  string_eq, option_eq, if◌then◌else◌,
}
use my_ops.Contract.{
  JobError, ErrorCode, contract_error, contract_value_error, contract_key_error,
  contract_integrity_error, auth_invalid, auth_replay, request_conflict, fail_if, require, integer,
  integer_in, max_i63, ref_name, id32, sha, identifier,
}

-- `auth_context`
pub record Context : Type 0 where
  pub issuer : String
  pub bot_instance : String
  pub telegram_user_id : ℕ
  pub chat_id : ℕ
  pub chat_type : String
  pub update_id : ℕ
  pub issued_at : ℕ
  pub expires_at : ℕ
  pub nonce : String

pub record Envelope : Type 0 where
  pub audience : String
  pub auth_context : Context
  pub action : String
  pub action_digest : String

unfoldable pub validate_context : Context → Result JobError (Unit {0})
unfolding require ref_name id32 integer_in
validate_context c = do
  ref_name c.issuer
  ref_name c.bot_instance
  id32 c.nonce
  integer_in 1 4503599627370495 c.telegram_user_id
  integer_in 0 4503599627370495 c.chat_id
  require (c.chat_type == "private" && c.chat_id == c.telegram_user_id)
  integer_in 0 2147483647 c.update_id
  integer c.issued_at
  integer c.expires_at
  require (c.expires_at == c.issued_at + 60000)

-- What the ledgers compute with: digests of an action, of a result and of the names of an update;
-- `application_request`, whose requests are texts too; and the length of a canonical envelope.
pub record Requests : Type 0 where
  pub digest : String → String
  pub digest_names : String → String → ℕ → String
  pub application_request : Envelope → Option String
  pub size : Envelope → ℕ

-- `AUDIENCE`
abbrev pub expected_audience : String
expected_audience = "notion-controller-v1"

unfoldable pub request_id : Requests → Context → String
request_id r c = str_append "tg-" (r.digest_names c.issuer c.bot_instance c.update_id)

-- A row of table `replay`; its keys are columns of the table too.
pub record Reservation : Type 0 where
  pub envelope : Envelope
  pub request : String
  pub request_id : String
  pub action_digest : String
  pub first_seen_at : ℕ
  pub retain_until : ℕ
  pub state : String
  pub response_digest : Option String
  pub result_ref : Option String

-- The entries of `peers`: who may speak for an issuer and its bot.
pub record Peer : Type 0 where
  pub issuer : String
  pub bot_instance : String
  pub uid : ℕ
  pub audience : String

-- Tables `replay`, `clock_state` and `gateway_updates`.
pub record Ledger : Type 0 where
  pub replay : List Reservation
  pub high_water : Option ℕ
  pub gateway_updates : List Envelope

abbrev pub same_context : Context → Context → Bool
same_context c d =
    c.issuer == d.issuer
    && (c.bot_instance == d.bot_instance
        && (c.telegram_user_id == d.telegram_user_id
            && (c.chat_id == d.chat_id
                && (c.chat_type == d.chat_type
                    && (c.update_id == d.update_id
                        && (c.issued_at == d.issued_at
                            && (c.expires_at == d.expires_at && c.nonce == d.nonce)))))))

-- `==` of two envelopes
unfoldable pub same_envelope : Envelope → Envelope → Bool
same_envelope d e =
    d.audience == e.audience
    && (same_context d.auth_context e.auth_context
        && (d.action == e.action && d.action_digest == e.action_digest))

abbrev pub peer_of : List Peer → Context → Option Peer
peer_of peers c =
    first (λ (p : Peer). p.issuer == c.issuer && p.bot_instance == c.bot_instance) peers

-- `expected == (peer.uid, e['audience'])`
abbrev pub is_peer : Option Peer → ℕ → String → Bool
is_peer none uid audience = false
is_peer (some p) uid audience = p.uid == uid && p.audience == audience

abbrev pub given {ℓ} : {A : Type ℓ} → Option A → Result JobError A
given none = err contract_value_error
given (some a) = ok a

-- The checks under `try`: the request of the envelope.
unfoldable pub check_envelope : Requests → List Peer → Envelope → ℕ → ℕ → Result JobError String
unfolding validate_context require sha
check_envelope r peers e uid now = do
  integer now
  validate_context e.auth_context
  require (is_peer (peer_of peers e.auth_context) uid e.audience && e.audience == expected_audience)
  sha e.action_digest
  require (r.digest e.action == e.action_digest)
  given (r.application_request e)

-- `except`: errors that have no code become AUTH_INVALID.
abbrev pub or_invalid {ℓ} : {A : Type ℓ} → Result JobError A → Result JobError A
or_invalid (ok a) = ok a
or_invalid (err (contract_error code)) = err (contract_error code)
or_invalid (err contract_value_error) = err (contract_error auth_invalid)
or_invalid (err contract_key_error) = err (contract_error auth_invalid)
or_invalid (err contract_integrity_error) = err contract_integrity_error

-- `bool(clock and now_ms + 5000 < clock[0])`
abbrev pub is_rollback : ℕ → Option ℕ → Bool
is_rollback now none = false
is_rollback now (some high) = ltb (now + 5000) high

abbrev pub raise_high : ℕ → Option ℕ → ℕ
raise_high now none = now
raise_high now (some high) = if ltb high now then now else high

-- `WHERE issuer=? AND bot_instance=? AND (nonce=? OR update_id=?)`
unfoldable pub clashes : Context → Reservation → Bool
clashes c row =
    row.envelope.auth_context.issuer == c.issuer
    && (row.envelope.auth_context.bot_instance == c.bot_instance
        && (row.envelope.auth_context.nonce == c.nonce
            || row.envelope.auth_context.update_id == c.update_id))

abbrev pub retention : ℕ
retention = 86400000

unfoldable pub new_reservation : Requests → Envelope → String → ℕ → Reservation
unfolding request_id
new_reservation r e request now = record {
  envelope = e;
  request = request;
  request_id = request_id r e.auth_context;
  action_digest = e.action_digest;
  first_seen_at = now;
  retain_until =
      (if ltb now e.auth_context.expires_at then e.auth_context.expires_at else now) + retention;
  state = "reserved";
  response_digest = none;
  result_ref = none;
}

-- The insert: the request identifier is unique, and so are the nonce and the update of a bot.
unfoldable pub insert_reservation :
    List Reservation → Reservation → Result JobError (Reservation × List Reservation)
insert_reservation rows row = do
  raise_if
      (any
        (λ (q : Reservation). q.request_id == row.request_id || clashes row.envelope.auth_context q)
        rows)
      contract_integrity_error
  ok (row, rows ++ row ∷ [])

unfoldable pub reserve_new :
    Requests
    → List Reservation
    → Envelope
    → String
    → Bool
    → ℕ
    → Result JobError (Reservation × List Reservation)
unfolding new_reservation insert_reservation
reserve_new r rows e request rollback now = do
  fail_if rollback auth_invalid
  fail_if
      (not
        (leb e.auth_context.issued_at (now + 5000) && ltb now (e.auth_context.expires_at + 5000)))
      auth_invalid
  integer (new_reservation r e request now).retain_until
  insert_reservation rows (new_reservation r e request now)

-- By the rows that clash: none, the one of this very envelope, or others.
unfoldable pub reserve_among :
    Requests
    → List Reservation
    → Envelope
    → String
    → Bool
    → ℕ
    → List Reservation
    → Result JobError (Reservation × List Reservation)
unfolding reserve_new same_envelope
reserve_among r rows e request rollback now [] = reserve_new r rows e request rollback now
reserve_among r rows e request rollback now (old ∷ []) = do
  fail_if (not (same_envelope old.envelope e)) auth_replay
  ok (old, rows)
reserve_among r rows e request rollback now (old ∷ other ∷ more) = err (contract_error auth_replay)

abbrev pub settle {ℓ} :
    {A : Type ℓ} → Ledger → Result JobError (A × List Reservation) → Result JobError A × Ledger
settle l (ok (a, rows)) = (ok a, record l { replay = rows })
settle l (err e) = (err e, l)

-- The first transaction keeps the highest time that was seen, whatever comes of the second.
abbrev pub observe : Ledger → ℕ → Ledger
observe l now = record l { high_water = some (raise_high now l.high_water) }

-- `reserve`, for an envelope that was read
unfoldable pub reserve :
    Requests → List Peer → Ledger → Envelope → ℕ → ℕ → Result JobError Reservation × Ledger
unfolding check_envelope reserve_among clashes
reserve r peers l e uid now = elim (or_invalid (check_envelope r peers e uid now)) [
  | err error ↦ (err error, l)
  | ok request ↦ settle (observe l now) (
      reserve_among r l.replay e request (is_rollback now l.high_water) now
        (select (clashes e.auth_context) l.replay))
]

abbrev pub completed : String → String → Bool → Reservation → Reservation
completed rid digest rejected row = record row {
  state = if rejected then "rejected" else "completed";
  response_digest = some digest;
  result_ref = some rid;
}

unfoldable pub complete_row :
    List Reservation
    → String
    → String
    → Bool
    → Option Reservation
    → Result JobError (Reservation × List Reservation)
complete_row rows rid digest rejected none = err (contract_error auth_invalid)
complete_row rows rid digest rejected (some row) =
    if not (row.state == "reserved")
    then (do fail_if (not (row.response_digest == some digest)) request_conflict; ok (row, rows))
    else ok (
      completed rid digest rejected row,
      update_where (λ (q : Reservation). q.request_id == rid) (completed rid digest rejected) rows,
    )

-- `complete`, with the text of a result
unfoldable pub complete :
    Requests → Ledger → String → String → Bool → Result JobError Reservation × Ledger
unfolding identifier complete_row
complete r l rid result rejected = settle l (
    identifier rid
    >> complete_row l.replay rid (r.digest result) rejected
        (first (λ (q : Reservation). q.request_id == rid) l.replay))

-- `gc`
unfoldable pub gc : Ledger → ℕ → Result JobError (Unit {0}) × Ledger
gc l now = settle l (
    integer now
    >> ok (
      tt,
      select (λ row. not (not (row.state == "reserved") && leb row.retain_until now)) l.replay,
    ))

-- The calls of the bridge.
pub data LedgerCall : Type 0 where
  reserve_call : Envelope → (uid now : ℕ) → LedgerCall
  complete_call : (rid result : String) (rejected : Bool) → LedgerCall
  gc_call : (now : ℕ) → LedgerCall

unfoldable pub ledger_call : Requests → List Peer → Ledger → LedgerCall → Ledger
unfolding reserve complete gc
ledger_call r peers l (reserve_call e uid now) = (reserve r peers l e uid now).1
ledger_call r peers l (complete_call rid result rejected) = (complete r l rid result rejected).1
ledger_call r peers l (gc_call now) = (gc l now).1

unfoldable pub ledger_calls : Requests → List Peer → Ledger → List LedgerCall → Ledger
unfolding ledger_call
ledger_calls r peers l [] = l
ledger_calls r peers l (c ∷ cs) = ledger_calls r peers (ledger_call r peers l c) cs
