-- ===== src/Reference.antt =====
-- tg_testcase/notion_reference.py: references to a page of Notion, as code points. A regular
-- expression of fixed length is a list that says where hexadecimal digits stand, and where dashes.
pub mod Canonical
use my_ops.Prelude.{
  ℕ, zero, suc, ◌+◌, ◌-◌, ◌++◌, String, Bool, true, false, not, ◌&&◌, ◌||◌, Option, none, some,
  List, [], ◌∷◌, map, Result, ok, err, ◌>>=◌, ◌>>◌, any, all, select, contains, length, is_empty,
  leb, ltb, codes, ◌==◌, nat_eq, list_eq, if◌then◌else◌,
}
use my_ops.Contract.{JobError, contract_error, reference_invalid, fail_if, is_digit, is_lower}

abbrev pub is_upper : ℕ → Bool
is_upper c = leb b'A' c && leb c b'Z'

-- `[0-9A-Fa-f]`
abbrev pub is_hex_digit : ℕ → Bool
is_hex_digit c =
    (leb b'0' c && leb c b'9') || ((leb b'A' c && leb c b'F') || (leb b'a' c && leb c b'f'))

abbrev pub hex_digits : ℕ → List Bool
hex_digits zero = []
hex_digits (suc n) = true ∷ hex_digits n

-- `_ID`
abbrev pub id_shape : List Bool
id_shape = hex_digits 32

-- `_UUID`
abbrev pub uuid_shape : List Bool
uuid_shape =
    hex_digits 8
    ++ (false ∷ hex_digits 4)
    ++ (false ∷ hex_digits 4)
    ++ (false ∷ hex_digits 4)
    ++ (false ∷ hex_digits 12)

-- A text of that shape: `true` is a hexadecimal digit, `false` a dash.
unfoldable pub fits : List Bool → List ℕ → Bool
fits [] [] = true
fits [] (c ∷ cs) = false
fits (b ∷ bs) [] = false
fits (true ∷ bs) (c ∷ cs) = is_hex_digit c && fits bs cs
fits (false ∷ bs) (c ∷ cs) = c == b'-' && fits bs cs

-- `_ROOT.fullmatch`
abbrev pub is_root : List ℕ → Bool
is_root cs = fits id_shape cs || fits uuid_shape cs

abbrev pub lower : ℕ → ℕ
lower c = if is_upper c then c + 32 else c

-- `text.replace('-', '').lower()`, on ASCII
unfoldable pub compact : List ℕ → List ℕ
compact cs = map lower (select (λ c. not (c == b'-')) cs)

-- `ord(c) <= 32 or ord(c) >= 127 or c in '%\\?#'`
abbrev pub is_bad : ℕ → Bool
is_bad c = leb c 32 || (leb 127 c || contains (b'%' ∷ 92 ∷ b'?' ∷ b'#' ∷ []) c)

-- What follows a prefix.
unfoldable pub strip_prefix : List ℕ → List ℕ → Option (List ℕ)
strip_prefix [] cs = some cs
strip_prefix (p ∷ ps) [] = none
strip_prefix (p ∷ ps) (c ∷ cs) = if p == c then strip_prefix ps cs else none

abbrev pub and_then : Option (List ℕ) → (List ℕ → Option (List ℕ)) → Option (List ℕ)
and_then none f = none
and_then (some cs) f = f cs

-- `(?:www\.)?`
abbrev pub skip_www : List ℕ → List ℕ
skip_www cs = elim (strip_prefix (codes "www.") cs) [ none ↦ cs | some rest ↦ rest ]

-- `[^/]{1,117}`
abbrev pub as_segment : List ℕ → Option (List ℕ)
as_segment cs =
    if not (is_empty cs) && (leb (length cs) 117 && not (contains cs b'/')) then some cs else none

-- `https://(?:www\.)?notion\.so/([^/]{1,117})`
unfoldable pub segment_of : List ℕ → Option (List ℕ)
unfolding strip_prefix
segment_of cs =
    and_then (strip_prefix (codes "https://") cs)
      (λ rest. and_then (strip_prefix (codes "notion.so/") (skip_www rest)) as_segment)

-- `[A-Za-z0-9]`
abbrev pub is_word : ℕ → Bool
is_word c = is_digit c || (is_upper c || is_lower c)

-- `(?:-[A-Za-z0-9]+)*`, after a character that is a dash or is not.
unfoldable pub is_title : Bool → List ℕ → Bool
is_title after_dash [] = not after_dash
is_title after_dash (c ∷ cs) =
    let rest = is_title (c == b'-') cs in
    if c == b'-' then not after_dash && rest else is_word c && rest

abbrev pub split_at : ℕ → List ℕ → List ℕ × List ℕ
split_at zero cs = ([], cs)
split_at (suc n) [] = ([], [])
split_at (suc n) (c ∷ cs) = let (front, back) = split_at n cs in (c ∷ front, back)

-- `([A-Za-z0-9]+(?:-[A-Za-z0-9]+)*)-(...)`, with a title of eighty characters at most
abbrev pub titled : List Bool → List ℕ × List ℕ → Option (List ℕ)
titled shape (title, []) = none
titled shape (title, d ∷ tail) =
    if d == b'-' && (fits shape tail && (is_title true title && leb (length title) 80))
    then some tail
    else none

-- The identifier at the end of a segment.
abbrev pub id_at_end : List Bool → List ℕ → Option (List ℕ)
id_at_end shape segment = titled shape (split_at (length segment - suc (length shape)) segment)

abbrev pub or_else : Option (List ℕ) → Option (List ℕ) → Option (List ℕ)
or_else none o = o
or_else (some cs) o = some cs

unfoldable pub parse_segment : List ℕ → Option (List ℕ)
unfolding fits is_title
parse_segment segment =
    if is_root segment
    then some segment
    else or_else (id_at_end uuid_shape segment) (id_at_end id_shape segment)

abbrev pub found : Option (List ℕ) → Result JobError (List ℕ)
found none = err (contract_error reference_invalid)
found (some cs) = ok (compact cs)

-- `parse_notion_reference`
unfoldable pub parse_notion_reference : List ℕ → Result JobError (List ℕ)
unfolding compact segment_of parse_segment
parse_notion_reference cs =
    fail_if (not (leb 1 (length cs) && leb (length cs) 512) || any is_bad cs) reference_invalid
    >> (if is_root cs then ok (compact cs) else found (and_then (segment_of cs) parse_segment))
