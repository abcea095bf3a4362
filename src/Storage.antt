-- ===== src/Storage.antt =====
-- tg_testcase/storage.py, `safe_name`, and the same test in contract_types.py, `identifier`. Paths,
-- symbolic links and writes are the file system's.
use my_ops.Prelude.{
  ℕ, String, Bool, false, not, ◌&&◌, ◌||◌, List, [], ◌∷◌, Result, raise_if, all, length, leb, ◌==◌,
  nat_eq, codes,
}
use my_ops.Task.{Error, value_error}

-- `[A-Za-z0-9]`
unfoldable pub is_alnum : ℕ → Bool
is_alnum c = (leb b'A' c && leb c b'Z') || (leb b'a' c && leb c b'z') || (leb b'0' c && leb c b'9')

-- `[A-Za-z0-9_.-]`
unfoldable pub is_name_char : ℕ → Bool
unfolding is_alnum
is_name_char c = is_alnum c || c == b'_' || c == b'.' || c == b'-'

-- `re.fullmatch(r"[A-Za-z0-9][A-Za-z0-9_.-]{0,119}", name)`
unfoldable pub matches_name : List ℕ → Bool
unfolding is_name_char
matches_name [] = false
matches_name (c ∷ cs) = is_alnum c && (all is_name_char cs && leb (length cs) 119)

abbrev pub starts_with_dot : List ℕ → Bool
starts_with_dot [] = false
starts_with_dot (c ∷ cs) = c == b'.'

-- `".." in name`
unfoldable pub has_two_dots : List ℕ → Bool
has_two_dots [] = false
has_two_dots (c ∷ cs) = (c == b'.' && starts_with_dot cs) || has_two_dots cs

unfoldable pub is_safe_name : String → Bool
unfolding matches_name has_two_dots
is_safe_name name = matches_name (codes name) && not (has_two_dots (codes name))

unfoldable pub safe_name : String → Result Error (Unit {0})
unfolding is_safe_name
safe_name name = raise_if (not (is_safe_name name)) (value_error "Unsafe filename or identifier")
