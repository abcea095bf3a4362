-- ===== src/Tests/Streaming.antt =====
-- Streams that give a byte at a time.
use my_ops.Prelude.{
  ℕ, zero, suc, ◌≤◌, ◌<◌, ◌≡◌, ◌++◌, refl, arith, some, List, [], ◌∷◌, Result, err, length,
}
use my_ops.Task.{Error, value_error}
use my_ops.Streaming.{read_exact}
use my_ops.Streaming.Exact.{
  IsStream, IsPrefix, read_exact-Returns, read_exact-IsPrefix, read_exact-truncated,
}

abbrev read_one : List ℕ → ℕ → List ℕ × List ℕ
read_one [] n = ([], [])
read_one (b ∷ bs) zero = ([], b ∷ bs)
read_one (b ∷ bs) (suc n) = (b ∷ [], bs)

abbrev left : List ℕ → List ℕ
left bs = bs

one_next : (s : List ℕ) (n : ℕ) → s ≡ (read_one s n).0 ++ (read_one s n).1
one_next [] n = refl
one_next (b ∷ bs) zero = refl
one_next (b ∷ bs) (suc n) = refl

one_few : (s : List ℕ) (n : ℕ) → length ((read_one s n).0) ≤ n
one_few [] n = omega arith
one_few (b ∷ bs) zero = omega arith
one_few (b ∷ bs) (suc n) = omega arith

one_some : (s : List ℕ) (n : ℕ) → 0 < n → 0 < length s → 0 < length ((read_one s n).0)
one_some [] n asked held = held
one_some (b ∷ bs) zero asked held = asked
one_some (b ∷ bs) (suc n) asked held = omega arith

one-IsStream : IsStream read_one left
one-IsStream = record { next = one_next; few = one_few; some_bytes = one_some }

abbrev three : List ℕ
three = 5 ∷ 6 ∷ 7 ∷ []

read_exact-IsPrefix_example : IsPrefix left three 2 (read_exact read_one three 2)
read_exact-IsPrefix_example = read_exact-IsPrefix read_one left one-IsStream three 2 (omega arith)

read_exact-truncated_example :
    read_exact read_one three 4 ≡ some (err (value_error "Truncated/invalid stream"))
read_exact-truncated_example = read_exact-truncated read_one left one-IsStream three 4 (omega arith)

read_exact-Returns_example :
    (r : Result Error (List ℕ × List ℕ)) × (read_exact read_one three 2 ≡ some r)
read_exact-Returns_example = read_exact-Returns read_one three 2
