-- ===== src/Streaming/Exact.antt =====
-- streaming.py: what `read_exact` returns.
use my_ops.Prelude.{
  ℕ, zero, suc, ◌+◌, ◌-◌, ◌++◌, ◌≤◌, ◌<◌, ◌≡◌, refl, sym, ap, ◌∙◌, append_assoc, arith, true, false,
  ◌&&◌, inl, inr, Option, some, List, [], ◌∷◌, Result, ok, err, Bool-cases, length, ltb, leb,
  if◌then◌else◌,
}
use my_ops.Acquisition.Tokens.{and-eq-true}
use my_ops.Task.{Error, value_error}
use my_ops.Streaming.{chunk_size, wanted, is_chunk, read_from, read_exact}

length-append : (as' bs : List ℕ) → length (as' ++ bs) ≡ length as' + length bs
length-append [] bs = omega arith
length-append (a ∷ as') bs = omega (arith, length-append as' bs)

not_less : (a b : ℕ) → b ≤ a + 0 → ltb a b ≡ false
not_less a b le = ground arith

-- What the test of a chunk says.
is_chunk-Sizes :
    (n : ℕ) (chunk : List ℕ)
    → (ltb 0 (length chunk) && leb (length chunk) n) ≡ true
    → (0 < length chunk) × (length chunk ≤ n)
is_chunk-Sizes n chunk h =
    let (a, b) = and-eq-true (ltb 0 (length chunk)) _ h in
    (positive (length chunk) a, bounded (length chunk) n b)
  where
    positive : (k : ℕ) → ltb 0 k ≡ true → 0 < k
    positive k e = ground arith

    bounded : (k m : ℕ) → leb k m ≡ true → k ≤ m
    bounded k m e = ground arith

is_chunk-of :
    (n : ℕ) (chunk : List ℕ)
    → 0 < length chunk
    → length chunk ≤ n
    → (ltb 0 (length chunk) && leb (length chunk) n) ≡ true
is_chunk-of n chunk some_bytes few = tested (length chunk) n some_bytes few
  where
    tested : (k m : ℕ) → 0 < k → k ≤ m → (ltb 0 k && leb k m) ≡ true
    tested k m a b = ground arith

enough_fuel :
    (size fuel : ℕ) (result chunk : List ℕ)
    → size ≤ length result + suc fuel
    → 0 < length chunk
    → size ≤ length (result ++ chunk) + fuel
enough_fuel size fuel result chunk enough some_bytes = omega (arith, length-append result chunk)

-- What is asked for is more than nothing, and no more than what is left.
wanted-Sizes :
    (size used : ℕ)
    → ltb used size ≡ true
    → let n = (if ltb chunk_size (size - used) then chunk_size else size - used) in
      (0 < n) × (used + n ≤ size)
wanted-Sizes size used more = (ground arith, ground arith)

module _ {S : Type 0} (read : S → ℕ → List ℕ × S) where
  -- There is fuel for the bytes that are left.
  read_from-Returns :
      (fuel : ℕ) (s : S) (size : ℕ) (result : List ℕ)
      → size ≤ length result + fuel
      → (r : Result Error (List ℕ × S)) × (read_from read fuel s size result ≡ some r)
  unfolding read_from
  read_from-Returns zero s size result enough =
      (ok (result, s), rw (not_less (length result) size enough) refl)
  read_from-Returns (suc fuel) s size result enough =
      let n = wanted read size result in
      let chunk = (read s n).0 in
      elim (Bool-cases (ltb (length result) size)) [
        | inr done ↦ (ok (result, s), rw done refl)
        | inl more ↦ elim (Bool-cases (is_chunk read n chunk)) [
          | inr bad ↦ (err (value_error "Truncated/invalid stream"), rw (more, bad) refl)
          | inl good ↦
              let (some_bytes, _) = is_chunk-Sizes n chunk good in
              let (r, e) =
                read_from-Returns fuel ((read s n).1) size (result ++ chunk)
                  (enough_fuel size fuel result chunk enough some_bytes) in
              (r, rw (more, good) e)
        ]
      ]

  -- Whatever the stream gives, reading ends: with the bytes, or with the error of a stream that gives
  -- nothing or too much.
  pub read_exact-Returns :
      (s : S) (size : ℕ) → (r : Result Error (List ℕ × S)) × (read_exact read s size ≡ some r)
  unfolding read_exact
  read_exact-Returns s size = read_from-Returns size s size [] (omega arith)

-- A stream that holds bytes: reading gives some of the next ones, at most as many as are asked for, and
-- one at least where there is one.
pub record IsStream {S : Type 0} (read : S → ℕ → List ℕ × S) (bytes : S → List ℕ) : Type 0 where
  pub next : (s : S) (n : ℕ) → bytes s ≡ (read s n).0 ++ bytes ((read s n).1)
  pub few : (s : S) (n : ℕ) → length ((read s n).0) ≤ n
  pub some_bytes : (s : S) (n : ℕ) → 0 < n → 0 < length (bytes s) → 0 < length ((read s n).0)

-- The bytes that were read, `size` of them, with what is left.
pub record IsPrefix {S : Type 0} (bytes : S → List ℕ) (all : List ℕ) (size : ℕ)
    (o : Option (Result Error (List ℕ × S))) : Type 0 where
  pub result : List ℕ
  pub rest : S
  pub returned : o ≡ some (ok (result, rest))
  pub whole : all ≡ result ++ bytes rest
  pub size_is : length result ≡ size

module _ {S : Type 0} (read : S → ℕ → List ℕ × S) (bytes : S → List ℕ)
    (stream : IsStream read bytes) where
  read_from-IsPrefix :
      (fuel : ℕ) (s : S) (size : ℕ) (result all : List ℕ)
      → size ≤ length result + fuel
      → length result ≤ size
      → size ≤ length all
      → all ≡ result ++ bytes s
      → IsPrefix bytes all size (read_from read fuel s size result)
  unfolding read_from
  read_from-IsPrefix zero s size result all enough within held whole = record {
    result = result;
    rest = s;
    returned = rw (not_less (length result) size enough) refl;
    whole = whole;
    size_is = omega arith;
  }
  read_from-IsPrefix (suc fuel) s size result all enough within held whole =
      elim (Bool-cases (ltb (length result) size)) [
        | inr done ↦ record {
          result = result;
          rest = s;
          returned = rw done refl;
          whole = whole;
          size_is = finished (length result) size within done;
        }
        | inl more ↦
            let n = wanted read size result in
            let chunk = (read s n).0 in
            let (asked, fits) = wanted-Sizes size (length result) more in
            let left : 0 < length (bytes s) = omega (
              arith,
              unread (length result) size more,
              ap length whole,
              length-append result (bytes s),
            ) in
            let some_bytes = stream.some_bytes s n asked left in
            let good = is_chunk-of n chunk some_bytes (stream.few s n) in
            rw (more, good)
              (read_from-IsPrefix fuel ((read s n).1) size (result ++ chunk) all
                (enough_fuel size fuel result chunk enough some_bytes)
                (omega (arith, length-append result chunk, stream.few s n)) held
                (whole
                  ∙ ap (λ x. result ++ x) (stream.next s n)
                  ∙ sym (append_assoc result chunk (bytes ((read s n).1)))))
      ]
    where
      finished : (a b : ℕ) → a ≤ b → ltb a b ≡ false → a ≡ b
      finished a b le e = ground arith

      unread : (a b : ℕ) → ltb a b ≡ true → a < b
      unread a b e = ground arith

  -- From a stream that holds `size` bytes at least, `read_exact` gives its first `size` bytes, however
  -- the stream cuts them, and leaves the others.
  pub read_exact-IsPrefix :
      (s : S) (size : ℕ)
      → size ≤ length (bytes s)
      → IsPrefix bytes (bytes s) size (read_exact read s size)
  unfolding read_exact
  read_exact-IsPrefix s size held =
      read_from-IsPrefix size s size [] (bytes s) (omega arith) (omega arith) held refl

  read_from-truncated :
      (fuel : ℕ) (s : S) (size : ℕ) (result all : List ℕ)
      → size ≤ length result + fuel
      → length all < size
      → all ≡ result ++ bytes s
      → read_from read fuel s size result ≡ some (err (value_error "Truncated/invalid stream"))
  unfolding read_from
  read_from-truncated zero s size result all enough short whole =
      absurd (omega (arith, ap length whole, length-append result (bytes s)))
  read_from-truncated (suc fuel) s size result all enough short whole =
      let n = wanted read size result in
      let chunk = (read s n).0 in
      let more =
        below (length result) size
          (omega (arith, ap length whole, length-append result (bytes s))) in
      elim (Bool-cases (is_chunk read n chunk)) [
        | inr bad ↦ rw (more, bad) refl
        | inl good ↦
            let (some_bytes, _) = is_chunk-Sizes n chunk good in
            rw (more, good)
              (read_from-truncated fuel ((read s n).1) size (result ++ chunk) all
                (enough_fuel size fuel result chunk enough some_bytes) short
                (whole
                  ∙ ap (λ x. result ++ x) (stream.next s n)
                  ∙ sym (append_assoc result chunk (bytes ((read s n).1)))))
      ]
    where
      below : (a b : ℕ) → a < b → ltb a b ≡ true
      below a b lt = ground arith

  -- From a stream that holds fewer bytes than `size`, `read_exact` gives the error of a truncated stream.
  pub read_exact-truncated :
      (s : S) (size : ℕ)
      → length (bytes s) < size
      → read_exact read s size ≡ some (err (value_error "Truncated/invalid stream"))
  unfolding read_exact
  read_exact-truncated s size short =
      read_from-truncated size s size [] (bytes s) (omega arith) short refl
