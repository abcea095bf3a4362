-- ===== src/Reference/Canonical.antt =====
-- notion_reference.py: what a reference becomes.
use my_ops.Prelude.{
  ℕ, zero, suc, ◌-◌, ◌≡◌, refl, sym, subst, ap, ◌∙◌, arith, Bool, true, false, not, ◌&&◌, ◌||◌, ◌⊎◌,
  inl, inr, Option, none, some, List, [], ◌∷◌, Result, ok, Bool-cases, >>-eq-ok, ok-injective, any,
  all, length, leb, ◌==◌, nat_eq, if◌then◌else◌,
}
use my_ops.Acquisition.Tokens.{and-eq-true}
use my_ops.Contract.{JobError, fail_if, is_hex, reference_invalid}
use my_ops.Reference.{
  is_hex_digit, hex_digits, id_shape, uuid_shape, fits, is_root, lower, compact, is_bad, and_then,
  segment_of, titled, id_at_end, or_else, split_at, parse_segment, found, is_title,
  parse_notion_reference,
}

-- Thirty-two hexadecimal digits, in small letters.
pub record IsId (cs : List ℕ) : Type 0 where
  pub size_is : length cs ≡ 32
  pub digits : all is_hex cs ≡ true

abbrev digits_in : List Bool → ℕ
digits_in [] = 0
digits_in (true ∷ bs) = suc (digits_in bs)
digits_in (false ∷ bs) = digits_in bs

hex_digit-lower :
    (c : ℕ) → is_hex_digit c ≡ true → (is_hex (lower c) ≡ true) × ((c == b'-') ≡ false)
hex_digit-lower c h = (ground arith, ground arith)

-- A text of a shape is as many digits as the shape has.
compact-fits :
    (shape : List Bool) (cs : List ℕ)
    → fits shape cs ≡ true
    → (length (compact cs) ≡ digits_in shape) × (all is_hex (compact cs) ≡ true)
unfolding fits compact
compact-fits [] [] h = (refl, refl)
compact-fits [] (c ∷ cs) h = cc
compact-fits (b ∷ shape) [] h = cc
compact-fits (true ∷ shape) (c ∷ cs) h =
    let (digit, h1) = and-eq-true (is_hex_digit c) _ h in
    let (hex, no_dash) = hex_digit-lower c digit in
    let (size, digits) = compact-fits shape cs h1 in rw (no_dash, hex) (ap suc size, digits)
compact-fits (false ∷ shape) (c ∷ cs) h =
    let (dash, h1) = and-eq-true (c == b'-') _ h in rw dash (compact-fits shape cs h1)

root-IsId : (cs : List ℕ) → is_root cs ≡ true → IsId (compact cs)
root-IsId cs h = elim (Bool-cases (fits id_shape cs)) [
  | inl e ↦
      let (size, digits) = compact-fits id_shape cs e in record { size_is = size; digits = digits }
  | inr e ↦
      let u : fits uuid_shape cs ≡ true = rw e at h in
      let (size, digits) = compact-fits uuid_shape cs u in
      record { size_is = size; digits = digits }
]

titled-fits :
    (shape : List Bool) (parts : List ℕ × List ℕ) (tail : List ℕ)
    → titled shape parts ≡ some tail
    → fits shape tail ≡ true
titled-fits shape (title, []) tail h = cc
titled-fits shape (title, d ∷ rest) tail h =
    elim (Bool-cases
      (d == b'-' && (fits shape rest && (is_title true title && leb (length title) 80)))) [
        | inl e ↦
            let same : rest ≡ tail = some-injective (rw e at h) in
            ap (fits shape) (sym same)
            ∙ (and-eq-true (fits shape rest) _ (and-eq-true (d == b'-') _ e).1).0
        | inr e ↦ cc (rw e at h)
      ]
  where
    some-injective : {a b : List ℕ} → ◌≡◌ {A = Option (List ℕ)} (some a) (some b) → a ≡ b
    some-injective e = cc

or_true : (a b : Bool) → (a ≡ true) ⊎ (b ≡ true) → (a || b) ≡ true
or_true a b h = elim h [ inl e ↦ ground arith | inr e ↦ ground arith ]

or_else-some :
    (o p : Option (List ℕ)) (id : List ℕ) → or_else o p ≡ some id → (o ≡ some id) ⊎ (p ≡ some id)
or_else-some none p id h = inr h
or_else-some (some cs) p id h = inl h

-- What is found in a segment is an identifier, with or without its dashes.
parse_segment-root : (segment id : List ℕ) → parse_segment segment ≡ some id → is_root id ≡ true
unfolding parse_segment
parse_segment-root segment id h = elim (Bool-cases (is_root segment)) [
  | inl e ↦
      let same : ◌≡◌ {A = Option (List ℕ)} (some segment) (some id) = rw e at h in
      let eq : segment ≡ id = cc in ap is_root (sym eq) ∙ e
  | inr e ↦
      let g : or_else (id_at_end uuid_shape segment) (id_at_end id_shape segment) ≡ some id =
        rw e at h in
      elim (or_else-some (id_at_end uuid_shape segment) (id_at_end id_shape segment) id g) [
        | inl u ↦
            or_true (fits id_shape id) (fits uuid_shape id)
              (inr (titled-fits uuid_shape (split_at (length segment - 37) segment) id u))
        | inr u ↦
            or_true (fits id_shape id) (fits uuid_shape id)
              (inl (titled-fits id_shape (split_at (length segment - 33) segment) id u))
      ]
]

found-IsId :
    (o : Option (List ℕ)) (id : List ℕ)
    → ((cs : List ℕ) → o ≡ some cs → is_root cs ≡ true)
    → found o ≡ ok id
    → IsId id
found-IsId none id root h = cc
found-IsId (some cs) id root h = subst IsId (ok-injective h) (root-IsId cs (root cs refl))

in_segment :
    (o : Option (List ℕ)) (cs : List ℕ) → and_then o parse_segment ≡ some cs → is_root cs ≡ true
in_segment none cs h = cc
in_segment (some segment) cs h = parse_segment-root segment cs h

-- A reference that is accepted becomes thirty-two hexadecimal digits in small letters.
pub parse_notion_reference-IsId : (cs id : List ℕ) → parse_notion_reference cs ≡ ok id → IsId id
unfolding parse_notion_reference
parse_notion_reference-IsId cs id h =
    let bad = not (leb 1 (length cs) && leb (length cs) 512) || any is_bad cs in
    let rest : Result JobError (List ℕ) =
      if is_root cs then ok (compact cs) else found (and_then (segment_of cs) parse_segment) in
    let (_, h1) = >>-eq-ok (fail_if bad reference_invalid) rest h in
    elim (Bool-cases (is_root cs)) [
      | inl e ↦ subst IsId (ok-injective (rw e at h1)) (root-IsId cs e)
      | inr e ↦
          found-IsId (and_then (segment_of cs) parse_segment) id (in_segment (segment_of cs))
            (rw e at h1)
    ]

-- A small hexadecimal digit is one, is no capital, and may stand in a reference.
hex-Plain :
    (c : ℕ)
    → is_hex c ≡ true
    → (is_hex_digit c ≡ true) × (lower c ≡ c) × ((c == b'-') ≡ false) × (is_bad c ≡ false)
hex-Plain c h = (ground arith, ground arith, ground arith, ground arith)

digits-fit :
    (n : ℕ) (cs : List ℕ) → length cs ≡ n → all is_hex cs ≡ true → fits (hex_digits n) cs ≡ true
unfolding fits
digits-fit zero [] size h = refl
digits-fit zero (c ∷ cs) size h = absurd (omega arith)
digits-fit (suc n) [] size h = absurd (omega arith)
digits-fit (suc n) (c ∷ cs) size h =
    let (hex, h1) = and-eq-true (is_hex c) _ h in
    let (digit, _, _, _) = hex-Plain c hex in rw digit (digits-fit n cs (omega arith) h1)

compact-digits : (cs : List ℕ) → all is_hex cs ≡ true → compact cs ≡ cs
unfolding compact
compact-digits [] h = refl
compact-digits (c ∷ cs) h =
    let (hex, h1) = and-eq-true (is_hex c) _ h in
    let (_, small, no_dash, _) = hex-Plain c hex in
    rw (no_dash, small) (ap (λ x. c ∷ x) (compact-digits cs h1))

digits-good : (cs : List ℕ) → all is_hex cs ≡ true → any is_bad cs ≡ false
digits-good [] h = refl
digits-good (c ∷ cs) h =
    let (hex, h1) = and-eq-true (is_hex c) _ h in
    let (_, _, _, good) = hex-Plain c hex in rw good (digits-good cs h1)

-- What a reference becomes is a reference to itself: reading it again changes nothing.
pub parse_notion_reference-idempotent :
    (cs id : List ℕ) → parse_notion_reference cs ≡ ok id → parse_notion_reference id ≡ ok id
unfolding parse_notion_reference
parse_notion_reference-idempotent cs id h = own id (parse_notion_reference-IsId cs id h)
  where
    own : (x : List ℕ) → IsId x → parse_notion_reference x ≡ ok x
    own x p =
        rw
          (
            p.size_is,
            digits-good x p.digits,
            digits-fit 32 x p.size_is p.digits,
            compact-digits x p.digits,
          )
          refl
