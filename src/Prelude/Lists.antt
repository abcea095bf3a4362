-- ===== src/Prelude/Lists.antt =====
-- Lists, Python's `in`, `any`, `all`, `len`, sets, and dictionaries that are built from lists.
use Prim.Native.Nat.{ℕ, suc}
use mathlib.Core.Path.{◌≡◌, refl, sym, subst}
use mathlib.Core.Logic.{◌⊎◌, inl, inr}
use mathlib.Core.Bool.{Bool, true, false, not, ◌&&◌, ◌||◌}
use mathlib.Core.Option.{Option, none, some}
use mathlib.Core.List.{List, [], ◌∷◌, ◌++◌, Memᴰ, map}
use my_ops.Prelude.Tests.{Eq, ◌==◌, if◌then◌else◌, Bool-cases, Option-cases, ==→eq}
use my_ops.Prelude.Results.{All}

module _ {ℓ} {A : Type ℓ} where
  abbrev pub length : List A → ℕ
  length [] = 0
  length (x ∷ xs) = suc (length xs)

  abbrev pub is_empty : List A → Bool
  is_empty [] = true
  is_empty (x ∷ xs) = false

  abbrev pub any : (A → Bool) → List A → Bool
  any p [] = false
  any p (x ∷ xs) = p x || any p xs

  abbrev pub all : (A → Bool) → List A → Bool
  all p [] = true
  all p (x ∷ xs) = p x && all p xs

  -- `[x for x in xs if p(x)]`
  abbrev pub select : (A → Bool) → List A → List A
  select p [] = []
  select p (x ∷ xs) = let rest = select p xs in if p x then x ∷ rest else rest

  -- `SELECT ... WHERE p` with at most one row
  abbrev pub first : (A → Bool) → List A → Option A
  first p [] = none
  first p (x ∷ xs) = let rest = first p xs in if p x then some x else rest

  -- `UPDATE ... WHERE p`
  abbrev pub update_where : (A → Bool) → (A → A) → List A → List A
  update_where p f [] = []
  update_where p f (x ∷ xs) = (if p x then f x else x) ∷ update_where p f xs

  -- `x` after an update
  abbrev pub updated : (A → Bool) → (A → A) → A → A
  updated q f x = if q x then f x else x

  -- Looking up after an update that keeps the key.
  pub first-update_where :
      (p q : A → Bool) (f : A → A) (xs : List A)
      → ((x : A) → p (updated q f x) ≡ p x)
      → first p (update_where q f xs)
        ≡ elim (first p xs) [ none ↦ none | some x ↦ some (updated q f x) ]
  first-update_where p q f [] keeps = refl
  first-update_where p q f (x ∷ xs) keeps = elim (Bool-cases (p x)) [
    | inl e ↦ rw (keeps x, e)
    | inr e ↦ rw (keeps x, e) (first-update_where p q f xs keeps)
  ]

  -- Looking up after an insert.
  pub first-append :
      (p : A → Bool) (xs : List A) (y : A)
      → first p (xs ++ y ∷ [])
        ≡ elim (first p xs) [ none ↦ if p y then some y else none | some x ↦ some x ]
  first-append p [] y = refl
  first-append p (x ∷ xs) y = elim (Bool-cases (p x)) [
    | inl e ↦ rw e
    | inr e ↦ rw e (first-append p xs y)
  ]

  -- What is found passes the test and is in the list.
  pub first-Mem :
      (p : A → Bool) (xs : List A) (x : A) → first p xs ≡ some x → Memᴰ x xs × (p x ≡ true)
  first-Mem p [] x h = cc
  first-Mem p (y ∷ ys) x h = elim (Bool-cases (p y)) [
    | inl e ↦
        let same : some y ≡ some x = rw e at h in
        let it : y ≡ x = cc in (Memᴰ.head (sym it), subst (λ z. p z ≡ true) it e)
    | inr e ↦ let (m, g) = first-Mem p ys x (rw e at h) in (Memᴰ.tail m, g)
  ]

  pub any-eq-false : (p : A → Bool) (xs : List A) → any p xs ≡ false → All (λ x. p x ≡ false) xs
  any-eq-false p [] h = tt
  any-eq-false p (x ∷ xs) h = elim (Bool-cases (p x)) [
    | inl e ↦ cc (sym h, ap_or e (any p xs))
    | inr e ↦ (e, any-eq-false p xs (rw e at h))
  ]
    where
      ap_or : {a : Bool} → a ≡ true → (b : Bool) → (a || b) ≡ true
      ap_or e b = rw e

  -- Where `any` holds there is an element that passes.
  pub any-Mem : (p : A → Bool) (xs : List A) → any p xs ≡ true → (x : A) × Memᴰ x xs × (p x ≡ true)
  any-Mem p [] h = cc
  any-Mem p (x ∷ xs) h = elim (Bool-cases (p x)) [
    | inl e ↦ (x, Memᴰ.head refl, e)
    | inr e ↦ let (y, m, g) = any-Mem p xs (rw e at h) in (y, Memᴰ.tail m, g)
  ]

  pub all-eq-true : (p : A → Bool) (xs : List A) → all p xs ≡ true → All (λ x. p x ≡ true) xs
  all-eq-true p [] h = tt
  all-eq-true p (x ∷ xs) h = elim (Bool-cases (p x)) [
    | inl e ↦ (e, all-eq-true p xs (rw e at h))
    | inr e ↦ cc (sym h, ap_and e (all p xs))
  ]
    where
      ap_and : {a : Bool} → a ≡ false → (b : Bool) → (a && b) ≡ false
      ap_and e b = rw e

  -- A list that comes out empty let nothing through.
  pub select-eq-nil : (p : A → Bool) (xs : List A) → select p xs ≡ [] → All (λ x. p x ≡ false) xs
  select-eq-nil p [] h = tt
  select-eq-nil p (x ∷ xs) h = elim (Bool-cases (p x)) [
    | inl e ↦ cc (rw e at h)
    | inr e ↦ (e, select-eq-nil p xs (rw e at h))
  ]

  pub All-select {κ} :
      (P : A → Type κ) (p : A → Bool) (xs : List A) → All P xs → All P (select p xs)
  All-select P p [] h = tt
  All-select P p (x ∷ xs) h = elim (Bool-cases (p x)) [
    | inl e ↦ rw e (h.0, All-select P p xs h.1)
    | inr e ↦ rw e (All-select P p xs h.1)
  ]

  pub is_empty-eq-nil : (xs : List A) → is_empty xs ≡ true → xs ≡ []
  is_empty-eq-nil [] h = refl
  is_empty-eq-nil (x ∷ xs) h = cc

  pub append-eq-nil : (xs ys : List A) → xs ++ ys ≡ [] → (xs ≡ []) × (ys ≡ [])
  append-eq-nil [] ys h = (refl, h)
  append-eq-nil (x ∷ xs) ys h = cc

  pub Mem-cons : (x y : A) (ys : List A) → Memᴰ x (y ∷ ys) → (x ≡ y) ⊎ Memᴰ x ys
  Mem-cons x y ys (Memᴰ.head e) = inl e
  Mem-cons x y ys (Memᴰ.tail m) = inr m

  -- A member of a list put together is in one of its parts.
  pub Mem-append : (xs ys : List A) (x : A) → Memᴰ x (xs ++ ys) → Memᴰ x xs ⊎ Memᴰ x ys
  Mem-append [] ys x m = inr m
  Mem-append (z ∷ xs) ys x (Memᴰ.head e) = inl (Memᴰ.head e)
  Mem-append (z ∷ xs) ys x (Memᴰ.tail m) = elim (Mem-append xs ys x m) [
    | inl l ↦ inl (Memᴰ.tail l)
    | inr r ↦ inr r
  ]

  -- Every element is a member.
  pub All-of-Mem {κ} : (P : A → Type κ) (xs : List A) → ((x : A) → Memᴰ x xs → P x) → All P xs
  All-of-Mem P [] h = tt
  All-of-Mem P (x ∷ xs) h = (h x (Memᴰ.head refl), All-of-Mem P xs (λ y m. h y (Memᴰ.tail m)))

  -- What holds of every element holds of a member.
  pub All-Mem {κ} : (P : A → Type κ) {x : A} (xs : List A) → All P xs → Memᴰ x xs → P x
  All-Mem P [] h m = elim m [ ]
  All-Mem P (y ∷ ys) h (Memᴰ.head e) = subst P (sym e) h.0
  All-Mem P (y ∷ ys) h (Memᴰ.tail m) = All-Mem P ys h.1 m

module _ {ℓ} {A : Type ℓ} ⦃e : Eq A⦄ where
  -- `x in xs`
  abbrev pub contains : List A → A → Bool
  contains [] a = false
  contains (x ∷ xs) a = x == a || contains xs a

  -- `len(set(xs)) == len(xs)`: nothing is twice in the list
  abbrev pub unique : List A → Bool
  unique [] = true
  unique (x ∷ xs) = not (contains xs x) && unique xs

  -- `set(xs)`, as a list with nothing twice
  abbrev pub distinct : List A → List A
  distinct [] = []
  distinct (x ∷ xs) = let rest = distinct xs in if contains xs x then rest else x ∷ rest

  -- how often `a` is in the list
  abbrev pub count : A → List A → ℕ
  count a [] = 0
  count a (x ∷ xs) = let rest = count a xs in if x == a then suc rest else rest

  pub contains-Mem : (xs : List A) (a : A) → contains xs a ≡ true → Memᴰ a xs
  contains-Mem [] a h = cc
  contains-Mem (x ∷ xs) a h = elim (Bool-cases (x == a)) [
    | inl same ↦ Memᴰ.head (sym (==→eq x a same))
    | inr other ↦ Memᴰ.tail (contains-Mem xs a (rw other at h))
  ]

  pub Mem-contains : (xs : List A) {a : A} → Memᴰ a xs → contains xs a ≡ true
  Mem-contains [] m = elim m [ ]
  Mem-contains (x ∷ xs) {a} (Memᴰ.head p) = rw ((e.equal_iff x a).1 (sym p)) refl
  Mem-contains (x ∷ xs) {a} (Memᴰ.tail m) = elim (Bool-cases (x == a)) [
    | inl same ↦ rw same
    | inr other ↦ rw other (Mem-contains xs m)
  ]

-- of two items with one key the later stays
abbrev pub later {ℓ} : {A : Type ℓ} → Option A → Option A → Option A
later (some y) o = some y
later none o = o

module _ {ℓ κ} {K : Type ℓ} {A : Type κ} ⦃e : Eq K⦄ where
  -- `{key(x): x for x in xs}.get(k)`
  abbrev pub get_by : (A → K) → K → List A → Option A
  get_by key k [] = none
  get_by key k (x ∷ xs) = later (get_by key k xs) (if key x == k then some x else none)

  pub get_by-later :
      (key : A → K) (k : K) (x y : A) (xs : List A)
      → get_by key k xs ≡ some y
      → get_by key k (x ∷ xs) ≡ some y
  get_by-later key k x y xs h = rw h

  -- Looking up by a key that an update keeps.
  pub get_by-update_where :
      (key : A → K) (k : K) (q : A → Bool) (f : A → A) (xs : List A)
      → ((x : A) → key (updated q f x) ≡ key x)
      → get_by key k (update_where q f xs)
        ≡ elim (get_by key k xs) [ none ↦ none | some x ↦ some (updated q f x) ]
  get_by-update_where key k q f [] keeps = refl
  get_by-update_where key k q f (x ∷ xs) keeps =
      rw (keeps x, get_by-update_where key k q f xs keeps)
        (elim (Option-cases (get_by key k xs)) [
          | inr (y, found) ↦ rw found
          | inl missing ↦
              rw missing (elim (Bool-cases (key x == k)) [ inl e ↦ rw e | inr e ↦ rw e ])
        ])

  -- What is found is an item with the key.
  pub get_by-Mem :
      (key : A → K) (k : K) (xs : List A) (x : A)
      → get_by key k xs ≡ some x
      → Memᴰ x xs × (key x ≡ k)
  get_by-Mem key k [] x h = cc
  get_by-Mem key k (y ∷ ys) x h = elim (Option-cases (get_by key k ys)) [
    | inl missing ↦ here (rw missing at h)
    | inr (z, found) ↦
        let (m, same) = get_by-Mem key k ys z found in
        let e : z ≡ x = cc (rw found at h) in rw (← e) (Memᴰ.tail m, same)
  ]
    where
      here : (if key y == k then some y else none) ≡ some x → Memᴰ x (y ∷ ys) × (key x ≡ k)
      here g = elim (Bool-cases (key y == k)) [
        | inl same ↦
            let e : y ≡ x = cc (rw same at g) in
            (Memᴰ.head (sym e), rw (← e) (==→eq (key y) k same))
        | inr other ↦ cc (rw other at g)
      ]

  -- A key that an item has is found.
  pub get_by-some :
      (key : A → K) (k : K) (xs : List A)
      → Memᴰ k (map key xs)
      → (x : A) × (get_by key k xs ≡ some x)
  get_by-some key k [] m = elim m [ ]
  get_by-some key k (y ∷ ys) (Memᴰ.head p) = elim (Option-cases (get_by key k ys)) [
    | inr (z, found) ↦ (z, rw found)
    | inl missing ↦ (y, rw (missing, (e.equal_iff (key y) k).1 (sym p)))
  ]
  get_by-some key k (y ∷ ys) (Memᴰ.tail m) =
      let (z, found) = get_by-some key k ys m in (z, rw found)

pub map-eq-nil {ℓ κ} : {A : Type ℓ} {B : Type κ} (f : A → B) (xs : List A) → map f xs ≡ [] → xs ≡ []
map-eq-nil f [] h = refl
map-eq-nil f (x ∷ xs) h = cc
