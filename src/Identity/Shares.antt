-- ===== src/Identity/Shares.antt =====
-- telegram_identity.py: contexts of one bot with one nonce or update, and the query for them.
use my_ops.Prelude.{
  ◌≡◌, refl, Bool, true, false, ◌||◌, ◌⊎◌, inl, inr, List, [], ◌∷◌, All, Bool-cases, nat_eq,
  string_eq, ==_refl, ==→eq, ◌==◌, arith,
}
use my_ops.Acquisition.Tokens.{and-eq-true}
use my_ops.Identity.{Context, Reservation, clashes}

-- Two contexts of one bot with one nonce, or for one update.
abbrev pub Shares : Context → Context → Type 0
Shares c d =
    (c.issuer ≡ d.issuer)
    × (c.bot_instance ≡ d.bot_instance)
    × ((c.nonce ≡ d.nonce) ⊎ (c.update_id ≡ d.update_id))

Shares-clashes :
    (c : Context) (q : Reservation) → Shares q.envelope.auth_context c → clashes c q ≡ true
unfolding clashes
Shares-clashes c q (i, b, inl n) =
    rw (i, b, n, ==_refl c.issuer, ==_refl c.bot_instance, ==_refl c.nonce) refl
Shares-clashes c q (i, b, inr u) =
    rw (i, b, u, ==_refl c.issuer, ==_refl c.bot_instance, ==_refl c.update_id)
      (or_true (q.envelope.auth_context.nonce == c.nonce))
  where
    or_true : (x : Bool) → (x || true) ≡ true
    or_true x = ground arith

clashes-Shares :
    (c : Context) (q : Reservation) → clashes c q ≡ true → Shares q.envelope.auth_context c
unfolding clashes
clashes-Shares c q h =
    let d = q.envelope.auth_context in
    let (i, h1) = and-eq-true (d.issuer == c.issuer) _ h in
    let (b, h2) = and-eq-true (d.bot_instance == c.bot_instance) _ h1 in
    (
      ==→eq d.issuer c.issuer i,
      ==→eq d.bot_instance c.bot_instance b,
      elim (Bool-cases (d.nonce == c.nonce)) [
        | inl n ↦ inl (==→eq d.nonce c.nonce n)
        | inr other ↦ inr (==→eq d.update_id c.update_id (rw other at h2))
      ],
    )

-- Rows that the query of the source does not find share nothing with the context.
pub unclashing-apart :
    (c : Context) (q : Reservation) → clashes c q ≡ false → Shares q.envelope.auth_context c → ⊥
unclashing-apart c q e s = let t = Shares-clashes c q s in cc

pub apart-unclashing :
    (c : Context) (q : Reservation) → (Shares q.envelope.auth_context c → ⊥) → clashes c q ≡ false
apart-unclashing c q apart = elim (Bool-cases (clashes c q)) [
  | inl e ↦ absurd (apart (clashes-Shares c q e))
  | inr e ↦ e
]

pub map-All :
    {P Q : Reservation → Type 0}
    → ((q : Reservation) → P q → Q q)
    → (rows : List Reservation) → All P rows
    → All Q rows
map-All f [] h = tt
map-All f (x ∷ rows) h = (f x h.0, map-All f rows h.1)
