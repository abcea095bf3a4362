-- ===== src/Identity/Once.antt =====
-- telegram_identity.py: the rows of an update, and what a reservation is made of.
use my_ops.Prelude.{
  ℕ, ◌+◌, ◌++◌, ◌≡◌, refl, sym, ap, ◌∙◌, subst, String, Bool, true, false, ◌&&◌, inl, inr, List, [],
  ◌∷◌, All, ok, Bool-cases, >>-eq-ok, raise_if-eq-ok, ok-injective, select, update_where, leb, ltb,
  nat_eq, string_eq, ==_refl, ==_sym, if◌then◌else◌,
}
use my_ops.Review.Trace.{not-eq-false}
use my_ops.Identity.{
  Context, Envelope, Requests, Reservation, clashes, new_reservation, insert_reservation,
  reserve_new, reserve_among,
}
use my_ops.Identity.Same.{same_envelope-eq}
use my_ops.Identity.Shares.{Shares, unclashing-apart, apart-unclashing, map-All}

-- No two rows share a nonce, or an update, of one bot.
abbrev pub AreDistinct : List Reservation → Type 0
AreDistinct [] = Unit
AreDistinct (row ∷ rows) =
    All (λ (q : Reservation). Shares q.envelope.auth_context row.envelope.auth_context → ⊥) rows
    × AreDistinct rows

-- No two rows clash.
abbrev pub AreUnclashing : List Reservation → Type 0
AreUnclashing [] = Unit
AreUnclashing (row ∷ rows) =
    All (λ (q : Reservation). clashes row.envelope.auth_context q ≡ false) rows × AreUnclashing rows

pub distinct-unclashing : (rows : List Reservation) → AreDistinct rows → AreUnclashing rows
distinct-unclashing [] d = tt
distinct-unclashing (row ∷ rows) d =
    (map-All (apart-unclashing row.envelope.auth_context) rows d.0, distinct-unclashing rows d.1)

pub unclashing-distinct : (rows : List Reservation) → AreUnclashing rows → AreDistinct rows
unclashing-distinct [] d = tt
unclashing-distinct (row ∷ rows) d =
    (map-All (unclashing-apart row.envelope.auth_context) rows d.0, unclashing-distinct rows d.1)

-- A row of an envelope clashes with its own context.
pub own-clashes : (row : Reservation) → clashes row.envelope.auth_context row ≡ true
unfolding clashes
own-clashes row =
    let c = row.envelope.auth_context in
    rw (==_refl c.issuer, ==_refl c.bot_instance, ==_refl c.nonce) refl

clashes_sym :
    (p q : Reservation) → clashes p.envelope.auth_context q ≡ clashes q.envelope.auth_context p
unfolding clashes
clashes_sym p q =
    let c = p.envelope.auth_context in
    let d = q.envelope.auth_context in
    rw
      (
        ==_sym d.issuer c.issuer,
        ==_sym d.bot_instance c.bot_instance,
        ==_sym d.nonce c.nonce,
        ==_sym d.update_id c.update_id,
      )
      refl

pub append-AreUnclashing :
    (rows : List Reservation) (row : Reservation)
    → AreUnclashing rows
    → select (clashes row.envelope.auth_context) rows ≡ []
    → AreUnclashing (rows ++ row ∷ [])
append-AreUnclashing [] row d none_clash = (tt, tt)
append-AreUnclashing (q ∷ rows) row (apart, d) none_clash =
    elim (Bool-cases (clashes row.envelope.auth_context q)) [
      | inl e ↦ cc (rw e at none_clash)
      | inr e ↦ (
        append-All rows apart (clashes_sym q row ∙ e),
        append-AreUnclashing rows row d (rw e at none_clash),
      )
    ]
  where
    append-All :
        (qs : List Reservation)
        → All (λ (x : Reservation). clashes q.envelope.auth_context x ≡ false) qs
        → clashes q.envelope.auth_context row ≡ false
        → All (λ (x : Reservation). clashes q.envelope.auth_context x ≡ false) (qs ++ row ∷ [])
    append-All [] h e = (e, tt)
    append-All (x ∷ qs) h e = (h.0, append-All qs h.1 e)

select-All :
    (P : Reservation → Type 0) (f : Reservation → Bool) (rows : List Reservation)
    → All P rows
    → All P (select f rows)
select-All P f [] h = tt
select-All P f (x ∷ rows) h = elim (Bool-cases (f x)) [
  | inl e ↦ rw e (h.0, select-All P f rows h.1)
  | inr e ↦ rw e (select-All P f rows h.1)
]

pub select-AreUnclashing :
    (f : Reservation → Bool) (rows : List Reservation)
    → AreUnclashing rows
    → AreUnclashing (select f rows)
select-AreUnclashing f [] d = tt
select-AreUnclashing f (x ∷ rows) d = elim (Bool-cases (f x)) [
  | inl e ↦ rw e (select-All _ f rows d.0, select-AreUnclashing f rows d.1)
  | inr e ↦ rw e (select-AreUnclashing f rows d.1)
]

-- A change that keeps envelopes keeps rows apart.
module _ (p : Reservation → Bool) (f : Reservation → Reservation)
    (keeps : (row : Reservation) → (f row).envelope ≡ row.envelope) where
  changed : Reservation → Reservation
  changed row = if p row then f row else row

  changed-envelope : (row : Reservation) → (changed row).envelope ≡ row.envelope
  unfolding changed
  changed-envelope row = elim (Bool-cases (p row)) [ inl e ↦ rw e (keeps row) | inr e ↦ rw e refl ]

  changed-clashes : (c : Context) (row : Reservation) → clashes c (changed row) ≡ clashes c row
  unfolding clashes
  changed-clashes c row = rw (changed-envelope row) refl

  update-All :
      (c : Context) (rows : List Reservation)
      → All (λ (q : Reservation). clashes c q ≡ false) rows
      → All (λ (q : Reservation). clashes c q ≡ false) (update_where p f rows)
  unfolding changed
  update-All c [] h = tt
  update-All c (x ∷ rows) h = (changed-clashes c x ∙ h.0, update-All c rows h.1)

  pub update-AreUnclashing :
      (rows : List Reservation) → AreUnclashing rows → AreUnclashing (update_where p f rows)
  unfolding changed
  update-AreUnclashing [] d = tt
  update-AreUnclashing (x ∷ rows) d = (
    subst
        (λ (e : Envelope).
          All (λ (q : Reservation). clashes e.auth_context q ≡ false) (update_where p f rows))
        (sym (changed-envelope x)) (update-All x.envelope.auth_context rows d.0),
    update-AreUnclashing rows d.1,
  )

reserve_new-Reserved :
    (r : Requests) (rows : List Reservation) (e : Envelope) (request : String) (rollback : Bool)
    (now : ℕ) (row : Reservation) (rows' : List Reservation)
    → reserve_new r rows e request rollback now ≡ ok (row, rows')
    → (row ≡ new_reservation r e request now)
      × (rows' ≡ rows ++ row ∷ [])
      × (rollback ≡ false)
      × ((leb e.auth_context.issued_at (now + 5000) && ltb now (e.auth_context.expires_at + 5000))
          ≡ true)
unfolding reserve_new insert_reservation
reserve_new-Reserved r rows e request rollback now row rows' h =
    let (level, h1) = >>-eq-ok _ _ h in
    let (window, h2) = >>-eq-ok _ _ h1 in
    let (_, h3) = >>-eq-ok _ _ h2 in
    let (_, h4) = >>-eq-ok _ _ h3 in
    let same = ok-injective h4 in
    let own : new_reservation r e request now ≡ row =
      ap (λ (p : Reservation × List Reservation). p.0) same in
    (
      sym own,
      sym (ap (λ (p : Reservation × List Reservation). p.1) same) ∙ ap (λ x. rows ++ x ∷ []) own,
      raise_if-eq-ok _ _ level,
      not-eq-false _ (raise_if-eq-ok _ _ window),
    )

-- What a reservation is made of.
pub data Reserved (r : Requests) (rows : List Reservation) (e : Envelope) (request : String)
    (rollback : Bool) (now : ℕ) (row : Reservation) (rows' : List Reservation) : Type 0 where
  again :
      row.envelope ≡ e
      → select (clashes e.auth_context) rows ≡ row ∷ []
      → rows' ≡ rows
      → Reserved r rows e request rollback now row rows'
  newly :
      row ≡ new_reservation r e request now
      → select (clashes e.auth_context) rows ≡ []
      → rows' ≡ rows ++ row ∷ []
      → rollback ≡ false
      → (leb e.auth_context.issued_at (now + 5000) && ltb now (e.auth_context.expires_at + 5000))
        ≡ true
      → Reserved r rows e request rollback now row rows'

pub reserve_among-Reserved :
    (r : Requests) (rows : List Reservation) (e : Envelope) (request : String) (rollback : Bool)
    (now : ℕ) (clashing : List Reservation) (row : Reservation) (rows' : List Reservation)
    → select (clashes e.auth_context) rows ≡ clashing
    → reserve_among r rows e request rollback now clashing ≡ ok (row, rows')
    → Reserved r rows e request rollback now row rows'
unfolding reserve_among
reserve_among-Reserved r rows e request rollback now [] row rows' clear h =
    let (own, appended, level, window) =
      reserve_new-Reserved r rows e request rollback now row rows' h in
    newly own clear appended level window
reserve_among-Reserved r rows e request rollback now (old ∷ []) row rows' found h =
    let (agrees, h1) = >>-eq-ok _ _ h in
    let same = ok-injective h1 in
    let it : old ≡ row = ap (λ (p : Reservation × List Reservation). p.0) same in
    again
      (ap (λ (q : Reservation). q.envelope) (sym it)
        ∙ same_envelope-eq old.envelope e (not-eq-false _ (raise_if-eq-ok _ _ agrees)))
      (found ∙ ap (λ q. q ∷ []) it) (sym (ap (λ (p : Reservation × List Reservation). p.1) same))
reserve_among-Reserved r rows e request rollback now (old ∷ other ∷ more) row rows' found h = cc
