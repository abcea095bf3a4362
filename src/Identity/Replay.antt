-- ===== src/Identity/Replay.antt =====
-- telegram_identity.py: what `reserve` answers, and what the calls do to the ledger.
use my_ops.Prelude.{
  ℕ, ◌++◌, ◌≡◌, refl, ap, ◌∙◌, subst, String, Bool, true, inl, inr, List, [], ◌∷◌, Result, ok, err,
  Bool-cases, >>-eq-ok, ok-injective, select, nat_eq, string_eq,
}
use my_ops.Contract.{
  JobError, integer, contract_error, contract_value_error, contract_key_error,
  contract_integrity_error,
}
use my_ops.Identity.{
  Envelope, Requests, Reservation, Peer, Ledger, clashes, new_reservation, reserve_among, reserve,
  check_envelope, or_invalid, settle, observe, is_rollback,
}
use my_ops.Identity.Same.{same_envelope_refl}
use my_ops.Identity.Once.{own-clashes, Reserved, again, newly, reserve_among-Reserved}

or_invalid-eq-ok {ℓ} : {A : Type ℓ} (r : Result JobError A) (a : A) → or_invalid r ≡ ok a → r ≡ ok a
or_invalid-eq-ok (ok b) a h = h
or_invalid-eq-ok (err (contract_error code)) a h = cc
or_invalid-eq-ok (err contract_value_error) a h = cc
or_invalid-eq-ok (err contract_key_error) a h = cc
or_invalid-eq-ok (err contract_integrity_error) a h = cc

-- What a call of `reserve` does, when its envelope is good.
module _ (r : Requests) (peers : List Peer) (l : Ledger) (e : Envelope) (uid now : ℕ) where
  settled :
      (m : Result JobError (Reservation × List Reservation)) (row : Reservation)
      → (settle (observe l now) m).0 ≡ ok row
      → (rows : List Reservation) × (m ≡ ok (row, rows))
        × ((settle (observe l now) m).1 ≡ record (observe l now) { replay = rows })
  settled (err error) row h = cc
  settled (ok (row', rows)) row h =
      let same : row' ≡ row = ok-injective h in (rows, ap (λ x. ok (x, rows)) same, refl)

  pub reserve-Reserved :
      (row : Reservation)
      → (reserve r peers l e uid now).0 ≡ ok row
      → (request : String) × (rows : List Reservation) × (check_envelope r peers e uid now
          ≡ ok request)
        × Reserved r l.replay e request (is_rollback now l.high_water) now row rows
        × ((reserve r peers l e uid now).1 ≡ record (observe l now) { replay = rows })
  unfolding reserve
  reserve-Reserved row h = checked (or_invalid (check_envelope r peers e uid now)) refl h
    where
      act : String → Result JobError (Reservation × List Reservation)
      act request =
          reserve_among r l.replay e request (is_rollback now l.high_water) now
            (select (clashes e.auth_context) l.replay)

      answer : Result JobError String → Result JobError Reservation × Ledger
      answer m = elim m [
        | err error ↦ (err error, l)
        | ok request ↦ settle (observe l now) (act request)
      ]

      checked :
          (m : Result JobError String)
          → or_invalid (check_envelope r peers e uid now) ≡ m
          → (answer m).0 ≡ ok row
          → (request : String) × (rows : List Reservation) × (check_envelope r peers e uid now
              ≡ ok request)
            × Reserved r l.replay e request (is_rollback now l.high_water) now row rows
            × ((answer m).1 ≡ record (observe l now) { replay = rows })
      checked (err error) same g = cc
      checked (ok request) same g =
          let (rows, done, after) = settled (act request) row g in
          (
            request,
            rows,
            or_invalid-eq-ok (check_envelope r peers e uid now) request same,
            reserve_among-Reserved r l.replay e request (is_rollback now l.high_water) now
                (select (clashes e.auth_context) l.replay) row rows refl done,
            after,
          )

select-append :
    (f : Reservation → Bool) (rows : List Reservation) (row : Reservation)
    → select f rows ≡ []
    → f row ≡ true
    → select f (rows ++ row ∷ []) ≡ row ∷ []
select-append f [] row h e = rw e refl
select-append f (x ∷ rows) row h e = elim (Bool-cases (f x)) [
  | inl g ↦ cc (rw g at h)
  | inr g ↦ rw g (select-append f rows row (rw g at h) e)
]

-- After a reservation the row is the only one of its envelope.
pub Reserved-only :
    (r : Requests) (rows : List Reservation) (e : Envelope) (request : String) (rollback : Bool)
    (now : ℕ) (row : Reservation) (rows' : List Reservation)
    → Reserved r rows e request rollback now row rows'
    → (row.envelope ≡ e) × (select (clashes e.auth_context) rows' ≡ row ∷ [])
unfolding new_reservation
Reserved-only r rows e request rollback now row rows' (again same found kept) =
    (same, ap (select (clashes e.auth_context)) kept ∙ found)
Reserved-only r rows e request rollback now row rows' (newly own clear appended level window) =
    let same : row.envelope ≡ e = ap (λ (q : Reservation). q.envelope) own in
    (
      same,
      ap (select (clashes e.auth_context)) appended
          ∙ select-append (clashes e.auth_context) rows row clear
              (subst (λ (x : Envelope). clashes x.auth_context row ≡ true) same (own-clashes row)),
    )

check_envelope-later :
    (r : Requests) (peers : List Peer) (e : Envelope) (uid now later : ℕ) (request : String)
    → integer later ≡ ok tt
    → check_envelope r peers e uid now ≡ ok request
    → check_envelope r peers e uid later ≡ ok request
unfolding check_envelope
check_envelope-later r peers e uid now later request level h =
    let (_, rest) = >>-eq-ok (integer now) _ h in rw level rest

reserve_among-again :
    (r : Requests) (rows : List Reservation) (e : Envelope) (request : String) (rollback : Bool)
    (now : ℕ) (row : Reservation)
    → row.envelope ≡ e
    → reserve_among r rows e request rollback now (row ∷ []) ≡ ok (row, rows)
unfolding reserve_among
reserve_among-again r rows e request rollback now row same = rw (same, same_envelope_refl e) refl

reserve-known :
    (r : Requests) (peers : List Peer) (l : Ledger) (e : Envelope) (uid now : ℕ) (request : String)
    (row : Reservation)
    → check_envelope r peers e uid now ≡ ok request
    → select (clashes e.auth_context) l.replay ≡ row ∷ []
    → row.envelope ≡ e
    → reserve r peers l e uid now ≡ (ok row, observe l now)
unfolding reserve
reserve-known r peers l e uid now request row checked found same =
    rw
      (
        checked,
        reserve,
        found,
        reserve_among-again r l.replay e request (is_rollback now l.high_water) now row same,
      )
      refl

-- An envelope that was reserved is answered with the same row again, at any later or earlier time that
-- is a number of the contract, and only the highest time that was seen may change.
pub reserve-reserve :
    (r : Requests) (peers : List Peer) (l : Ledger) (e : Envelope) (uid now later : ℕ)
    (row : Reservation)
    → integer later ≡ ok tt
    → (reserve r peers l e uid now).0 ≡ ok row
    → let l' = (reserve r peers l e uid now).1 in
      reserve r peers l' e uid later ≡ (ok row, observe l' later)
reserve-reserve r peers l e uid now later row level h =
    let (request, rows, checked, reserved, after) = reserve-Reserved r peers l e uid now row h in
    let (same, only) =
      Reserved-only r l.replay e request (is_rollback now l.high_water) now row rows reserved in
    reserve-known r peers (reserve r peers l e uid now).1 e uid later request row
      (check_envelope-later r peers e uid now later request level checked)
      (ap (λ (x : Ledger). select (clashes e.auth_context) x.replay) after ∙ only) same
