-- ===== src/Identity/Traces.antt =====
-- telegram_identity.py: sequences of calls on the ledger of reservations.
use my_ops.Prelude.{
  ℕ, ◌≡◌, refl, sym, ap, subst, String, Bool, true, false, not, ◌&&◌, Option, none, some, List, [],
  ◌∷◌, Result, ok, err, ◌>>◌, >>-eq-ok, ok-injective, select, first, update_where, leb, ◌==◌,
  nat_eq, string_eq, option_eq, if◌then◌else◌,
}
use my_ops.Contract.{JobError, integer, identifier, fail_if, request_conflict}
use my_ops.Identity.{
  Envelope, Requests, Reservation, Peer, Ledger, clashes, new_reservation, reserve_among, reserve,
  check_envelope, or_invalid, settle, observe, is_rollback, complete, complete_row, completed, gc,
  LedgerCall, reserve_call, complete_call, gc_call, ledger_call, ledger_calls,
}
use my_ops.Identity.Once.{
  AreDistinct, distinct-unclashing, unclashing-distinct, AreUnclashing, append-AreUnclashing,
  select-AreUnclashing, update-AreUnclashing, Reserved, again, newly, reserve_among-Reserved,
}

-- A call that settles keeps rows distinct, if its rows are.
settle-AreUnclashing :
    {A : Type 0} (l : Ledger) (m : Result JobError (A × List Reservation))
    → AreUnclashing l.replay
    → ((a : A) (rows : List Reservation) → m ≡ ok (a, rows) → AreUnclashing rows)
    → AreUnclashing (settle l m).1.replay
settle-AreUnclashing l (ok (a, rows)) d k = k a rows refl
settle-AreUnclashing l (err e) d k = d

Reserved-AreUnclashing :
    (r : Requests) (rows : List Reservation) (e : Envelope) (request : String) (rollback : Bool)
    (now : ℕ) (row : Reservation) (rows' : List Reservation)
    → AreUnclashing rows
    → Reserved r rows e request rollback now row rows'
    → AreUnclashing rows'
unfolding new_reservation
Reserved-AreUnclashing r rows e request rollback now row rows' d (again same found kept) =
    subst AreUnclashing (sym kept) d
Reserved-AreUnclashing r rows e request rollback now row rows' d
      (newly own clear appended level window) =
    let same : e ≡ row.envelope = sym (ap (λ (q : Reservation). q.envelope) own) in
    subst AreUnclashing (sym appended) (
      append-AreUnclashing rows row d
        (subst (λ (x : Envelope). select (clashes x.auth_context) rows ≡ []) same clear))

reserve-AreUnclashing :
    (r : Requests) (peers : List Peer) (l : Ledger) (e : Envelope) (uid now : ℕ)
    → AreUnclashing l.replay
    → AreUnclashing (reserve r peers l e uid now).1.replay
unfolding reserve
reserve-AreUnclashing r peers l e uid now d =
    checked (or_invalid (check_envelope r peers e uid now))
  where
    act : String → Result JobError (Reservation × List Reservation)
    act request =
        reserve_among r l.replay e request (is_rollback now l.high_water) now
          (select (clashes e.auth_context) l.replay)

    checked :
        (m : Result JobError String)
        → AreUnclashing
            (elim m as (λ _. Result JobError Reservation × Ledger) [
              | err error ↦ (err error, l)
              | ok request ↦ settle (observe l now) (act request)
            ]).1.replay
    checked (err error) = d
    checked (ok request) = settle-AreUnclashing (observe l now) (act request) d (λ row rows h.
        Reserved-AreUnclashing r l.replay e request (is_rollback now l.high_water) now row rows d (
          reserve_among-Reserved r l.replay e request (is_rollback now l.high_water) now
            (select (clashes e.auth_context) l.replay) row rows refl h))

complete_row-AreUnclashing :
    (rows : List Reservation) (rid digest : String) (rejected : Bool) (o : Option Reservation)
    (row : Reservation) (rows' : List Reservation)
    → AreUnclashing rows
    → complete_row rows rid digest rejected o ≡ ok (row, rows')
    → AreUnclashing rows'
unfolding complete_row
complete_row-AreUnclashing rows rid digest rejected none row rows' d h = cc
complete_row-AreUnclashing rows rid digest rejected (some old) row rows' d h =
    closing (not (old.state == "reserved")) h
  where
    closing :
        (settled : Bool)
        → ◌≡◌ {A = Result JobError (Reservation × List Reservation)}
            (if settled
              then (do
                fail_if (not (old.response_digest == some digest)) request_conflict
                ok (old, rows))
              else ok (
                completed rid digest rejected old,
                update_where
                    (λ (q : Reservation). q.request_id == rid)
                    (completed rid digest rejected)
                    rows,
              ))
            (ok (row, rows'))
        → AreUnclashing rows'
    closing true g =
        let (_, g1) = >>-eq-ok _ _ g in
        subst AreUnclashing (ap (λ (p : Reservation × List Reservation). p.1) (ok-injective g1)) d
    closing false g =
        subst AreUnclashing (ap (λ (p : Reservation × List Reservation). p.1) (ok-injective g)) (
          update-AreUnclashing (λ (q : Reservation). q.request_id == rid)
            (completed rid digest rejected) (λ q. refl) rows d)

complete-AreUnclashing :
    (r : Requests) (l : Ledger) (rid result : String) (rejected : Bool)
    → AreUnclashing l.replay
    → AreUnclashing (complete r l rid result rejected).1.replay
unfolding complete
complete-AreUnclashing r l rid result rejected d =
    settle-AreUnclashing l (identifier rid >> act) d (λ row rows h.
      complete_row-AreUnclashing l.replay rid (r.digest result) rejected
        (first (λ (q : Reservation). q.request_id == rid) l.replay) row rows d
        (>>-eq-ok (identifier rid) act h).1)
  where
    act : Result JobError (Reservation × List Reservation)
    act =
        complete_row l.replay rid (r.digest result) rejected
          (first (λ (q : Reservation). q.request_id == rid) l.replay)

gc-AreUnclashing :
    (l : Ledger) (now : ℕ) → AreUnclashing l.replay → AreUnclashing (gc l now).1.replay
unfolding gc
gc-AreUnclashing l now d = settle-AreUnclashing l (integer now >> cleared) d (λ a rows h.
    let (_, h1) = >>-eq-ok (integer now) cleared h in
    subst AreUnclashing (ap (λ (p : Unit {0} × List Reservation). p.1) (ok-injective h1))
      (select-AreUnclashing live l.replay d))
  where
    live : Reservation → Bool
    live row = not (not (row.state == "reserved") && leb row.retain_until now)

    cleared : Result JobError (Unit {0} × List Reservation)
    cleared = ok (tt, select live l.replay)

ledger_calls-AreUnclashing :
    (r : Requests) (peers : List Peer) (l : Ledger) (calls : List LedgerCall)
    → AreUnclashing l.replay
    → AreUnclashing (ledger_calls r peers l calls).replay
unfolding ledger_calls ledger_call
ledger_calls-AreUnclashing r peers l [] d = d
ledger_calls-AreUnclashing r peers l (reserve_call e uid now ∷ calls) d =
    ledger_calls-AreUnclashing r peers (reserve r peers l e uid now).1 calls
      (reserve-AreUnclashing r peers l e uid now d)
ledger_calls-AreUnclashing r peers l (complete_call rid result rejected ∷ calls) d =
    ledger_calls-AreUnclashing r peers (complete r l rid result rejected).1 calls
      (complete-AreUnclashing r l rid result rejected d)
ledger_calls-AreUnclashing r peers l (gc_call now ∷ calls) d =
    ledger_calls-AreUnclashing r peers (gc l now).1 calls (gc-AreUnclashing l now d)

-- Whatever calls come, an update of a bot, and a nonce of a bot, never has two rows, when the rows of
-- the ledger were so distinct.
pub ledger_calls-AreDistinct :
    (r : Requests) (peers : List Peer) (l : Ledger) (calls : List LedgerCall)
    → AreDistinct l.replay
    → AreDistinct (ledger_calls r peers l calls).replay
ledger_calls-AreDistinct r peers l calls d =
    unclashing-distinct (ledger_calls r peers l calls).replay
      (ledger_calls-AreUnclashing r peers l calls (distinct-unclashing l.replay d))
