-- ===== src/Registry/Moves.antt =====
-- job_registry.py, `_transition`: what it keeps of a job, and where it can lead.
use my_ops.Prelude.{
  ℕ, ◌≡◌, refl, sym, subst, ap, ◌∙◌, Bool, true, false, ◌⊎◌, inl, inr, Option, none, some, ok,
  Bool-cases, >>=-eq-ok, >>-eq-ok, raise_if-eq-ok, ok-injective, nat_eq, if◌then◌else◌,
}
use my_ops.Review.Trace.{not-eq-false}
use my_ops.Contract.{integer}
use my_ops.Job.{
  JobState, committed, cancelled, revoked, expired, failed, is_terminal, edge, Receipt,
  committed_receipt, Job, is_given, validate_job,
}
use my_ops.Registry.{
  same_state, attach_receipt, validate_receipt, save_job, cross_edge, transition_job,
}

-- The life of a job, as a path along the edges.
infix 40 ◌⇝*◌
pub data ◌⇝*◌ (s : JobState) : JobState → Type 0 where
  stay : s ⇝* s
  step : {t u : JobState} → s ⇝* t → edge t u ≡ true → s ⇝* u

⇝*-trans : {a b c : JobState} → a ⇝* b → b ⇝* c → a ⇝* c
⇝*-trans p stay = p
⇝*-trans p (step q e) = step (⇝*-trans p q) e

abbrev pub SamePackage : Job → Job → Type 0
SamePackage j j' =
    (j'.package_id ≡ j.package_id)
    × (j'.package_digest ≡ j.package_digest)
    × (j'.package_length ≡ j.package_length)
    × (j'.spool_ref ≡ j.spool_ref)

-- What a job can become.
pub record IsLater (j j' : Job) : Type 0 where
  pub id : j'.job_id ≡ j.job_id
  pub settled : is_terminal j.state ≡ true → j' ≡ j
  pub pinned : is_given j.package_id ≡ true → SamePackage j j'
  pub path : j.state ⇝* j'.state

pub IsLater-refl : (j : Job) → IsLater j j
IsLater-refl j = record {
  id = refl;
  settled = λ e. refl;
  pinned = λ e. (refl, refl, refl, refl);
  path = stay;
}

pub IsLater-trans : (a b c : Job) → IsLater a b → IsLater b c → IsLater a c
IsLater-trans a b c p q = record {
  id = q.id ∙ p.id;
  settled = λ e.
      let same = p.settled e in q.settled (ap (λ (x : Job). is_terminal x.state) same ∙ e) ∙ same;
  pinned = λ e.
      let (i, d, l, s) = p.pinned e in
      let (i', d', l', s') = q.pinned (ap is_given i ∙ e) in (i' ∙ i, d' ∙ d, l' ∙ l, s' ∙ s);
  path = ⇝*-trans p.path q.path;
}

-- No edge leaves a terminal state.
terminal-edge : (s t : JobState) → edge s t ≡ true → is_terminal s ≡ false
unfolding edge is_terminal
terminal-edge committed t e = cc
terminal-edge cancelled t e = cc
terminal-edge revoked t e = cc
terminal-edge expired t e = cc
terminal-edge failed t e = cc
terminal-edge _ t e = refl

-- A receipt changes the receipt and its state only.
pub attach_receipt-eq-ok :
    (j : Job) (target : JobState) (r : Option Receipt) (j' : Job)
    → attach_receipt j target r ≡ ok j'
    → (j' ≡ j)
      ⊎ ((s : Receipt) × (j' ≡ record j { receipt_state = committed_receipt; receipt = some s }))
unfolding attach_receipt
attach_receipt-eq-ok j committed none j' h = cc
attach_receipt-eq-ok j committed (some s) j' h =
    let (_, same) = >>-eq-ok (validate_receipt j s) _ h in inr (s, sym (ok-injective same))
attach_receipt-eq-ok j _ r j' h = inl (sym (ok-injective h))

pub save_job-eq-ok : (j j' : Job) → save_job j ≡ ok j' → (validate_job j' ≡ ok tt) × (j' ≡ j)
unfolding save_job
save_job-eq-ok j j' h =
    let (valid, same) = >>-eq-ok (validate_job j) _ h in
    let e = ok-injective same in (subst (λ x. validate_job x ≡ ok tt) e valid, sym e)

abbrev pub moved : Job → JobState → ℕ → Job
moved j target now = record j { state = target; updated_at = now }

moved-IsLater :
    (j m : Job) (target : JobState) (now : ℕ)
    → edge j.state target ≡ true
    → (m ≡ j)
      ⊎ ((s : Receipt) × (m ≡ record j { receipt_state = committed_receipt; receipt = some s }))
    → IsLater j (moved m target now)
moved-IsLater j m target now e (inl same) =
    subst (λ x. IsLater j (moved x target now)) (sym same)
      (record {
        id = refl;
        settled = λ t. cc (terminal-edge j.state target e);
        pinned = λ g. (refl, refl, refl, refl);
        path = step stay e;
      })
moved-IsLater j m target now e (inr (s, same)) =
    subst (λ x. IsLater j (moved x target now)) (sym same)
      (record {
        id = refl;
        settled = λ t. cc (terminal-edge j.state target e);
        pinned = λ g. (refl, refl, refl, refl);
        path = step stay e;
      })

cross_edge-IsLater :
    (j : Job) (target : JobState) (now : ℕ) (nc : Bool) (r : Option Receipt) (j' : Job)
    → cross_edge j target now nc r ≡ ok j'
    → IsLater j j' × (validate_job j' ≡ ok tt)
unfolding cross_edge
cross_edge-IsLater j target now nc r j' h =
    let (known, h1) = >>-eq-ok _ _ h in
    let (_, h2) = >>-eq-ok _ _ h1 in
    let (m, attached, saved) = >>=-eq-ok (attach_receipt j target r) _ h2 in
    let (valid, same) = save_job-eq-ok (moved m target now) j' saved in
    let e = not-eq-false _ (raise_if-eq-ok _ _ known) in
    (
      subst (IsLater j) (sym same)
          (moved-IsLater j m target now e (attach_receipt-eq-ok j target r m attached)),
      valid,
    )

-- What a transition that goes through does: nothing, or one edge and a job that is valid.
pub transition_job-IsLater :
    (j : Job) (target : JobState) (now : ℕ) (nc : Bool) (r : Option Receipt) (j' : Job)
    → transition_job j target now nc r ≡ ok j'
    → IsLater j j' × (((same_state target j.state ≡ true) × (j' ≡ j)) ⊎ (validate_job j' ≡ ok tt))
unfolding transition_job
transition_job-IsLater j target now nc r j' h =
    let (_, h1) =
      >>-eq-ok (integer now)
        (if same_state target j.state then ok j else cross_edge j target now nc r) h in
    elim (Bool-cases (same_state target j.state)) [
      | inl same ↦
          let e = ok-injective (rw same at h1) in
          (subst (IsLater j) e (IsLater-refl j), inl (same, sym e))
      | inr other ↦
          let (later, valid) = cross_edge-IsLater j target now nc r j' (rw other at h1) in
          (later, inr valid)
    ]
