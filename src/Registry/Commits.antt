-- ===== src/Registry/Commits.antt =====
-- job_registry.py and authorization.py: what a commit rests on.
use my_ops.Prelude.{
  ℕ, ◌≡◌, ◌<◌, ◌⊎◌, inl, inr, ◌+◌, refl, sym, subst, ◌∙◌, String, Bool, true, false, not, ◌&&◌,
  ◌||◌, Option, none, some, List, [], ◌∷◌, arith, ok, >>=-eq-ok, >>-eq-ok, raise_if-eq-ok, get_by,
  string_eq, nat_eq, option_eq, ◌==◌, ==→eq, leb, append-eq-nil,
}
use my_ops.Review.Trace.{not-eq-false}
use my_ops.Contract.{
  ErrorCode, fail_all, require, identifier, id32, sha, integer, job_cancelled, job_timeout,
  digest_conflict,
}
use my_ops.Job.{
  is_committed, is_given, Receipt, Job, validate_job, receipt_matches, check_names, check_numbers,
  check_attempt, check_pin, check_receipt, if_given, check_names_of, is_committed_receipt, agree,
  is_no_cancel, is_conflicting, CancelState, no_cancel, JobState, submitting, reconciling,
  committed,
}
use my_ops.Registry.{Claim, ClaimState, claim_fetching, sealed, Registry, Digests, job_key, get_job}
use my_ops.Registry.Authority.{
  check_job_authorization, claim_agrees, is_fetching_or_sealed, is_sent, is_over, authorize_job,
  authorize_commit, claim_record, standing_errors, scope_errors, job_errors, error, last_errors,
}
use my_ops.Registry.Calls.{Call, run_calls}
use my_ops.Registry.Life.{run_calls-Keeps}

and-eq-true : (a b : Bool) → (a && b) ≡ true → (a ≡ true) × (b ≡ true)
and-eq-true true b h = (refl, h)
and-eq-true false b h = cc

pub require-eq-ok : (b : Bool) → require b ≡ ok tt → b ≡ true
unfolding require
require-eq-ok b h = not-eq-false b (raise_if-eq-ok _ _ h)

-- A receipt that names the pinned package of its job.
pub record IsReceiptOf (j : Job) (r : Receipt) : Type 0 where
  pub held : j.receipt ≡ some r
  pub pinned : j.package_id ≡ some r.package_id
  pub digest : j.package_digest ≡ some r.package_digest

receipt_of :
    (j : Job) (r : Receipt) → j.receipt ≡ some r → check_receipt j r ≡ ok tt → IsReceiptOf j r
unfolding check_receipt receipt_matches
receipt_of j r held h =
    let (_, h1) = >>-eq-ok (check_names_of r) _ h in
    let (_, same) = and-eq-true _ _ (require-eq-ok _ h1) in
    let (p, d) = and-eq-true _ _ same in
    record {
      held = held;
      pinned = sym (==→eq (some r.package_id) j.package_id p);
      digest = sym (==→eq (some r.package_digest) j.package_digest d);
    }

-- The last checks of `validate_job`: the receipt of a job that is committed.
receipt_held :
    (j : Job) (o : Option Receipt)
    → j.receipt ≡ o
    → if_given (check_receipt j) o ≡ ok tt
    → is_given o ≡ true
    → (r : Receipt) × IsReceiptOf j r
receipt_held j none held h g = cc
receipt_held j (some r) held h g = (r, receipt_of j r held h)

given_receipt : (c g s : Bool) → agree c g ≡ true → (not s || c) ≡ true → s ≡ true → g ≡ true
given_receipt c g s h k e = ground arith

validate_job-IsReceiptOf :
    (j : Job)
    → validate_job j ≡ ok tt
    → is_committed j.state ≡ true
    → (r : Receipt) × IsReceiptOf j r
unfolding validate_job
validate_job-IsReceiptOf j h e =
    let (_, h1) = >>-eq-ok (check_names j) _ h in
    let (_, h2) = >>-eq-ok (check_numbers j) _ h1 in
    let (_, h3) = >>-eq-ok (id32 j.root_id) _ h2 in
    let (_, h4) = >>-eq-ok (id32 j.canonical_root_id) _ h3 in
    let (_, h5) = >>-eq-ok (require (j.root_id == j.canonical_root_id)) _ h4 in
    let (_, h6) = >>-eq-ok (require (j.deadline == j.created_at + 900000)) _ h5 in
    let (_, h7) = >>-eq-ok (check_attempt j) _ h6 in
    let (_, h8) = >>-eq-ok (check_pin j) _ h7 in
    let (receipt, h9) = >>-eq-ok (if_given (check_receipt j) j.receipt) _ h8 in
    let (both, last) = >>-eq-ok _ _ h9 in
    receipt_held j j.receipt refl receipt (
      given_receipt (is_committed_receipt j.receipt_state) (is_given j.receipt)
        (is_committed j.state) (require-eq-ok _ both) (require-eq-ok _ last) e)

-- Whatever calls come, a valid job that is committed after them holds a receipt for its own package.
pub committed_job-IsReceiptOf :
    (digests : Digests) (reg : Registry) (calls : List Call) (id : String) (j j' : Job)
    → get_by job_key id reg.jobs ≡ some j
    → validate_job j ≡ ok tt
    → get_by job_key id (run_calls digests reg calls).jobs ≡ some j'
    → is_committed j'.state ≡ true
    → (r : Receipt) × IsReceiptOf j' r
committed_job-IsReceiptOf digests reg calls id j j' found valid found' done =
    let (k, now_found, s) = run_calls-Keeps digests reg calls id j found in
    let e : some k ≡ some j' = sym now_found ∙ found' in
    let same : k ≡ j' = cc in
    validate_job-IsReceiptOf j' (subst (λ x. validate_job x ≡ ok tt) same (s.valid valid)) done

-- What a permission to commit rests on.
pub record MayCommit (j : Job) (c : Claim) (package_id package_digest : String) (now : ℕ)
    : Type 0 where
  pub cancel : j.cancel_state ≡ no_cancel
  pub in_time : now < j.deadline
  pub receipt : is_conflicting j.receipt_state ≡ false
  pub sent : (j.state ≡ submitting) ⊎ ((j.state ≡ reconciling) ⊎ (j.state ≡ committed))
  pub batch : c.batch_id ≡ j.batch_id
  pub source : c.source_id ≡ j.source_id
  pub revision : c.revision ≡ j.revision
  pub attempt : c.attempt ≡ j.attempt
  pub token : c.fencing_token ≡ j.fencing_token
  pub worker : some c.worker_id ≡ j.worker_id
  pub held : (c.state ≡ claim_fetching) ⊎ (c.state ≡ sealed)
  pub lease : now < c.lease_until
  pub own_lease : (until : ℕ) × (j.lease_until ≡ some until) × (now < until)
  pub pinned : j.package_id ≡ some package_id
  pub digest : j.package_digest ≡ some package_digest

fail_all-eq-ok : (codes : List ErrorCode) → fail_all codes ≡ ok tt → codes ≡ []
unfolding fail_all
fail_all-eq-ok [] h = refl
fail_all-eq-ok (c ∷ cs) h = cc

error-eq-nil : (b : Bool) (code : ErrorCode) → error b code ≡ [] → b ≡ false
error-eq-nil true code h = cc
error-eq-nil false code h = refl

not_cancelled : (s : CancelState) → not (is_no_cancel s) ≡ false → s ≡ no_cancel
not_cancelled no_cancel h = refl
not_cancelled _ h = cc

-- A job that the registry authorises has no error of its own.
authorised :
    (reg : Registry) (j : Job) (now : ℕ)
    → check_job_authorization reg j now ≡ ok tt
    → (j.cancel_state ≡ no_cancel) × (is_conflicting j.receipt_state ≡ false) × (now < j.deadline)
unfolding check_job_authorization job_errors
authorised reg j now h =
    let (_, h1) = >>-eq-ok (integer now) _ h in
    let ((policy, heads), _, h2) = >>=-eq-ok reg.authority _ h1 in
    let (scope, _, h3) = >>=-eq-ok (scope_errors j policy (standing_errors j policy heads)) _ h2 in
    let (_, own) = append-eq-nil scope _ (fail_all-eq-ok _ h3) in
    let (e1, r1) = append-eq-nil (error (not (is_no_cancel j.cancel_state)) job_cancelled) _ own in
    let (e2, r2) = append-eq-nil (error (is_conflicting j.receipt_state) digest_conflict) _ r1 in
    let (_, r3) = append-eq-nil (last_errors j.last_error) _ r2 in
    let (e4, _) = append-eq-nil (error (leb j.deadline now) job_timeout) _ r3 in
    let late = error-eq-nil (leb j.deadline now) job_timeout e4 in
    (not_cancelled j.cancel_state (error-eq-nil _ _ e1), error-eq-nil _ _ e2, ground arith)

sent_state :
    (s : JobState) → is_sent s ≡ true → (s ≡ submitting) ⊎ ((s ≡ reconciling) ⊎ (s ≡ committed))
sent_state submitting e = inl refl
sent_state reconciling e = inr (inl refl)
sent_state committed e = inr (inr refl)
sent_state _ e = cc

held_state : (s : ClaimState) → is_fetching_or_sealed s ≡ true → (s ≡ claim_fetching) ⊎ (s ≡ sealed)
held_state claim_fetching e = inl refl
held_state sealed e = inr refl
held_state _ e = cc

not_over :
    (o : Option ℕ) (now : ℕ)
    → is_over o now ≡ false
    → (until : ℕ) × (o ≡ some until) × (now < until)
not_over none now e = cc
not_over (some t) now e = (t, refl, ground arith)

first_holds : (a b : Bool) → (not a || b) ≡ false → a ≡ true
first_holds a b e = ground arith

still_held : (b : Bool) (t now : ℕ) → (not b || leb t now) ≡ false → now < t
still_held b t now e = ground arith

authorize_job-MayCommit :
    (reg : Registry) (j : Job) (c : Claim) (p d : String) (now : ℕ)
    → authorize_job reg j c p d now ≡ ok tt
    → MayCommit j c p d now
unfolding authorize_job claim_agrees
authorize_job-MayCommit reg j c p d now h =
    let (auth, h1) = >>-eq-ok (check_job_authorization reg j now) _ h in
    let (cancel, receipt, in_time) = authorised reg j now auth in
    let (sent, h2) = >>-eq-ok _ _ h1 in
    let (claim, h3) = >>-eq-ok _ _ h2 in
    let (lease, h4) = >>-eq-ok _ _ h3 in
    let (own, same) = >>-eq-ok _ _ h4 in
    let (e1, r1) =
      and-eq-true (c.batch_id == j.batch_id) _ (not-eq-false _ (raise_if-eq-ok _ _ claim)) in
    let (e2, r2) = and-eq-true (c.source_id == j.source_id) _ r1 in
    let (e3, r3) = and-eq-true (c.revision == j.revision) _ r2 in
    let (e4, r4) = and-eq-true (c.attempt == j.attempt) _ r3 in
    let (e5, e6) = and-eq-true (c.fencing_token == j.fencing_token) _ r4 in
    let (same_id, same_digest) = and-eq-true _ _ (not-eq-false _ (raise_if-eq-ok _ _ same)) in
    record {
      cancel = cancel;
      in_time = in_time;
      receipt = receipt;
      sent = sent_state j.state (not-eq-false _ (raise_if-eq-ok _ _ sent));
      batch = ==→eq c.batch_id j.batch_id e1;
      source = ==→eq c.source_id j.source_id e2;
      revision = ==→eq c.revision j.revision e3;
      attempt = ==→eq c.attempt j.attempt e4;
      token = ==→eq c.fencing_token j.fencing_token e5;
      worker = ==→eq (some c.worker_id) j.worker_id e6;
      held = held_state c.state (first_holds _ _ (raise_if-eq-ok _ _ lease));
      lease =
          still_held (is_fetching_or_sealed c.state) c.lease_until now (raise_if-eq-ok _ _ lease);
      own_lease = not_over j.lease_until now (raise_if-eq-ok _ _ own);
      pinned = ==→eq j.package_id (some p) same_id;
      digest = ==→eq j.package_digest (some d) same_digest;
    }

-- A commit is authorised only for a job of the registry that is not cancelled, is within its
-- deadline and lease, has been sent, has no conflicting receipt, and has this very package pinned;
-- and only for a claim with the batch, source, revision, attempt, fencing token and worker of the
-- job, fetching or sealed, while it lasts.
pub authorize_commit-MayCommit :
    (digests : Digests) (reg : Registry) (id : String) (c : Claim) (p d : String) (now : ℕ)
    → authorize_commit digests reg id c p d now ≡ ok tt
    → (j : Job) × (get_job digests reg id ≡ ok j) × MayCommit j c p d now
unfolding authorize_commit
authorize_commit-MayCommit digests reg id c p d now h =
    let (_, h1) = >>-eq-ok (identifier p) _ h in
    let (_, h2) = >>-eq-ok (sha d) _ h1 in
    let (_, h3) = >>-eq-ok (claim_record c) _ h2 in
    let (j, found, allowed) = >>=-eq-ok (get_job digests reg id) _ h3 in
    (j, found, authorize_job-MayCommit reg j c p d now allowed)
