-- ===== src/Registry/Valid.antt =====
-- job_registry.py and job_contract.py: what `stop` writes into a valid job keeps it valid.
use my_ops.Prelude.{
  ℕ, ◌+◌, ◌≡◌, refl, subst, String, true, false, not, Option, none, some, [], ◌∷◌, Result, ok, err,
  ◌>>◌, each, >>-eq-ok, ok-injective, get_by, ◌==◌, nat_eq, string_eq, option_eq,
}
use my_ops.Contract.{
  ErrorCode, JobError, integer, integer_in, max_i63, require, identifier, id32, policy_invalid,
}
use my_ops.Registry.Commits.{require-eq-ok}
use my_ops.Job.{
  JobState, CancelState, is_no_cancel, is_given, is_committed, is_committed_receipt, agree,
  if_given, Job, check_names, check_numbers, check_attempt, check_pin, check_receipt,
  receipt_matches, validate_job,
}
use my_ops.Registry.{Registry, Digests, job_key, get_job, sound_job, or_fail, semantic}

-- What a stop writes, whatever the state.
module _ (j : Job) (s : JobState) (u : ℕ) (cs : CancelState) (at : Option ℕ)
    (last : Option ErrorCode) where
  abbrev pub rewritten : Job
  rewritten = record j {
    state = s;
    updated_at = u;
    cancel_state = cs;
    cancel_at = at;
    last_error = last;
  }

  numbers-kept :
      integer u ≡ ok tt
      → if_given integer at ≡ ok tt
      → check_numbers j ≡ ok tt
      → check_numbers rewritten ≡ ok tt
  unfolding check_numbers each
  numbers-kept level level' h =
      let (a, h1) =
        >>-eq-ok
          (each (integer_in 1 max_i63)
            (j.task_expected_version ∷ j.revision ∷ j.policy_epoch ∷ j.credential_generation ∷ []))
          _ h in
      let (b, h2) =
        >>-eq-ok
          (each integer (
            j.attempt ∷ j.fencing_token ∷ j.created_at ∷ j.updated_at ∷ j.deadline ∷ j.failure_count
            ∷ []))
          _ h1 in
      let (l, h3) = >>-eq-ok (if_given integer j.lease_until) _ h2 in
      let (r, c) = >>-eq-ok (if_given integer j.retry_at) _ h3 in
      let (b1, k1) = >>-eq-ok (integer j.attempt) _ b in
      let (b2, k2) = >>-eq-ok (integer j.fencing_token) _ k1 in
      let (b3, k3) = >>-eq-ok (integer j.created_at) _ k2 in
      let (b4, k4) = >>-eq-ok (integer j.updated_at) _ k3 in
      rw (a, b1, b2, b3, level, k4, l, r) level'

  attempt-kept :
      agree (is_no_cancel cs) (not (is_given at)) ≡ true
      → check_attempt j ≡ ok tt
      → check_attempt rewritten ≡ ok tt
  unfolding check_attempt require
  attempt-kept both h =
      let (_, rest) =
        >>-eq-ok (require (agree (is_no_cancel j.cancel_state) (not (is_given j.cancel_at)))) _ h in
      rw both rest

  receipt-kept : check_receipt j ≡ check_receipt rewritten
  unfolding check_receipt receipt_matches
  receipt-kept = refl

  pub validate_job-kept :
      integer u ≡ ok tt
      → if_given integer at ≡ ok tt
      → agree (is_no_cancel cs) (not (is_given at)) ≡ true
      → is_committed s ≡ false
      → validate_job j ≡ ok tt
      → validate_job rewritten ≡ ok tt
  unfolding validate_job check_names check_pin require
  validate_job-kept level level' both other h =
      let (a, h1) = >>-eq-ok (check_names j) _ h in
      let (b, h2) = >>-eq-ok (check_numbers j) _ h1 in
      let (c, h3) = >>-eq-ok (id32 j.root_id) _ h2 in
      let (d, h4) = >>-eq-ok (id32 j.canonical_root_id) _ h3 in
      let (e, h5) = >>-eq-ok (require (j.root_id == j.canonical_root_id)) _ h4 in
      let (f, h6) = >>-eq-ok (require (j.deadline == j.created_at + 900000)) _ h5 in
      let (g, h7) = >>-eq-ok (check_attempt j) _ h6 in
      let (p, h8) = >>-eq-ok (check_pin j) _ h7 in
      let (r, h9) = >>-eq-ok (if_given (check_receipt j) j.receipt) _ h8 in
      let (t, _) =
        >>-eq-ok (require (agree (is_committed_receipt j.receipt_state) (is_given j.receipt))) _
          h9 in
      rw
        (
          a,
          numbers-kept level level' b,
          c,
          d,
          e,
          f,
          attempt-kept both g,
          p,
          ← receipt-kept,
          r,
          t,
          other,
        )
        refl

-- What a valid job says of the fields that a stop may keep.
pub kept_fields :
    (j : Job)
    → validate_job j ≡ ok tt
    → (integer j.updated_at ≡ ok tt)
      × (if_given integer j.cancel_at ≡ ok tt)
      × (agree (is_no_cancel j.cancel_state) (not (is_given j.cancel_at)) ≡ true)
unfolding validate_job check_numbers check_attempt each
kept_fields j h =
    let (_, h1) = >>-eq-ok (check_names j) _ h in
    let (numbers, h2) = >>-eq-ok (check_numbers j) _ h1 in
    let (_, h3) = >>-eq-ok (id32 j.root_id) _ h2 in
    let (_, h4) = >>-eq-ok (id32 j.canonical_root_id) _ h3 in
    let (_, h5) = >>-eq-ok (require (j.root_id == j.canonical_root_id)) _ h4 in
    let (_, h6) = >>-eq-ok (require (j.deadline == j.created_at + 900000)) _ h5 in
    let (attempt, _) = >>-eq-ok (check_attempt j) _ h6 in
    let (both, _) =
      >>-eq-ok (require (agree (is_no_cancel j.cancel_state) (not (is_given j.cancel_at)))) _
        attempt in
    let (_, n1) =
      >>-eq-ok
        (each (integer_in 1 max_i63)
          (j.task_expected_version ∷ j.revision ∷ j.policy_epoch ∷ j.credential_generation ∷ []))
        _ numbers in
    let (b, n2) =
      >>-eq-ok
        (each integer (
          j.attempt ∷ j.fencing_token ∷ j.created_at ∷ j.updated_at ∷ j.deadline ∷ j.failure_count
          ∷ []))
        _ n1 in
    let (_, n3) = >>-eq-ok (if_given integer j.lease_until) _ n2 in
    let (_, cancel) = >>-eq-ok (if_given integer j.retry_at) _ n3 in
    let (_, k1) = >>-eq-ok (integer j.attempt) _ b in
    let (_, k2) = >>-eq-ok (integer j.fencing_token) _ k1 in
    let (_, k3) = >>-eq-ok (integer j.created_at) _ k2 in
    ((>>-eq-ok (integer j.updated_at) _ k3).0, cancel, require-eq-ok _ both)

or_fail-eq-ok :
    (code : ErrorCode) (r : Result JobError (Unit {0})) → or_fail code r ≡ ok tt → r ≡ ok tt
or_fail-eq-ok code (ok a) h = h
or_fail-eq-ok code (err e) h = cc

-- A job that was read is valid.
sound_job-valid :
    (digests : Digests) (o : Option Job) (j : Job)
    → sound_job digests o ≡ ok j
    → validate_job j ≡ ok tt
unfolding sound_job
sound_job-valid digests none j h = cc
sound_job-valid digests (some k) j h =
    let (sound, same) =
      >>-eq-ok
        (or_fail policy_invalid
          (validate_job k >> require (k.semantic_key == digests.of_fields (semantic k))))
        (ok k) h in
    let (valid, _) = >>-eq-ok (validate_job k) _ (or_fail-eq-ok policy_invalid _ sound) in
    subst (λ x. validate_job x ≡ ok tt) (ok-injective same) valid

pub get_job-valid :
    (digests : Digests) (reg : Registry) (id : String) (j : Job)
    → get_job digests reg id ≡ ok j
    → validate_job j ≡ ok tt
unfolding get_job
get_job-valid digests reg id j h =
    sound_job-valid digests (get_by job_key id reg.jobs) j (>>-eq-ok (identifier id) _ h).1
