-- ===== src/Tests/Registry.antt =====
-- The job registry, on small inputs.
use my_ops.Prelude.{
  ◌≡◌, refl, String, List, true, false, none, some, [], ◌∷◌, ok, each, get_by, string_eq,
}
use my_ops.Contract.{
  integer, identifier, sha, id32, ref_name, principal_name, require, integer_in, is_user, after,
  matches_user, decimal, matches_ref, is_hex_text, fail_all, least, job_cancelled,
}
use my_ops.Job.{
  Job, Receipt, submitting, committed, pinned, no_cancel, unknown_receipt, page, committed_receipt,
  validate_job, check_names, check_numbers, check_attempt, check_pin, check_receipt, check_names_of,
  receipt_matches, edge, is_stop, is_terminal,
}
use my_ops.Policy.{Policy, resolve, find_rule, matches, only_match}
use my_ops.Registry.{
  Registry, Digests, Claim, claim_fetching, job_key, get_job, sound_job, semantic, save_job,
  write_job, validate_receipt, attach_receipt, cross_edge, transition_job, attempt_state,
  write_registry, only, on_job, Head,
}
use my_ops.Registry.Authority.{
  authorize_commit, authorize_job, check_job_authorization, standing_errors, scope_errors,
  binding_errors, job_errors, last_errors, state_errors, is_stale, claim_record, claim_agrees,
}
use my_ops.Registry.Calls.{
  Call, accept_ack_call, stop_call, run_calls, run_call, accept_ack, accept_ack_job, stop, stop_job,
  stop_target,
}
use my_ops.Registry.Stopped.{is_submitting, IsStopped, by_cancel, stop-reconciles}
use my_ops.Registry.Life.{ended_job_stays}
use my_ops.Registry.Commits.{
  IsReceiptOf, committed_job-IsReceiptOf, MayCommit, authorize_commit-MayCommit,
}
use my_ops.Storage.{is_safe_name, matches_name, has_two_dots, is_name_char, is_alnum}

abbrev hash : String
hash = "0123456789abcdef0123456789abcdef0123456789abcdef0123456789abcdef"

abbrev digests : Digests
digests = record { of_fields = λ fields. hash; of_event = λ e. hash }

abbrev root : String
root = "0123456789abcdef0123456789abcdef"

abbrev sent_job : Job
sent_job = record {
  job_id = "j1";
  principal = "telegram:7";
  request_id = "req1";
  intent_digest = hash;
  semantic_key = hash;
  task_id = "t1";
  batch_id = "b1";
  source_id = "s1";
  task_expected_version = 1;
  revision = 1;
  workspace_ref = "space";
  grant_ref = "grant";
  credential_ref = "cred";
  policy_epoch = 1;
  credential_generation = 1;
  policy_digest = hash;
  root_type = page;
  root_id = root;
  canonical_root_id = root;
  state = submitting;
  attempt = 1;
  fencing_token = 5;
  worker_id = some "w1";
  created_at = 1000;
  updated_at = 2000;
  deadline = 901000;
  lease_until = some 60000;
  retry_at = none;
  cancel_state = no_cancel;
  cancel_at = none;
  package_id = some "p1";
  package_digest = some hash;
  package_length = some 10;
  spool_state = pinned;
  spool_ref = some "spool1";
  receipt_state = unknown_receipt;
  receipt = none;
  last_error = none;
  failure_count = 0;
}

abbrev receipt : Receipt
receipt = record { package_id = "p1"; package_digest = hash; content_fingerprint = hash }

abbrev committed_job : Job
committed_job = record sent_job {
  state = committed;
  updated_at = 3000;
  receipt_state = committed_receipt;
  receipt = some receipt;
}

abbrev policy : Policy
policy = record {
  epoch = 1;
  digest = hash;
  principals =
      record { actor = "telegram:7"; operations = "acquire" ∷ []; grants = "grant" ∷ [] } ∷ [];
  grants =
      record {
        ref = "grant";
        workspace_ref = "space";
        credential_ref = "cred";
        roots = record { root_type = page; id = root } ∷ [];
      }
      ∷ [];
  credentials = record { ref = "cred"; generation = 1; enabled = true } ∷ [];
}

abbrev head : Head
head = record { credential_ref = "cred"; generation = 1; enabled = true; deleted = false }

abbrev registry : Job → Registry
registry j = record {
  jobs = j ∷ [];
  attempts = [];
  consumed_events = [];
  authority = ok (policy, head ∷ []);
}

abbrev claim : Claim
claim = record {
  batch_id = "b1";
  source_id = "s1";
  revision = 1;
  worker_id = "w1";
  attempt = 1;
  fencing_token = 5;
  lease_until = 60000;
  state = claim_fetching;
}

valid_all : Unit {0}
unfolding each validate_job check_names check_numbers check_attempt check_pin check_receipt
    check_names_of receipt_matches identifier sha id32 ref_name principal_name require integer_in
    after matches_user decimal matches_ref is_hex_text is_safe_name matches_name has_two_dots
    is_name_char is_alnum is_user
valid_all = tt

calls_all : Unit {0}
unfolding valid_all run_calls run_call accept_ack accept_ack_job stop stop_job stop_target on_job
    get_job sound_job semantic save_job write_job validate_receipt attach_receipt cross_edge
    transition_job attempt_state write_registry edge is_stop is_terminal
calls_all = tt

authority_all : Unit {0}
unfolding valid_all authorize_commit authorize_job check_job_authorization standing_errors
    scope_errors binding_errors job_errors last_errors state_errors is_stale claim_record
    claim_agrees get_job sound_job semantic resolve find_rule matches only_match fail_all least
authority_all = tt

sent_job-IsValid : validate_job sent_job ≡ ok tt
unfolding valid_all
sent_job-IsValid = refl

-- The sender confirms the commit, and a cancellation comes too late.
abbrev calls : List Call
calls = accept_ack_call "j1" receipt 3000 ∷ stop_call "j1" job_cancelled 4000 ∷ []

committed_after :
    get_by job_key "j1" (run_calls digests (registry sent_job) calls).jobs ≡ some committed_job
unfolding calls_all
committed_after = refl

has_ended : is_terminal committed_job.state ≡ true
unfolding is_terminal
has_ended = refl

ended_job_stays_example :
    get_by job_key "j1" (run_calls digests (registry committed_job) calls).jobs ≡ some committed_job
ended_job_stays_example =
    ended_job_stays digests (registry committed_job) calls "j1" committed_job refl has_ended

committed_job-IsReceiptOf_example : (r : Receipt) × IsReceiptOf committed_job r
committed_job-IsReceiptOf_example =
    committed_job-IsReceiptOf digests (registry sent_job) calls "j1" sent_job committed_job refl
      sent_job-IsValid committed_after refl

may_commit : authorize_commit digests (registry sent_job) "j1" claim "p1" hash 3000 ≡ ok tt
unfolding authority_all
may_commit = refl

authorize_commit-MayCommit_example :
    (j : Job) × (get_job digests (registry sent_job) "j1" ≡ ok j) × MayCommit j claim "p1" hash 3000
authorize_commit-MayCommit_example =
    authorize_commit-MayCommit digests (registry sent_job) "j1" claim "p1" hash 3000 may_commit

valid_time : integer 4000 ≡ ok tt
unfolding valid_all
valid_time = refl

sent_job-read : get_job digests (registry sent_job) "j1" ≡ ok sent_job
unfolding calls_all
sent_job-read = refl

stop-reconciles_example :
    (k : Job) × (stop digests (registry sent_job) "j1" job_cancelled 4000
      ≡ ok (k, write_registry (registry sent_job) (only k)))
    × IsStopped job_cancelled sent_job k
stop-reconciles_example =
    stop-reconciles digests (registry sent_job) "j1" job_cancelled 4000 sent_job sent_job-read
      is_submitting by_cancel valid_time
