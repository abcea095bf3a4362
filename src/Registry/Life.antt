-- ===== src/Registry/Life.antt =====
-- job_registry.py: the life of jobs under any sequence of calls.
use my_ops.Prelude.{
  ◌≡◌, refl, sym, subst, ap, ◌∙◌, String, Bool, true, false, not, inl, inr, Option, none, some,
  List, [], ◌∷◌, arith, Result, ok, err, Bool-cases, >>=-eq-ok, >>-eq-ok, ok-injective, get_by,
  string_eq, ◌==◌, ==→eq, if◌then◌else◌, get_by-Mem, eq_iff,
}
use my_ops.Contract.{ErrorCode, JobError, identifier, policy_invalid, integer, fail_if}
use my_ops.Job.{is_terminal, is_given, Job, validate_job}
use my_ops.Registry.{
  OutboxEvent, Registry, Digests, Written, job_key, get_job, sound_job, or_fail, write_job,
  write_registry, on_job,
}
use my_ops.Registry.Calls.{
  Call, pin_call, begin_submit_call, uncertain_call, accept_ack_call, stop_call,
  consume_outbox_call, heartbeat_call, schedule_retry_call, run_call, run_calls, after_call, pin,
  check_package, begin_submit, uncertain, accept_ack, stop, stop_target, consume_outbox,
  consume_job, find_event, outbox_event, record_event,
}
use my_ops.Registry.Leases.{heartbeat, schedule_retry, retryable}
use my_ops.Registry.Renewals.{heartbeat_job-IsStep, schedule_retry_job-IsStep}
use my_ops.Registry.Moves.{IsLater-trans}
use my_ops.Registry.Steps.{
  IsStep, IsStep-refl, pin_job-IsStep, begin_submit_job-IsStep, uncertain_job-IsStep,
  accept_ack_job-IsStep, stop_job-IsStep, consume_job-IsStep,
}

abbrev pub find : String → List Job → Option Job
find id jobs = get_by job_key id jobs

-- `w` takes the place of the job with its identifier.
abbrev replace : Job → Job → Job
replace w j = if j.job_id == w.job_id then w else j

replace-id : (w j : Job) → (replace w j).job_id ≡ j.job_id
replace-id w j = ground (arith, eq_iff j.job_id w.job_id)

-- Looking a job up after a write.
find-write_job :
    (w : Job) (id : String) (jobs : List Job)
    → find id (write_job w jobs) ≡ elim (find id jobs) [ none ↦ none | some j ↦ some (replace w j) ]
unfolding write_job
find-write_job w id [] = refl
find-write_job w id (x ∷ jobs) = rw (find-write_job w id jobs, replace-id w x) (ground arith)

or_fail-eq-ok :
    (code : ErrorCode) (r : Result JobError (Unit {0})) → or_fail code r ≡ ok tt → r ≡ ok tt
or_fail-eq-ok code (ok x) h = refl
or_fail-eq-ok code (err e) h = cc

sound_job-eq-ok :
    (digests : Digests) (o : Option Job) (j : Job)
    → sound_job digests o ≡ ok j
    → (o ≡ some j) × (validate_job j ≡ ok tt)
unfolding sound_job
sound_job-eq-ok digests none j h = cc
sound_job-eq-ok digests (some k) j h =
    let (sound, same) = >>-eq-ok _ _ h in
    let e = ok-injective same in
    let (valid, _) = >>-eq-ok (validate_job k) _ (or_fail-eq-ok policy_invalid _ sound) in
    (ap some e, subst (λ x. validate_job x ≡ ok tt) e valid)

-- What a transaction on a job did.
record IsWrite (reg : Registry) (id : String) (operation : Job → Result JobError Written)
    (reg' : Registry) : Type 0 where
  before : Job
  made : Written
  found : find id reg.jobs ≡ some before
  valid : validate_job before ≡ ok tt
  done : operation before ≡ ok made
  jobs : reg'.jobs ≡ write_job made.job reg.jobs

on_job-IsWrite :
    (digests : Digests) (reg : Registry) (id : String) (operation : Job → Result JobError Written)
    (j : Job) (reg' : Registry)
    → on_job digests reg id operation ≡ ok (j, reg')
    → IsWrite reg id operation reg'
unfolding on_job get_job write_registry
on_job-IsWrite digests reg id operation j reg' h =
    let (before, read, h1) = >>=-eq-ok (get_job digests reg id) _ h in
    let (w, done, same) = >>=-eq-ok (operation before) _ h1 in
    let (found, valid) = sound_job-eq-ok digests _ before (>>-eq-ok (identifier id) _ read).1 in
    record {
      before = before;
      made = w;
      found = found;
      valid = valid;
      done = done;
      jobs = sym (ap (λ (r : Job × Registry). r.1.jobs) (ok-injective same));
    }

-- Every job stays in the table and only moves on.
abbrev pub Keeps : List Job → List Job → Type 0
Keeps jobs jobs' =
    (id : String) (j : Job)
    → find id jobs ≡ some j
    → (j' : Job) × (find id jobs' ≡ some j') × IsStep j j'

Keeps-refl : (jobs : List Job) → Keeps jobs jobs
Keeps-refl jobs id j found = (j, found, IsStep-refl j)

write_job-Keeps :
    (jobs : List Job) (id : String) (before w : Job)
    → find id jobs ≡ some before
    → IsStep before w
    → Keeps jobs (write_job w jobs)
write_job-Keeps jobs id before w found s id' j found' =
    (replace w j, rw (find-write_job w id' jobs, found'), stepped)
  where
    stepped : IsStep j (replace w j)
    stepped = elim (Bool-cases (j.job_id == w.job_id)) [
      | inr other ↦ rw other (IsStep-refl j)
      | inl same ↦
          let (_, own) = get_by-Mem job_key id jobs before found in
          let (_, own') = get_by-Mem job_key id' jobs j found' in
          let ids : id ≡ id' =
            sym own ∙ sym s.later.id ∙ sym (==→eq j.job_id w.job_id same) ∙ own' in
          let e : before ≡ j = cc (found, found', ids) in rw same (subst (λ x. IsStep x w) e s)
    ]

on_job-Keeps :
    (digests : Digests) (reg : Registry) (id : String) (operation : Job → Result JobError Written)
    (j : Job) (reg' : Registry)
    → ((k : Job) (w : Written) → operation k ≡ ok w → IsStep k w.job)
    → on_job digests reg id operation ≡ ok (j, reg')
    → Keeps reg.jobs reg'.jobs
on_job-Keeps digests reg id operation j reg' steps h =
    let w = on_job-IsWrite digests reg id operation j reg' h in
    subst (Keeps reg.jobs) (sym w.jobs)
      (write_job-Keeps reg.jobs id w.before w.made.job w.found (steps w.before w.made w.done))

Keeps-trans : (a b c : List Job) → Keeps a b → Keeps b c → Keeps a c
Keeps-trans a b c p q id j found =
    let (j', found', s) = p id j found in
    let (j'', found'', t) = q id j' found' in
    (
      j'',
      found'',
      record { later = IsLater-trans j j' j'' s.later t.later; valid = λ v. t.valid (s.valid v) },
    )

record_event-jobs :
    (digests : Digests) (e : OutboxEvent) (seen : Bool) (reg : Registry)
    → (record_event digests e seen reg).jobs ≡ reg.jobs
record_event-jobs digests e true reg = refl
record_event-jobs digests e false reg = refl

run_call-Keeps :
    (digests : Digests) (reg : Registry) (c : Call) (j : Job) (reg' : Registry)
    → run_call digests reg c ≡ ok (j, reg')
    → Keeps reg.jobs reg'.jobs
unfolding run_call pin begin_submit uncertain accept_ack stop consume_outbox heartbeat
    schedule_retry
run_call-Keeps digests reg (pin_call id p now) j reg' h =
    on_job-Keeps digests reg id _ j reg' (pin_job-IsStep reg p now)
      (>>-eq-ok (check_package p) _ h).1
run_call-Keeps digests reg (begin_submit_call id claim now) j reg' h =
    on_job-Keeps digests reg id _ j reg' (begin_submit_job-IsStep reg claim now) h
run_call-Keeps digests reg (uncertain_call id now) j reg' h =
    on_job-Keeps digests reg id _ j reg' (uncertain_job-IsStep now) h
run_call-Keeps digests reg (accept_ack_call id receipt now) j reg' h =
    on_job-Keeps digests reg id _ j reg' (accept_ack_job-IsStep receipt now) h
run_call-Keeps digests reg (stop_call id reason now) j reg' h =
    let (target, _, h1) = >>=-eq-ok (stop_target reason) _ h in
    on_job-Keeps digests reg id _ j reg' (stop_job-IsStep reason target now) h1
run_call-Keeps digests reg (consume_outbox_call e now) j reg' h =
    let (_, h1) = >>-eq-ok (outbox_event e) _ h in
    let (_, h2) = >>-eq-ok _ _ h1 in
    let seen = is_given (find_event reg e.event_id) in
    let ((k, reg1), done, same) =
      >>=-eq-ok (on_job digests reg e.job_id (consume_job e seen now)) _ h2 in
    let stored : reg1.jobs ≡ reg'.jobs =
      sym (record_event-jobs digests e seen reg1)
      ∙ ap (λ (r : Job × Registry). r.1.jobs) (ok-injective same) in
    subst (Keeps reg.jobs) stored
      (on_job-Keeps digests reg e.job_id _ k reg1 (consume_job-IsStep e seen now) done)
run_call-Keeps digests reg (heartbeat_call id port now) j reg' h =
    on_job-Keeps digests reg id _ j reg' (heartbeat_job-IsStep reg port now) h
run_call-Keeps digests reg (schedule_retry_call id code retry_at port now) j reg' h =
    let (_, h1) = >>-eq-ok (integer retry_at) _ h in
    let (_, h2) = >>-eq-ok (integer now) _ h1 in
    let (_, h3) = >>-eq-ok (fail_if (not (retryable code)) code) _ h2 in
    on_job-Keeps digests reg id _ j reg' (schedule_retry_job-IsStep reg code retry_at port now) h3

after_call-Keeps :
    (reg : Registry) (r : Result JobError (Job × Registry))
    → ((j : Job) (reg' : Registry) → r ≡ ok (j, reg') → Keeps reg.jobs reg'.jobs)
    → Keeps reg.jobs (after_call reg r).jobs
after_call-Keeps reg (ok (j, reg')) h = h j reg' refl
after_call-Keeps reg (err e) h = Keeps-refl reg.jobs

pub run_calls-Keeps :
    (digests : Digests) (reg : Registry) (calls : List Call)
    → Keeps reg.jobs (run_calls digests reg calls).jobs
unfolding run_calls
run_calls-Keeps digests reg [] = Keeps-refl reg.jobs
run_calls-Keeps digests reg (c ∷ cs) =
    let reg' = after_call reg (run_call digests reg c) in
    Keeps-trans reg.jobs reg'.jobs (run_calls digests reg' cs).jobs
      (after_call-Keeps reg (run_call digests reg c) (run_call-Keeps digests reg c))
      (run_calls-Keeps digests reg' cs)

-- A job that has ended, committed or stopped, never changes again, whatever calls come.
pub ended_job_stays :
    (digests : Digests) (reg : Registry) (calls : List Call) (id : String) (j : Job)
    → get_by job_key id reg.jobs ≡ some j
    → is_terminal j.state ≡ true
    → get_by job_key id (run_calls digests reg calls).jobs ≡ some j
ended_job_stays digests reg calls id j found ended =
    let (j', found', s) = run_calls-Keeps digests reg calls id j found in
    found' ∙ ap some (s.later.settled ended)
