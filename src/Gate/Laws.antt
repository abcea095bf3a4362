-- ===== src/Gate/Laws.antt =====
-- gates.py: what `gate` guarantees when it lets a task through.
use my_ops.Prelude.{
  suc, ◌≡◌, ◌≢◌, refl, String, Bool, true, false, not, ◌&&◌, ◌||◌, ◌⊎◌, Option, none, some, List,
  [], ◌∷◌, arith, ok, All, All-map, >>-eq-ok, raise_if-eq-ok, is_empty, is_empty-eq-nil,
  append-eq-nil, any, any-eq-false, eq_iff, nat_eq, string_eq, ◌==◌, if◌then◌else◌,
}
use my_ops.Task.{ready, generating, Confirmation, Source, Task, readable}
use my_ops.Review.{Unicode, unresolved_p0, validate}
use my_ops.Review.Trace.{IsAnswered, not-eq-false}
use my_ops.Review.Answers.{p0-IsAnswered}
use my_ops.Gate.{is_ready, is_generating, confirmed, reason, formal_reasons, reasons, gate}

-- The confirmation is the owner's, for this mode and this version of the task.
abbrev pub IsConfirmed : Task → String → Option Confirmation → Type 0
IsConfirmed task mode none = ⊥
IsConfirmed task mode (some c) =
    (c.mode ≡ mode)
    × (c.user_id ≡ task.user_id)
    × ((task.state ≡ ready) × (c.version ≡ task.version)
        ⊎ (task.state ≡ generating) × (suc c.version ≡ task.version))

pub record IsCleared (task : Task) (mode : String) : Type 0 where
  pub state : (task.state ≡ ready) ⊎ (task.state ≡ generating)
  pub mode_known : (mode ≡ "formal") ⊎ (mode ≡ "draft")
  pub confirmation : IsConfirmed task mode task.confirmation
  pub messages : task.pending_messages ≡ []
  pub designed :
      (is_empty task.requirements ≡ false)
      × (is_empty task.paths ≡ false)
      × (is_empty task.cases ≡ false)
  pub formal :
      mode ≡ "formal"
      → All (λ q. q.priority ≡ "P0" → IsAnswered task q.id) task.questions
        × All (λ s. s.critical ≡ true → readable s ≡ true) task.sources
        × (task.sources ≢ [])

reason_nil : (b : Bool) (text : String) → reason b text ≡ [] → b ≡ false
reason_nil true text h = cc
reason_nil false text h = refl

confirmed-IsConfirmed :
    (task : Task) (mode : String) (c : Option Confirmation)
    → (task.state ≡ ready) ⊎ (task.state ≡ generating)
    → confirmed task mode c ≡ true
    → IsConfirmed task mode c
unfolding confirmed
confirmed-IsConfirmed task mode none st h = cc
confirmed-IsConfirmed task mode (some c) st h =
    ground (arith, eq_iff c.mode mode, eq_iff c.user_id task.user_id)

sources_cleared :
    (ss : List Source)
    → (is_empty ss || any (λ s. s.critical && not (readable s)) ss) ≡ false
    → All (λ s. s.critical ≡ true → readable s ≡ true) ss × (ss ≢ [])
sources_cleared [] h = cc
sources_cleared (s ∷ ss) h = (
  All-map (λ s e c. ground arith) (s ∷ ss)
      (any-eq-false (λ s. s.critical && not (readable s)) (s ∷ ss) h),
  λ e. cc,
)

formal_cleared :
    (u : Unicode) (task : Task)
    → validate u task ≡ ok tt
    → formal_reasons task ≡ []
    → All (λ q. q.priority ≡ "P0" → IsAnswered task q.id) task.questions
      × All (λ s. s.critical ≡ true → readable s ≡ true) task.sources
      × (task.sources ≢ [])
unfolding formal_reasons
formal_cleared u task valid h =
    let (p0, sources) = append-eq-nil (reason (not (is_empty (unresolved_p0 task))) _) _ h in
    let (read, some_source) = sources_cleared task.sources (reason_nil _ _ sources) in
    (
      p0-IsAnswered u task valid (is_empty-eq-nil _ (not-eq-false _ (reason_nil _ _ p0))),
      read,
      some_source,
    )

-- The reasons of a task that is let through, one by one.
record NoReason (task : Task) (mode : String) : Type 0 where
  messages : task.pending_messages ≡ []
  known : (mode == "formal" || mode == "draft") ≡ true
  state : (is_ready task.state || is_generating task.state) ≡ true
  confirmation : confirmed task mode task.confirmation ≡ true
  formal : mode ≡ "formal" → formal_reasons task ≡ []
  designed : (is_empty task.requirements || is_empty task.paths || is_empty task.cases) ≡ false

no_reason : (task : Task) (mode : String) → reasons task mode ≡ [] → NoReason task mode
unfolding reasons
no_reason task mode h =
    let (_, h1) = append-eq-nil _ _ h in
    let (messages, h2) = append-eq-nil _ _ h1 in
    let (known, h3) = append-eq-nil _ _ h2 in
    let (state, h4) = append-eq-nil _ _ h3 in
    let (confirmation, h5) = append-eq-nil _ _ h4 in
    let (formal, designed) = append-eq-nil _ _ h5 in
    record {
      messages = is_empty-eq-nil _ (not-eq-false _ (reason_nil _ _ messages));
      known = not-eq-false _ (reason_nil _ _ known);
      state = not-eq-false _ (reason_nil _ _ state);
      confirmation = not-eq-false _ (reason_nil _ _ confirmation);
      formal = λ e. when_formal (mode == "formal") ((eq_iff mode "formal").1 e) formal;
      designed = reason_nil _ _ designed;
    }
  where
    when_formal :
        (b : Bool)
        → b ≡ true
        → (if b then formal_reasons task else []) ≡ []
        → formal_reasons task ≡ []
    when_formal true e g = g
    when_formal false e g = cc

-- `gate` lets a task through only in state ready or generating, with the owner's confirmation of
-- this mode for the current version (the version before, once generating), with no message left
-- to review and with requirements, paths and cases; in formal mode only if the owner has answered
-- every P0 question, there is a source, and every critical source was read.
pub gate-IsCleared :
    (u : Unicode) (task : Task) (mode : String) → gate u task mode ≡ ok tt → IsCleared task mode
unfolding gate
gate-IsCleared u task mode h =
    let (valid, h1) = >>-eq-ok (validate u task) _ h in
    let r = no_reason task mode (is_empty-eq-nil _ (not-eq-false _ (raise_if-eq-ok _ _ h1))) in
    let known : (mode == "formal" || mode == "draft") ≡ true = r.known in
    let state : (is_ready task.state || is_generating task.state) ≡ true = r.state in
    let st : (task.state ≡ ready) ⊎ (task.state ≡ generating) = ground arith in
    let designed : (is_empty task.requirements || is_empty task.paths || is_empty task.cases)
        ≡ false =
      r.designed in
    record {
      state = st;
      mode_known = ground (arith, eq_iff mode "formal", eq_iff mode "draft");
      confirmation = confirmed-IsConfirmed task mode task.confirmation st r.confirmation;
      messages = r.messages;
      designed = ground arith;
      formal = λ e. formal_cleared u task valid (r.formal e);
    }
