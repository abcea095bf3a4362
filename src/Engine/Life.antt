-- ===== src/Engine/Life.antt =====
-- engine.py: the life of a task under the commands.
use my_ops.Prelude.{
  suc, ◌≡◌, ◌≢◌, refl, sym, subst, ap, ◌∙◌, String, true, false, not, ◌||◌, ◌⊎◌, inl, inr, none,
  some, [], ◌∷◌, arith, Result, ok, contains, ◌==◌, nat_eq, string_eq, if◌then◌else◌, >>=-eq-ok,
  >>-eq-ok, raise_if-eq-ok, ok-injective,
}
use my_ops.Task.{
  State, collecting, review, ready, generating, generated, cancelled, Error, Task, allowed,
  transition,
}
use my_ops.Review.{Unicode, validate}
use my_ops.Gate.{gate, is_ready}
use my_ops.Store.Changes.{IsProper}
use my_ops.Store.{is_cancelled}
use my_ops.Engine.{
  Export, start_review, make_ready, confirm, begin_generation, with_output, draft_text,
  finish_generation, cancel, formal_text, Command, add_source_cmd, start_review_cmd, design_cmd,
  ask_cmd, answer_cmd, skip_cmd, ready_cmd, confirm_cmd, begin_cmd, finish_cmd, cancel_cmd,
  reset_cmd, act,
}
use my_ops.Engine.Steps.{IsStep, act-IsStep}
use my_ops.Engine.Actions.{IsMove, IsMove-trans, transition-eq-ok, transition-IsMove}
use my_ops.Engine.Edits.{
  IsEdited, aside, add_source-IsEdited, reset-IsEdited, ask-IsEdited, skip-IsEdited,
  design-IsEdited, answer-IsEdited,
}

-- The confirmation that a command leaves on a task in state ready.
abbrev pub LeavesConfirmation : Command → Task → Task → Type 0
LeavesConfirmation (confirm_cmd text) t t' =
    t'.confirmation
    ≡ some (record {
      mode = if text == formal_text then "formal" else "draft";
      version = suc t.version;
      user_id = t.user_id;
    })
LeavesConfirmation _ t t' = (t'.confirmation ≡ none) ⊎ (t'.state ≢ ready)

pub record IsAct (c : Command) (t t' : Task) : Type 0 where
  pub move : IsMove t t'
  pub alive : t.state ≢ cancelled
  pub confirmation : LeavesConfirmation c t t'

not_revived : (s : State) → allowed cancelled s ≡ true → ⊥
unfolding allowed
not_revived collecting e = cc
not_revived _ e = cc

-- A transition starts in a state that is not cancelled.
transition-alive : (s : State) (t t' : Task) → transition s t ≡ ok t' → t.state ≢ cancelled
transition-alive s t t' h e =
    not_revived s (subst (λ x. allowed x s ≡ true) e (transition-eq-ok s t t' h).0)

state-transition : (s : State) (t t' : Task) → transition s t ≡ ok t' → t'.state ≡ s
state-transition s t t' h = ap (λ (x : Task). x.state) (transition-eq-ok s t t' h).1

-- A transition, then no confirmation.
abbrev unconfirm : Task → Task
unconfirm t = record t { confirmation = none }

moved_unconfirmed :
    (s : State) (t m t' : Task)
    → transition s t ≡ ok m
    → ◌≡◌ {A = Result Error Task} (ok (unconfirm m)) (ok t')
    → IsEdited t t'
moved_unconfirmed s t m t' first same = subst (IsEdited t) (ok-injective same) (record {
  move = IsMove-trans (transition-IsMove s t m first) (aside m (unconfirm m) refl refl refl refl);
  alive = transition-alive s t m first;
  unconfirmed = inl refl;
})

make_ready-IsEdited : (u : Unicode) (t t' : Task) → make_ready u t ≡ ok t' → IsEdited t t'
unfolding make_ready
make_ready-IsEdited u t t' h =
    let (_, h1) = >>-eq-ok (validate u t) _ h in
    let (m, first, same) = >>=-eq-ok (transition ready t) _ h1 in
    moved_unconfirmed ready t m t' first same

cancel-IsEdited : (t t' : Task) → cancel t ≡ ok t' → IsEdited t t'
unfolding cancel
cancel-IsEdited t t' h =
    let (m, first, same) = >>=-eq-ok (transition cancelled t) _ h in
    moved_unconfirmed cancelled t m t' first same

-- A plain transition to a state that is not ready.
moved_away : (s : State) (t t' : Task) → s ≢ ready → transition s t ≡ ok t' → IsEdited t t'
moved_away s t t' other h = record {
  move = transition-IsMove s t t' h;
  alive = transition-alive s t t' h;
  unconfirmed = inr (λ e. other (sym (state-transition s t t' h) ∙ e));
}

begin-IsEdited :
    (u : Unicode) (mode : String) (t t' : Task) → begin_generation u mode t ≡ ok t' → IsEdited t t'
unfolding begin_generation
begin-IsEdited u mode t t' h = moved_away generating t t' (λ e. cc) (>>-eq-ok (gate u t mode) _ h).1

finish-IsEdited :
    (u : Unicode) (export : Export) (mode : String) (t t' : Task)
    → finish_generation u export mode t ≡ ok t'
    → IsEdited t t'
unfolding finish_generation
finish-IsEdited u export mode t t' h =
    let (_, h1) = >>-eq-ok (gate u t mode) _ h in
    let (made, _, h2) = >>=-eq-ok (export t mode) _ h1 in
    let (m, first, same) = >>=-eq-ok (transition generated (with_output mode made t)) _ h2 in
    let e = moved_unconfirmed generated (with_output mode made t) m t' first same in
    record {
      move = IsMove-trans (aside t (with_output mode made t) refl refl refl refl) e.move;
      alive = e.alive;
      unconfirmed = e.unconfirmed;
    }

confirm-IsAct :
    (text : String) (t t' : Task) → confirm text t ≡ ok t' → IsAct (confirm_cmd text) t t'
unfolding confirm
confirm-IsAct text t t' h =
    let (allowed_now, same) = >>-eq-ok _ _ h in
    subst (IsAct (confirm_cmd text) t) (ok-injective same) (record {
      move = aside t _ refl refl refl refl;
      alive = λ e. still_ready e (raise_if-eq-ok _ _ allowed_now);
      confirmation = refl;
    })
  where
    still_ready :
        t.state ≡ cancelled
        → (not (is_ready t.state) || not (contains (formal_text ∷ draft_text ∷ []) text)) ≡ false
        → ⊥
    still_ready e g = ground arith

acted : (c : Command) (t t' : Task) (e : IsEdited t t') → LeavesConfirmation c t t' → IsAct c t t'
acted c t t' e left = record { move = e.move; alive = e.alive; confirmation = left }

pub act-IsAct :
    (u : Unicode) (export : Export) (user : String) (c : Command) (t t' : Task)
    → act u export user c t ≡ ok t'
    → IsAct c t t'
unfolding act start_review
act-IsAct u export user (add_source_cmd s) t t' h =
    let e = add_source-IsEdited s t t' h in acted (add_source_cmd s) t t' e e.unconfirmed
act-IsAct u export user start_review_cmd t t' h =
    let e = moved_away review t t' (λ d. cc) h in acted start_review_cmd t t' e e.unconfirmed
act-IsAct u export user (design_cmd reqs rules paths cases) t t' h =
    let e = design-IsEdited u reqs rules paths cases t t' h in
    acted (design_cmd reqs rules paths cases) t t' e e.unconfirmed
act-IsAct u export user (ask_cmd qs) t t' h =
    let e = ask-IsEdited u qs t t' h in acted (ask_cmd qs) t t' e e.unconfirmed
act-IsAct u export user (answer_cmd qid text rid final) t t' h =
    let e = answer-IsEdited u user qid text rid final t t' h in
    acted (answer_cmd qid text rid final) t t' e e.unconfirmed
act-IsAct u export user (skip_cmd qid) t t' h =
    let e = skip-IsEdited u qid t t' h in acted (skip_cmd qid) t t' e e.unconfirmed
act-IsAct u export user ready_cmd t t' h =
    let e = make_ready-IsEdited u t t' h in acted ready_cmd t t' e e.unconfirmed
act-IsAct u export user (confirm_cmd text) t t' h = confirm-IsAct text t t' h
act-IsAct u export user (begin_cmd mode) t t' h =
    let e = begin-IsEdited u mode t t' h in acted (begin_cmd mode) t t' e e.unconfirmed
act-IsAct u export user (finish_cmd mode) t t' h =
    let e = finish-IsEdited u export mode t t' h in acted (finish_cmd mode) t t' e e.unconfirmed
act-IsAct u export user cancel_cmd t t' h =
    let e = cancel-IsEdited t t' h in acted cancel_cmd t t' e e.unconfirmed
act-IsAct u export user reset_cmd t t' h =
    let e = reset-IsEdited t t' h in acted reset_cmd t t' e e.unconfirmed

-- A command that succeeds starts from a task that is not cancelled, keeps its identifier, owner and
-- version, and takes its state by the step of this command: adding a source, an answer or a skip
-- leaves a task that collects and brings one in review, ready or generated to review, a design and
-- questions do the latter only; the start goes to review from collecting, ready or generated, a reset
-- also from review; ready comes from review or generating, a confirmation stays in ready, a generation
-- begins in ready and ends from generating, and a cancellation comes from any state but cancelled.
pub act-follows_table :
    (u : Unicode) (export : Export) (user : String) (c : Command) (t t' : Task)
    → act u export user c t ≡ ok t'
    → (t.state ≢ cancelled)
      × IsStep c t.state t'.state
      × (t'.id ≡ t.id)
      × (t'.user_id ≡ t.user_id)
      × (t'.version ≡ t.version)
act-follows_table u export user c t t' h =
    let a = act-IsAct u export user c t t' h in
    (a.alive, act-IsStep u export user c t t' h, a.move.id, a.move.user, a.move.version)

cancelled_state : (s : State) → is_cancelled s ≡ true → s ≡ cancelled
cancelled_state cancelled e = refl
cancelled_state _ e = cc

-- Every command is an action that `Store.change` may run: the database's constraints hold after it.
pub act-IsProper :
    (u : Unicode) (export : Export) (user : String) (c : Command) → IsProper (act u export user c)
act-IsProper u export user c = record {
  id = λ t t' h. (act-IsAct u export user c t t' h).move.id;
  user = λ t t' h. (act-IsAct u export user c t t' h).move.user;
  version = λ t t' h. (act-IsAct u export user c t t' h).move.version;
  no_revival = λ t t' h dead.
      absurd ((act-IsAct u export user c t t' h).alive (cancelled_state t.state dead));
}
