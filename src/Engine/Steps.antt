-- ===== src/Engine/Steps.antt =====
-- engine.py: the states between which each command takes a task.
use my_ops.Prelude.{
  ◌++◌, ◌≡◌, refl, sym, subst, ap, ◌∙◌, String, Bool, true, false, not, ◌||◌, ◌⊎◌, inl, inr, Option,
  none, some, List, [], ◌∷◌, Memᴰ, ok, nat_eq, string_eq, >>=-eq-ok, >>-eq-ok, raise_if-eq-ok,
  ok-injective,
}
use my_ops.Task.{
  State, collecting, review, ready, generating, generated, cancelled, Task, Source, Question,
  allowed, transition,
}
use my_ops.Review.{Unicode, validate}
use my_ops.Gate.{gate, is_ready}
use my_ops.Engine.{
  Export, edit_state, edit, validated, is_review, require_review, add_source, start_review, design,
  ask, add_answer, answer, first_question, skip, set_skipped, make_ready, confirm, begin_generation,
  with_output, finish_generation, cancel, is_collecting, to_review, reset, Command, add_source_cmd,
  start_review_cmd, design_cmd, ask_cmd, answer_cmd, skip_cmd, ready_cmd, confirm_cmd, begin_cmd,
  finish_cmd, cancel_cmd, reset_cmd, act,
}
use my_ops.Engine.Actions.{transition-eq-ok, validated-eq-ok}

-- From one of the states to the other state.
abbrev pub Goes : List State → State → State → State → Type 0
Goes froms to a b = Memᴰ a froms × (b ≡ to)

-- An edit leaves a task that collects as it is; others are under review after it.
abbrev pub IsEditStep : State → State → Type 0
IsEditStep a b =
    Goes (collecting ∷ []) collecting a b ⊎ Goes (review ∷ ready ∷ generated ∷ []) review a b

-- The states from which a command goes, and the state to which it goes.
abbrev pub IsStep : Command → State → State → Type 0
IsStep (add_source_cmd source) = IsEditStep
IsStep start_review_cmd = Goes (collecting ∷ ready ∷ generated ∷ []) review
IsStep (design_cmd reqs rules paths cases) = Goes (review ∷ ready ∷ generated ∷ []) review
IsStep (ask_cmd qs) = Goes (review ∷ ready ∷ generated ∷ []) review
IsStep (answer_cmd qid text rid final) = IsEditStep
IsStep (skip_cmd qid) = IsEditStep
IsStep ready_cmd = Goes (review ∷ generating ∷ []) ready
IsStep (confirm_cmd text) = Goes (ready ∷ []) ready
IsStep (begin_cmd mode) = Goes (ready ∷ []) generating
IsStep (finish_cmd mode) = Goes (generating ∷ []) generated
IsStep cancel_cmd = Goes (collecting ∷ review ∷ ready ∷ generating ∷ generated ∷ []) cancelled
IsStep reset_cmd = Goes (collecting ∷ review ∷ ready ∷ generated ∷ []) review

-- The states that lead to a state in one transition.
abbrev before : State → List State
before collecting = []
before review = collecting ∷ ready ∷ generated ∷ []
before ready = review ∷ generating ∷ []
before generating = ready ∷ []
before generated = generating ∷ []
before cancelled = collecting ∷ review ∷ ready ∷ generating ∷ generated ∷ []

allowed-before : (a b : State) → allowed a b ≡ true → Memᴰ a (before b)
unfolding allowed
allowed-before collecting review e = Memᴰ.head refl
allowed-before ready review e = Memᴰ.tail (Memᴰ.head refl)
allowed-before generated review e = Memᴰ.tail (Memᴰ.tail (Memᴰ.head refl))
allowed-before review ready e = Memᴰ.head refl
allowed-before generating ready e = Memᴰ.tail (Memᴰ.head refl)
allowed-before ready generating e = Memᴰ.head refl
allowed-before generating generated e = Memᴰ.head refl
allowed-before collecting cancelled e = Memᴰ.head refl
allowed-before review cancelled e = Memᴰ.tail (Memᴰ.head refl)
allowed-before ready cancelled e = Memᴰ.tail (Memᴰ.tail (Memᴰ.head refl))
allowed-before generating cancelled e = Memᴰ.tail (Memᴰ.tail (Memᴰ.tail (Memᴰ.head refl)))
allowed-before generated cancelled e =
    Memᴰ.tail (Memᴰ.tail (Memᴰ.tail (Memᴰ.tail (Memᴰ.head refl))))
allowed-before _ _ e = cc

moved : (s : State) (t t' : Task) → transition s t ≡ ok t' → Goes (before s) s t.state t'.state
moved s t t' h =
    let (e, same) = transition-eq-ok s t t' h in
    (allowed-before t.state s e, ap (λ (x : Task). x.state) same)

edit_state-IsEditStep :
    (s : State) (t m : Task) → t.state ≡ s → edit_state s t ≡ ok m → IsEditStep s m.state
unfolding edit_state
edit_state-IsEditStep cancelled t m e h = cc
edit_state-IsEditStep generating t m e h = cc
edit_state-IsEditStep ready t m e h = inr (Memᴰ.tail (Memᴰ.head refl), (moved review t m h).1)
edit_state-IsEditStep generated t m e h =
    inr (Memᴰ.tail (Memᴰ.tail (Memᴰ.head refl)), (moved review t m h).1)
edit_state-IsEditStep collecting t m e h =
    inl (Memᴰ.head refl, ap (λ (x : Task). x.state) (sym (ok-injective h)) ∙ e)
edit_state-IsEditStep review t m e h =
    inr (Memᴰ.head refl, ap (λ (x : Task). x.state) (sym (ok-injective h)) ∙ e)

edit-IsEditStep : (t m : Task) → edit t ≡ ok m → IsEditStep t.state m.state
unfolding edit
edit-IsEditStep t m h =
    let (n, edited, same) = >>=-eq-ok (edit_state t.state t) _ h in
    subst (IsEditStep t.state) (ap (λ (x : Task). x.state) (ok-injective same))
      (edit_state-IsEditStep t.state t n refl edited)

under_review : (s : State) → not (is_review s) ≡ false → s ≡ review
under_review review e = refl
under_review _ e = cc

-- An edit after which the task must be under review.
edit-reviewed :
    (t m : Task)
    → edit t ≡ ok m
    → require_review m ≡ ok tt
    → Goes (review ∷ ready ∷ generated ∷ []) review t.state m.state
unfolding require_review
edit-reviewed t m h required =
    let at = under_review m.state (raise_if-eq-ok _ _ required) in
    elim (edit-IsEditStep t m h) [
      | inl (_, still) ↦ let e : collecting ≡ review = sym still ∙ at in cc
      | inr there ↦ there
    ]

-- What follows an edit keeps the state that it left.
ended :
    (u : Unicode) (P : State → Type 0) (n t' : Task)
    → validated u n ≡ ok t'
    → P n.state
    → P t'.state
ended u P n t' h = subst P (ap (λ (x : Task). x.state) (validated-eq-ok u n t' h))

add_source-IsEditStep :
    (source : Source) (t t' : Task) → add_source source t ≡ ok t' → IsEditStep t.state t'.state
unfolding add_source
add_source-IsEditStep source t t' h =
    let (m, first, same) = >>=-eq-ok (edit t) _ h in
    subst (IsEditStep t.state) (ap (λ (x : Task). x.state) (ok-injective same))
      (edit-IsEditStep t m first)

add_answer-state :
    (user qid text rid final : String) (m n : Task) (o : Option Question)
    → add_answer user qid text rid final m o ≡ ok n
    → m.state ≡ n.state
unfolding add_answer
add_answer-state user qid text rid final m n none h = cc
add_answer-state user qid text rid final m n (some q) h =
    ap (λ (x : Task). x.state) (ok-injective h)

to_review-state :
    (a : State) (m n : Task)
    → IsEditStep a m.state
    → to_review m ≡ ok n
    → Goes (collecting ∷ review ∷ ready ∷ generated ∷ []) review a n.state
unfolding to_review
to_review-state a m n (inl (from, at)) h =
    let collects : is_collecting m.state ≡ true = ap is_collecting at in
    (head_of from, (moved review m n (rw (collects, to_review) at h)).1)
  where
    head_of : Memᴰ a (collecting ∷ []) → Memᴰ a (collecting ∷ review ∷ ready ∷ generated ∷ [])
    head_of (Memᴰ.head e) = Memᴰ.head e
    head_of (Memᴰ.tail x) = elim x [ ]
to_review-state a m n (inr (from, at)) h =
    let other : is_collecting m.state ≡ false = ap is_collecting at in
    let same : m ≡ n = ok-injective (rw (other, to_review) at h) in
    (Memᴰ.tail from, ap (λ (x : Task). x.state) (sym same) ∙ at)

was_ready : (s : State) (b : Bool) → (not (is_ready s) || b) ≡ false → s ≡ ready
was_ready ready b e = refl
was_ready _ b e = cc

-- Each command goes along its own step.
pub act-IsStep :
    (u : Unicode) (export : Export) (user : String) (c : Command) (t t' : Task)
    → act u export user c t ≡ ok t'
    → IsStep c t.state t'.state
unfolding act start_review design ask answer skip make_ready confirm begin_generation
    finish_generation cancel reset
act-IsStep u export user (add_source_cmd s) t t' h = add_source-IsEditStep s t t' h
act-IsStep u export user start_review_cmd t t' h = moved review t t' h
act-IsStep u export user (design_cmd reqs rules paths cases) t t' h =
    let (m, first, h1) = >>=-eq-ok (edit t) _ h in
    let (required, h2) = >>-eq-ok (require_review m) _ h1 in
    let (_, h3) = >>-eq-ok _ _ h2 in
    ended u (Goes (review ∷ ready ∷ generated ∷ []) review t.state)
      (record m { requirements = reqs; rules = rules; paths = paths; cases = cases }) t' h3
      (edit-reviewed t m first required)
act-IsStep u export user (ask_cmd qs) t t' h =
    let (m, first, h1) = >>=-eq-ok (edit t) _ h in
    let (required, h2) = >>-eq-ok (require_review m) _ h1 in
    let (_, h3) = >>-eq-ok _ _ h2 in
    let (_, h4) = >>-eq-ok _ _ h3 in
    ended u (Goes (review ∷ ready ∷ generated ∷ []) review t.state)
      (record m { questions = m.questions ++ qs }) t' h4 (edit-reviewed t m first required)
act-IsStep u export user (answer_cmd qid text rid final) t t' h =
    let (m, first, h1) = >>=-eq-ok (edit t) _ h in
    let (n, second, h2) =
      >>=-eq-ok (add_answer user qid text rid final m (first_question qid m.questions)) _ h1 in
    ended u (IsEditStep t.state) n t' h2 (
      subst (IsEditStep t.state) (add_answer-state user qid text rid final m n _ second)
        (edit-IsEditStep t m first))
act-IsStep u export user (skip_cmd qid) t t' h =
    let (m, first, h1) = >>=-eq-ok (edit t) _ h in
    let (_, h2) = >>-eq-ok _ _ h1 in
    ended u (IsEditStep t.state) (record m { questions = set_skipped qid m.questions }) t' h2
      (edit-IsEditStep t m first)
act-IsStep u export user ready_cmd t t' h =
    let (_, h1) = >>-eq-ok (validate u t) _ h in
    let (m, first, same) = >>=-eq-ok (transition ready t) _ h1 in
    let (from, at) = moved ready t m first in
    (from, ap (λ (x : Task). x.state) (sym (ok-injective same)) ∙ at)
act-IsStep u export user (confirm_cmd text) t t' h =
    let (now, same) = >>-eq-ok _ _ h in
    let at = was_ready t.state _ (raise_if-eq-ok _ _ now) in
    (Memᴰ.head at, ap (λ (x : Task). x.state) (sym (ok-injective same)) ∙ at)
act-IsStep u export user (begin_cmd mode) t t' h =
    moved generating t t' (>>-eq-ok (gate u t mode) _ h).1
act-IsStep u export user (finish_cmd mode) t t' h =
    let (_, h1) = >>-eq-ok (gate u t mode) _ h in
    let (made, _, h2) = >>=-eq-ok (export t mode) _ h1 in
    let (m, first, same) = >>=-eq-ok (transition generated (with_output mode made t)) _ h2 in
    let (from, at) = moved generated (with_output mode made t) m first in
    (from, ap (λ (x : Task). x.state) (sym (ok-injective same)) ∙ at)
act-IsStep u export user cancel_cmd t t' h =
    let (m, first, same) = >>=-eq-ok (transition cancelled t) _ h in
    let (from, at) = moved cancelled t m first in
    (from, ap (λ (x : Task). x.state) (sym (ok-injective same)) ∙ at)
act-IsStep u export user reset_cmd t t' h =
    let (m, first, h1) = >>=-eq-ok (edit t) _ h in
    let (n, second, same) = >>=-eq-ok (to_review m) _ h1 in
    let (from, at) = to_review-state t.state m n (edit-IsEditStep t m first) second in
    (from, ap (λ (x : Task). x.state) (sym (ok-injective same)) ∙ at)
