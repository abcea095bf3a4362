-- ===== src/Engine/Edits.antt =====
-- engine.py: the commands that edit the review of a task.
use my_ops.Prelude.{
  ◌++◌, ◌≡◌, ◌≢◌, refl, sym, subst, ap, ◌∙◌, String, ◌⊎◌, inl, inr, Option, none, some, List, [],
  ◌∷◌, arith, ok, nat_eq, string_eq, Bool-cases, >>=-eq-ok, ok-injective,
}
use my_ops.Task.{
  review, ready, cancelled, Task, Source, Question, Requirement, FinalRule, CriticalPath, TestCase,
}
use my_ops.Review.{Unicode}
use my_ops.Engine.{
  edit, validated, add_source, design, ask, add_answer, answer, skip, to_review, reset,
  first_question, is_collecting, set_skipped,
}
use my_ops.Engine.Actions.{
  ◌⟶*◌, here, IsMove, IsMove-refl, IsMove-trans, transition-eq-ok, transition-IsMove, IsEdit,
  edit-IsEdit, validated-eq-ok,
}

-- An edit, then fields that are no part of the identity.
pub record IsEdited (t t' : Task) : Type 0 where
  pub move : IsMove t t'
  pub alive : t.state ≢ cancelled
  pub unconfirmed : (t'.confirmation ≡ none) ⊎ (t'.state ≢ ready)

edited :
    (t m t' : Task) → IsEdit t m → IsMove m t' → t'.confirmation ≡ m.confirmation → IsEdited t t'
edited t m t' e step c = record {
  move = IsMove-trans e.move step;
  alive = e.alive;
  unconfirmed = inl (c ∙ e.unconfirmed);
}

pub add_source-IsEdited : (s : Source) (t t' : Task) → add_source s t ≡ ok t' → IsEdited t t'
unfolding add_source
add_source-IsEdited s t t' h =
    let (m, first, same) = >>=-eq-ok (edit t) _ h in
    let e : record m { sources = m.sources ++ s ∷ [] } ≡ t' = ok-injective same in
    subst (IsEdited t) e (
      edited t m _ (edit-IsEdit t m first)
        (record { id = refl; user = refl; version = refl; path = here }) refl)

-- The part of a command after `edit` that changes no more than the review.
keeps_on :
    (u : Unicode) (t m n t' : Task)
    → edit t ≡ ok m
    → IsMove m n
    → n.confirmation ≡ m.confirmation
    → validated u n ≡ ok t'
    → IsEdited t t'
keeps_on u t m n t' first step c last =
    subst (IsEdited t) (validated-eq-ok u n t' last) (edited t m n (edit-IsEdit t m first) step c)

pub aside :
    (m n : Task)
    → n.id ≡ m.id
    → n.user_id ≡ m.user_id
    → n.version ≡ m.version
    → n.state ≡ m.state
    → IsMove m n
aside m n i us v st = record {
  id = i;
  user = us;
  version = v;
  path = subst (λ s. m.state ⟶* s) (sym st) here;
}

to_review-IsMove :
    (m n : Task) → to_review m ≡ ok n → IsMove m n × (n.confirmation ≡ m.confirmation)
unfolding to_review
to_review-IsMove m n h = elim (Bool-cases (is_collecting m.state)) [
  | inl e ↦
      let g = rw (e, to_review) at h in
      (
        transition-IsMove review m n g,
        ap (λ (x : Task). x.confirmation) (transition-eq-ok review m n g).1,
      )
  | inr e ↦
      let same : m ≡ n = ok-injective (rw (e, to_review) at h) in
      (subst (IsMove m) same (IsMove-refl m), ap (λ (x : Task). x.confirmation) (sym same))
]

pub reset-IsEdited : (t t' : Task) → reset t ≡ ok t' → IsEdited t t'
unfolding reset
reset-IsEdited t t' h =
    let (m, first, h1) = >>=-eq-ok (edit t) _ h in
    let (n, second, same) = >>=-eq-ok (to_review m) _ h1 in
    let (step, c) = to_review-IsMove m n second in
    subst (IsEdited t) (ok-injective same) (
      edited t m _ (edit-IsEdit t m first)
        (record { id = step.id; user = step.user; version = step.version; path = step.path }) c)

pub ask-IsEdited :
    (u : Unicode) (qs : List Question) (t t' : Task) → ask u qs t ≡ ok t' → IsEdited t t'
unfolding ask
ask-IsEdited u qs t t' h =
    let (m, first, h1) = >>=-eq-ok (edit t) _ h in
    let n = record m { questions = m.questions ++ qs } in
    keeps_on u t m n t' first (aside m n refl refl refl refl) refl (ground arith)

pub skip-IsEdited :
    (u : Unicode) (qid : String) (t t' : Task) → skip u qid t ≡ ok t' → IsEdited t t'
unfolding skip
skip-IsEdited u qid t t' h =
    let (m, first, h1) = >>=-eq-ok (edit t) _ h in
    let n = record m { questions = set_skipped qid m.questions } in
    keeps_on u t m n t' first (aside m n refl refl refl refl) refl (ground arith)

pub design-IsEdited :
    (u : Unicode) (reqs : List Requirement) (rules : List FinalRule) (paths : List CriticalPath)
    (cases : List TestCase) (t t' : Task)
    → design u reqs rules paths cases t ≡ ok t'
    → IsEdited t t'
unfolding design
design-IsEdited u reqs rules paths cases t t' h =
    let (m, first, h1) = >>=-eq-ok (edit t) _ h in
    let n = record m { requirements = reqs; rules = rules; paths = paths; cases = cases } in
    keeps_on u t m n t' first (aside m n refl refl refl refl) refl (ground arith)

add_answer-IsMove :
    (user qid text rid final : String) (m n : Task) (o : Option Question)
    → add_answer user qid text rid final m o ≡ ok n
    → IsMove m n × (n.confirmation ≡ m.confirmation)
unfolding add_answer
add_answer-IsMove user qid text rid final m n none h = cc
add_answer-IsMove user qid text rid final m n (some q) h =
    let same = ok-injective h in
    (
      subst (IsMove m) same (aside m _ refl refl refl refl),
      ap (λ (x : Task). x.confirmation) (sym same),
    )

pub answer-IsEdited :
    (u : Unicode) (user qid text rid final : String) (t t' : Task)
    → answer u user qid text rid final t ≡ ok t'
    → IsEdited t t'
unfolding answer
answer-IsEdited u user qid text rid final t t' h =
    let (m, first, h1) = >>=-eq-ok (edit t) _ h in
    let (n, second, h2) =
      >>=-eq-ok (add_answer user qid text rid final m (first_question qid m.questions)) _ h1 in
    let (step, c) = add_answer-IsMove user qid text rid final m n _ second in
    keeps_on u t m n t' first step c h2
