-- ===== src/Review/Answers.antt =====
-- review.py, `unresolved_p0`: a P0 question that is resolved has been answered.
use my_ops.Prelude.{
  ◌≡◌, refl, sym, ap, ◌⊎◌, subst, String, false, not, ◌&&◌, inl, inr, Option, none, some, List, [],
  ◌∷◌, Memᴰ, arith, ok, All, All-map, All-Mem, eq_iff, contains, contains-Mem, select-eq-nil,
  map-eq-nil, string_eq, ◌==◌, Bool-cases,
}
use my_ops.Task.{Question, FinalRule, Task}
use my_ops.Review.{Unicode, question_id, add_resolved, resolved, unresolved_p0, validate}
use my_ops.Review.Trace.{IsAnswered, FollowsAnswer, validate-IsTraceable}

add_resolved-Mem :
    (o : Option String) (rest : List String) (qid : String)
    → Memᴰ qid (add_resolved o rest)
    → (o ≡ some qid) ⊎ Memᴰ qid rest
add_resolved-Mem none rest qid m = inr m
add_resolved-Mem (some q) rest qid m = elim (Bool-cases (q == "")) [
  | inl blank ↦ inr (rw blank at m)
  | inr other ↦ front (rw other at m)
]
  where
    front : Memᴰ qid (q ∷ rest) → (some q ≡ some qid) ⊎ Memᴰ qid rest
    front (Memᴰ.head e) = inl (ap some (sym e))
    front (Memᴰ.tail r) = inr r

resolved-rule :
    (rules : List FinalRule) (qid : String)
    → Memᴰ qid (resolved rules)
    → (r : FinalRule) × Memᴰ r rules × (r.question_id ≡ some qid)
unfolding resolved
resolved-rule [] qid m = elim m [ ]
resolved-rule (r ∷ rules) qid m = elim (add_resolved-Mem r.question_id (resolved rules) qid m) [
  | inl e ↦ (r, Memᴰ.head refl, e)
  | inr rest ↦ let (r', among, e) = resolved-rule rules qid rest in (r', Memᴰ.tail among, e)
]

-- When no P0 question is left over in a task that `validate` accepts, the owner of the task has
-- answered every P0 question.
pub p0-IsAnswered :
    (u : Unicode) (task : Task)
    → validate u task ≡ ok tt
    → unresolved_p0 task ≡ []
    → All (λ q. q.priority ≡ "P0" → IsAnswered task q.id) task.questions
unfolding unresolved_p0
p0-IsAnswered u task h none_left =
    All-map answered task.questions
      (select-eq-nil _ task.questions (map-eq-nil question_id _ none_left))
  where
    answered :
        (q : Question)
        → (q.priority == "P0" && not (contains (resolved task.rules) q.id)) ≡ false
        → q.priority ≡ "P0"
        → IsAnswered task q.id
    answered q closed p0 =
        let (r, m, e) =
          resolved-rule task.rules q.id
            (contains-Mem (resolved task.rules) q.id (ground (arith, eq_iff q.priority "P0"))) in
        subst (FollowsAnswer task) e (
          All-Mem (λ r. FollowsAnswer task r.question_id) task.rules
            (validate-IsTraceable u task h).answers m)
