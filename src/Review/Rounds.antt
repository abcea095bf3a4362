-- ===== src/Review/Rounds.antt =====
-- review.py, the loop over the questions: what it keeps across questions.
use my_ops.Prelude.{
  ℕ, suc, ◌+◌, ◌≤◌, ◌≡◌, subst, String, true, false, ◌⊎◌, inl, inr, List, [], ◌∷◌, arith, ok, All,
  >>=-eq-ok, >>-eq-ok, raise_if-eq-ok, eq_iff, count, length, distinct, ltb, nat_eq, string_eq,
  list_eq, ◌==◌, if◌then◌else◌, Bool-cases, ==→eq, ok-injective,
}
use my_ops.Task.{Question, Task}
use my_ops.Review.{
  Unicode, normalized, Seen, sources_of, check_conflict, count_round, check_question,
  check_questions, unseen, validate,
}
use my_ops.Review.Trace.{validate-Accepted}

-- The rounds of the P1 questions, in order.
abbrev pub p1_rounds : List Question → List ℕ
p1_rounds [] = []
p1_rounds (q ∷ qs) = let rest = p1_rounds qs in if q.priority == "P1" then q.round ∷ rest else rest

-- What a question that is accepted satisfies by itself.
pub record IsWellPosed (task : Task) (q : Question) : Type 0 where
  pub priority : (q.priority ≡ "P0") ⊎ (q.priority ≡ "P1")
  pub skip : q.skipped ≡ true → q.priority ≡ "P1"
  pub numbered : 1 ≤ q.round
  pub conflict :
      q.conflict ≡ true
      → (refs : List String) × (sources_of task.requirements q.requirement_ids ≡ ok refs)
        × (2 ≤ length (distinct refs))
        × (q.priority ≡ "P0")

-- A round gets its fourth P1 question never.
room_left :
    (r n : ℕ) (rounds : List ℕ)
    → ltb 3 (count r rounds + 1) ≡ false
    → count n rounds ≤ 3
    → count n (r ∷ rounds) ≤ 3
room_left r n rounds free b = elim (Bool-cases (r == n)) [
  | inl same ↦ rw same (subst (λ m. suc (count m rounds) ≤ 3) (==→eq r n same) (ground arith))
  | inr other ↦ rw other b
]

count_round_fact :
    (seen seen' : Seen) (q : Question) (n : ℕ)
    → count_round seen q ≡ ok seen'
    → count n seen.rounds ≤ 3
    → (count n (p1_rounds (q ∷ [])) + count n seen.rounds ≡ count n seen'.rounds)
      × (count n seen'.rounds ≤ 3)
unfolding count_round
count_round_fact seen seen' q n h b = elim (Bool-cases (q.priority == "P1")) [
  | inl first ↦
      let (free, same) = >>-eq-ok _ _ (rw first at h) in
      let e : record seen { rounds = q.round ∷ seen.rounds } ≡ seen' = ok-injective same in
      rw (first, ← e) (ground arith, room_left q.round n seen.rounds (raise_if-eq-ok _ _ free) b)
  | inr other ↦
      let e : seen ≡ seen' = ok-injective (rw other at h) in rw (other, ← e) (omega arith, b)
]

conflict_fact :
    (task : Task) (q : Question)
    → check_conflict task q ≡ ok tt
    → (refs : List String) × (sources_of task.requirements q.requirement_ids ≡ ok refs)
      × (2 ≤ length (distinct refs))
      × (q.priority ≡ "P0")
unfolding check_conflict
conflict_fact task q g =
    let (refs, found, two) = >>=-eq-ok (sources_of task.requirements q.requirement_ids) _ g in
    (refs, found, ground arith, ground (arith, eq_iff q.priority "P0"))

abbrev with_texts : Unicode → Seen → Question → Seen
with_texts u seen q = record seen {
  keys = normalized u q.key ∷ seen.keys;
  texts = normalized u q.text ∷ seen.texts;
}

question_fact :
    (u : Unicode) (task : Task) (seen seen' : Seen) (q : Question)
    → check_question u task seen q ≡ ok seen'
    → IsWellPosed task q
      × ((n : ℕ)
          → count n seen.rounds ≤ 3
          → (count n (p1_rounds (q ∷ [])) + count n seen.rounds ≡ count n seen'.rounds)
            × (count n seen'.rounds ≤ 3))
unfolding check_question
question_fact u task seen seen' q h =
    let conflict : (if q.conflict then check_conflict task q else ok tt) ≡ ok tt = ground arith in
    let counted : count_round (with_texts u seen q) q ≡ ok seen' = ground arith in
    (
      record {
        priority = ground (arith, eq_iff q.priority "P0", eq_iff q.priority "P1");
        skip = λ s. ground (arith, eq_iff q.priority "P1");
        numbered = ground arith;
        conflict = λ c. conflict_fact task q (rw c at conflict);
      },
      λ n b. count_round_fact _ seen' q n counted b,
    )

p1_rounds-cons :
    (n : ℕ) (q : Question) (qs : List Question)
    → count n (p1_rounds (q ∷ qs)) ≡ count n (p1_rounds (q ∷ [])) + count n (p1_rounds qs)
p1_rounds-cons n q qs = ground arith

questions_fact :
    (u : Unicode) (task : Task) (seen : Seen) (qs : List Question)
    → check_questions u task seen qs ≡ ok tt
    → All (IsWellPosed task) qs
      × ((n : ℕ) → count n seen.rounds ≤ 3 → count n (p1_rounds qs) + count n seen.rounds ≤ 3)
unfolding check_questions
questions_fact u task seen [] h = (tt, λ n b. omega arith)
questions_fact u task seen (q ∷ qs) h =
    let (seen', first, rest) = >>=-eq-ok (check_question u task seen q) _ h in
    let (posed, step) = question_fact u task seen seen' q first in
    let (others, limit) = questions_fact u task seen' qs rest in
    ((posed, others), λ n b. omega (arith, p1_rounds-cons n q qs, step n b, limit n (step n b).1))

-- In a task that `validate` accepts no round has more than three P1 questions; every question is
-- P0 or P1, only a P1 question is skipped, and a question about a conflict is P0 and rests on at
-- least two different sources.
pub validate-rounds :
    (u : Unicode) (task : Task)
    → validate u task ≡ ok tt
    → ((n : ℕ) → count n (p1_rounds task.questions) ≤ 3) × All (IsWellPosed task) task.questions
validate-rounds u task h =
    let (posed, limit) =
      questions_fact u task unseen task.questions (validate-Accepted u task h).questions in
    (λ n. omega (arith, limit n (omega arith)), posed)
