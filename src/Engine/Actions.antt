-- ===== src/Engine/Actions.antt =====
-- engine.py: what each action does to the identity, the state and the confirmation of a task.
use my_ops.Prelude.{
  ◌≡◌, ◌≢◌, refl, sym, subst, ap, ◌∙◌, true, inl, inr, none, ok, nat_eq, string_eq, Bool-cases,
  >>=-eq-ok, >>-eq-ok, ok-injective,
}
use my_ops.Task.{
  State, collecting, review, ready, generating, generated, cancelled, Task, allowed, transition,
}
use my_ops.Review.{Unicode}
use my_ops.Engine.{edit_state, edit, validated}

-- The life of a task, as a path of single transitions.
infix 40 ◌⟶*◌
pub data ◌⟶*◌ (s : State) : State → Type 0 where
  here : s ⟶* s
  next : {t u : State} → s ⟶* t → allowed t u ≡ true → s ⟶* u

-- An action that went from `t` to `t'`.
pub record IsMove (t t' : Task) : Type 0 where
  pub id : t'.id ≡ t.id
  pub user : t'.user_id ≡ t.user_id
  pub version : t'.version ≡ t.version
  pub path : t.state ⟶* t'.state

pub IsMove-refl : (t : Task) → IsMove t t
IsMove-refl t = record { id = refl; user = refl; version = refl; path = here }

pub ⟶*-trans : {a b c : State} → a ⟶* b → b ⟶* c → a ⟶* c
⟶*-trans p here = p
⟶*-trans p (next q e) = next (⟶*-trans p q) e

pub IsMove-trans : {a b c : Task} → IsMove a b → IsMove b c → IsMove a c
IsMove-trans p q = record {
  id = q.id ∙ p.id;
  user = q.user ∙ p.user;
  version = q.version ∙ p.version;
  path = ⟶*-trans p.path q.path;
}

pub transition-eq-ok :
    (s : State) (t t' : Task)
    → transition s t ≡ ok t'
    → (allowed t.state s ≡ true) × (t' ≡ record t { state = s })
unfolding transition
transition-eq-ok s t t' h = elim (Bool-cases (allowed t.state s)) [
  | inl e ↦ (e, sym (ok-injective (rw (e, transition) at h)))
  | inr e ↦ cc (rw (e, transition) at h)
]

pub transition-IsMove : (s : State) (t t' : Task) → transition s t ≡ ok t' → IsMove t t'
transition-IsMove s t t' h =
    let (e, same) = transition-eq-ok s t t' h in
    subst (IsMove t) (sym same)
      (record { id = refl; user = refl; version = refl; path = next here e })

-- What `edit` does: the task is or comes back to a state that can be edited, not confirmed.
pub record IsEdit (t t' : Task) : Type 0 where
  pub move : IsMove t t'
  pub unconfirmed : t'.confirmation ≡ none
  pub alive : t.state ≢ cancelled
  pub rules : t'.rules ≡ t.rules

edit_state-eq-ok :
    (s : State) (t m : Task)
    → t.state ≡ s
    → edit_state s t ≡ ok m
    → IsMove t m × (t.state ≢ cancelled) × (m.rules ≡ t.rules)
unfolding edit_state
edit_state-eq-ok cancelled t m e h = cc
edit_state-eq-ok generating t m e h = cc
edit_state-eq-ok ready t m e h =
    let (_, same) = transition-eq-ok review t m h in
    (transition-IsMove review t m h, λ d. cc, ap (λ (x : Task). x.rules) same)
edit_state-eq-ok generated t m e h =
    let (_, same) = transition-eq-ok review t m h in
    (transition-IsMove review t m h, λ d. cc, ap (λ (x : Task). x.rules) same)
edit_state-eq-ok collecting t m e h =
    let same = ok-injective h in
    (subst (IsMove t) same (IsMove-refl t), λ d. cc, ap (λ (x : Task). x.rules) (sym same))
edit_state-eq-ok review t m e h =
    let same = ok-injective h in
    (subst (IsMove t) same (IsMove-refl t), λ d. cc, ap (λ (x : Task). x.rules) (sym same))

pub edit-IsEdit : (t t' : Task) → edit t ≡ ok t' → IsEdit t t'
unfolding edit
edit-IsEdit t t' h =
    let (m, moved, same) = >>=-eq-ok (edit_state t.state t) _ h in
    let (move, alive, rules) = edit_state-eq-ok t.state t m refl moved in
    subst (IsEdit t) (ok-injective same) (record {
      move = record { id = move.id; user = move.user; version = move.version; path = move.path };
      unconfirmed = refl;
      alive = alive;
      rules = rules;
    })

pub validated-eq-ok : (u : Unicode) (t t' : Task) → validated u t ≡ ok t' → t ≡ t'
unfolding validated
validated-eq-ok u t t' h = ok-injective (>>-eq-ok _ _ h).1
