-- ===== src/Engine/Confirmed.antt =====
-- engine.py and gates.py: generation starts only on a fresh confirmation.
use my_ops.Prelude.{
  ◌≡◌, refl, sym, ap, ◌∙◌, String, true, inl, inr, Option, none, some, ok, ◌==◌, string_eq,
  if◌then◌else◌, >>-eq-ok,
}
use mathlib.Core.Option.{some-injective}
use my_ops.Task.{State, ready, generating, allowed, Task, Confirmation}
use my_ops.Review.{Unicode}
use my_ops.Gate.{gate}
use my_ops.Gate.Laws.{IsConfirmed, gate-IsCleared}
use my_ops.Store.{Db, bump, project_processing}
use my_ops.Engine.{Export, Command, confirm_cmd, formal_text, begin_generation, act}
use my_ops.Engine.Actions.{transition-eq-ok}
use my_ops.Engine.Life.{LeavesConfirmation, act-IsAct}

-- The mode that a text of confirmation stands for.
abbrev pub mode_of : String → String
mode_of text = if text == formal_text then "formal" else "draft"

to_generating : (s : State) → allowed s generating ≡ true → s ≡ ready
unfolding allowed
to_generating ready e = refl
to_generating _ e = cc

-- A task from which generation can begin is ready, with a confirmation of the mode.
abbrev HasConfirmation : Task → String → Type 0
HasConfirmation t mode = (c : Confirmation) × (t.confirmation ≡ some c) × (c.mode ≡ mode)

begin-HasConfirmation :
    (u : Unicode) (mode : String) (s t : Task)
    → begin_generation u mode s ≡ ok t
    → (s.state ≡ ready) × HasConfirmation s mode
unfolding begin_generation
begin-HasConfirmation u mode s t h =
    let (cleared, moved) = >>-eq-ok (gate u s mode) _ h in
    (
      to_generating s.state (transition-eq-ok generating s t moved).0,
      held s.confirmation refl (gate-IsCleared u s mode cleared).confirmation,
    )
  where
    held :
        (o : Option Confirmation)
        → s.confirmation ≡ o
        → IsConfirmed s mode o
        → HasConfirmation s mode
    held none e c = absurd c
    held (some x) e c = (x, e, c.0)

-- What a command that left a task ready and confirmed must have been.
confirmed_by :
    (c : Command) (t t' : Task) (mode : String)
    → LeavesConfirmation c t t'
    → t'.state ≡ ready
    → HasConfirmation t' mode
    → (text : String) × (c ≡ confirm_cmd text) × (mode_of text ≡ mode)
confirmed_by (confirm_cmd text) t t' mode left e (x, has, m) =
    (text, refl, ap (λ (c : Confirmation). c.mode) (some-injective _ _ (sym left ∙ has)) ∙ m)
confirmed_by _ t t' mode (inl nothing) e (x, has, m) = cc
confirmed_by _ t t' mode (inr other) e has = absurd (other e)

-- Generation begins on a task as a change stored it only if that change was the confirmation of
-- this very mode: any other command in between, also one that leaves the task ready, stops it.
pub begin_after_confirm :
    (u : Unicode) (export : Export) (user : String) (c : Command) (mode : String) (db : Db)
    (t between after : Task)
    → act u export user c t ≡ ok between
    → begin_generation u mode (bump db between) ≡ ok after
    → (text : String) × (c ≡ confirm_cmd text) × (mode_of text ≡ mode)
unfolding project_processing
begin_after_confirm u export user c mode db t between after h begun =
    let (state, has) = begin-HasConfirmation u mode (bump db between) after begun in
    confirmed_by c t between mode (act-IsAct u export user c t between h).confirmation state has
