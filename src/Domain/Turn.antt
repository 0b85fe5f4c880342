-- ===== src/Domain/Turn.antt =====
-- crates/domain/src/turn.rs, run_step.rs, run.rs and session.rs: the turn's transition table, and the states of
-- the aggregates that have no table.
use zmodbit.Prelude.{
  ◌≡◌, refl, ap, ◌⊎◌, inl, inr, Bool, true, false, ◌&&◌, List, [], ◌∷◌, ◌++◌, Any, ℕ, arith,
}
use zmodbit.Domain.Events.{StepType}

pub data TurnState : Type 0 where
  prepared streaming executing verifying completed interrupted failed : TurnState

unfoldable pub can_transition : TurnState → TurnState → Bool
can_transition prepared streaming = true
can_transition streaming executing = true
can_transition executing streaming = true
can_transition executing executing = true
can_transition executing verifying = true
can_transition verifying completed = true
can_transition verifying executing = true
can_transition _ interrupted = true
can_transition _ failed = true
can_transition _ _ = false

pub data RunStepState : Type 0 where
  step_prepared step_running step_completed step_failed : RunStepState

pub record RunStep : Type 0 where
  pub step_type : StepType
  pub state : RunStepState
  pub ordinal : ℕ

pub data RunState : Type 0 where
  run_prepared run_running run_completed run_failed run_cancelled : RunState

pub data SessionState : Type 0 where
  session_active session_archived : SessionState

-- Every step from `s` through the listed states is in the table.
unfoldable pub legal : TurnState → List TurnState → Bool
legal s [] = true
legal s (t ∷ ts) = can_transition s t && legal t ts

-- The states hold an execution that was verified and then completed.
abbrev pub Verified : List TurnState → Type 0
Verified ts =
    (a : List TurnState) × (b : List TurnState) × (ts ≡ a ++ executing ∷ verifying ∷ completed ∷ b)

Verified-cons : (t : TurnState) {ts : List TurnState} → Verified ts → Verified (t ∷ ts)
Verified-cons t (a, b, e) = (t ∷ a, b, ap (◌∷◌ t) e)

-- What a later completion says of the states after `s`.
abbrev Shape : TurnState → List TurnState → Type 0
Shape prepared ts = (r : List TurnState) × (ts ≡ streaming ∷ r) × Verified r
Shape streaming ts = Verified ts
Shape executing ts = Verified (executing ∷ ts)
Shape verifying ts = Verified (executing ∷ verifying ∷ ts)
Shape completed ts = ⊥
Shape interrupted ts = ⊥
Shape failed ts = ⊥

abbrev Completes : List TurnState → Type 0
Completes ts = Any (λ t. t ≡ completed) ts

next_Shape :
    (s t : TurnState) (ts : List TurnState)
    → can_transition s t ≡ true
    → (t ≡ completed) ⊎ Shape t ts
    → Shape s (t ∷ ts)
unfolding can_transition
next_Shape prepared streaming ts h (inr v) = (ts, refl, v)
next_Shape streaming executing ts h (inr v) = v
next_Shape executing streaming ts h (inr v) = Verified-cons executing (Verified-cons streaming v)
next_Shape executing executing ts h (inr v) = Verified-cons executing v
next_Shape executing verifying ts h (inr v) = v
next_Shape verifying completed ts h w = ([], ts, refl)
next_Shape verifying executing ts h (inr v) = Verified-cons executing (Verified-cons verifying v)
next_Shape _ interrupted ts h (inr v) = absurd v
next_Shape _ failed ts h (inr v) = absurd v
next_Shape _ completed ts h (inr v) = absurd v
next_Shape _ completed ts h (inl g) = cc
next_Shape _ _ ts h (inl g) = cc
next_Shape _ _ ts h (inr v) = cc

legal-Shape : (s : TurnState) (ts : List TurnState) → legal s ts ≡ true → Completes ts → Shape s ts
unfolding legal
legal-Shape s [] h c = absurd c
legal-Shape s (t ∷ ts) h (inl g) = next_Shape s t ts (ground arith) (inl g)
legal-Shape s (t ∷ ts) h (inr c) =
    next_Shape s t ts (ground arith) (inr (legal-Shape t ts (ground arith) c))

-- A turn that is completed after legal transitions from `prepared` went to `streaming` first, and executed, was
-- verified and completed in three consecutive states after that.
pub legal-Verified :
    (ts : List TurnState)
    → legal prepared ts ≡ true
    → Any (λ t. t ≡ completed) ts
    → (r : List TurnState) × (ts ≡ streaming ∷ r) × Verified r
legal-Verified ts h c = legal-Shape prepared ts h c
