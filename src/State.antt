-- ===== src/State.antt =====
-- becky-engine/src/state.rs: the execution states.
use becky.Base.{ℕ, Bool, true, false}
use becky.Text.{Text}

-- On Unix an `ExitStatus` is the raw status of `wait`; success is a raw status of 0.
abbrev pub ExitStatus : Type 0
ExitStatus = ℕ

pub data FxExecutionState : Type 0 where
  not_started not_available stopped : FxExecutionState
  paused running : ℕ → FxExecutionState
  unrunnable blocked insufficient_funds unknown : FxExecutionState
  exited : ExitStatus → FxExecutionState
  error : Text → FxExecutionState

pub data FxDesiredExecutionState : Type 0 where
  running stopped paused : FxDesiredExecutionState

-- `matches!(state, FxExecutionState::Running(_))`
abbrev pub is_running_state : FxExecutionState → Bool
is_running_state (FxExecutionState.running pid) = true
is_running_state _ = false
