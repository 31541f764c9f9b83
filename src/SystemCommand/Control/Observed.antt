-- ===== src/SystemCommand/Control/Observed.antt =====
-- The two looks at the process table, side by side.
use becky.Base.{◌≡◌, ap, arith, List, Option-cases, Bool-cases, inl, inr}
use becky.State.{FxExecutionState, is_running_state, running}
use becky.Os.{Os, Process, process}
use becky.SystemCommand.{FxSystemCommand}
use becky.SystemCommand.Match.{command_equal}
use becky.SystemCommand.Control.{
  is_running, is_running_in, current_system_state, observe, observe_pid, observe_scan, find_command,
}

observed_running :
    (c : FxSystemCommand) (s : FxExecutionState) (table : List Process)
    → is_running_in c s table ≡ is_running_state (observe c s table)
unfolding is_running_in observe observe_pid observe_scan
observed_running c (running pid) table = elim (Option-cases (process table pid)) [
  | inl gone ↦ ground arith
  | inr (p, here) ↦ elim (Bool-cases (command_equal c.command c.args p.cmd)) [
    | inl same ↦ ground arith
    | inr other ↦ ground arith
  ]
]
observed_running c _ table = elim (Option-cases (find_command c.command c.args table)) [
  | inl lost ↦ ground arith
  | inr (pid, found) ↦ ground arith
]

-- A command is running exactly when its observed state is `Running`, for every recorded state, and
-- both ask the host only for the process table.
pub is_running-current_system_state :
    {W : Type 0} (os : Os W) (c : FxSystemCommand) (w : W)
    → is_running os c w
      ≡ (is_running_state (current_system_state os c w).0, (current_system_state os c w).1)
unfolding is_running current_system_state
is_running-current_system_state os c w =
    ap (λ b. (b, (os.new_all w).1)) (observed_running c c.state (os.new_all w).0)
