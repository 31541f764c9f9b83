-- ===== src/RustFn/Exit.antt =====
-- Signals to a worker, and the wait for its end.
pub mod Waits
use becky.Base.{ℕ, zero, suc, ◌+◌, ◌-◌, ◌/◌, [], Option, none, some, Bool, true, false, leb}
use becky.Base.{Result, ok, err, Action, if◌then◌else◌}
use becky.Os.{Process, process, Signal, Os}
use becky.Runtime.{Runtime}
use becky.SystemCommand.Signals.{process_exists}
use becky.RustFn.{RustFnError, signal_failed, stale_pid_file, stop_timeout}

-- in milliseconds
abbrev pub exit_poll_interval : ℕ
exit_poll_interval = 50

sent : ℕ → Option Bool → Result RustFnError (Unit {0})
sent pid (some true) = ok tt
sent pid (some false) = err (signal_failed pid)
sent pid none = err (signal_failed pid)

unfoldable pub signal_process : {W : Type 0} → Os W → ℕ → Signal → Action W RustFnError (Unit {0})
unfolding sent
signal_process os pid signal w =
    let (table, w') = os.new_all w in
    elim (process table pid) [
      | some p ↦ let (s, w'') = os.kill_with pid signal w' in (sent pid s, w'')
      | none ↦ (err (stale_pid_file [] pid), w')
    ]

abbrev pub exit_rounds : ℕ → ℕ
exit_rounds timeout = timeout / exit_poll_interval + 1

module _ {W M : Type 0} (rt : Runtime W M) where
  -- The loop, by the rounds left; the round after them counts as the timeout.
  unfoldable pub poll_exit : ℕ → ℕ → ℕ → ℕ → Action W RustFnError (Unit {0})
  poll_exit zero pid start timeout w =
      let (alive, w₁) = process_exists rt.os pid w in
      let (time, w₂) = rt.now w₁ in
      elim alive [ true ↦ (err (stop_timeout pid timeout), w₂) | false ↦ (ok tt, w₁) ]
  poll_exit (suc rounds) pid start timeout w =
      let (alive, w₁) = process_exists rt.os pid w in
      let (time, w₂) = rt.now w₁ in
      elim alive [
        | true ↦ elim (leb timeout (time - start)) [
          | true ↦ (err (stop_timeout pid timeout), w₂)
          | false ↦ poll_exit rounds pid start timeout (rt.os.sleep exit_poll_interval w₂)
        ]
        | false ↦ (ok tt, w₁)
      ]

  unfoldable pub wait_for_process_exit : ℕ → ℕ → Action W RustFnError (Unit {0})
  unfolding poll_exit
  wait_for_process_exit pid timeout w =
      let (start, w') = rt.now w in poll_exit (exit_rounds timeout) pid start timeout w'
