-- ===== src/Utils.antt =====
-- becky-utils/src/lib.rs: the run of a system command whose output is captured.
pub mod Memory
pub mod Processes
pub mod Runs
use becky.Base.{ℕ, ◌-◌, List, Option, none, some, Result, ok, err, Action}
use becky.Text.{Text}
use becky.State.{ExitStatus}
use becky.Os.{IoError}

-- `std::process::Output`
pub record Output : Type 0 where
  pub status : ExitStatus
  pub stdout : List ℕ
  pub stderr : List ℕ

pub record CommandRanResult : Type 0 where
  pub output : Output
  pub duration : ℕ

pub data CommandRanError : Type 0 where
  io : IoError → CommandRanError
  timed_out : ℕ → CommandRanError

-- Children whose output is piped, and the clock, in milliseconds.
pub record Pipes (W : Type 0) : Type 0 where
  pub now : W → ℕ × W
  pub spawn_piped : Text → List Text → Action W IoError ℕ
  pub wait_with_output : ℕ → Action W IoError Output
  -- `tokio::time::timeout` of that wait; `none` when the time is over, and the child that is
  -- dropped is killed then.
  pub output_within : ℕ → ℕ → W → Option (Result IoError Output) × W

module _ {W : Type 0} (pipes : Pipes W) where
  -- The clock is read for the duration, and for the log when there is none to return.
  finish : ℕ → Result IoError Output → Action W CommandRanError CommandRanResult
  finish t0 (ok output) w =
      let (t, w') = pipes.now w in (ok (record { output = output; duration = t - t0 }), w')
  finish t0 (err e) w = let (t, w') = pipes.now w in (err (io e), w')

  finish_within : ℕ → ℕ → Option (Result IoError Output) → Action W CommandRanError CommandRanResult
  unfolding finish
  finish_within timeout t0 (some output) w = finish t0 output w
  finish_within timeout t0 none w = let (t, w') = pipes.now w in (err (timed_out timeout), w')

  wait_for : Option ℕ → ℕ → ℕ → Action W CommandRanError CommandRanResult
  unfolding finish finish_within
  wait_for (some timeout) t0 child w =
      let (r, w') = pipes.output_within timeout child w in finish_within timeout t0 r w'
  wait_for none t0 child w = let (r, w') = pipes.wait_with_output child w in finish t0 r w'

  run_child : Option ℕ → ℕ → Result IoError ℕ → Action W CommandRanError CommandRanResult
  unfolding wait_for
  run_child timeout t0 (err e) w = (err (io e), w)
  run_child timeout t0 (ok child) w = wait_for timeout t0 child w

  unfoldable pub run_system_command :
      Text → List Text → Option ℕ → Action W CommandRanError CommandRanResult
  unfolding run_child
  run_system_command cmd args timeout w =
      let (t0, w₁) = pipes.now w in
      let (r, w₂) = pipes.spawn_piped cmd args w₁ in run_child timeout t0 r w₂
