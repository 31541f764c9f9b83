-- ===== src/SystemCommand/Signals.antt =====
-- Signals to a process, waiting for its end, and the accounting of a running process.
pub mod Exit
use becky.Base.{ℕ, zero, suc, List, Option, none, some, Bool, true, false, ◌==◌, nat_eq}
use becky.Base.{Result, ok, err, Action, ◌>>=◌, on_world, if◌then◌else◌, ◌++◌}
use becky.Text.{chars}
use becky.State.{ExitStatus}
use becky.Os.{
  DiskUsage, no_disk_usage, IoError, ErrorKind, Process, process, Signal, term, kill, Os,
}
use becky.SystemCommand.{
  FxSysCommandError, io, process_not_running, signal_failed_to_send, string, process_did_not_exit,
  SystemProcessRunningTokio, FxSystemProcessRunning, tokio, pid_only, get_pid,
}

abbrev pub is_some {ℓ} : {A : Type ℓ} → Option A → Bool
is_some none = false
is_some (some a) = true

abbrev pub destroy_exit_poll_attempts : ℕ
destroy_exit_poll_attempts = 100

-- in milliseconds
abbrev pub destroy_exit_poll_interval : ℕ
destroy_exit_poll_interval = 50

sent_to_process : Option Bool → Result FxSysCommandError (Unit {0})
sent_to_process (some true) = ok tt
sent_to_process (some false) = err signal_failed_to_send
sent_to_process none = err signal_failed_to_send

sent_to_group : ℕ → Result FxSysCommandError (Unit {0})
unfolding nat_eq
sent_to_group sent = if sent == 0 then ok tt else err signal_failed_to_send

is_invalid_input : ErrorKind → Bool
is_invalid_input ErrorKind.invalid_input = true
is_invalid_input _ = false

waited : Result IoError ExitStatus → Result FxSysCommandError (Unit {0})
unfolding is_invalid_input
waited (ok status) = ok tt
waited (err e) = if is_invalid_input e.kind then ok tt else err (io e)

joined : Option (List ℕ) → Result IoError ExitStatus → Result FxSysCommandError (Unit {0})
joined (some message) r = err (string (chars "destroy waiter task failed: " ++ message))
joined none (ok status) = ok tt
joined none (err e) = err (io e)

module _ {W : Type 0} (os : Os W) where
  unfoldable pub signal_process : ℕ → Signal → Action W FxSysCommandError (Unit {0})
  unfolding sent_to_process
  signal_process pid signal w =
      let (table, w') = os.new_all w in
      elim (process table pid) [
        | some p ↦ let (sent, w'') = os.kill_with pid signal w' in (sent_to_process sent, w'')
        | none ↦ (err process_not_running, w')
      ]

  unfoldable pub signal_process_group : ℕ → Signal → Action W FxSysCommandError (Unit {0})
  unfolding sent_to_group
  signal_process_group pid signal w =
      let (table, w') = os.new_all w in
      elim (process table pid) [
        | some p ↦ let (sent, w'') = os.kill_group pid signal w' in (sent_to_group sent, w'')
        | none ↦ (err process_not_running, w')
      ]

  unfoldable pub process_exists : ℕ → W → Bool × W
  process_exists pid w = let (table, w') = os.new_all w in (is_some (process table pid), w')

  -- The loop, by the attempts left, and the last look behind it.
  unfoldable pub poll_exit : ℕ → ℕ → Action W FxSysCommandError (Unit {0})
  poll_exit zero pid w =
      let (alive, w') = process_exists pid w in
      elim alive [ true ↦ (err (process_did_not_exit pid), w') | false ↦ (ok tt, w') ]
  poll_exit (suc attempts) pid w =
      let (alive, w') = process_exists pid w in
      elim alive [
        | true ↦ poll_exit attempts pid (os.sleep destroy_exit_poll_interval w')
        | false ↦ (ok tt, w')
      ]

  unfoldable pub wait_for_pid_exit : ℕ → Action W FxSysCommandError (Unit {0})
  wait_for_pid_exit = poll_exit destroy_exit_poll_attempts

  -- The task that `fx_start` spawned: it kills the child once it is told to, and ends with no kill
  -- when the channel is dropped.
  waiter : Bool → ℕ → W → Result IoError ExitStatus × W
  waiter true child w = let (killed, w') = os.kill_child child w in os.wait child w'
  waiter false child w = (ok 0, w)

  -- `waiter.await`
  await_waiter : Bool → ℕ → Action W FxSysCommandError (Unit {0})
  unfolding waiter joined
  await_waiter sent child w =
      let (r, w') = waiter sent child w in
      let (lost, w'') = os.join_error w' in (joined lost r, w'')

  wait_child : ℕ → Action W FxSysCommandError (Unit {0})
  unfolding waited
  wait_child child w = let (r, w') = os.wait child w in (waited r, w')

  -- `handle.tx.take()` and `handle.handle.take()`; what is taken is gone for a later call.
  reap : SystemProcessRunningTokio → Action W FxSysCommandError (Unit {0})
  unfolding await_waiter wait_child
  reap h = if h.handle then await_waiter h.tx h.child else wait_child h.child

  abbrev taken : SystemProcessRunningTokio → FxSystemProcessRunning
  taken h = tokio (record h { handle = false; tx = false })

  destroy_tokio :
      SystemProcessRunningTokio
      → W
      → Result FxSysCommandError (Unit {0}) × (FxSystemProcessRunning × W)
  unfolding reap
  destroy_tokio h w =
      let (r, w') = signal_process_group h.pid kill w in
      elim r [
        | err e ↦ (err e, (tokio h, w'))
        | ok _ ↦ let (r', w'') = reap h w' in (r', (taken h, w''))
      ]

  -- `FxSystemProcessRunning::destroy`, over the handle and the host.
  unfoldable pub destroy : Action (FxSystemProcessRunning × W) FxSysCommandError (Unit {0})
  unfolding destroy_tokio
  destroy (tokio h, w) = destroy_tokio h w
  destroy (pid_only pid, w) =
      on_world (signal_process pid kill >>= λ _. wait_for_pid_exit pid) (pid_only pid, w)

  -- `FxSystemProcessRunning::stop`
  unfoldable pub stop : FxSystemProcessRunning → Action W FxSysCommandError (Unit {0})
  stop (tokio h) = signal_process_group h.pid term
  stop (pid_only pid) = signal_process pid term

  abbrev metric : (Process → ℕ) → Option Process → ℕ
  metric read none = 0
  metric read (some p) = read p

  metric_of : (Process → ℕ) → FxSystemProcessRunning → W → ℕ × W
  metric_of read running w =
      let (table, w') = os.new_all w in (metric read (process table (get_pid running)), w')

  unfoldable pub accumulated_cpu_time : FxSystemProcessRunning → W → ℕ × W
  unfolding metric_of
  accumulated_cpu_time = metric_of (λ p. p.accumulated_cpu_time)

  abbrev disk_usage_of : Option Process → DiskUsage
  disk_usage_of none = no_disk_usage
  disk_usage_of (some p) = p.disk_usage

  unfoldable pub disk_usage : FxSystemProcessRunning → W → DiskUsage × W
  disk_usage running w =
      let (table, w') = os.new_all w in (disk_usage_of (process table (get_pid running)), w')

  unfoldable pub memory : FxSystemProcessRunning → W → ℕ × W
  unfolding metric_of
  memory = metric_of (λ p. p.memory)

  unfoldable pub virtual_memory : FxSystemProcessRunning → W → ℕ × W
  unfolding metric_of
  virtual_memory = metric_of (λ p. p.virtual_memory)

  unfoldable pub run_time : FxSystemProcessRunning → W → ℕ × W
  unfolding metric_of
  run_time = metric_of (λ p. p.run_time)
