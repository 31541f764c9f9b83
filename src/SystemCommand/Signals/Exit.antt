-- ===== src/SystemCommand/Signals/Exit.antt =====
-- Waiting for the end of a process, and what the signals report.
use becky.Base.{ℕ, zero, suc, ◌≤◌, ◌≡◌, ◌↔◌, ◌⊎◌, inl, inr, arith, none, false}
use becky.Base.{Bool-cases, ok, err}
use becky.Os.{process, Os, kill}
use becky.SystemCommand.{
  process_not_running, process_did_not_exit, FxSystemProcessRunning, tokio, pid_only, get_pid,
}
use becky.SystemCommand.Signals.{
  process_exists, poll_exit, wait_for_pid_exit, destroy_exit_poll_interval, signal_process,
  signal_process_group, stop, destroy,
}

module _ {W : Type 0} (os : Os W) (pid : ℕ) where
  -- The host before each look at the process table: a look and a pause come between two of them.
  abbrev pub look : ℕ → W → W
  look zero w = w
  look (suc k) w = look k (os.sleep destroy_exit_poll_interval (process_exists os pid w).1)

  -- The process is gone at one of the first `n + 1` looks.
  abbrev pub IsGone : ℕ → W → Type 0
  IsGone n w = (k : ℕ) × (k ≤ n) × ((process_exists os pid (look k w)).0 ≡ false)

  poll-IsGone : (n : ℕ) (w : W) → (poll_exit os n pid w).0 ≡ ok tt → IsGone n w
  unfolding poll_exit
  poll-IsGone zero w h = (0, omega arith, ground arith)
  poll-IsGone (suc n) w h = elim (Bool-cases (process_exists os pid w).0) [
    | inl alive ↦
        let (k, le, gone) = poll-IsGone n _ (unfold poll_exit in ground arith) in
        (suc k, omega arith, gone)
    | inr gone ↦ (0, omega arith, gone)
  ]

  poll_ok :
      (n k : ℕ) (w : W)
      → k ≤ n
      → (process_exists os pid (look k w)).0 ≡ false
      → (poll_exit os n pid w).0 ≡ ok tt
  unfolding poll_exit
  poll_ok zero zero w le gone = ground arith
  poll_ok zero (suc k) w le gone = elim le [ ]
  poll_ok (suc n) zero w le gone = ground arith
  poll_ok (suc n) (suc k) w le gone =
      ground (arith, poll_ok n k (os.sleep destroy_exit_poll_interval (process_exists os pid w).1))

  poll_total :
      (n : ℕ) (w : W)
      → ((poll_exit os n pid w).0 ≡ ok tt)
        ⊎ ((poll_exit os n pid w).0 ≡ err (process_did_not_exit pid))
  unfolding poll_exit
  poll_total zero w = ground arith
  poll_total (suc n) w =
      ground (arith, poll_total n (os.sleep destroy_exit_poll_interval (process_exists os pid w).1))

  -- The wait succeeds exactly when the process is gone at one of 101 looks, and fails only by
  -- reporting that pid.
  pub wait_for_pid_exit_iff :
      (w : W)
      → (((wait_for_pid_exit os pid w).0 ≡ ok tt) ↔ IsGone 100 w)
        × (((wait_for_pid_exit os pid w).0 ≡ ok tt)
            ⊎ ((wait_for_pid_exit os pid w).0 ≡ err (process_did_not_exit pid)))
  unfolding wait_for_pid_exit
  wait_for_pid_exit_iff w =
      ((poll-IsGone 100 w, λ (k, le, gone). poll_ok 100 k w le gone), poll_total 100 w)

module _ {W : Type 0} (os : Os W) where
  -- Stopping reports a process that is not running exactly when the process table lacks its pid.
  pub stop_iff :
      (r : FxSystemProcessRunning) (w : W)
      → ((stop os r w).0 ≡ err process_not_running) ↔ (process (os.new_all w).0 (get_pid r) ≡ none)
  unfolding stop signal_process signal_process_group
  stop_iff (tokio h) w = ground arith
  stop_iff (pid_only pid) w = ground arith

  -- Destroying a process that the table lacks fails, and leaves the handle as it was.
  pub destroy_missing :
      (r : FxSystemProcessRunning) (w : W)
      → process (os.new_all w).0 (get_pid r) ≡ none
      → destroy os (r, w) ≡ (err process_not_running, (r, (os.new_all w).1))
  unfolding destroy signal_process signal_process_group
  destroy_missing (tokio h) w e = ground arith
  destroy_missing (pid_only pid) w e = ground arith

  -- Destroying an attached process succeeds exactly when the signal was sent and the process is
  -- gone at one of 101 looks after it.
  pub destroy_attached_iff :
      (pid : ℕ) (w : W)
      → ((destroy os (pid_only pid, w)).0 ≡ ok tt) ↔ (
          ((signal_process os pid kill w).0 ≡ ok tt)
          × IsGone os pid 100 (signal_process os pid kill w).1)
  unfolding destroy
  destroy_attached_iff pid w =
      let after = (signal_process os pid kill w).1 in
      (
        λ h.
            let sent : (signal_process os pid kill w).0 ≡ ok tt = ground arith in
            let gone : (wait_for_pid_exit os pid after).0 ≡ ok tt = ground arith in
            (sent, (wait_for_pid_exit_iff os pid after).0.0 gone),
        λ (sent, gone). let ended = (wait_for_pid_exit_iff os pid after).0.1 gone in ground arith,
      )
