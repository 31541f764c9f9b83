-- ===== src/Qemu/Manager/Waits.antt =====
-- The rounds of the wait for a machine's end.
use becky.Base.{ℕ, zero, suc, ◌+◌, ◌*◌, ◌≤◌, ◌≡◌, refl, arith, Bool-cases, inl, inr, true, leb}
use becky.Runtime.Time.{clock, KeepsTime}
use becky.SystemCommand.Signals.{process_exists}
use becky.Qemu.Manager.{
  QemuHost, poll_exit, wait_for_process_exit, exit_rounds, qemu_stop_poll_interval,
}

module _ {K Q W : Type 0} (host : QemuHost K Q W) (L : KeepsTime host.runtime) where
  looks_later :
      (pid : ℕ) (w : W)
      → clock host.runtime w ≤ clock host.runtime (process_exists host.runtime.os pid w).1
  unfolding process_exists
  looks_later pid w = L.new_all_later w

  abbrev next_look : ℕ → W → W
  next_look pid w =
      host.runtime.os.sleep qemu_stop_poll_interval
        (host.runtime.now (process_exists host.runtime.os pid w).1).1

  round_later :
      (pid : ℕ) (w : W)
      → clock host.runtime w + qemu_stop_poll_interval ≤ clock host.runtime (next_look pid w)
  round_later pid w = omega (
    arith,
    looks_later pid w,
    L.now_later (process_exists host.runtime.os pid w).1,
    L.sleep_later qemu_stop_poll_interval
        (host.runtime.now (process_exists host.runtime.os pid w).1).1,
  )

  poll_exit_enough :
      (n m pid deadline : ℕ) (w : W)
      → n ≤ m
      → deadline ≤ clock host.runtime w + qemu_stop_poll_interval * n
      → poll_exit host m pid deadline w ≡ poll_exit host n pid deadline w
  unfolding poll_exit
  poll_exit_enough zero zero pid deadline w le h = refl
  poll_exit_enough zero (suc m) pid deadline w le h =
      elim (Bool-cases (process_exists host.runtime.os pid w).0) [
        | inl alive ↦
            let seen = (process_exists host.runtime.os pid w).1 in
            let late : leb deadline (host.runtime.now seen).0 ≡ true =
              grind (arith, looks_later pid w) in
            rw (alive, late, poll_exit) refl
        | inr gone ↦ rw (gone, poll_exit) refl
      ]
  poll_exit_enough (suc n) zero pid deadline w le h = absurd (omega arith)
  poll_exit_enough (suc n) (suc m) pid deadline w le h =
      elim (Bool-cases (process_exists host.runtime.os pid w).0) [
        | inl alive ↦
            elim (Bool-cases
              (leb deadline (host.runtime.now (process_exists host.runtime.os pid w).1).0)) [
                | inl late ↦ rw (alive, late, poll_exit) refl
                | inr early ↦
                    rw (alive, early, poll_exit)
                      (poll_exit_enough n m pid deadline (next_look pid w) (omega arith)
                        (omega (arith, round_later pid w)))
              ]
        | inr gone ↦ rw (gone, poll_exit) refl
      ]

  -- Any more rounds leave the answer of the wait as it is, if the clock keeps time: the rounds that
  -- it is given reach the deadline.
  pub qemu_wait_rounds :
      (pid timeout rounds : ℕ) (w : W)
      → exit_rounds timeout ≤ rounds
      → poll_exit host rounds pid (clock host.runtime w + timeout) (host.runtime.now w).1
        ≡ wait_for_process_exit host pid timeout w
  unfolding wait_for_process_exit
  qemu_wait_rounds pid timeout rounds w le =
      poll_exit_enough (exit_rounds timeout) rounds pid (clock host.runtime w + timeout) _ le
        (omega (arith, L.now_later w))
