-- ===== src/Qemu/Manager/Steps.antt =====
-- The parts of a stop, and what each leaves in the manager.
pub mod Keeps
use becky.Base.{
  ℕ, ◌+◌, ◌≡◌, zero, suc, ap, sym, subst, ◌∙◌, arith, none, some, true, false, Eq, Option-cases,
}
use becky.Base.{
  Bool-cases, leb, inl, inr, get, get-remove, ok, err, Result, continue, map_err, both_of_bind,
  on_world, catch,
}
use becky.Text.{Text}
use becky.Qemu.Events.{qmp, system_powerdown}
use becky.SystemCommand.Signals.{process_exists}
use becky.Qemu.Manager.{
  QemuManager, QemuManagerStopError, not_found, metadata, QemuHost, WorkerControlHandle, stop,
  powerdown_with, after_powerdown, after_exit, end_worker, persist, record_stopped, forget, exited,
  wait_for_process_exit, poll_exit, qemu_stop_wait_timeout, qemu_stop_poll_interval,
}

module _ {K Q W : Type 0} ⦃e : Eq K⦄ (host : QemuHost K Q W) (fx_id : K) where
  end_worker_removes :
      (m : QemuManager K) (w : W) → get (end_worker host fx_id (m, w)).1.0.vmctl fx_id ≡ none
  unfolding end_worker
  end_worker_removes m w = elim (Option-cases (get m.vmctl fx_id)) [
    | inl lost ↦ ground arith
    | inr (worker, found) ↦ ground (arith, get-remove m.vmctl fx_id)
  ]

  persist-Keeps :
      (vm : ℕ) (m : QemuManager K) (w : W) → (persist host fx_id vm (m, w)).1.0.vmctl ≡ m.vmctl
  unfolding persist record_stopped forget
  persist-Keeps vm m w = ground arith

  persist_forgets :
      (vm : ℕ) (m : QemuManager K) (w : W)
      → (persist host fx_id vm (m, w)).0 ≡ ok tt
      → get (persist host fx_id vm (m, w)).1.0.vms fx_id ≡ none
  unfolding persist record_stopped forget
  persist_forgets vm m w h = ground (arith, get-remove m.vms fx_id)

  -- Whatever fails behind the wait, the worker is gone from the manager.
  after_exit_removes :
      (vm : ℕ) (m : QemuManager K) (w : W)
      → get (after_exit host fx_id vm (m, w)).1.0.vmctl fx_id ≡ none
  unfolding after_exit
  after_exit_removes vm m w = after_end (end_worker host fx_id (m, w)).0 _ (end_worker_removes m w)
    where
      after_end :
          (r : Result (QemuManagerStopError K) (Unit {0})) (s : QemuManager K × W)
          → get s.0.vmctl fx_id ≡ none
          → get (continue r (λ _. persist host fx_id vm) s).1.0.vmctl fx_id ≡ none
      after_end (ok _) (m', w') h = ap (λ c. get c fx_id) (persist-Keeps vm m' w') ∙ h
      after_end (err x) (m', w') h = h

  after_exit_forgets :
      (vm : ℕ) (m : QemuManager K) (w : W)
      → (after_exit host fx_id vm (m, w)).0 ≡ ok tt
      → get (after_exit host fx_id vm (m, w)).1.0.vms fx_id ≡ none
  unfolding after_exit
  after_exit_forgets vm m w h =
      let (_, _, rest, same) =
        both_of_bind (end_worker host fx_id) (λ _. persist host fx_id vm) (m, w) tt h in
      ap (λ r. get r.1.0.vms fx_id) same ∙ persist_forgets vm _ _ rest

  -- A manager with no worker for an identifier does not stop it.
  pub no_worker :
      (m : QemuManager K) (w : W)
      → get m.vmctl fx_id ≡ none
      → (stop host fx_id (m, w)).0 ≡ err (not_found fx_id)
  unfolding stop
  no_worker m w h = elim (Option-cases (get m.vms fx_id)) [
    | inl lost ↦ ground arith
    | inr (vm, found) ↦ ground arith
  ]

  pub ok_is_no_error :
      {r : Result (QemuManagerStopError K) (Unit {0})} {x : QemuManagerStopError K}
      → r ≡ err x
      → ¬ (r ≡ ok tt)
  ok_is_no_error f g = absurd (ground arith)

  not_metadata :
      {r : Result (QemuManagerStopError K) (Unit {0})} {message : Text}
      → r ≡ err (not_found fx_id)
      → ¬ (r ≡ err (metadata message))
  not_metadata f g = absurd (ground arith)

  poll_exit_gone :
      (n pid deadline : ℕ) (w : W)
      → (poll_exit host n pid deadline w).0 ≡ true
      → (u : W) × ((process_exists host.runtime.os pid u).0 ≡ false)
  unfolding poll_exit
  poll_exit_gone zero pid deadline w h =
      elim (Bool-cases (process_exists host.runtime.os pid w).0) [
        | inl alive ↦ absurd (ground arith)
        | inr gone ↦ (w, gone)
      ]
  poll_exit_gone (suc n) pid deadline w h =
      elim (Bool-cases (process_exists host.runtime.os pid w).0) [
        | inl alive ↦
            let seen = (process_exists host.runtime.os pid w).1 in
            elim (Bool-cases (leb deadline (host.runtime.now seen).0)) [
              | inl late ↦ absurd (ground arith)
              | inr early ↦
                  poll_exit_gone n pid deadline
                    (host.runtime.os.sleep qemu_stop_poll_interval (host.runtime.now seen).1)
                    (ground arith)
            ]
        | inr gone ↦ (w, gone)
      ]

  exited_gone :
      (pid : ℕ) (m : QemuManager K) (w : W)
      → (exited host fx_id pid (m, w)).0 ≡ ok tt
      → (u : W) × ((process_exists host.runtime.os pid u).0 ≡ false)
  unfolding exited wait_for_process_exit
  exited_gone pid m w h =
      poll_exit_gone 301 pid ((host.runtime.now w).0 + qemu_stop_wait_timeout)
        (host.runtime.now w).1 (ground arith)

  -- What a result of the last part says of the manager.
  abbrev pub Removed : Result (QemuManagerStopError K) (Unit {0}) × (QemuManager K × W) → Type 0
  Removed (r, (m, w)) = (get m.vms fx_id ≡ none) × (get m.vmctl fx_id ≡ none)

  pub powerdown_ok :
      (vm pid : ℕ) (worker : WorkerControlHandle) (m : QemuManager K) (w : W)
      → (powerdown_with host fx_id vm pid worker (m, w)).0 ≡ ok tt
      → ((u : W) × ((process_exists host.runtime.os pid u).0 ≡ false))
        × Removed (powerdown_with host fx_id vm pid worker (m, w))
  unfolding powerdown_with after_powerdown exited
  powerdown_ok vm pid worker m w h =
      let (_, _, h₁, same) =
        both_of_bind
          (on_world (
            catch QemuManagerStopError.send
              (host.send_command worker.sender (qmp system_powerdown))))
          (λ _. after_powerdown host fx_id vm pid) (m, w) tt h in
      let (_, gone, h₂, same') =
        both_of_bind (exited host fx_id pid) (λ _. after_exit host fx_id vm) _ tt h₁ in
      (
        exited_gone pid m _ gone,
        subst Removed (sym (same ∙ same'))
            (after_exit_forgets vm m _ h₂, after_exit_removes vm m _),
      )

  pub stop_found :
      (vm : ℕ) (worker : WorkerControlHandle) (m : QemuManager K) (w : W)
      → get m.vms fx_id ≡ some vm
      → get m.vmctl fx_id ≡ some worker
      → let (instance', w') = host.read_instance vm w in
        stop host fx_id (m, w) ≡ powerdown_with host fx_id vm instance'.pid worker (m, w')
  unfolding stop
  stop_found vm worker m w f g = ground arith

  failed_after_exit :
      (vm pid : ℕ) (m : QemuManager K) (w : W) (message : Text)
      → (after_powerdown host fx_id vm pid (m, w)).0 ≡ err (metadata message)
      → get (after_powerdown host fx_id vm pid (m, w)).1.0.vmctl fx_id ≡ none
  unfolding after_powerdown exited
  failed_after_exit vm pid m w message h =
      let (gone, w') = wait_for_process_exit host pid qemu_stop_wait_timeout w in
      elim (Bool-cases gone) [
        | inl ended ↦ ground (arith, after_exit_removes vm m w')
        | inr late ↦ absurd (ground arith)
      ]

  failed_powerdown :
      (vm pid : ℕ) (worker : WorkerControlHandle) (m : QemuManager K) (w : W) (message : Text)
      → (powerdown_with host fx_id vm pid worker (m, w)).0 ≡ err (metadata message)
      → get (powerdown_with host fx_id vm pid worker (m, w)).1.0.vmctl fx_id ≡ none
  unfolding powerdown_with
  failed_powerdown vm pid worker m w message h =
      after_send (host.send_command worker.sender (qmp system_powerdown) w).0 _ h
    where
      after_send :
          (r : Result Text (Unit {0})) (v : W)
          → (continue
              (map_err QemuManagerStopError.send r)
              (λ _. after_powerdown host fx_id vm pid)
              (m, v)).0
            ≡ err (metadata message)
          → get
              (continue
                (map_err QemuManagerStopError.send r)
                (λ _. after_powerdown host fx_id vm pid)
                (m, v)).1.0.vmctl
              fx_id
            ≡ none
      after_send (ok _) v e = failed_after_exit vm pid m v message e
      after_send (err x) v e = absurd (ground arith)

  pub vmctl_after_failure :
      (m : QemuManager K) (w : W) (message : Text)
      → (stop host fx_id (m, w)).0 ≡ err (metadata message)
      → get (stop host fx_id (m, w)).1.0.vmctl fx_id ≡ none
  vmctl_after_failure m w message h = elim (Option-cases (get m.vms fx_id)) [
    | inl lost ↦ absurd (unfold stop in ground arith)
    | inr (vm, found) ↦ elim (Option-cases (get m.vmctl fx_id)) [
      | inl idle ↦ absurd (not_metadata (no_worker m w idle) h)
      | inr (worker, busy) ↦
          let same = stop_found vm worker m w found busy in
          ap (λ r. get r.1.0.vmctl fx_id) same
          ∙ failed_powerdown vm _ worker m _ message (ap (λ r. r.0) (sym same) ∙ h)
    ]
  ]
