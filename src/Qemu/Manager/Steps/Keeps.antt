-- ===== src/Qemu/Manager/Steps/Keeps.antt =====
-- The workers of a manager that stops a machine.
use becky.Base.{
  ℕ, ◌≡◌, none, inl, inr, Eq, get, Option-cases, Keeps, Keeps-bind, keeps_rest, on_world, catch,
}
use becky.State.{stopped}
use becky.Qemu.Events.{qmp, system_powerdown}
use becky.Qemu.Manager.{
  QemuManager, QemuManagerStopError, metadata, QemuHost, WorkerControlHandle, stop, powerdown_with,
  after_powerdown, after_exit, end_worker, persist, record_stopped, forget, exited,
}
use becky.Qemu.Manager.Known.{WorkersKnown, remove_worker_known, remove_vm_known}
use becky.Qemu.Manager.Steps.{end_worker_removes}

module _ {K Q W : Type 0} ⦃e : Eq K⦄ (host : QemuHost K Q W) (fx_id : K) where
  abbrev Known : QemuManager K × W → Type 0
  Known s = WorkersKnown s.0

  -- A manager with no worker for the machine.
  abbrev Idle : QemuManager K × W → Type 0
  Idle s = WorkersKnown s.0 × (get s.0.vmctl fx_id ≡ none)

  end_worker_keeps : (s : QemuManager K × W) → Known s → Known (end_worker host fx_id s).1
  unfolding end_worker
  end_worker_keeps (m, w) h = elim (Option-cases (get m.vmctl fx_id)) [
    | inl lost ↦ rw (lost, end_worker) h
    | inr (worker, found) ↦ rw (found, end_worker) (remove_worker_known m fx_id h)
  ]

  record_stopped-Keeps : (qemu : Q) → Keeps Idle (record_stopped host fx_id qemu)
  unfolding record_stopped
  record_stopped-Keeps qemu =
      Keeps-bind {m = on_world (catch metadata (host.state_update fx_id stopped))}
        (record { at = λ s h. h }) (λ _. record { at = λ s h. h })

  forget-Keeps : Keeps Idle (forget host fx_id)
  unfolding forget
  forget-Keeps = record { at = λ s h. (remove_vm_known s.0 fx_id h.1 h.0, h.1) }

  persist-Keeps : (vm : ℕ) → Keeps Idle (persist host fx_id vm)
  unfolding persist
  persist-Keeps vm = record {
    at = λ s h.
        let (shared, w') = host.read_instance vm s.1 in
        (Keeps-bind (record_stopped-Keeps shared.qemu) (λ _. forget-Keeps)).at (s.0, w') h;
  }

  after_exit-Keeps : (vm : ℕ) → Keeps Known (after_exit host fx_id vm)
  unfolding after_exit
  after_exit-Keeps vm = record {
    at = λ s h.
        (keeps_rest (end_worker host fx_id s).0 (λ _. persist host fx_id vm)
          (end_worker host fx_id s).1 (λ _. persist-Keeps vm)
          (end_worker_keeps s h, end_worker_removes host fx_id s.0 s.1)).0;
  }

  exited-Keeps : (pid : ℕ) → Keeps Known (exited host fx_id pid)
  unfolding exited
  exited-Keeps pid = record { at = λ s h. h }

  powerdown_with-Keeps :
      (vm pid : ℕ) (worker : WorkerControlHandle)
      → Keeps Known (powerdown_with host fx_id vm pid worker)
  unfolding powerdown_with after_powerdown
  powerdown_with-Keeps vm pid worker =
      Keeps-bind
        {m = on_world (
          catch QemuManagerStopError.send (host.send_command worker.sender (qmp system_powerdown)))}
        (record { at = λ s h. h }) (λ _. Keeps-bind (exited-Keeps pid) (λ _. after_exit-Keeps vm))

  pub stop-Keeps : Keeps Known (stop host fx_id)
  unfolding stop
  stop-Keeps = record { at = λ (m, w) h. stop_keeps_at m w h }
    where
      stop_keeps_at :
          (m : QemuManager K) (w : W) → WorkersKnown m → Known (stop host fx_id (m, w)).1
      stop_keeps_at m w h = elim (Option-cases (get m.vms fx_id)) [
        | inl lost ↦ rw (lost, stop) h
        | inr (vm, found) ↦ elim (Option-cases (get m.vmctl fx_id)) [
          | inl idle ↦ rw (found, idle, stop) h
          | inr (worker, busy) ↦
              let (shared, w') = host.read_instance vm w in
              rw (found, busy, stop) ((powerdown_with-Keeps vm shared.pid worker).at (m, w') h)
        ]
      ]
