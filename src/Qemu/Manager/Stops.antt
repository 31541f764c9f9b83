-- ===== src/Qemu/Manager/Stops.antt =====
-- What a stop of a machine leaves in the manager.
use becky.Base.{ℕ, ◌≡◌, ap, sym, subst, ◌∙◌, arith, none, some, false, Eq, Option-cases}
use becky.Base.{inl, inr, get, ok, err}
use becky.Text.{Text}
use becky.SystemCommand.Signals.{process_exists}
use becky.Qemu.Manager.Steps.{
  no_worker, ok_is_no_error, Removed, powerdown_ok, stop_found, vmctl_after_failure,
}
use becky.Qemu.Manager.{QemuManager, not_found, metadata, QemuHost, stop}

module _ {K Q W : Type 0} ⦃e : Eq K⦄ (host : QemuHost K Q W) (fx_id : K) where
  -- A stop that succeeds found the machine, saw its pid with no process, and has removed it and
  -- its worker from the manager.
  pub stop_removes :
      (m : QemuManager K) (w : W)
      → (stop host fx_id (m, w)).0 ≡ ok tt
      → (vm : ℕ) × (get m.vms fx_id ≡ some vm)
        × ((u : W) × ((process_exists host.runtime.os (host.read_instance vm w).0.pid u).0 ≡ false))
        × ((get (stop host fx_id (m, w)).1.0.vms fx_id ≡ none)
            × (get (stop host fx_id (m, w)).1.0.vmctl fx_id ≡ none))
  stop_removes m w h = elim (Option-cases (get m.vms fx_id)) [
    | inl lost ↦ absurd (unfold stop in ground arith)
    | inr (vm, found) ↦ elim (Option-cases (get m.vmctl fx_id)) [
      | inl idle ↦ absurd (ok_is_no_error host fx_id (no_worker host fx_id m w idle) h)
      | inr (worker, busy) ↦
          let same = stop_found host fx_id vm worker m w found busy in
          let (gone, removed) =
            powerdown_ok host fx_id vm _ worker m _ (ap (λ r. r.0) (sym same) ∙ h) in
          (vm, found, gone, subst (Removed host fx_id) (sym same) removed)
    ]
  ]

  -- After a stop that failed on the metadata, the next stop of that machine fails with `NotFound`,
  -- in whatever state of the host.
  pub stop_again :
      (m : QemuManager K) (w v : W) (message : Text)
      → (stop host fx_id (m, w)).0 ≡ err (metadata message)
      → (stop host fx_id ((stop host fx_id (m, w)).1.0, v)).0 ≡ err (not_found fx_id)
  stop_again m w v message h =
      no_worker host fx_id _ v (vmctl_after_failure host fx_id m w message h)
