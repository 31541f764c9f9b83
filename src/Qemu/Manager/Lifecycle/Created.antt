-- ===== src/Qemu/Manager/Lifecycle/Created.antt =====
-- What a creation leaves in the manager.
use becky.Base.{
  ◌≡◌, ◌≢◌, refl, none, inl, inr, Eq, get, insert_found, Result, ok, err, Result-cases,
}
use becky.Qemu.Errors.{CreateError}
use becky.Qemu.Manager.{QemuHost, QemuManager}
use becky.Qemu.Manager.Instances.{Instances}
use becky.Qemu.Manager.Lifecycle.{
  create, create_with, insert_started, insert_running, start_verified,
}

module _ {K C R H Q W : Type 0} ⦃e : Eq K⦄ (host : QemuHost K Q W) where
  module _ (instances : Instances K C R H Q W) (k : K) where
    -- What the outcome of a creation says of the manager before and after it.
    abbrev pub CreateOutcome :
        QemuManager K → Result CreateError (Unit {0}) × (QemuManager K × W) → Type 0
    CreateOutcome m (ok _, (m', w)) = (get m'.vms k ≢ none) × (get m'.vmctl k ≢ none)
    CreateOutcome m (err x, (m', w)) = m' ≡ m

    insert_started_outcome :
        (qemu : Q) (r : Result CreateError H) (m : QemuManager K) (w : W)
        → CreateOutcome m (insert_started host instances k qemu r (m, w))
    unfolding insert_started insert_running
    insert_started_outcome qemu (err x) m w = refl
    insert_started_outcome qemu (ok handle) m w = (insert_found m.vms k _, insert_found m.vmctl k _)

    -- A creation that succeeds leaves the machine and a worker for it in the manager, and one that
    -- fails leaves the manager as it was.
    pub create_outcome :
        (rc : C) (m : QemuManager K) (w : W) → CreateOutcome m (create host instances rc k (m, w))
    unfolding create create_with
    create_outcome rc m w = elim (Result-cases (instances.existing_or_new rc k w).0) [
      | inr (x, failed) ↦ rw (failed, create) refl
      | inl (qemu, made) ↦
          let (r, (qemu', w')) =
            start_verified host instances rc k (qemu, (instances.existing_or_new rc k w).1) in
          rw (made, create) (insert_started_outcome qemu' r m w')
    ]
