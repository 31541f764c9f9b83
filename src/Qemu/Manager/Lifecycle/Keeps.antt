-- ===== src/Qemu/Manager/Lifecycle/Keeps.antt =====
-- The workers of a manager that creates and watches machines.
use becky.Base.{
  ℕ, ◌≡◌, sym, ◌∙◌, [], ◌∷◌, none, inl, inr, Eq, Map, get, All, keys_found, subst, Option-cases,
  refl, Result, ok, err, Keeps, Keeps-bind, Keeps-fail,
}
use becky.Qemu.Errors.{CreateError, SpawnError}
use becky.Qemu.Manager.{QemuHost, QemuManager}
use becky.Qemu.Manager.Instances.{Instances}
use becky.Qemu.Manager.Known.{WorkersKnown, insert_both_known, insert_worker_known}
use becky.Qemu.Manager.Lifecycle.{
  spawn_watcher, watch, watch_all, run_watchers, attach_or_start, create, create_with,
  insert_started, insert_running, start_verified,
}

module _ {K C R H Q W : Type 0} ⦃e : Eq K⦄ (host : QemuHost K Q W) where
  module _ (instances : Instances K C R H Q W) where
    abbrev Known : QemuManager K × W → Type 0
    Known s = WorkersKnown s.0

    insert_running-Keeps :
        (k : K) (qemu : Q) (handle : H) → Keeps Known (insert_running host instances k qemu handle)
    unfolding insert_running
    insert_running-Keeps k qemu handle = record { at = λ s h. insert_both_known s.0 k _ _ h }

    insert_started-Keeps :
        (k : K) (qemu : Q) (r : Result CreateError H)
        → Keeps Known (insert_started host instances k qemu r)
    unfolding insert_started
    insert_started-Keeps k qemu (err x) = Keeps-fail x
    insert_started-Keeps k qemu (ok handle) = insert_running-Keeps k qemu handle

    create_with-Keeps :
        (rc : C) (k : K) (qemu : Q) → Keeps Known (create_with host instances rc k qemu)
    unfolding create_with
    create_with-Keeps rc k qemu = record {
      at = λ s h.
          let (r, (qemu', w')) = start_verified host instances rc k (qemu, s.1) in
          (insert_started-Keeps k qemu' r).at (s.0, w') h;
    }

    pub create-Keeps : (rc : C) (k : K) → Keeps Known (create host instances rc k)
    unfolding create
    create-Keeps rc k = Keeps-bind (record { at = λ s h. h }) (create_with-Keeps rc k)

    spawn_watcher_keeps :
        (k : K) (vm : ℕ) (qemu : Q) (r : Result SpawnError H) (s : QemuManager K × W)
        → ¬ (get s.0.vms k ≡ none)
        → Known s
        → Known (spawn_watcher host instances k vm qemu r s).1
          × ((spawn_watcher host instances k vm qemu r s).1.0.vms ≡ s.0.vms)
    unfolding spawn_watcher
    spawn_watcher_keeps k vm qemu (err x) s found h = (h, refl)
    spawn_watcher_keeps k vm qemu (ok handle) s found h =
        (insert_worker_known s.0 k _ found h, refl)

    watch_keeps :
        (rc : C) (k : K) (vm : ℕ) (s : QemuManager K × W)
        → ¬ (get s.0.vms k ≡ none)
        → Known s
        → Known (watch host instances rc k vm s).1
          × ((watch host instances rc k vm s).1.0.vms ≡ s.0.vms)
    unfolding watch
    watch_keeps rc k vm (m, w) found h = elim (Option-cases (get m.vmctl k)) [
      | inl idle ↦
          rw (idle, watch)
            (let (shared, w₁) = host.read_instance vm w in
              let (handle, w₂) = attach_or_start host instances rc k vm w₁ in
              spawn_watcher_keeps k vm shared.qemu handle (m, w₂) found h)
      | inr (worker, busy) ↦ rw (busy, watch) (h, refl)
    ]

    watch_all_keeps :
        (rc : C) (vms : Map K ℕ) (s : QemuManager K × W)
        → All (λ entry. ¬ (get s.0.vms entry.0 ≡ none)) vms
        → Known s
        → Known (watch_all host instances rc vms s).1
          × ((watch_all host instances rc vms s).1.0.vms ≡ s.0.vms)
    unfolding watch_all
    watch_all_keeps rc [] s found h = (h, refl)
    watch_all_keeps rc ((k, vm) ∷ vms) s (first, found) h =
        let (known, same) = watch_keeps rc k vm s first h in
        let (known', same') =
          watch_all_keeps rc vms (watch host instances rc k vm s).1
            (subst (λ m. All (λ entry. ¬ (get m entry.0 ≡ none)) vms) (sym same) found) known in
        (known', same' ∙ same)

    pub run_watchers_keeps :
        (rc : C) (s : QemuManager K × W)
        → Known s
        → Known (run_watchers host instances rc s).1
          × ((run_watchers host instances rc s).1.0.vms ≡ s.0.vms)
    unfolding run_watchers
    run_watchers_keeps rc (m, w) h = watch_all_keeps rc m.vms (m, w) (keys_found m.vms) h
