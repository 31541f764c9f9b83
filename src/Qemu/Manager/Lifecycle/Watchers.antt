-- ===== src/Qemu/Manager/Lifecycle/Watchers.antt =====
-- Which workers `run_watchers` spawns.
use becky.Base.{
  ℕ, ◌≡◌, refl, sym, ◌∙◌, List, [], ◌∷◌, ◌++◌, none, some, inl, inr, Bool, true, ◌||◌, Eq, Map, get,
  insert, get-insert, get-insert_other, any, ◌==◌, ◌↔◌, ◌⊎◌, Option, Bool-cases, Option-cases,
  Result, ok, err, arith,
}
use becky.Qemu.Errors.{SpawnError}
use becky.Qemu.Manager.{QemuHost, QemuManager, WorkerControlHandle}
use becky.Qemu.Manager.Instances.{Instances}
use becky.Qemu.Manager.Lifecycle.{spawn_watcher, watch, watch_all, run_watchers, attach_or_start}

busy_later :
    (o o' : Option WorkerControlHandle)
    → ((worker : WorkerControlHandle) → o ≡ some worker → o' ≡ some worker)
    → ¬ (o ≡ none)
    → ¬ (o' ≡ none)
busy_later none o' keeps busy lost = busy refl
busy_later (some worker) o' keeps busy lost = absurd (ground (arith, keeps worker refl))

idle_before :
    (o o' : Option WorkerControlHandle)
    → ((worker : WorkerControlHandle) → o ≡ some worker → o' ≡ some worker)
    → o' ≡ none
    → o ≡ none
idle_before none o' keeps lost = refl
idle_before (some worker) o' keeps lost = absurd (ground (arith, keeps worker refl))

module _ {K : Type 0} ⦃e : Eq K⦄ where
  abbrev pub contains : List K → K → Bool
  contains ks k = any (λ j. j == k) ks

  contains-append :
      (ks js : List K) (k : K) → contains (ks ++ js) k ≡ contains ks k || contains js k
  contains-append [] js k = refl
  contains-append (x ∷ ks) js k = ground (arith, contains-append ks js k)

  -- The workers of before are kept, and those of `started` are the new ones.
  abbrev Started : List K → Map K WorkerControlHandle → Map K WorkerControlHandle → Type 0
  Started started before after =
      (k : K)
      → ((worker : WorkerControlHandle) → get before k ≡ some worker → get after k ≡ some worker)
        × ((contains started k ≡ true) ↔ ((get before k ≡ none) × (¬ (get after k ≡ none))))

  Started-nothing : (c : Map K WorkerControlHandle) → Started [] c c
  Started-nothing c k =
      (λ worker h. h, (λ h. absurd (ground arith), λ (idle, busy). absurd (busy idle)))

  Started-one :
      (c : Map K WorkerControlHandle) (k : K) (worker : WorkerControlHandle)
      → get c k ≡ none
      → Started (k ∷ []) c (insert c k worker)
  Started-one c k worker idle i = elim (e.dec k i) [
    | yes same ↦ (
      λ x h. absurd (ground arith),
      (
        λ h. (ground arith, λ lost. absurd (ground (arith, get-insert c k worker))),
        λ h. ground arith,
      ),
    )
    | no ne ↦ (
      λ x h. get-insert_other c k worker i ne ∙ h,
      (
        λ h. absurd (ground arith),
        λ (lost, busy). absurd (busy (get-insert_other c k worker i ne ∙ lost)),
      ),
    )
  ]

  Started-append :
      (l l' : List K) (c d f : Map K WorkerControlHandle)
      → Started l c d
      → Started l' d f
      → Started (l ++ l') c f
  Started-append l l' c d f first second k =
      let (keeps, (to, from)) = first k in
      let (keeps', (to', from')) = second k in
      (
        λ worker h. keeps' worker (keeps worker h),
        (
          λ h. elim (Bool-cases (contains l k)) [
            | inl early ↦
                let (idle, busy) = to early in (idle, busy_later (get d k) (get f k) keeps' busy)
            | inr not_early ↦
                let (idle, busy) = to' (ground (arith, contains-append l l' k)) in
                (idle_before (get c k) (get d k) keeps idle, busy)
          ],
          λ (idle, busy). elim (Option-cases (get d k)) [
            | inl lost ↦ let late = from' (lost, busy) in ground (arith, contains-append l l' k)
            | inr (worker, found) ↦
                let early = from (idle, λ lost. absurd (ground arith)) in
                ground (arith, contains-append l l' k)
          ],
        ),
      )

module _ {K C R H Q W : Type 0} ⦃e : Eq K⦄ (host : QemuHost K Q W) where
  module _ (instances : Instances K C R H Q W) where
    spawn_watcher_started :
        (k : K) (vm : ℕ) (qemu : Q) (r : Result SpawnError H) (s : QemuManager K × W)
        → get s.0.vmctl k ≡ none
        → let (started, s') = spawn_watcher host instances k vm qemu r s in
          Started started s.0.vmctl s'.0.vmctl
    unfolding spawn_watcher
    spawn_watcher_started k vm qemu (err x) s idle = Started-nothing s.0.vmctl
    spawn_watcher_started k vm qemu (ok handle) s idle = Started-one s.0.vmctl k _ idle

    watch_started :
        (rc : C) (k : K) (vm : ℕ) (s : QemuManager K × W)
        → let (started, s') = watch host instances rc k vm s in Started started s.0.vmctl s'.0.vmctl
    unfolding watch
    watch_started rc k vm (m, w) = elim (Option-cases (get m.vmctl k)) [
      | inl idle ↦
          rw (idle, watch)
            (let (shared, w₁) = host.read_instance vm w in
              let (handle, w₂) = attach_or_start host instances rc k vm w₁ in
              spawn_watcher_started k vm shared.qemu handle (m, w₂) idle)
      | inr (worker, busy) ↦ rw (busy, watch) (Started-nothing m.vmctl)
    ]

    watch_all_started :
        (rc : C) (vms : Map K ℕ) (s : QemuManager K × W)
        → let (started, s') = watch_all host instances rc vms s in
          Started started s.0.vmctl s'.0.vmctl
    unfolding watch_all
    watch_all_started rc [] s = Started-nothing s.0.vmctl
    watch_all_started rc ((k, vm) ∷ vms) s =
        Started-append _ _ s.0.vmctl _ _ (watch_started rc k vm s)
          (watch_all_started rc vms (watch host instances rc k vm s).1)

    -- After `run_watchers`, a worker that was there before is there as it was, and the machines that
    -- are returned as started are those that had no worker before and have one now.
    pub run_watchers-started :
        (rc : C) (s : QemuManager K × W) (k : K)
        → let (started, s') = run_watchers host instances rc s in
          ((get s.0.vmctl k ≡ none) ⊎ (get s'.0.vmctl k ≡ get s.0.vmctl k))
          × ((contains started k ≡ true)
              ↔ ((get s.0.vmctl k ≡ none) × (¬ (get s'.0.vmctl k ≡ none))))
    unfolding run_watchers
    run_watchers-started rc (m, w) k =
        let (keeps, starts) = watch_all_started rc m.vms (m, w) k in
        (
          elim (Option-cases (get m.vmctl k)) [
            | inl idle ↦ inl idle
            | inr (worker, busy) ↦ inr (keeps worker busy ∙ sym busy)
          ],
          starts,
        )
