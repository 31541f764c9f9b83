-- ===== src/Qemu/Manager/Ends/Keeps.antt =====
-- The workers and machines of a manager that ends.
use becky.Base.{
  ◌≡◌, refl, ◌∙◌, ap, [], ◌∷◌, none, inl, inr, Eq, Map, get, get-remove, get-remove_other,
  Option-cases, arith, Result-cases,
}
use becky.Qemu.Manager.{QemuHost, QemuManager, WorkerControlHandle}
use becky.Qemu.Manager.Known.{WorkersKnown}
use becky.Qemu.Manager.Ends.{leave, join_one, join_all, shutdown}

module _ {K Q W : Type 0} ⦃e : Eq K⦄ (host : QemuHost K Q W) where
  leave_vmctl : (k : K) (s : QemuManager K × W) → (leave host k s).0.vmctl ≡ s.0.vmctl
  unfolding leave
  leave_vmctl k (m, w) = ground arith

  join_one_vmctl :
      (k : K) (worker : WorkerControlHandle) (s : QemuManager K × W)
      → (join_one host k worker s).0.vmctl ≡ s.0.vmctl
  unfolding join_one
  join_one_vmctl k worker (m, w) = elim (Result-cases (host.join_worker worker.join w).0) [
    | inl (_, joined) ↦ rw (joined, join_one) (leave_vmctl k _)
    | inr (x, lost) ↦ rw (lost, join_one) refl
  ]

  join_all_vmctl :
      (workers : Map K WorkerControlHandle) (s : QemuManager K × W)
      → (join_all host workers s).0.vmctl ≡ s.0.vmctl
  unfolding join_all
  join_all_vmctl [] s = refl
  join_all_vmctl ((k, worker) ∷ workers) s =
      join_all_vmctl workers (join_one host k worker s) ∙ join_one_vmctl k worker s

  pub shutdown_vmctl : (s : QemuManager K × W) → (shutdown host s).0.vmctl ≡ []
  unfolding shutdown
  shutdown_vmctl (m, w) = join_all_vmctl m.vmctl _

  pub shutdown_keeps : (s : QemuManager K × W) → WorkersKnown (shutdown host s).0
  shutdown_keeps s k lost = ap (λ c. get c k) (shutdown_vmctl s)

  pub leave_other :
      (k i : K) (s : QemuManager K × W) → ¬ (k ≡ i) → get (leave host k s).0.vms i ≡ get s.0.vms i
  unfolding leave
  leave_other k i (m, w) ne = ground (arith, get-remove_other m.vms k i ne)

  pub leave_gone : (k : K) (s : QemuManager K × W) → get (leave host k s).0.vms k ≡ none
  unfolding leave
  leave_gone k (m, w) = elim (Option-cases (get m.vms k)) [
    | inl lost ↦ rw (lost, leave) lost
    | inr (vm, found) ↦ rw (found, leave) (get-remove m.vms k)
  ]
