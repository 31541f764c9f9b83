-- ===== src/Qemu/Manager/Ends/Left.antt =====
-- What a shutdown leaves of a manager's machines.
use becky.Base.{ℕ, ◌≡◌, refl, ◌∙◌, ap, subst, [], ◌∷◌, Option, none, some, Eq, Map, get, ok, arith}
use becky.Qemu.Manager.{QemuHost, QemuManager, WorkerControlHandle}
use becky.Qemu.Manager.Ends.{leave, join_one, join_all, shutdown}
use becky.Qemu.Manager.Ends.Keeps.{leave_gone, leave_other, shutdown_vmctl}

-- A machine that has a worker is gone.
abbrev pub without_worker : {A : Type 0} → Option WorkerControlHandle → Option A → Option A
without_worker none vm = vm
without_worker (some worker) vm = none

without_worker_gone :
    {A : Type 0} (o : Option WorkerControlHandle) → without_worker {A = A} o none ≡ none
without_worker_gone none = refl
without_worker_gone (some worker) = refl

module _ {K Q W : Type 0} ⦃e : Eq K⦄ (host : QemuHost K Q W) where
  module _ (joins : (task : ℕ) (w : W) → (host.join_worker task w).0 ≡ ok tt) where
    join_one_same :
        (k : K) (worker : WorkerControlHandle) (s : QemuManager K × W)
        → join_one host k worker s ≡ leave host k (s.0, (host.join_worker worker.join s.1).1)
    unfolding join_one
    join_one_same k worker (m, w) = rw (joins worker.join w, join_one) refl

    join_all_left :
        (workers : Map K WorkerControlHandle) (s : QemuManager K × W) (k : K)
        → get (join_all host workers s).0.vms k ≡ without_worker (get workers k) (get s.0.vms k)
    unfolding join_all
    join_all_left [] s k = refl
    join_all_left ((j, worker) ∷ workers) s k =
        let next = join_one host j worker s in
        let after : QemuManager K × W = (s.0, (host.join_worker worker.join s.1).1) in
        let rest = join_all_left workers next k in
        let step = ap (λ t. get t.0.vms k) (join_one_same j worker s) in
        elim (e.dec j k) [
          | yes same ↦
              let gone =
                subst (λ i. get (leave host j after).0.vms i ≡ none) same
                  (leave_gone host j after) in
              rest
              ∙ ap (without_worker (get workers k)) (step ∙ gone)
              ∙ without_worker_gone (get workers k)
              ∙ ap (λ o. without_worker o (get s.0.vms k)) {x = some worker} (ground arith)
          | no ne ↦
              rest
              ∙ ap (without_worker (get workers k)) (step ∙ leave_other host j k after ne)
              ∙ ap (λ o. without_worker o (get s.0.vms k)) (ground arith)
        ]

    -- If every worker is joined, a shutdown leaves no worker, and the machines that had none.
    pub shutdown_left :
        (s : QemuManager K × W) (k : K)
        → ((shutdown host s).0.vmctl ≡ [])
          × (get (shutdown host s).0.vms k ≡ without_worker (get s.0.vmctl k) (get s.0.vms k))
    unfolding shutdown
    shutdown_left (m, w) k = (shutdown_vmctl host (m, w), join_all_left m.vmctl _ k)
