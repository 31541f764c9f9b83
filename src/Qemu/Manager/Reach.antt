-- ===== src/Qemu/Manager/Reach.antt =====
-- becky-fx-qemu/src/manager.rs: what a manager may become, by any sequence of its methods, between
-- which the host may change in any way.
use becky.Base.{◌≡◌, refl, [], none, Eq, get}
use becky.Text.{Text}
use becky.Qemu.Manager.{QemuHost, QemuManager, stop}
use becky.Qemu.Manager.Instances.{Instances}
use becky.Qemu.Manager.Discovery.{
  register_existing, discover_existing_from_runtime_dir, discover_existing_from_metadata,
}
use becky.Qemu.Manager.Lifecycle.{run_watchers, create}
use becky.Qemu.Manager.Ends.{shutdown}
use becky.Qemu.Manager.Known.{WorkersKnown}
use becky.Qemu.Manager.Discovery.Keeps.{
  register_existing-Keeps, discover_existing_from_runtime_dir-Keeps,
  discover_existing_from_metadata-Keeps,
}
use becky.Qemu.Manager.Lifecycle.Keeps.{run_watchers_keeps, create-Keeps}
use becky.Qemu.Manager.Ends.Keeps.{shutdown_keeps}
use becky.Qemu.Manager.Steps.Keeps.{stop-Keeps}

-- `QemuManager::new`
abbrev pub new_manager : {K : Type 0} → QemuManager K
new_manager = record { vms = []; vmctl = [] }

module _ {K C R H Q W : Type 0} ⦃e : Eq K⦄ (host : QemuHost K Q W) where
  module _ (instances : Instances K C R H Q W) (from_str : Text → K) where
    -- One call of a method, with whatever result, or a change of the host. `allocate`, `pause` and
    -- `drain_worker_events` change no manager.
    pub data Step : QemuManager K × W → QemuManager K × W → Type 0 where
      register :
          (s : QemuManager K × W) (rc : C) (k : K)
          → Step s (register_existing host instances rc k s).1
      discover_dir :
          (s : QemuManager K × W) (rc : C)
          → Step s (discover_existing_from_runtime_dir host instances from_str rc s).1
      discover_records :
          (s : QemuManager K × W) → Step s (discover_existing_from_metadata host instances s).1
      watch : (s : QemuManager K × W) (rc : C) → Step s (run_watchers host instances rc s).1
      created : (s : QemuManager K × W) (rc : C) (k : K) → Step s (create host instances rc k s).1
      stopped : (s : QemuManager K × W) (k : K) → Step s (stop host k s).1
      shut_down : (s : QemuManager K × W) → Step s (shutdown host s)
      moves : (m : QemuManager K) (v w : W) → Step (m, v) (m, w)

    pub data Reach (s : QemuManager K × W) : QemuManager K × W → Type 0 where
      here : Reach s s
      next : {t u : QemuManager K × W} → Reach s t → Step t u → Reach s u

    Step-known : {s t : QemuManager K × W} → Step s t → WorkersKnown s.0 → WorkersKnown t.0
    Step-known (register s rc k) h = (register_existing-Keeps host instances rc k).at s h
    Step-known (discover_dir s rc) h =
        (discover_existing_from_runtime_dir-Keeps host instances from_str rc).at s h
    Step-known (discover_records s) h =
        (discover_existing_from_metadata-Keeps host instances).at s h
    Step-known (watch s rc) h = (run_watchers_keeps host instances rc s h).0
    Step-known (created s rc k) h = (create-Keeps host instances rc k).at s h
    Step-known (stopped s k) h = (stop-Keeps host k).at s h
    Step-known (shut_down s) h = shutdown_keeps host s
    Step-known (moves m v w) h = h

    Reach-known : {s t : QemuManager K × W} → WorkersKnown s.0 → Reach s t → WorkersKnown t.0
    Reach-known h here = h
    Reach-known h (next r st) = Step-known st (Reach-known h r)

    -- In a manager that was reached from a new one by any calls of its methods, a machine that is
    -- not known has no worker.
    pub Reach-no_worker :
        (w : W) (s : QemuManager K × W) (k : K)
        → Reach (new_manager, w) s
        → get s.0.vms k ≡ none
        → get s.0.vmctl k ≡ none
    Reach-no_worker w s k r lost = Reach-known (λ k lost. refl) r k lost
