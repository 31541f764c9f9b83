-- ===== src/Qemu/Instance/Accounting.antt =====
-- becky-fx-qemu/src/instance.rs: what a machine accounts for.
use becky.Base.{ℕ, none, some}
use becky.Os.{Process, process, DiskUsage, no_disk_usage, Os}
use becky.Qemu.Instance.{QemuHandle}

module _ {W : Type 0} (os : Os W) where
  -- `process_metric`, and the accounting that it serves.
  unfoldable pub process_metric : {A : Type 0} → ℕ → A → (Process → A) → W → A × W
  process_metric pid fallback f w =
      let (table, w') = os.new_all w in
      (elim (process table pid) [ none ↦ fallback | some p ↦ f p ], w')

  abbrev accumulated_cpu_time : QemuHandle → W → ℕ × W
  unfolding process_metric
  accumulated_cpu_time i = process_metric i.process.pid 0 (λ p. p.accumulated_cpu_time)

  abbrev disk_usage : QemuHandle → W → DiskUsage × W
  unfolding process_metric
  disk_usage i = process_metric i.process.pid no_disk_usage (λ p. p.disk_usage)

  abbrev memory : QemuHandle → W → ℕ × W
  unfolding process_metric
  memory i = process_metric i.process.pid 0 (λ p. p.memory)

  abbrev virtual_memory : QemuHandle → W → ℕ × W
  unfolding process_metric
  virtual_memory i = process_metric i.process.pid 0 (λ p. p.virtual_memory)

  abbrev run_time : QemuHandle → W → ℕ × W
  unfolding process_metric
  run_time i = process_metric i.process.pid 0 (λ p. p.run_time)
