-- ===== src/Qemu/Instance/Comm/Connected.antt =====
-- What holds of the handle of a machine that was connected to.
use becky.Base.{
  ℕ, ◌≡◌, ◌≢◌, Option, none, some, inl, inr, Bool, true, false, ok, Option-cases, ok_of_bind, catch,
  arith,
}
use becky.Id.{UuidCrate}
use becky.Utils.Processes.{Process, get_process}
use becky.State.{running}
use becky.Os.{FilePath, process}
use becky.Qemu.Errors.{db, qmp}
use becky.Qemu.Config.{QemuCrate}
use becky.Qemu.Paths.{pid_path_s}
use becky.Qemu.Instance.{
  QemuInstance, QemuHandle, CommandText, metadata_record, root_of, has_ga, qga_command_timeout_secs,
}
use becky.Qemu.Instance.Comm.{
  InstanceHost, pid_of, proc_of, monitored, try_monitor_qemu_with_api, agent_call, with_agent,
  attach_guest_agent, agent_if, connected,
}

abbrev pub is_some : {A : Type 0} → Option A → Bool
is_some none = false
is_some (some a) = true

module _ {K W : Type 0} (host : InstanceHost K W) where
  -- A process had the pid, in some state of the host.
  abbrev pub WasSeen : ℕ → Type 0
  WasSeen pid = (u : W) × (process (host.os.new_all u).0 pid ≢ none)

  proc_of_seen :
      (pid : ℕ) (found : Process) (w : W) → (proc_of host pid w).0 ≡ ok found → WasSeen found.pid
  unfolding proc_of get_process
  proc_of_seen pid found w h = elim (Option-cases (process (host.os.new_all w).0 pid)) [
    | inl gone ↦ absurd (ground arith)
    | inr (p, alive) ↦ (w, λ gone. ground arith)
  ]

  monitored_seen :
      (ctl : ℕ) (pidfile : FilePath) (reader : ℕ) (w : W) (handle : QemuHandle)
      → (monitored host ctl pidfile reader w).0 ≡ ok handle
      → WasSeen handle.process.pid × (handle.ga ≡ none)
  unfolding monitored
  monitored_seen ctl pidfile reader w handle h =
      let (pid, _, h₁) = ok_of_bind (pid_of host pidfile) _ w handle h in
      let (found, seen, h₂) = ok_of_bind (proc_of host pid) _ _ handle h₁ in
      let (_, _, h₃) = ok_of_bind (catch qmp (host.query_version ctl)) _ _ handle h₂ in
      let (schema, _, h₄) = ok_of_bind (catch qmp (host.query_qmp_schema ctl)) _ _ handle h₃ in
      let (u, alive) = proc_of_seen pid found _ seen in ((u, ground arith), ground arith)

  module _ {U : UuidCrate} {B : QemuCrate} {Q : Type 0} where
    with_agent_attached :
        (i : QemuInstance U B Q) (h : QemuHandle) (qga : Option (ℕ × ℕ)) (w : W)
        (handle : QemuHandle)
        → (with_agent host i h qga w).0 ≡ ok handle
        → (handle.process.pid ≡ h.process.pid) × (is_some handle.ga ≡ true)
    unfolding with_agent
    with_agent_attached i h none w handle e = absurd (ground arith)
    with_agent_attached i h (some (qga, task)) w handle e =
        let (_, _, e₁) =
          ok_of_bind (agent_call host host.guest_ping (qga_command_timeout_secs i) qga) _ w handle
            e in
        let (info, _, e₂) =
          ok_of_bind (agent_call host host.guest_info (qga_command_timeout_secs i) qga) _ _ handle
            e₁ in
        (ground arith, ground arith)

    agent_if_attached :
        (b : Bool) (i : QemuInstance U B Q) (h : QemuHandle) (w : W) (handle : QemuHandle)
        → h.ga ≡ none
        → (agent_if host b i h w).0 ≡ ok handle
        → (handle.process.pid ≡ h.process.pid) × (is_some handle.ga ≡ b)
    unfolding agent_if attach_guest_agent
    agent_if_attached true i h w handle no_agent e = with_agent_attached i h _ _ handle e
    agent_if_attached false i h w handle no_agent e = (ground arith, ground arith)

    pub connected_ok :
        (text : CommandText Q) (fx_id : K) (i : QemuInstance U B Q) (ctl : ℕ) (w : W)
        (handle : QemuHandle)
        → (connected host text fx_id i ctl w).0 ≡ ok handle
        → WasSeen handle.process.pid × (is_some handle.ga ≡ has_ga i)
    unfolding connected try_monitor_qemu_with_api
    connected_ok text fx_id i ctl w handle e =
        let (h, monitor, e₁) =
          ok_of_bind (try_monitor_qemu_with_api host ctl (pid_path_s U (root_of i) i.fx_id)) _ w
            handle e in
        let (_, _, e₂) =
          ok_of_bind (catch (λ x. db) (host.state_update fx_id (running h.process.pid))) _ _ handle
            e₁ in
        let (_, _, e₃) =
          ok_of_bind
            (catch (λ x. db)
              (host.record_upsert fx_id (metadata_record text i (some h.process.pid))))
            _ _ handle e₂ in
        let ((u, alive), no_agent) = monitored_seen ctl _ _ _ h monitor in
        let (same, agent) = agent_if_attached (has_ga i) i h _ handle no_agent e₃ in
        ((u, ground arith), agent)
