-- ===== src/Qemu/Instance/Existing.antt =====
-- becky-fx-qemu/src/instance.rs: a machine that may run already.
use becky.Base.{ℕ, Option}
use becky.Base.{ok, map_err, Action, ◌>>=◌}
use becky.Id.{UuidCrate, FxId}
use becky.Os.{Os}
use becky.Storage.{SystemConfiguration}
use becky.Qemu.Errors.{CreateError, parse_qemu_command}
use becky.Qemu.Config.{QemuCrate, QemuMachineConfiguration, QemuMetadataRecord}
use becky.Qemu.Config.Desired.{machine_configuration_from_metadata_record}
use becky.Qemu.Command.{CommandHost, Qemu, qemu_from_machine_configuration}
use becky.Qemu.Paths.{pid_path_s}
use becky.Qemu.Instance.{
  QemuInstance, CommandText, instance_of, live_pid_from_pidfile, reconcile_existing_files, root_of,
  command_of,
}

module _ {W : Type 0} (os : Os W) (U : UuidCrate) (B : QemuCrate) where
  unfoldable pub existing_runtime_pid : {Q : Type 0} → QemuInstance U B Q → W → Option ℕ × W
  unfolding live_pid_from_pidfile
  existing_runtime_pid i w = live_pid_from_pidfile os (pid_path_s U (root_of i) i.fx_id) w

  module _ (host : CommandHost W) (sys_conf : SystemConfiguration) (fx_id : FxId U) where
    abbrev Line : Type 0
    Line = Qemu host U B sys_conf fx_id

    reconciled :
        CommandText Line
        → QemuMachineConfiguration B
        → Line
        → Action W CreateError (QemuInstance U B Line)
    unfolding reconcile_existing_files live_pid_from_pidfile command_of
    reconciled text value qemu w =
        let w₁ = reconcile_existing_files os U sys_conf.vm_root_path fx_id w in
        let (live, w₂) = live_pid_from_pidfile os (pid_path_s U sys_conf.vm_root_path fx_id) w₁ in
        (ok (instance_of text sys_conf value fx_id qemu live), w₂)

    unfoldable pub existing_or_new :
        CommandText Line → QemuMachineConfiguration B → Action W CreateError (QemuInstance U B Line)
    unfolding qemu_from_machine_configuration reconciled
    existing_or_new text value = do
      qemu ← qemu_from_machine_configuration host U B sys_conf fx_id value
      reconciled text value qemu

    of_record :
        CommandText Line → QemuMetadataRecord → Line → Action W CreateError (QemuInstance U B Line)
    unfolding live_pid_from_pidfile machine_configuration_from_metadata_record command_of
    of_record text r qemu w =
        let (live, w') = live_pid_from_pidfile os r.pidfile w in
        (
          ok (
              instance_of text sys_conf
                (machine_configuration_from_metadata_record B sys_conf r qemu) fx_id qemu live),
          w',
        )

    parsed_line : CommandText Line → QemuMetadataRecord → Action W CreateError Line
    parsed_line text r w = (map_err parse_qemu_command (text.from_str r.command_line), w)

    unfoldable pub existing_from_metadata_record :
        CommandText Line → QemuMetadataRecord → Action W CreateError (QemuInstance U B Line)
    unfolding parsed_line of_record
    existing_from_metadata_record text r = do qemu ← parsed_line text r; of_record text r qemu
