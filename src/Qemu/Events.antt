-- ===== src/Qemu/Events.antt =====
-- becky-fx-qemu/src/lib.rs and src/manager.rs: what a machine reports, and where it is sent.
use becky.Base.{ℕ, Option, none, some}
use becky.Text.{chars}
use becky.State.{FxExecutionState, running, paused, stopped, error}

pub data WorkerEvent : Type 0 where
  panic watchdog block_io_error block_image_corrupted device_deleted : WorkerEvent
  device_unplug_guest_error migration memory_failure shutdown suspend : WorkerEvent
  resume powerdown reset stop : WorkerEvent

pub data QmpCmd : Type 0 where
  status system_powerdown query_block : QmpCmd

pub data GuestAgentCmd : Type 0 where
  ping info : GuestAgentCmd

pub data WorkerCommand : Type 0 where
  shutdown : WorkerCommand
  qmp : QmpCmd → WorkerCommand
  guest_agent : GuestAgentCmd → WorkerCommand

pub record QemuWorkerEvent (K : Type 0) : Type 0 where
  pub fx_id : K
  pub event : WorkerEvent
  pub state : FxExecutionState

unfoldable pub state_from_worker_event : WorkerEvent → ℕ → FxExecutionState
state_from_worker_event panic pid = error (chars "guest panicked")
state_from_worker_event watchdog pid = error (chars "guest watchdog fired")
state_from_worker_event block_io_error pid = error (chars "qemu block I/O error")
state_from_worker_event block_image_corrupted pid = error (chars "qemu block image corrupted")
state_from_worker_event device_unplug_guest_error pid =
    error (chars "qemu device unplug guest error")
state_from_worker_event memory_failure pid = error (chars "qemu memory failure")
state_from_worker_event WorkerEvent.shutdown pid = stopped
state_from_worker_event powerdown pid = stopped
state_from_worker_event suspend pid = paused pid
state_from_worker_event stop pid = paused pid
state_from_worker_event resume pid = running pid
state_from_worker_event reset pid = running pid
state_from_worker_event device_deleted pid = running pid
state_from_worker_event migration pid = running pid

-- `qapi::qmp::Event`, by its variants; what they carry is not read.
pub data Event : Type 0 where
  shutdown powerdown reset stop resume suspend suspend_disk wakeup watchdog : Event
  guest_panicked guest_crashloaded guest_pvshutdown memory_failure job_status_change : Event
  device_tray_moved pr_manager_status_changed block_image_corrupted block_io_error : Event
  block_job_completed block_job_cancelled block_job_error block_job_ready : Event
  block_job_pending block_write_threshold quorum_failure quorum_report_bad : Event
  block_export_deleted vserport_change dump_completed nic_rx_filter_changed : Event
  failover_negotiated netdev_stream_connected netdev_stream_disconnected spice_connected : Event
  spice_initialized spice_disconnected spice_migrate_completed vnc_connected : Event
  vnc_initialized vnc_disconnected migration migration_pass colo_exit unplug_primary : Event
  device_deleted device_unplug_guest_error balloon_change hv_balloon_status_report : Event
  memory_device_size_change cpu_polarization_change rtc_change vfu_client_hangup : Event
  acpi_device_ost vfio_migration : Event

-- The event of a worker that one of the machine is forwarded as, if it is.
unfoldable pub forwarded : Event → Option WorkerEvent
forwarded Event.shutdown = some WorkerEvent.shutdown
forwarded Event.powerdown = some WorkerEvent.powerdown
forwarded Event.reset = some WorkerEvent.reset
forwarded Event.stop = some WorkerEvent.stop
forwarded Event.resume = some WorkerEvent.resume
forwarded Event.suspend = some WorkerEvent.suspend
forwarded Event.watchdog = some WorkerEvent.watchdog
forwarded Event.guest_panicked = some WorkerEvent.panic
forwarded Event.memory_failure = some WorkerEvent.memory_failure
forwarded Event.block_image_corrupted = some WorkerEvent.block_image_corrupted
forwarded Event.block_io_error = some WorkerEvent.block_io_error
forwarded Event.migration = some WorkerEvent.migration
forwarded Event.migration_pass = some WorkerEvent.migration
forwarded Event.device_deleted = some WorkerEvent.device_deleted
forwarded Event.device_unplug_guest_error = some WorkerEvent.device_unplug_guest_error
forwarded _ = none

-- The two channels that a worker reports on; that one is closed is ignored.
pub record Channels (K W : Type 0) : Type 0 where
  pub send_event : WorkerEvent → W → W
  pub send_update : QemuWorkerEvent K → W → W

module _ {K W : Type 0} (channels : Channels K W) where
  unfoldable pub forward_worker_event : K → ℕ → WorkerEvent → W → W
  unfolding state_from_worker_event
  forward_worker_event fx_id pid event w =
      channels.send_update
        (record { fx_id = fx_id; event = event; state = state_from_worker_event event pid })
        (channels.send_event event w)

  unfoldable pub forward_if : K → ℕ → Option WorkerEvent → W → W
  unfolding forward_worker_event
  forward_if fx_id pid none w = w
  forward_if fx_id pid (some event) w = forward_worker_event fx_id pid event w

  unfoldable pub handle_event : K → ℕ → Event → W → W
  unfolding forwarded forward_if
  handle_event fx_id pid ev w = forward_if fx_id pid (forwarded ev) w
