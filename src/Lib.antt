-- ===== src/Lib.antt =====
-- Becky runs effects (processes, worker functions, containers, machines) under one engine. A
-- provider implements the trait `FxControl` of becky-engine/src/control.rs for one kind of effect:
-- `fx_allocate`, `fx_start`, `fx_status`, `fx_stop`, `fx_destroy` and `fx_archive`, over a handle
-- that `fx_start` returns. This library models the four providers and what they stand on.
--
-- Base holds what the modules share: Base.Results has `Action S E A`, which passes a state on and
-- may fail, and keeps the state that a failure leaves; `>>=` is Rust's `?`. Text holds strings as
-- lists of Unicode scalar values, with decimal numbers (Text.Decimal), `trim` (Text.Trim), UTF-8
-- (Text.Utf8) and `from_utf8_lossy` (Text.Lossy).
--
-- Os is the interface to the operating system: a record of calls over an unknown state `W` of the
-- host. Each call returns the next state, which may hold whatever other processes did meanwhile, so
-- nothing is assumed of the host but what a theorem names. Runtime adds the async runtime: the
-- clock, shared cells (`Arc<RwLock<_>>`), tasks with their channels, and the winner of a `select!`.
-- Os.Memory, Runtime.Memory, Runtime.Beside and Utils.Memory are instances in memory, for runs at
-- concrete data. Os.Paths has the operations of std on paths.
--
-- The parts of the program:
-- - State: becky-engine/src/state.rs, the two state enums.
-- - Id: becky-fx-id/src/lib.rs, `FxId` with `from_str` and `to_string`; the uuid crate is the
--   parameter `UuidCrate`, and `IsUuidCrate` states what it documents.
-- - Utils: becky-utils/src/lib.rs, `run_system_command` over piped children, and `get_process`
--   (Utils.Processes).
-- - SystemCommand: becky-fx-system-command/src/lib.rs. Match is `command_equal`, Launch the line
--   with `nice` and `taskset`, CommandId the identifier of a command, PidFile the pid files,
--   Signals the signals, the waits, `stop`, `destroy` and the accounting, and Control `fx_start`,
--   `fx_status` and the observed state. A method that changes the command is an action on the pair
--   of the command and the host; `destroy` acts on the pair of the handle and the host.
-- - RustFn: becky-fx-rust-fn/src/lib.rs. Registry dispatches a worker's arguments, Worker
--   recognises a worker's process, PidFile has its pid files, Exit the signal and the wait, Handle
--   the handles and the two monitor tasks, and Control the lifecycle.
-- - Docker: becky-fx-docker/src/lib.rs. Args builds `docker create`, Cli calls docker and looks
--   resources up, Inspect reads an inspection, Monitor is the task that follows a container, and
--   Control the lifecycle and the run time. serde_json and chrono are fields of `DockerHost`.
-- - Qemu: becky-fx-qemu/src. Shell is the quoting of utils.rs, Commands the look-ups of handle.rs,
--   Events the events of lib.rs and what manager.rs does with them, Errors the errors of lib.rs.
-- - Qemu.Images: lib.rs, storage_qcow.rs and img_json.rs, the disks of a machine. Options and Tool
--   call `qemu-img`; Check, Create and Resize are `sys_storage_check`, `sys_storage_create` and
--   `sys_storage_resize`, as walks over the kinds of storage.
-- - Qemu.Config, Qemu.Command, Qemu.Paths: lib.rs and instance.rs, the configuration of a machine,
--   what the metadata keeps of it (Config.Desired) and its validation (Config.Validate), the
--   command line that is made of it, and the files of a running machine.
-- - Qemu.Instance: instance.rs and comm.rs, one machine: its runtime pid, its connections (Comm),
--   the calls of its guest agent (Calls) and its lifecycle (Control), over the calls of
--   `InstanceHost`.
-- - Qemu.Manager: manager.rs, over the instances that its workers share and the metadata manager.
--   Instances is the interface that Discovery, Lifecycle and Ends take, and Qemu.Instance.Managed
--   fills it with the methods of Qemu.Instance. Worker is the worker of a machine, over what it
--   receives, with the tasks that it schedules, and Reach the step relation of a manager.
-- - Bare: examples/bare/src, the engine that runs copies of a system command, on
--   SystemCommand.Control, with its loop over events (Bare.Events).
-- - Storage: becky-engine/src/storage.rs and src/sys_conf.rs, the directories of a host and the
--   filesystem backend over an interface to the disk.
-- The modules that hold theorems are named for what they prove, such as
-- SystemCommand.Control.Start; Sample modules hold data, and Examples modules runs.
--
-- Widths and bounds: pids are read below 2^32 and identifiers below 2^64, as their types say; other
-- machine integers are only passed on, but for the sums of Bare, which wrap at 2^64. Times are in
-- milliseconds, and chrono's instants in nanoseconds. `wait_for_pid_exit` takes the 100 rounds of
-- the source and its last look. The wait of RustFn.Exit and that of Qemu.Manager, which the source
-- ends by the clock, take as many rounds as their timeouts have pauses, and one more;
-- RustFn.Exit.Waits has the loop with no bound, and Qemu.Manager.Waits compares with waits of more
-- rounds, on a clock that keeps time (Runtime.Time). The monitors may run for ever, and are
-- modelled by their first `n` rounds, like the scheduled tasks of a qemu worker; the loop of a
-- worker and the drain of its events run over what they receive, whatever that is. A wait for a
-- scheduled task that never ends leaves the worker stuck.
--
-- Not modelled: log lines, `Debug` output, the messages inside errors of parsers, docker statistics
-- (read through floating point), the wait of a send on a full channel (a call stands for the state
-- in which it returns), the connection loops of comm.rs, the descriptive data of becky-engine, and
-- the set-up of examples/bare. Children run in the background of the host's state; the waiter task
-- of a system command is modelled where it is awaited.
pub mod Bare
pub mod Base
pub mod Text
pub mod Id
pub mod State
pub mod Os
pub mod SystemCommand
pub mod Runtime
pub mod Utils
pub mod RustFn
pub mod Docker
pub mod Qemu
pub mod Storage
