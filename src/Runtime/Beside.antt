-- ===== src/Runtime/Beside.antt =====
-- The host in memory, and its runtime, beside a state that none of their calls changes.
use becky.Os.{Os}
use becky.Os.Memory.{Host, memory_os}
use becky.Runtime.{Runtime}
use becky.Runtime.Memory.{memory_runtime}

abbrev beside : {L A : Type 0} → (Host → A × Host) → L × Host → A × (L × Host)
beside call (l, w) = let (a, w') = call w in (a, (l, w'))

abbrev beside_only : {L : Type 0} → (Host → Host) → L × Host → L × Host
beside_only call (l, w) = (l, call w)

unfoldable pub os_beside : (L : Type 0) → Os (L × Host)
unfolding memory_os
os_beside L = record {
  read_to_string = λ path. beside (memory_os.read_to_string path);
  write = λ path text. beside (memory_os.write path text);
  remove_file = λ path. beside (memory_os.remove_file path);
  create_dir_all = λ path. beside (memory_os.create_dir_all path);
  create_file = λ path. beside (memory_os.create_file path);
  new_all = beside memory_os.new_all;
  kill_with = λ pid signal. beside (memory_os.kill_with pid signal);
  kill_group = λ pid signal. beside (memory_os.kill_group pid signal);
  sleep = λ ms. beside_only (memory_os.sleep ms);
  spawn = λ c. beside (memory_os.spawn c);
  child_id = λ child. beside (memory_os.child_id child);
  try_wait = λ child. beside (memory_os.try_wait child);
  wait = λ child. beside (memory_os.wait child);
  kill_child = λ child. beside (memory_os.kill_child child);
  join_error = beside memory_os.join_error;
}

unfoldable pub runtime_beside : (L M : Type 0) → Runtime (L × Host) M
unfolding memory_runtime os_beside
runtime_beside L M =
    let runtime = memory_runtime M in
    record {
      os = os_beside L;
      current_exe = beside runtime.current_exe;
      now = beside runtime.now;
      format_debug = runtime.format_debug;
      new_cell = λ state. beside (runtime.new_cell state);
      read_cell = λ cell. beside (runtime.read_cell cell);
      write_cell = λ cell state. beside_only (runtime.write_cell cell state);
      spawn_task = λ task. beside (runtime.spawn_task task);
      send_cancel = λ task. beside_only (runtime.send_cancel task);
      join_task = λ task. beside_only (runtime.join_task task);
      cancelled = beside runtime.cancelled;
      interval = λ ms. beside_only (runtime.interval ms);
    }
