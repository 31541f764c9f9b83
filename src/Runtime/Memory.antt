-- ===== src/Runtime/Memory.antt =====
-- The runtime over the host in memory: a task that is spawned does nothing before it is joined.
use becky.Base.{ℕ, ◌+◌, arith, true, List, [], ◌∷◌, ok, ◌==◌, nat_eq, if◌then◌else◌}
use becky.Text.{chars}
use becky.State.{FxExecutionState, unknown}
use becky.Os.Memory.{Host, memory_os}
use becky.Runtime.{Runtime}
use becky.Runtime.Time.{KeepsTime}

latest : ℕ → List (ℕ × FxExecutionState) → FxExecutionState
latest cell [] = unknown
latest cell ((k, state) ∷ rest) = if k == cell then state else latest cell rest

unfoldable pub memory_runtime : (M : Type 0) → Runtime Host M
unfolding latest nat_eq
memory_runtime M = record {
  os = memory_os;
  current_exe = λ w. (ok (chars "/bin/app"), w);
  now = λ w. (w.time, w);
  format_debug = λ s. s;
  new_cell = λ state w. (w.next, record w { cells = (w.next, state) ∷ w.cells; next = w.next + 1 });
  read_cell = λ cell w. (latest cell w.cells, w);
  write_cell = λ cell state w. record w { cells = (cell, state) ∷ w.cells };
  spawn_task = λ task w. (w.next, record w { next = w.next + 1 });
  send_cancel = λ task w. w;
  join_task = λ task w. w;
  cancelled = λ w. (true, w);
  interval = λ ms w. record w { time = w.time + ms };
}

pub memory_runtime-KeepsTime : (M : Type 0) → KeepsTime (memory_runtime M)
unfolding memory_runtime memory_os
memory_runtime-KeepsTime M = record {
  now_later = λ w. omega arith;
  new_all_later = λ w. omega arith;
  sleep_later = λ ms w. omega arith;
}
