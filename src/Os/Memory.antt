-- ===== src/Os/Memory.antt =====
-- A host in memory, on which the theorems are run: files by path, a process table, the shared cells
-- with the latest write first, and the time.
use becky.Base.{ℕ, ◌+◌, ◌≡◌, refl, arith, true, Option, none, some, List, [], ◌∷◌, map}
use becky.Base.{Result, ok, err, ◌==◌, nat_eq, lists_eq, if◌then◌else◌}
use becky.Text.{Text}
use becky.State.{FxExecutionState}
use becky.Os.{no_disk_usage, not_found, IoError, FilePath, utf8, Process, Command, Os}

pub record Host : Type 0 where
  pub files : List (FilePath × Text)
  pub table : List Process
  pub next : ℕ
  pub cells : List (ℕ × FxExecutionState)
  pub time : ℕ

unfoldable pub lookup : FilePath → List (FilePath × Text) → Option Text
lookup k [] = none
lookup k ((j, v) ∷ m) = if j == k then some v else lookup k m

insert : FilePath → Text → List (FilePath × Text) → List (FilePath × Text)
insert k v [] = (k, v) ∷ []
insert k v ((j, w) ∷ m) = if j == k then (k, v) ∷ m else (j, w) ∷ insert k v m

erase : FilePath → List (FilePath × Text) → List (FilePath × Text)
erase k [] = []
erase k ((j, w) ∷ m) = let rest = erase k m in if j == k then rest else (j, w) ∷ rest

lookup-insert :
    (k : FilePath) (v : Text) (m : List (FilePath × Text)) → lookup k (insert k v m) ≡ some v
unfolding lookup insert
lookup-insert k v [] = ground arith
lookup-insert k v ((j, w) ∷ m) = ground (arith, lookup-insert k v m)

end_process : ℕ → List Process → List Process
end_process pid [] = []
end_process pid (p ∷ ps) = let rest = end_process pid ps in if p.pid == pid then rest else p ∷ rest

missing : IoError
missing = record { kind = not_found; message = [] }

found_or_missing : Option Text → Result IoError Text
unfolding missing
found_or_missing none = err missing
found_or_missing (some text) = ok text

removed_or_missing : Option Text → Result IoError (Unit {0})
unfolding missing
removed_or_missing none = err missing
removed_or_missing (some text) = ok tt

abbrev pub child_process : ℕ → Command → Process
child_process pid c = record {
  pid = pid;
  name = utf8 c.program;
  cmd = map utf8 (c.program ∷ c.args);
  accumulated_cpu_time = 0;
  memory = 0;
  virtual_memory = 0;
  run_time = 0;
  disk_usage = no_disk_usage;
}

-- Every signal ends the process, and a child lives until it is killed.
unfoldable pub memory_os : Os Host
unfolding lookup insert erase end_process found_or_missing removed_or_missing nat_eq lists_eq
memory_os = record {
  read_to_string = λ path w. (found_or_missing (lookup path w.files), w);
  write = λ path text w. (ok tt, record w { files = insert path text w.files });
  remove_file =
      λ path w. (removed_or_missing (lookup path w.files), record w { files = erase path w.files });
  create_dir_all = λ path w. (ok tt, w);
  create_file = λ path w. (ok w.next, record w { files = insert path [] w.files });
  new_all = λ w. (w.table, w);
  kill_with = λ pid signal w. (some true, record w { table = end_process pid w.table });
  kill_group = λ pid signal w. (0, record w { table = end_process pid w.table });
  sleep = λ ms w. record w { time = w.time + ms };
  spawn =
      λ c w. (ok w.next, record w { table = child_process w.next c ∷ w.table; next = w.next + 1 });
  child_id = λ child w. (some child, w);
  try_wait = λ child w. (ok none, w);
  wait = λ child w. (ok 9, w);
  kill_child = λ child w. (ok tt, record w { table = end_process child w.table });
  join_error = λ w. (none, w);
}

pub memory_read-write :
    (path : FilePath) (text : Text) (w w' : Host)
    → memory_os.write path text w ≡ (ok tt, w')
    → (memory_os.read_to_string path w').0 ≡ ok text
unfolding memory_os
memory_read-write path text w w' h =
    let files : insert path text w.files ≡ w'.files = cc in
    rw (← files, lookup-insert path text w.files) refl
