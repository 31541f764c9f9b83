-- ===== src/Utils/Processes.antt =====
-- becky-utils/src/lib.rs: the look-up of a process.
use becky.Base.{ℕ, List, Option, none, some, map}
use becky.Text.{Text}
use becky.Os.{process, to_string_lossy, Os}

pub record Process : Type 0 where
  pub pid : ℕ
  pub name : Text
  pub args : List Text

unfoldable pub get_process : {W : Type 0} → Os W → ℕ → W → Option Process × W
get_process os pid w =
    let (table, w') = os.new_all w in
    (
      elim (process table pid) as (λ _. Option Process) [
        | none ↦ none
        | some p ↦
            some (record {
              pid = pid;
              name = to_string_lossy p.name;
              args = map to_string_lossy p.cmd;
            })
      ],
      w',
    )
