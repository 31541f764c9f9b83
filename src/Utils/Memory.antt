-- ===== src/Utils/Memory.antt =====
-- Piped children on the host in memory: a child's command line is kept in a file without a name,
-- and a simulation answers for it.
use becky.Base.{ℕ, [], Option, none, some, ok, Result, nat_eq, ltb, if◌then◌else◌}
use becky.Base.{lists_eq}
use becky.Text.{Text, chars, join}
use becky.Os.{IoError}
use becky.Os.Memory.{Host, lookup, memory_os}
use becky.Utils.{Output, Pipes}

-- What a program that runs with a command line answers, and how long it takes.
pub record Program : Type 0 where
  pub answer : Text → Host → Output × Host
  pub time : ℕ

abbrev line_of : Option Text → Text
line_of none = []
line_of (some line) = line

abbrev pub finished : Program → Host → Result IoError Output × Host
finished p w = let (o, w') = p.answer (line_of (lookup [] w.files)) w in (ok o, w')

unfoldable pub memory_pipes : Program → Pipes Host
unfolding lookup memory_os join
memory_pipes p = record {
  now = λ w. (w.time, w);
  spawn_piped = λ cmd args w. (ok w.next, (memory_os.write [] (join (chars " ") args) w).1);
  wait_with_output = λ child w. finished p w;
  output_within = λ limit child w.
      if ltb limit p.time then (none, w) else (let (o, w') = finished p w in (some o, w'));
}
