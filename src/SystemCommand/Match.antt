-- ===== src/SystemCommand/Match.antt =====
-- `command_equal`: when a process of the host is this command.
pub mod Exact
use becky.Base.{
  ℕ, ◌-◌, ◌≡◌, refl, ◌↔◌, ap, arith, List, [], ◌∷◌, Bool, true, false, ◌&&◌, ◌==◌, nat_eq,
}
use becky.Base.{list_eq, length, length-map, map, if◌then◌else◌, Option, none, some}
use becky.Text.{Text}
use becky.Os.{OsString, utf8, invalid, eq_str, to_string_lossy, Process, process, Os}

-- `zip(…).all(…)`
all_equal : List Text → List OsString → Bool
all_equal (s ∷ ss) (o ∷ os) = s == to_string_lossy o && all_equal ss os
all_equal _ _ = true

unfoldable pub command_equal : Text → List Text → List OsString → Bool
unfolding all_equal list_eq nat_eq
command_equal cmd_a cmd_a_args [] = false
command_equal cmd_a cmd_a_args (b ∷ bs) =
    if eq_str cmd_a b && length cmd_a_args == length (b ∷ bs) - 1
    then all_equal cmd_a_args bs
    else false
