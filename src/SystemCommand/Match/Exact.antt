-- ===== src/SystemCommand/Match/Exact.antt =====
-- Which command lines `command_equal` accepts.
use becky.Base.{◌≡◌, ◌≢◌, refl, ◌↔◌, arith, List, [], ◌∷◌, true, false, nat_eq, list_eq}
use becky.Base.{length, length-map, map}
use becky.Text.{Text}
use becky.Os.{OsString, utf8, invalid, to_string_lossy}
use becky.SystemCommand.Match.{all_equal, command_equal}

-- A process's command line is the command: the program is UTF-8 and the same, and the arguments
-- are the same once they are converted.
abbrev pub IsCommand : Text → List Text → List OsString → Type 0
IsCommand cmd args os =
    (rest : List OsString) × (os ≡ utf8 cmd ∷ rest) × (map to_string_lossy rest ≡ args)

all_equal_sound :
    (args : List Text) (os : List OsString)
    → length args ≡ length os
    → all_equal args os ≡ true
    → map to_string_lossy os ≡ args
unfolding all_equal
all_equal_sound [] [] e h = refl
all_equal_sound [] (o ∷ os) e h = absurd (omega arith)
all_equal_sound (a ∷ args) [] e h = absurd (omega arith)
all_equal_sound (a ∷ args) (o ∷ os) e h = ground (arith, all_equal_sound args os)

all_equal_complete : (os : List OsString) → all_equal (map to_string_lossy os) os ≡ true
unfolding all_equal
all_equal_complete [] = refl
all_equal_complete (o ∷ os) = ground (arith, all_equal_complete os)

command_equal_sound :
    (cmd : Text) (args : List Text) (os : List OsString)
    → command_equal cmd args os ≡ true
    → IsCommand cmd args os
unfolding command_equal
command_equal_sound cmd args [] h = cc
command_equal_sound cmd args (utf8 s ∷ os) h =
    (os, ground arith, ground (arith, all_equal_sound args os))
command_equal_sound cmd args (invalid s ∷ os) h = cc

command_equal_complete :
    (cmd : Text) (args : List Text) (os : List OsString)
    → IsCommand cmd args os
    → command_equal cmd args os ≡ true
unfolding command_equal
command_equal_complete cmd args os (rest, e, m) =
    rw (e, ← m) (ground (arith, all_equal_complete rest, length-map to_string_lossy rest))

-- The comparison accepts exactly the command lines whose program is UTF-8 and the same as the
-- command, and whose arguments are those of the command once each is converted by
-- `to_string_lossy`: a program that is not UTF-8 is accepted for no command, whatever its conversion.
pub command_equal_iff :
    (cmd : Text) (args : List Text) (os : List OsString)
    → (command_equal cmd args os ≡ true) ↔ IsCommand cmd args os
command_equal_iff cmd args os =
    (command_equal_sound cmd args os, command_equal_complete cmd args os)

-- Command lines of different lengths are not both accepted.
pub command_equal_lengths :
    (c d : Text) (args args' : List Text) (os : List OsString)
    → length args ≢ length args'
    → command_equal c args os ≡ true
    → command_equal d args' os ≡ false
unfolding command_equal
command_equal_lengths c d args args' [] ne h = refl
command_equal_lengths c d args args' (o ∷ os) ne h = ground arith
