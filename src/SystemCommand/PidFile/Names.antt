-- ===== src/SystemCommand/PidFile/Names.antt =====
-- The names of pid files.
use mathlib.Core.List.{append_cancel_right}
use becky.Base.{ℕ, ◌/◌, ◌%◌, ◌<◌, ◌≡◌, ◌≢◌, refl, arith, List, [], ◌∷◌, some}
use becky.Base.{All, All-append, length}
use becky.Text.{Text, IsText, chars}
use becky.Text.Utf8.{as_bytes, as_bytes-bytes, as_bytes-injective}
use becky.Id.{UuidCrate, IsUuidCrate, FxId, to_string}
use becky.Id.RoundTrip.{IsPlain, to_string-injective}
use becky.Os.{FilePath, join_name}
use becky.SystemCommand.{FxSystemCommand}
use becky.SystemCommand.PidFile.{
  hex_digit, hex_bytes, pid_file_stem, pid_file_name, pid_file_in, pid_file_path,
}

hex_digit-injective : (a b : ℕ) → a < 16 → b < 16 → hex_digit a ≡ hex_digit b → a ≡ b
unfolding hex_digit
hex_digit-injective a b ha hb h = ground arith

abbrev IsByte : ℕ → Type 0
IsByte b = b < 256

hex_bytes-injective :
    (bs cs : List ℕ) → All IsByte bs → All IsByte cs → hex_bytes bs ≡ hex_bytes cs → bs ≡ cs
unfolding hex_bytes
hex_bytes-injective [] [] hb hc h = refl
hex_bytes-injective [] (c ∷ cs) hb hc h = cc
hex_bytes-injective (b ∷ bs) [] hb hc h = cc
hex_bytes-injective (b ∷ bs) (c ∷ cs) (b8, hb) (c8, hc) h = ground (
  arith,
  hex_digit-injective (b / 16) (c / 16),
  hex_digit-injective (b % 16) (c % 16),
  hex_bytes-injective bs cs hb hc,
)

pub pid_file_stem-injective :
    (s t : Text) → IsText s → IsText t → pid_file_stem s ≡ pid_file_stem t → s ≡ t
unfolding pid_file_stem
pid_file_stem-injective s t hs ht h = as_bytes-injective s t hs ht (
    hex_bytes-injective (as_bytes s) (as_bytes t) (as_bytes-bytes s hs) (as_bytes-bytes t ht)
      (ground arith))

pid_file_name-injective :
    (s t : Text) → IsText s → IsText t → pid_file_name s ≡ pid_file_name t → s ≡ t
unfolding pid_file_name
pid_file_name-injective s t hs ht h =
    pid_file_stem-injective s t hs ht (append_cancel_right _ _ (chars ".pid") h)

-- ASCII, and neither a slash nor NUL.
abbrev pub IsSafe : ℕ → Type 0
IsSafe c = (c ≢ b'/') × (c ≢ 0) × (c < 128)

hex_bytes-IsSafe : (bs : List ℕ) → All IsByte bs → All IsSafe (hex_bytes bs)
unfolding hex_bytes hex_digit
hex_bytes-IsSafe [] h = tt
hex_bytes-IsSafe (b ∷ bs) (b8, hb) = (ground arith, (ground arith, hex_bytes-IsSafe bs hb))

-- Whatever the identifier holds, the name is ASCII with no slash and no NUL, and longer than `..`:
-- one normal component of a path.
pub pid_file_name-IsSafe :
    (id : Text) → IsText id → All IsSafe (pid_file_name id) × (2 < length (pid_file_name id))
unfolding pid_file_name pid_file_stem
pid_file_name-IsSafe id h = (
  All-append IsSafe (pid_file_stem id) (chars ".pid")
      (
        omega arith,
        (omega arith, (omega arith, hex_bytes-IsSafe (as_bytes id) (as_bytes-bytes id h))),
      )
      (omega arith),
  omega arith,
)

join_name-injective : (dir : FilePath) (s t : Text) → join_name dir s ≡ join_name dir t → s ≡ t
join_name-injective [] s t h = cc
join_name-injective (c ∷ dir) s t h = ground (arith, join_name-injective dir s t)

-- Plain identifiers whose prints are texts have the pid files of their own, under any settings
-- that track pids.
pub pid_file_path-injective :
    (U : UuidCrate) (L : IsUuidCrate U) (c : FxSystemCommand) (i j : FxId U) (dir : FilePath)
    → c.pid_directory ≡ some dir
    → IsPlain U i
    → IsPlain U j
    → IsText (to_string U i)
    → IsText (to_string U j)
    → pid_file_path U c i ≡ pid_file_path U c j
    → i ≡ j
unfolding pid_file_path
pid_file_path-injective U L c i j dir e pi pj ti tj h = to_string-injective U L i j pi pj (
    pid_file_name-injective _ _ ti tj
      (join_name-injective dir _ _ (unfold pid_file_in in ground arith)))
