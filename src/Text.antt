-- ===== src/Text.antt =====
-- Rust's `String`, as the list of its characters (Unicode scalar values), and what the code uses
-- of it: decimal and hexadecimal formatting, `trim`, `parse` and the UTF-8 bytes.
pub mod Decimal
pub mod Trim
pub mod Utf8
pub mod Lossy
use Prim.Native.Char.{code}
use Prim.Native.String.{String}
use becky.Base.{ℕ, List, [], ◌∷◌, ◌++◌, ◌<◌, ◌≤◌, All, Option, none, some, ◌==◌, nat_eq, list_eq}
use becky.Base.{Bool, true, false, if◌then◌else◌, ◌||◌, leb, ◌&&◌}

abbrev pub Text : Type 0
Text = List ℕ

-- A literal, by its characters.
abbrev pub chars : String → Text
chars String.[] = []
chars (String.◌∷◌ c s) = code c ∷ chars s

-- A scalar value takes 21 bits.
abbrev pub IsText : Text → Type 0
IsText = All (λ c. c < 0x110000)

abbrev pub is_ascii_digit : ℕ → Bool
is_ascii_digit c = leb b'0' c && leb c b'9'

-- `char::is_ascii_alphanumeric`
abbrev pub is_ascii_alphanumeric : ℕ → Bool
is_ascii_alphanumeric c =
    is_ascii_digit c || (leb b'a' c && leb c b'z') || (leb b'A' c && leb c b'Z')

-- `parts.join(sep)`
unfoldable pub join : Text → List Text → Text
join sep [] = []
join sep (p ∷ []) = p
join sep (p ∷ q ∷ ps) = p ++ (sep ++ join sep (q ∷ ps))
