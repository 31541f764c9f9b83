-- ===== src/Text/Lossy.antt =====
-- `String::from_utf8_lossy`, and the ASCII search that is made in its result.
use becky.Base.{ℕ, zero, suc, ◌+◌, ◌-◌, ◌*◌, List, [], ◌∷◌, Bool, true, false, ◌&&◌, ◌||◌}
use becky.Base.{if◌then◌else◌, leb, ltb, ◌==◌, nat_eq, map}
use becky.Text.{Text}

-- What a byte begins: a character of its own, a sequence with so many bytes to come, of which the
-- next lies between two bounds, or nothing.
pub data Lead : Type 0 where
  ascii bad : Lead
  sequence : ℕ → ℕ → ℕ → ℕ → Lead

between : ℕ → ℕ → ℕ → Bool
between lo hi b = leb lo b && leb b hi

lead : ℕ → Lead
unfolding between nat_eq
lead b =
    if ltb b 0x80
    then ascii
    else (if between 0xc2 0xdf b
        then sequence 1 0x80 0xbf (b - 0xc0)
        else (if b == 0xe0
            then sequence 2 0xa0 0xbf 0
            else (if b == 0xed
                then sequence 2 0x80 0x9f 0xd
                else (if between 0xe1 0xef b
                    then sequence 2 0x80 0xbf (b - 0xe0)
                    else (if b == 0xf0
                        then sequence 3 0x90 0xbf 0
                        else (if between 0xf1 0xf3 b
                            then sequence 3 0x80 0xbf (b - 0xf0)
                            else if b == 0xf4
                            then sequence 3 0x80 0x8f 4
                            else bad))))))

-- The bytes to come, the bounds of the next one, and the value so far. A sequence that breaks off
-- leaves one replacement character, and the byte that broke it begins anew.
decode : ℕ → ℕ → ℕ → ℕ → List ℕ → Text
unfolding lead between
decode zero lo hi value [] = []
decode (suc n) lo hi value [] = 0xfffd ∷ []
decode zero lo hi value (b ∷ bs) = elim (lead b) [
  | ascii ↦ b ∷ decode 0 0 0 0 bs
  | bad ↦ 0xfffd ∷ decode 0 0 0 0 bs
  | sequence m lo' hi' v ↦ decode m lo' hi' v bs
]
decode (suc n) lo hi value (b ∷ bs) =
    let value' = value * 64 + (b - 0x80) in
    elim (between lo hi b) [
      | true ↦ elim n [
        | zero ↦ value' ∷ decode 0 0 0 0 bs
        | suc m ↦ decode (suc m) 0x80 0xbf value' bs
      ]
      | false ↦ elim (lead b) [
        | ascii ↦ 0xfffd ∷ b ∷ decode 0 0 0 0 bs
        | bad ↦ 0xfffd ∷ 0xfffd ∷ decode 0 0 0 0 bs
        | sequence m lo' hi' v ↦ 0xfffd ∷ decode m lo' hi' v bs
      ]
    ]

unfoldable pub from_utf8_lossy : List ℕ → Text
unfolding decode
from_utf8_lossy bytes = decode 0 0 0 0 bytes

lower : ℕ → ℕ
unfolding between
lower c = if between b'A' b'Z' c then c + 32 else c

unfoldable pub to_ascii_lowercase : Text → Text
unfolding lower
to_ascii_lowercase s = map lower s

unfoldable pub starts_with : Text → Text → Bool
unfolding nat_eq
starts_with s [] = true
starts_with [] (c ∷ p) = false
starts_with (d ∷ s) (c ∷ p) = d == c && starts_with s p

unfoldable pub contains : Text → Text → Bool
unfolding starts_with
contains [] p = starts_with [] p
contains (c ∷ s) p = starts_with (c ∷ s) p || contains s p
