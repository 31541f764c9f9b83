-- ===== src/Text/Utf8.antt =====
-- The UTF-8 bytes of a text: `str::as_bytes` and `str::len`.
use becky.Base.{ℕ, List, [], ◌∷◌, ◌++◌, ◌+◌, ◌/◌, ◌%◌, ◌<◌, ltb, ◌≡◌, refl, arith, if◌then◌else◌}
use becky.Base.{length, length-append, All, All-append}
use becky.Text.{Text, IsText}

unfoldable pub utf8_char : ℕ → List ℕ
utf8_char c =
    if ltb c 0x80
    then c ∷ []
    else if ltb c 0x800
    then (0xc0 + c / 0x40) ∷ (0x80 + c % 0x40) ∷ []
    else if ltb c 0x10000
    then (0xe0 + c / 0x1000) ∷ (0x80 + c / 0x40 % 0x40) ∷ (0x80 + c % 0x40) ∷ []
    else (0xf0 + c / 0x40000)
      ∷ (0x80 + c / 0x1000 % 0x40)
      ∷ (0x80 + c / 0x40 % 0x40)
      ∷ (0x80 + c % 0x40)
      ∷ []

unfoldable pub as_bytes : Text → List ℕ
unfolding utf8_char
as_bytes [] = []
as_bytes (c ∷ s) = utf8_char c ++ as_bytes s

-- `str::len` counts bytes.
unfoldable pub byte_len : Text → ℕ
unfolding as_bytes
byte_len s = length (as_bytes s)

utf8_char-prefix :
    (c d : ℕ) (r t : List ℕ)
    → c < 0x110000
    → d < 0x110000
    → utf8_char c ++ r ≡ utf8_char d ++ t
    → (c ≡ d) × (r ≡ t)
unfolding utf8_char
utf8_char-prefix c d r t hc hd h = ground arith

-- Texts with the same bytes are the same.
pub as_bytes-injective : (s t : Text) → IsText s → IsText t → as_bytes s ≡ as_bytes t → s ≡ t
unfolding as_bytes
as_bytes-injective [] [] hs ht h = refl
as_bytes-injective [] (d ∷ t) hs ht h = ground arith
as_bytes-injective (c ∷ s) [] hs ht h = ground arith
as_bytes-injective (c ∷ s) (d ∷ t) (hc, hs) (hd, ht) h =
    let (e, rest) = utf8_char-prefix c d (as_bytes s) (as_bytes t) hc hd h in
    cc (e, as_bytes-injective s t hs ht rest)

pub byte_len-cons : (c : ℕ) (s : Text) → byte_len s < byte_len (c ∷ s)
unfolding byte_len
byte_len-cons c s = ground arith

utf8_char-bytes : (c : ℕ) → c < 0x110000 → All (λ b. b < 256) (utf8_char c)
unfolding utf8_char
utf8_char-bytes c h = ground arith

pub as_bytes-bytes : (s : Text) → IsText s → All (λ b. b < 256) (as_bytes s)
unfolding as_bytes
as_bytes-bytes [] h = tt
as_bytes-bytes (c ∷ s) (hc, hs) =
    All-append (λ b. b < 256) (utf8_char c) _ (unfold utf8_char in utf8_char-bytes c hc)
      (as_bytes-bytes s hs)

byte_len-tail : (c : ℕ) (v w : Text) → byte_len (c ∷ v) ≡ byte_len (c ∷ w) → byte_len v ≡ byte_len w
unfolding byte_len
byte_len-tail c v w h =
    omega
      (arith, length-append (utf8_char c) (as_bytes v), length-append (utf8_char c) (as_bytes w), h)

-- Two heads of one text that take the same bytes are equal.
pub append-byte_len :
    (v w r t : Text) → byte_len v ≡ byte_len w → v ++ r ≡ w ++ t → (v ≡ w) × (r ≡ t)
append-byte_len [] [] r t e h = (refl, h)
append-byte_len [] (d ∷ w) r t e h = absurd (unfold byte_len in ground (arith, byte_len-cons d w))
append-byte_len (c ∷ v) [] r t e h = absurd (unfold byte_len in ground (arith, byte_len-cons c v))
append-byte_len (c ∷ v) (d ∷ w) r t e h =
    let (same, rest) : (c ≡ d) × (v ++ r ≡ w ++ t) = ground arith in
    let (heads, tails) = append-byte_len v w r t (byte_len-tail c v w (rw (← same) at e)) rest in
    (cc (same, heads), tails)
