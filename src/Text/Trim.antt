-- ===== src/Text/Trim.antt =====
-- `str::trim`.
use becky.Base.{ℕ, [], ◌∷◌, ◌++◌, Bool, true, false, ◌||◌, ◌&&◌, leb, ltb, ◌==◌, nat_eq}
use becky.Base.{◌≡◌, refl, if◌then◌else◌, All}
use becky.Text.{Text}

-- The White_Space property, which `char::is_whitespace` goes by.
abbrev pub is_whitespace : ℕ → Bool
is_whitespace c =
    if ltb c 0x80
    then (leb 0x9 c && leb c 0xd) || c == 0x20
    else c == 0x85
      || c == 0xa0
      || c == 0x1680
      || (leb 0x2000 c && leb c 0x200a)
      || (c == 0x2028 || c == 0x2029 || c == 0x202f || c == 0x205f || c == 0x3000)

unfoldable pub trim_start : Text → Text
unfolding nat_eq
trim_start [] = []
trim_start (c ∷ s) = if is_whitespace c then trim_start s else c ∷ s

push_front : ℕ → Text → Text
unfolding nat_eq
push_front c [] = if is_whitespace c then [] else c ∷ []
push_front c (d ∷ s) = c ∷ d ∷ s

unfoldable pub trim_end : Text → Text
unfolding push_front
trim_end [] = []
trim_end (c ∷ s) = push_front c (trim_end s)

unfoldable pub trim : Text → Text
unfolding trim_start trim_end
trim s = trim_end (trim_start s)

abbrev pub IsInk : ℕ → Type 0
IsInk c = is_whitespace c ≡ false

trim_start-ink : (c : ℕ) (s : Text) → is_whitespace c ≡ false → trim_start (c ∷ s) ≡ c ∷ s
unfolding trim_start
trim_start-ink c s h = rw h

push_front-ink : (c : ℕ) (s : Text) → is_whitespace c ≡ false → push_front c s ≡ c ∷ s
unfolding push_front
push_front-ink c [] h = rw h
push_front-ink c (d ∷ s) h = refl

trim_end-append :
    (s : Text) (n : ℕ) → All IsInk s → is_whitespace n ≡ true → trim_end (s ++ n ∷ []) ≡ s
unfolding trim_end
trim_end-append [] n h w = rw w
trim_end-append (c ∷ s) n (hc, hs) w = rw (trim_end-append s n hs w) (push_front-ink c s hc)

-- A line of visible characters loses its end.
pub trim-append : (s : Text) (n : ℕ) → All IsInk s → is_whitespace n ≡ true → trim (s ++ n ∷ []) ≡ s
unfolding trim
trim-append [] n h w = rw w
trim-append (c ∷ s) n (hc, hs) w = rw (trim_start-ink c _ hc) (trim_end-append (c ∷ s) n (hc, hs) w)

trim_end-ink : (s : Text) → All IsInk s → trim_end s ≡ s
unfolding trim_end
trim_end-ink [] h = refl
trim_end-ink (c ∷ s) (hc, hs) = rw (trim_end-ink s hs) (push_front-ink c s hc)

-- Visible characters are left as they are.
pub trim-ink : (s : Text) → All IsInk s → trim s ≡ s
unfolding trim
trim-ink [] h = refl
trim-ink (c ∷ s) (hc, hs) = rw (trim_start-ink c s hc) (trim_end-ink (c ∷ s) (hc, hs))
