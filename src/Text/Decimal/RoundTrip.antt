-- ===== src/Text/Decimal/RoundTrip.antt =====
-- Formatting and parsing are inverse, and formatting is injective.
use becky.Base.{ℕ, zero, suc, ◌+◌, ◌-◌, ◌*◌, ◌/◌, ◌%◌, ◌^◌, ◌<◌, ◌≤◌, [], ◌∷◌, ◌++◌}
use becky.Base.{some, ◌≡◌, ◌≢◌, refl, ◌∙◌, arith, true, false, ltb, inl, inr}
use becky.Base.{All, All-append, Bool-cases, length, length-append, nat_eq}
use becky.Text.{Text}
use becky.Text.Decimal.{digits, decimal, scan, parse_uint, IsDigit}

digits_small : (f n : ℕ) → ltb n 10 ≡ true → digits (suc f) n ≡ (b'0' + n) ∷ []
unfolding digits
digits_small f n h = rw (h, digits)

digits_big :
    (f n : ℕ) → ltb n 10 ≡ false → digits (suc f) n ≡ digits f (n / 10) ++ (b'0' + n % 10) ∷ []
unfolding digits
digits_big f n h = rw (h, digits)

digits-IsDigits : (f n : ℕ) → All IsDigit (digits f n)
unfolding digits
digits-IsDigits zero n = tt
digits-IsDigits (suc f) n = elim (Bool-cases (ltb n 10)) [
  | inl small ↦ rw (digits_small f n small) (ground arith)
  | inr big ↦
      rw (digits_big f n big)
        (All-append IsDigit (digits f (n / 10)) _ (digits-IsDigits f (n / 10)) (omega arith))
]

-- A decimal print holds digits alone.
pub decimal-IsDigits : (n : ℕ) → All IsDigit (decimal n)
unfolding decimal
decimal-IsDigits n = digits-IsDigits (suc n) n

snoc-ne-nil : (s : Text) (c : ℕ) → s ++ c ∷ [] ≢ []
snoc-ne-nil [] c = cc
snoc-ne-nil (x ∷ s) c = cc

pub decimal-ne-nil : (n : ℕ) → decimal n ≢ []
unfolding decimal
decimal-ne-nil n = elim (Bool-cases (ltb n 10)) [
  | inl small ↦ rw (small, digits) (cc)
  | inr big ↦ rw (big, digits) (snoc-ne-nil _ _)
]

scan-append :
    (max n : ℕ) (s t : Text) (m : ℕ) → scan max s n ≡ some m → scan max (s ++ t) n ≡ scan max t m
unfolding scan
scan-append max n [] t m h = ground arith
scan-append max n (c ∷ s) t m h = ground (arith, scan-append max (n * 10 + (c - b'0')) s t m)

scan_digit : (max n : ℕ) → n ≤ max → scan max ((b'0' + n % 10) ∷ []) (n / 10) ≡ some n
unfolding scan
scan_digit max n h = ground arith

scan-digits : (max f n : ℕ) → n < f → n ≤ max → scan max (digits f n) 0 ≡ some n
unfolding digits
scan-digits max zero n lt h = elim lt [ ]
scan-digits max (suc f) n lt h = elim (Bool-cases (ltb n 10)) [
  | inl small ↦ rw (digits_small f n small) (unfold scan in ground arith)
  | inr big ↦ rw (digits_big f n big) (
      scan-append max 0 (digits f (n / 10)) _ (n / 10)
        (scan-digits max f (n / 10) (ground arith) (omega arith))
      ∙ scan_digit max n h)
]

pub scan-decimal : (max n : ℕ) → n ≤ max → scan max (decimal n) 0 ≡ some n
unfolding decimal
scan-decimal max n h = scan-digits max (suc n) n (omega arith) h

-- On digits alone no sign is read.
pub parse_uint-eq-scan :
    (max : ℕ) (s : Text) → s ≢ [] → All IsDigit s → parse_uint max s ≡ scan max s 0
unfolding parse_uint
parse_uint-eq-scan max [] h d = absurd (h refl)
parse_uint-eq-scan max (c ∷ []) h d = ground arith
parse_uint-eq-scan max (c ∷ e ∷ s) h d = ground arith

-- Every value of the type is read back from its print.
pub parse_uint-decimal : (max n : ℕ) → n ≤ max → parse_uint max (decimal n) ≡ some n
parse_uint-decimal max n h =
    parse_uint-eq-scan max _ (decimal-ne-nil n) (decimal-IsDigits n) ∙ scan-decimal max n h

pub decimal-injective : (m n : ℕ) → decimal m ≡ decimal n → m ≡ n
decimal-injective m n h =
    cc (scan-decimal (m + n) m (omega arith), scan-decimal (m + n) n (omega arith), h)

pow_ten : (k : ℕ) → 10 ^ suc k ≡ 10 * 10 ^ k
pow_ten k = ground arith

length-digits : (k f n : ℕ) → n < 10 ^ suc k → length (digits f n) ≤ suc k
unfolding digits
length-digits k zero n h = omega arith
length-digits zero (suc f) n h = elim (Bool-cases (ltb n 10)) [
  | inl small ↦ rw (digits_small f n small) (omega arith)
  | inr big ↦ absurd (ground (arith, pow_ten 0, big))
]
length-digits (suc k) (suc f) n h = elim (Bool-cases (ltb n 10)) [
  | inl small ↦ rw (digits_small f n small) (omega arith)
  | inr big ↦ rw (digits_big f n big) (
      omega (
        arith,
        length-append (digits f (n / 10)) ((b'0' + n % 10) ∷ []),
        length-digits k f (n / 10) (omega (arith, pow_ten (suc k))),
      ))
]

-- A number below `10 ^ k` has `k` digits at most.
pub length-decimal : (k n : ℕ) → n < 10 ^ suc k → length (decimal n) ≤ suc k
unfolding decimal
length-decimal k n h = length-digits k (suc n) n h

scan-le : (max n : ℕ) (s : Text) (m : ℕ) → n ≤ max → scan max s n ≡ some m → m ≤ max
unfolding scan
scan-le max n [] m le h = ground arith
scan-le max n (c ∷ s) m le h = ground (arith, scan-le max (n * 10 + (c - b'0')) s m)

-- What is read is a value of the type.
pub parse_uint-le : (max : ℕ) (s : Text) (m : ℕ) → parse_uint max s ≡ some m → m ≤ max
unfolding parse_uint
parse_uint-le max [] m h = cc
parse_uint-le max (c ∷ []) m h = grind (arith, scan-le max 0 (c ∷ []) m)
parse_uint-le max (c ∷ d ∷ s) m h =
    ground (arith, scan-le max 0 (d ∷ s) m, scan-le max 0 (c ∷ d ∷ s) m)
