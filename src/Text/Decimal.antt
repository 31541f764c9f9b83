-- ===== src/Text/Decimal.antt =====
-- `to_string` of an unsigned integer, and `str::parse` into one.
pub mod RoundTrip
use becky.Base.{ℕ, zero, suc, ◌+◌, ◌-◌, ◌*◌, ◌/◌, ◌%◌, ◌≤◌, List, [], ◌∷◌, ◌++◌}
use becky.Base.{Option, none, some, Bool, true, false, ◌||◌, ltb, ◌==◌, nat_eq, if◌then◌else◌, All}
use becky.Text.{Text}

-- Each round takes off the last digit; `n` rounds are more than the digits of `n`.
digits : ℕ → ℕ → Text
digits zero n = []
digits (suc f) n = elim (ltb n 10) [
  | true ↦ (b'0' + n) ∷ []
  | false ↦ digits f (n / 10) ++ (b'0' + n % 10) ∷ []
]

unfoldable pub decimal : ℕ → Text
unfolding digits
decimal n = digits (suc n) n

-- The digits behind the value so far; `none` is an invalid digit or an overflow over `max`.
pub scan : ℕ → Text → ℕ → Option ℕ
scan max [] n = some n
scan max (c ∷ s) n =
    let m = n * 10 + (c - b'0') in
    if ltb c b'0' || ltb b'9' c then none else if ltb max m then none else scan max s m

parse_signed : ℕ → ℕ → Text → Option ℕ
parse_signed max c [] = if c == b'+' then none else scan max (c ∷ []) 0
parse_signed max c (d ∷ s) = if c == b'+' then scan max (d ∷ s) 0 else scan max (c ∷ d ∷ s) 0

-- `str::parse` into the unsigned type whose greatest value is `max`. A leading plus is read.
unfoldable pub parse_uint : ℕ → Text → Option ℕ
unfolding scan parse_signed nat_eq
parse_uint max [] = none
parse_uint max (c ∷ s) = parse_signed max c s

abbrev pub IsDigit : ℕ → Type 0
IsDigit c = (b'0' ≤ c) × (c ≤ b'9')
