-- ===== src/Id/RoundTrip.antt =====
-- Which identifiers are read back from their print.
use becky.Base.{ℕ, ◌≤◌, ◌<◌, ◌≡◌, ◌↔◌, inl, inr, none, some, arith, length, subst}
use becky.Base.{Option-cases}
use becky.Text.{Text}
use becky.Text.Decimal.{decimal, parse_uint}
use becky.Text.Decimal.RoundTrip.{parse_uint-decimal, parse_uint-le, length-decimal}
use becky.Id.{UuidCrate, IsUuidCrate, FxId, uuid_v4, string, u64, from_str, to_string, max_u64}

module _ (U : UuidCrate) where
  -- A `String` identifier is plain when its text reads as no UUID and as no number.
  abbrev pub IsPlain : FxId U → Type 0
  IsPlain (uuid_v4 u) = Unit
  IsPlain (string s) = (U.parse s ≡ none) × (parse_uint max_u64 s ≡ none)
  IsPlain (u64 n) = n ≤ max_u64

  from_str_uuid : (s : Text) (u : U.Uuid) → U.parse s ≡ some u → from_str U s ≡ uuid_v4 u
  unfolding from_str
  from_str_uuid s u a = rw (a, from_str)

  from_str_number :
      (s : Text) (n : ℕ) → U.parse s ≡ none → parse_uint max_u64 s ≡ some n → from_str U s ≡ u64 n
  unfolding from_str
  from_str_number s n a b = ground arith

  from_str_plain :
      (s : Text) → U.parse s ≡ none → parse_uint max_u64 s ≡ none → from_str U s ≡ string s
  unfolding from_str
  from_str_plain s a b = ground arith

  string-IsPlain : (s : Text) → from_str U s ≡ string s → IsPlain (string s)
  unfolding from_str
  string-IsPlain s h = ground arith

module _ (U : UuidCrate) (L : IsUuidCrate U) where
  short_no_uuid : (s : Text) → length s < 32 → U.parse s ≡ none
  short_no_uuid s h = elim (Option-cases (U.parse s)) [
    | inl e ↦ e
    | inr (u, e) ↦ absurd (omega (arith, L.parse_long s u e))
  ]

  decimal_no_uuid : (n : ℕ) → n ≤ max_u64 → U.parse (decimal n) ≡ none
  decimal_no_uuid n h = short_no_uuid (decimal n) (omega (arith, length-decimal 19 n (omega arith)))

  from_str_of_plain : (i : FxId U) → IsPlain U i → from_str U (to_string U i) ≡ i
  unfolding to_string
  from_str_of_plain (uuid_v4 u) p = from_str_uuid U _ u (L.parse-display u)
  from_str_of_plain (string s) p = from_str_plain U s p.0 p.1
  from_str_of_plain (u64 n) p =
      from_str_number U (decimal n) n (decimal_no_uuid n p) (parse_uint-decimal max_u64 n p)

  from_str-IsPlain : (s : Text) → IsPlain U (from_str U s)
  unfolding from_str
  from_str-IsPlain s = elim (Option-cases (U.parse s)) [
    | inr (u, e) ↦ rw (e, from_str) tt
    | inl e ↦ elim (Option-cases (parse_uint max_u64 s)) [
      | inl p ↦ rw (e, p, from_str) (e, p)
      | inr (n, p) ↦ rw (e, p, from_str) (parse_uint-le max_u64 s n p)
    ]
  ]

  round-IsPlain : (i : FxId U) → from_str U (to_string U i) ≡ i → IsPlain U i
  round-IsPlain i h = subst (IsPlain U) h (from_str-IsPlain (to_string U i))

  -- An identifier is read back from its print exactly when it is plain: a `String` whose text reads
  -- as no UUID and as no `u64`, a `u64` in range, or any UUID.
  pub from_str-to_string : (i : FxId U) → (from_str U (to_string U i) ≡ i) ↔ IsPlain U i
  from_str-to_string i = (round-IsPlain i, from_str_of_plain i)

  -- Whatever text an identifier was read from, printing and reading it again changes nothing.
  pub from_str-to_string-from_str :
      (s : Text) → from_str U (to_string U (from_str U s)) ≡ from_str U s
  from_str-to_string-from_str s = from_str_of_plain _ (from_str-IsPlain s)

  -- Plain identifiers with one print are the same.
  pub to_string-injective :
      (i j : FxId U) → IsPlain U i → IsPlain U j → to_string U i ≡ to_string U j → i ≡ j
  to_string-injective i j p q h = cc (from_str_of_plain i p, from_str_of_plain j q, h)
