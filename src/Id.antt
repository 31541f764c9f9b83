-- ===== src/Id.antt =====
-- becky-fx-id/src/lib.rs: `FxId`, its `Display` and its `FromStr`. The `uuid` crate is a parameter.
pub mod RoundTrip
pub mod Sample
mod Examples
use becky.Base.{ℕ, ◌-◌, ◌^◌, ◌≤◌, ◌≡◌, Option, none, some}
use becky.Base.{length}
use becky.Text.{Text}
use becky.Text.Decimal.{decimal, parse_uint}

abbrev pub max_u64 : ℕ
max_u64 = 2 ^ 64 - 1

-- `uuid::Uuid`: its `FromStr` and its `Display`.
pub record UuidCrate : Type 1 where
  pub Uuid : Type 0
  pub parse : Text → Option Uuid
  pub display : Uuid → Text

-- What the crate documents: a UUID parses back from its hyphenated print, and the shortest form
-- that parses has 32 hexadecimal digits.
pub record IsUuidCrate (U : UuidCrate) : Type 0 where
  pub parse-display : (u : U.Uuid) → U.parse (U.display u) ≡ some u
  pub parse_long : (s : Text) (u : U.Uuid) → U.parse s ≡ some u → 32 ≤ length s

module _ (U : UuidCrate) where
  pub data FxId : Type 0 where
    uuid_v4 : U.Uuid → FxId
    string : Text → FxId
    u64 : ℕ → FxId

  unfoldable pub from_str : Text → FxId
  from_str s = elim (U.parse s) [
    | some u ↦ uuid_v4 u
    | none ↦ elim (parse_uint max_u64 s) [ some n ↦ u64 n | none ↦ string s ]
  ]

  unfoldable pub to_string : FxId → Text
  to_string (uuid_v4 u) = U.display u
  to_string (string s) = s
  to_string (u64 n) = decimal n
