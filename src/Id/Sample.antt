-- ===== src/Id/Sample.antt =====
-- A UUID crate that knows one UUID: what is assumed of the crate can hold.
use becky.Base.{
  ℕ, ◌≤◌, ◌≡◌, refl, ap, arith, Option, none, some, length, ◌==◌, list_eq, if◌then◌else◌,
}
use becky.Text.{Text, chars}
use becky.Id.{UuidCrate, IsUuidCrate}

abbrev pub sample_text : Text
sample_text = chars "67e55044-10b1-426f-9247-bb680e5fe0c8"

unfoldable pub sample_parse : Text → Option (Unit {0})
unfolding list_eq
sample_parse s = if s == sample_text then some tt else none

abbrev pub sample : UuidCrate
sample = record { Uuid = Unit; parse = sample_parse; display = λ _. sample_text }

sample_parse_long : (s : Text) (u : Unit {0}) → sample_parse s ≡ some u → 32 ≤ length s
unfolding sample_parse
sample_parse_long s u h =
    let e : s ≡ sample_text = ground arith in omega (arith, ap {B = ℕ} length e)

pub sample-IsUuidCrate : IsUuidCrate sample
unfolding sample_parse
sample-IsUuidCrate = record { parse-display = λ u. refl; parse_long = sample_parse_long }
