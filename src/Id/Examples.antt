-- ===== src/Id/Examples.antt =====
-- Identifiers read and printed, and the theorems at concrete data.
use becky.Base.{◌≡◌, refl, ◌↔◌}
use becky.Text.{chars}
use becky.Text.Decimal.{parse_uint}
use becky.Id.{FxId, uuid_v4, string, u64, from_str, to_string, max_u64}
use becky.Id.Sample.{sample, sample_parse, sample-IsUuidCrate, sample_text}
use becky.Id.RoundTrip.{IsPlain, from_str-to_string, from_str-to_string-from_str}

abbrev worker : FxId sample
worker = string (chars "worker-01")

reads_each_kind :
    (from_str sample (chars "18446744073709551615") ≡ u64 max_u64)
    × (from_str sample (chars "18446744073709551616") ≡ string (chars "18446744073709551616"))
    × (from_str sample (chars "worker-01") ≡ worker)
    × (from_str sample sample_text ≡ uuid_v4 tt)
    × (from_str sample (chars "+007") ≡ u64 7)
unfolding from_str sample_parse parse_uint
reads_each_kind = (refl, refl, refl, refl, refl)

from_str-to_string_example :
    (from_str sample (to_string sample worker) ≡ worker) ↔ IsPlain sample worker
from_str-to_string_example = from_str-to_string sample sample-IsUuidCrate worker

from_str-to_string-from_str_run :
    from_str sample (to_string sample (from_str sample (chars "+007")))
    ≡ from_str sample (chars "+007")
from_str-to_string-from_str_run =
    from_str-to_string-from_str sample sample-IsUuidCrate (chars "+007")
