-- ===== src/Qemu/Commands.antt =====
-- becky-fx-qemu/src/handle.rs: which commands a machine and its guest agent accept.
use becky.Base.{ℕ, List, Bool, false, ◌&&◌, ◌==◌, nat_eq}
use becky.Base.{list_eq, any, map, if◌then◌else◌}
use becky.Text.{Text}
use becky.Text.Lossy.{to_ascii_lowercase}

-- An entry of the schema: a command, by the name of its base, or another kind.
pub data SchemaInfo : Type 0 where
  command : Text → SchemaInfo
  other : SchemaInfo

pub record GuestAgentCommandInfo : Type 0 where
  pub enabled : Bool
  pub name : Text

abbrev is_command : Text → SchemaInfo → Bool
unfolding to_ascii_lowercase list_eq
is_command cmd (command name) = to_ascii_lowercase name == to_ascii_lowercase cmd
is_command cmd other = false

unfoldable pub schema_supports_command : List SchemaInfo → Text → Bool
unfolding to_ascii_lowercase list_eq
schema_supports_command schema cmd = any (is_command cmd) schema

dash : ℕ → ℕ
unfolding nat_eq
dash c = if c == b'_' then b'-' else c

unfoldable pub normalize_command_name : Text → Text
unfolding dash to_ascii_lowercase
normalize_command_name value = to_ascii_lowercase (map dash value)

unfoldable pub command_name_matches : Text → Text → Bool
unfolding normalize_command_name list_eq
command_name_matches left right = normalize_command_name left == normalize_command_name right

unfoldable pub ga_supports_command : List GuestAgentCommandInfo → Text → Bool
unfolding command_name_matches
ga_supports_command commands cmd = any (λ c. c.enabled && command_name_matches c.name cmd) commands
