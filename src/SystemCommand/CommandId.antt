-- ===== src/SystemCommand/CommandId.antt =====
-- `encode_command_id`: the identity of a command, one length-prefixed component for each word.
pub mod Injective
use becky.Base.{ℕ, List, [], ◌∷◌, ◌++◌}
use becky.Text.{Text, chars}
use becky.Text.Decimal.{decimal}
use becky.Text.Utf8.{byte_len}

append_id_component : Text → Text → Text
append_id_component encoded value = encoded ++ (decimal (byte_len value) ++ (chars ":" ++ value))

append_args : Text → List Text → Text
append_args encoded [] = encoded
append_args encoded (arg ∷ args) = append_args (append_id_component encoded arg) args

unfoldable pub encode_command_id : Text → List Text → Text
unfolding append_args append_id_component decimal byte_len
encode_command_id command args = append_args (append_id_component [] command) args
