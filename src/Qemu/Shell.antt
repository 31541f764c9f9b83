-- ===== src/Qemu/Shell.antt =====
-- becky-fx-qemu/src/utils.rs: arguments written for a shell.
pub mod Words
use becky.Base.{ℕ, List, [], ◌∷◌, ◌++◌, Bool, ◌||◌, ◌&&◌, not, ◌==◌, nat_eq, list_eq, all, map}
use becky.Base.{if◌then◌else◌}
use becky.Text.{Text, chars, is_ascii_alphanumeric, join}

-- The characters that stand for themselves.
unfoldable pub is_bare : ℕ → Bool
unfolding nat_eq
is_bare c =
    is_ascii_alphanumeric c
    || (c == b'_' || c == b'-' || c == b'.' || c == b'/')
    || (c == b':' || c == b',' || c == b'=' || c == b'+')

-- `arg.replace('\'', r#"'\''"#)`
unfoldable pub escape_quotes : Text → Text
unfolding nat_eq
escape_quotes [] = []
escape_quotes (c ∷ s) =
    let rest = escape_quotes s in if c == 0x27 then 0x27 ∷ 0x5c ∷ 0x27 ∷ 0x27 ∷ rest else c ∷ rest

unfoldable pub shell_escape_arg : Text → Text
unfolding is_bare escape_quotes list_eq
shell_escape_arg arg =
    if not (arg == []) && all is_bare arg then arg else 0x27 ∷ (escape_quotes arg ++ 0x27 ∷ [])

-- The line that `convert_cmd_line_arg_to_qemu_instance` hands on, for arguments of which there are
-- some.
unfoldable pub command_line : List Text → Text
unfolding shell_escape_arg join
command_line args = join (chars " ") (map shell_escape_arg args)
