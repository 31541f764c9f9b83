-- ===== src/Qemu/Shell/Words.antt =====
-- How a shell splits a line into words, and what it finds in a line that was built.
use becky.Base.{ℕ, ◌≡◌, refl, ap, sym, ◌∙◌, arith, List, [], ◌∷◌, ◌++◌, append-nil, append_assoc}
use becky.Base.{Option, none, some, true, false, Bool-cases, inl, inr, all, ◌==◌}
use becky.Base.{nat_eq, list_eq, if◌then◌else◌, Bool, ◌||◌, ◌&&◌, leb}
use becky.Text.{Text, join}
use becky.Qemu.Shell.{is_bare, escape_quotes, shell_escape_arg, command_line}

-- Where the reader stands: between two words, in a word, between single quotes, or behind a
-- backslash.
pub data Mode : Type 0 where
  between word quoted escaped : Mode

-- A character goes before the first of the words to come.
abbrev push : ℕ → Option (List Text) → Option (List Text)
push c (some (w ∷ ws)) = some ((c ∷ w) ∷ ws)
push c _ = none

abbrev end_word : Option (List Text) → Option (List Text)
end_word none = none
end_word (some ws) = some ([] ∷ ws)

-- The characters with a meaning for a shell where they are not quoted: all of those that POSIX
-- lists but the space and `=`, and with them the controls, `!`, `]`, `^`, `{` and `}`.
unfoldable pub is_special : ℕ → Bool
unfolding nat_eq
is_special c =
    (leb c 0x1f || (leb 0x21 c && leb c 0x2a))
    || (c == 0x3b || c == 0x3c || c == 0x3e || c == 0x3f)
    || ((leb 0x5b c && leb c 0x5e) || c == 0x60 || leb 0x7b c && leb c 0x7f)

abbrev unless_special : ℕ → Option (List Text) → Option (List Text)
unless_special c r = if is_special c then none else push c r

-- The words of a line, by the quoting rules of the shell for spaces, single quotes and backslashes;
-- none for a quote that is not closed, or for another special character that is not quoted, which
-- the shell would not take for itself.
unfoldable pub words : Mode → Text → Option (List Text)
unfolding nat_eq is_special
words between [] = some []
words word [] = some ([] ∷ [])
words quoted [] = none
words escaped [] = none
words between (c ∷ s) =
    let in_quotes = words quoted s in
    let skipped = words between s in
    let escapes = words escaped s in
    let goes_on = words word s in
    if c == b' '
    then skipped
    else (if c == 0x27
        then in_quotes
        else (if c == 0x5c then escapes else unless_special c goes_on))
words word (c ∷ s) =
    let in_quotes = words quoted s in
    let skipped = words between s in
    let escapes = words escaped s in
    let goes_on = words word s in
    if c == b' '
    then end_word skipped
    else (if c == 0x27
        then in_quotes
        else (if c == 0x5c then escapes else unless_special c goes_on))
words quoted (c ∷ s) =
    let goes_on = words quoted s in
    let closed = words word s in if c == 0x27 then closed else push c goes_on
words escaped (c ∷ s) = let goes_on = words word s in if c == 0x0a then none else push c goes_on

abbrev push_all : Text → Option (List Text) → Option (List Text)
push_all [] r = r
push_all (c ∷ s) r = push c (push_all s r)

push_all_word : (s w : Text) (ws : List Text) → push_all s (some (w ∷ ws)) ≡ some ((s ++ w) ∷ ws)
push_all_word [] w ws = refl
push_all_word (c ∷ s) w ws = ap (push c) (push_all_word s w ws)

bare_plain :
    (c : ℕ)
    → is_bare c ≡ true
    → ((c == b' ') ≡ false) × ((c == 0x27) ≡ false) × ((c == 0x5c) ≡ false)
unfolding is_bare
bare_plain c h = (ground arith, ground arith, ground arith)

bare_common : (c : ℕ) → is_bare c ≡ true → is_special c ≡ false
unfolding is_bare is_special
bare_common c h = ground arith

bare_char :
    (c : ℕ) (s : Text)
    → is_bare c ≡ true
    → (words word (c ∷ s) ≡ push c (words word s)) × (words between (c ∷ s) ≡ push c (words word s))
unfolding words
bare_char c s h =
    let (no_space, no_quote, no_backslash) = bare_plain c h in
    let common = bare_common c h in
    (
      rw (no_space, no_quote, no_backslash, common) refl,
      rw (no_space, no_quote, no_backslash, common) refl,
    )

bare_words :
    (s rest : Text) → all is_bare s ≡ true → words word (s ++ rest) ≡ push_all s (words word rest)
bare_words [] rest h = refl
bare_words (c ∷ s) rest h =
    (bare_char c (s ++ rest) (ground arith)).0 ∙ ap (push c) (bare_words s rest (ground arith))

quoted_words :
    (s rest : Text) → words quoted (escape_quotes s ++ 0x27 ∷ rest) ≡ push_all s (words word rest)
unfolding words escape_quotes
quoted_words [] rest = refl
quoted_words (c ∷ s) rest = elim (Bool-cases (c == 0x27)) [
  | inl e ↦ ground (arith, quoted_words s rest)
  | inr e ↦ ground (arith, quoted_words s rest)
]

escape_bare : (c : ℕ) (s : Text) → all is_bare (c ∷ s) ≡ true → shell_escape_arg (c ∷ s) ≡ c ∷ s
unfolding shell_escape_arg
escape_bare c s h = ground arith

escape_other :
    (c : ℕ) (s : Text)
    → all is_bare (c ∷ s) ≡ false
    → shell_escape_arg (c ∷ s) ≡ 0x27 ∷ (escape_quotes (c ∷ s) ++ 0x27 ∷ [])
unfolding shell_escape_arg
escape_other c s h = ground arith

quoted_from_start :
    (s rest : Text)
    → words between ((0x27 ∷ (escape_quotes s ++ 0x27 ∷ [])) ++ rest) ≡ push_all s (words word rest)
unfolding words
quoted_from_start s rest =
    ap (words quoted) (append_assoc (escape_quotes s) (0x27 ∷ []) rest) ∙ quoted_words s rest

-- One argument, and what follows it.
escaped_words :
    (arg rest : Text)
    → words between (shell_escape_arg arg ++ rest) ≡ push_all arg (words word rest)
unfolding shell_escape_arg
escaped_words [] rest = quoted_from_start [] rest
escaped_words (c ∷ s) rest = elim (Bool-cases (all is_bare (c ∷ s))) [
  | inl bare ↦
      ap (λ a. words between (a ++ rest)) (escape_bare c s bare)
      ∙ ((bare_char c (s ++ rest) (ground arith)).1
          ∙ ap (push c) (bare_words s rest (ground arith)))
  | inr other ↦
      ap (λ a. words between (a ++ rest)) (escape_other c s other) ∙ quoted_from_start (c ∷ s) rest
]

words_of_last : (arg : Text) → words between (shell_escape_arg arg) ≡ some (arg ∷ [])
unfolding words
words_of_last arg =
    ap (words between) (sym (append-nil (shell_escape_arg arg)))
    ∙ (escaped_words arg [] ∙ (push_all_word arg [] [] ∙ ap (λ w. some (w ∷ [])) (append-nil arg)))

words_of_first :
    (arg rest : Text) (ws : List Text)
    → words between rest ≡ some ws
    → words between (shell_escape_arg arg ++ b' ' ∷ rest) ≡ some (arg ∷ ws)
unfolding words
words_of_first arg rest ws h =
    escaped_words arg (b' ' ∷ rest)
    ∙ (ap (λ r. push_all arg (end_word r)) h
        ∙ (push_all_word arg [] ws ∙ ap (λ w. some (w ∷ ws)) (append-nil arg)))

-- The words of the line are exactly the arguments that it was built from: whatever characters they
-- hold, each character of the line that a POSIX shell treats specially, `=` aside, is quoted.
pub words-command_line : (args : List Text) → words between (command_line args) ≡ some args
unfolding command_line join words
words-command_line [] = refl
words-command_line (a ∷ []) = words_of_last a
words-command_line (a ∷ b ∷ args) =
    words_of_first a (command_line (b ∷ args)) (b ∷ args) (words-command_line (b ∷ args))
