-- ===== src/SystemCommand/CommandId/Injective.antt =====
-- No two commands share an identity.
use becky.Base.{◌≡◌, ◌≢◌, refl, arith, List, [], ◌∷◌, ◌++◌, append_assoc, append-nil, sym, ◌∙◌}
use becky.Base.{All}
use becky.Text.{Text}
use becky.Text.Decimal.{decimal, IsDigit}
use becky.Text.Decimal.RoundTrip.{decimal-IsDigits, decimal-injective, decimal-ne-nil}
use becky.Text.Utf8.{byte_len, append-byte_len}
use becky.SystemCommand.CommandId.{append_id_component, append_args, encode_command_id}

component : Text → Text
component value = decimal (byte_len value) ++ (b':' ∷ value)

-- Digits before a colon are read back, with what follows it.
digits-colon :
    (s t r q : Text)
    → All IsDigit s
    → All IsDigit t
    → s ++ b':' ∷ r ≡ t ++ b':' ∷ q
    → (s ≡ t) × (r ≡ q)
digits-colon [] [] r q ds dt h = ground arith
digits-colon [] (d ∷ t) r q ds dt h = ground arith
digits-colon (c ∷ s) [] r q ds dt h = ground arith
digits-colon (c ∷ s) (d ∷ t) r q ds dt h = ground (arith, digits-colon s t r q)

component-append : (v w r q : Text) → component v ++ r ≡ component w ++ q → (v ≡ w) × (r ≡ q)
unfolding component
component-append v w r q h =
    let (lens, rest) =
      digits-colon (decimal (byte_len v)) (decimal (byte_len w)) (v ++ r) (w ++ q)
        (decimal-IsDigits _) (decimal-IsDigits _)
        (sym (append_assoc _ (b':' ∷ v) r) ∙ (h ∙ append_assoc _ (b':' ∷ w) q)) in
    append-byte_len v w r q (decimal-injective _ _ lens) rest

components : List Text → Text
components [] = []
components (v ∷ vs) = component v ++ components vs

append-eq-nil : (s t : Text) → s ++ t ≡ [] → s ≡ []
append-eq-nil [] t h = refl
append-eq-nil (c ∷ s) t h = cc

component-ne-nil : (v r : Text) → component v ++ r ≢ []
unfolding component
component-ne-nil v r h = decimal-ne-nil _ (append-eq-nil _ _ (append-eq-nil _ r h))

components-injective : (vs ws : List Text) → components vs ≡ components ws → vs ≡ ws
unfolding components
components-injective [] [] h = refl
components-injective [] (w ∷ ws) h = absurd (component-ne-nil w _ (sym h))
components-injective (v ∷ vs) [] h = absurd (component-ne-nil v _ h)
components-injective (v ∷ vs) (w ∷ ws) h =
    let (e, rest) = component-append v w (components vs) (components ws) h in
    ground (arith, components-injective vs ws rest)

append_args-components :
    (encoded : Text) (args : List Text) → append_args encoded args ≡ encoded ++ components args
unfolding append_args append_id_component components component
append_args-components encoded [] = sym (append-nil encoded)
append_args-components encoded (a ∷ args) =
    append_args-components (append_id_component encoded a) args ∙ append_assoc encoded _ _

encode-components :
    (command : Text) (args : List Text)
    → encode_command_id command args ≡ components (command ∷ args)
unfolding encode_command_id components component
encode-components command args = append_args-components _ args

-- Commands with one identity have the same program and the same arguments.
pub encode_command_id-injective :
    (c d : Text) (args args' : List Text)
    → encode_command_id c args ≡ encode_command_id d args'
    → (c ≡ d) × (args ≡ args')
encode_command_id-injective c d args args' h =
    let e =
      components-injective (c ∷ args) (d ∷ args')
        (sym (encode-components c args) ∙ (h ∙ encode-components d args')) in
    ground arith
