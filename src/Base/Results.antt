-- ===== src/Base/Results.antt =====
-- Rust's `Result`, and actions that change a state and may fail. What was changed before a failure
-- stays changed, so the state comes back beside the error too; `>>=` is the `?` operator.
use mathlib.Core.Logic.{◌⊎◌, inl, inr}
use mathlib.Core.Path.{◌≡◌, refl, ap, sym, ◌∙◌}

pub data Result {ℓ κ} (E : Type ℓ) (A : Type κ) : Type (ℓ ⊔ κ) where
  ok : A → Result E A
  err : E → Result E A

pub Result-cases {ℓ κ} :
    {E : Type ℓ} {A : Type κ} (r : Result E A) → ((a : A) × (r ≡ ok a)) ⊎ ((e : E) × (r ≡ err e))
Result-cases (ok a) = inl (a, refl)
Result-cases (err e) = inr (e, refl)

abbrev pub map_err {ℓ κ μ} :
    {E : Type ℓ} {F : Type κ} {A : Type μ} → (E → F) → Result E A → Result F A
map_err f (ok a) = ok a
map_err f (err e) = err (f e)

abbrev pub map_ok {ℓ κ μ} : {E : Type ℓ} {A : Type κ} {B : Type μ} → B → Result E A → Result E B
map_ok b (ok _) = ok b
map_ok b (err e) = err e

abbrev pub Action {ℓ κ μ} : Type ℓ → Type κ → Type μ → Type (ℓ ⊔ κ ⊔ μ)
Action S E A = S → Result E A × S

module _ {ℓ κ μ} {S : Type ℓ} {E : Type κ} {A : Type μ} where
  abbrev pub pure : A → Action S E A
  pure a s = (ok a, s)

  abbrev pub fail : E → Action S E A
  fail e s = (err e, s)

module _ {ℓ κ μ ν} {S : Type ℓ} {E : Type κ} {A : Type μ} {B : Type ν} where
  abbrev pub continue : Result E A → (A → Action S E B) → Action S E B
  continue (ok a) f s = f a s
  continue (err e) f s = (err e, s)

  infixl 5 ◌>>=◌ ◌>>◌
  abbrev pub ◌>>=◌ : Action S E A → (A → Action S E B) → Action S E B
  ◌>>=◌ m f s = let (r, s') = m s in continue r f s'

  abbrev pub ◌>>◌ : Action S E A → Action S E B → Action S E B
  m >> n = m >>= λ _. n

  continue_ok :
      (r : Result E A) (f : A → Action S E B) (s : S) (b : B)
      → (continue r f s).0 ≡ ok b
      → (a : A) × (r ≡ ok a) × (continue r f s ≡ f a s)
  continue_ok (ok a) f s b h = (a, refl, refl)
  continue_ok (err e) f s b h = absurd cc

  -- A chain that succeeds went through its first action.
  pub split_bind :
      (m : Action S E A) (f : A → Action S E B) (s : S) (b : B)
      → ((m >>= f) s).0 ≡ ok b
      → (a : A) × ((m s).0 ≡ ok a) × ((m >>= f) s ≡ f a (m s).1)
  split_bind m f s b h = continue_ok (m s).0 f (m s).1 b h

  rest_ok :
      (r : Result E A) (f : A → Action S E B) (s : S) (b : B)
      → (continue r f s).0 ≡ ok b
      → (a : A) × (r ≡ ok a) × ((f a s).0 ≡ ok b)
  rest_ok (ok a) f s b h = (a, refl, h)
  rest_ok (err e) f s b h = absurd cc

  -- The rest of a chain that succeeds, succeeds.
  pub ok_of_bind :
      (m : Action S E A) (f : A → Action S E B) (s : S) (b : B)
      → ((m >>= f) s).0 ≡ ok b
      → (a : A) × ((m s).0 ≡ ok a) × ((f a (m s).1).0 ≡ ok b)
  ok_of_bind m f s b h = rest_ok (m s).0 f (m s).1 b h

  -- Both at once.
  pub both_of_bind :
      (m : Action S E A) (f : A → Action S E B) (s : S) (b : B)
      → ((m >>= f) s).0 ≡ ok b
      → (a : A) × ((m s).0 ≡ ok a) × ((f a (m s).1).0 ≡ ok b) × ((m >>= f) s ≡ f a (m s).1)
  both_of_bind m f s b h =
      let (a, first, same) = split_bind m f s b h in (a, first, ap (λ r. r.0) (sym same) ∙ h, same)

-- An action that leaves a predicate of the state as it is, whether it succeeds or fails.
pub record Keeps {ℓ κ μ ξ} {S : Type ℓ} {E : Type κ} {A : Type μ} (P : S → Type ξ)
    (m : Action S E A) : Type (ℓ ⊔ ξ) where
  pub at : (s : S) → P s → P (m s).1

module _ {ℓ κ μ ν ξ} {S : Type ℓ} {E : Type κ} {A : Type μ} {B : Type ν} {P : S → Type ξ} where
  pub keeps_rest :
      (r : Result E A) (f : A → Action S E B) (s : S)
      → ((a : A) → Keeps P (f a))
      → P s
      → P (continue r f s).1
  keeps_rest (ok a) f s h p = (h a).at s p
  keeps_rest (err e) f s h p = p

  pub Keeps-bind :
      {m : Action S E A} {f : A → Action S E B}
      → Keeps P m
      → ((a : A) → Keeps P (f a))
      → Keeps P (m >>= f)
  Keeps-bind {m = m} {f = f} k h = record { at = λ s p. keeps_rest (m s).0 f (m s).1 h (k.at s p) }

module _ {ℓ κ μ ξ} {S : Type ℓ} {E : Type κ} {A : Type μ} {P : S → Type ξ} where
  pub Keeps-pure : (a : A) → Keeps {E = E} P (pure a)
  Keeps-pure a = record { at = λ s p. p }

  pub Keeps-fail : (e : E) → Keeps {A = A} P (fail e)
  Keeps-fail e = record { at = λ s p. p }

-- An action on the second half of a state, such as the host's beside an object's.
abbrev pub on_world {ℓ κ μ ν} :
    {S : Type ℓ} {W : Type κ} {E : Type μ} {A : Type ν} → Action W E A → Action (S × W) E A
on_world m (s, w) = let (r, w') = m w in (r, (s, w'))

-- `map_err` of a whole action.
abbrev pub catch {ℓ κ μ ν} :
    {W : Type ℓ} {E : Type κ} {F : Type μ} {A : Type ν} → (E → F) → Action W E A → Action W F A
catch f m w = let (r, w') = m w in (map_err f r, w')
