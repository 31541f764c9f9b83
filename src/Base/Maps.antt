-- ===== src/Base/Maps.antt =====
-- Maps as association lists, in the order that a walk over them takes.
use mathlib.Core.Path.{◌≡◌, refl}
use mathlib.Core.List.{List, [], ◌∷◌}
use mathlib.Core.Option.{Option, none, some}
use native.Mathlib.Omega.{arith}
use becky.Base.Lists.{All, All-weaken}
use becky.Base.Tests.{Eq, ◌==◌, if◌then◌else◌}

abbrev pub Map {ℓ κ} : Type ℓ → Type κ → Type (ℓ ⊔ κ)
Map K V = List (K × V)

module _ {ℓ κ} {K : Type ℓ} {V : Type κ} ⦃e : Eq K⦄ where
  abbrev pub get : Map K V → K → Option V
  get [] k = none
  get ((j, v) ∷ m) k = if j == k then some v else get m k

  abbrev pub insert : Map K V → K → V → Map K V
  insert [] k v = (k, v) ∷ []
  insert ((j, w) ∷ m) k v = let rest = insert m k v in if j == k then (k, v) ∷ m else (j, w) ∷ rest

  abbrev pub remove : Map K V → K → Map K V
  remove [] k = []
  remove ((j, w) ∷ m) k = let rest = remove m k in if j == k then rest else (j, w) ∷ rest

  pub get-remove : (m : Map K V) (k : K) → get (remove m k) k ≡ none
  get-remove [] k = refl
  get-remove ((j, w) ∷ m) k = ground (arith, get-remove m k)

  pub get-insert : (m : Map K V) (k : K) (v : V) → get (insert m k v) k ≡ some v
  get-insert [] k v = ground arith
  get-insert ((j, w) ∷ m) k v = ground (arith, get-insert m k v)

  pub insert_found : (m : Map K V) (k : K) (v : V) → ¬ (get (insert m k v) k ≡ none)
  insert_found m k v lost = absurd (ground (arith, get-insert m k v))

  pub get-insert_other :
      (m : Map K V) (k : K) (v : V) (i : K) → ¬ (k ≡ i) → get (insert m k v) i ≡ get m i
  get-insert_other [] k v i ne = ground arith
  get-insert_other ((j, w) ∷ m) k v i ne = ground (arith, get-insert_other m k v i ne)

  pub get-remove_other : (m : Map K V) (k i : K) → ¬ (k ≡ i) → get (remove m k) i ≡ get m i
  get-remove_other [] k i ne = refl
  get-remove_other ((j, w) ∷ m) k i ne = ground (arith, get-remove_other m k i ne)

  -- Every key of a map is found in it.
  pub keys_found : (m : Map K V) → All (λ entry. ¬ (get m entry.0 ≡ none)) m
  keys_found [] = tt
  keys_found ((j, v) ∷ m) = (
    λ lost. absurd (ground arith),
    All-weaken (λ entry. ¬ (get m entry.0 ≡ none)) (λ entry found lost. found (ground arith)) m
        (keys_found m),
  )
