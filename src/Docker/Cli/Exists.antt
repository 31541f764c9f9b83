-- ===== src/Docker/Cli/Exists.antt =====
-- What the look-ups answer.
use becky.Base.{ℕ, ◌≡◌, ◌↔◌, refl, arith, List, [], ◌∷◌, true, false, Bool-cases, inl, inr}
use becky.Base.{Result, ok, err}
use becky.Text.{Text, chars}
use becky.Docker.{FxDockerError, DockerResourceKind}
use becky.Docker.Cli.{DockerHost, docker, docker_not_found, exists_result, resource_exists}

exists_result_iff :
    (kind : DockerResourceKind) (r : Result FxDockerError (List ℕ))
    → ((exists_result kind r ≡ ok true) ↔ ((out : List ℕ) × (r ≡ ok out)))
      × ((exists_result kind r ≡ ok false)
          ↔ ((e : FxDockerError) × (r ≡ err e) × (docker_not_found e kind ≡ true)))
unfolding exists_result
exists_result_iff kind (ok out) =
    ((λ _. (out, refl), λ _. refl), (λ e. absurd cc, λ (e, h, _). absurd cc))
exists_result_iff kind (err x) = elim (Bool-cases (docker_not_found x kind)) [
  | inl lost ↦ (
    (λ h. absurd (ground arith), λ (out, h). absurd cc),
    (λ _. (x, refl, lost), λ _. ground arith),
  )
  | inr other ↦ (
    (λ h. absurd (ground arith), λ (out, h). absurd cc),
    (λ h. absurd (ground arith), λ (e, h, lost). absurd (ground arith)),
  )
]

module _ {W : Type 0} (host : DockerHost W) where
  -- A resource is said to exist exactly when docker inspects it with success, and to be missing
  -- exactly when docker fails with a message that says so; any other failure is passed on.
  pub resource_exists_iff :
      (word : Text) (kind : DockerResourceKind) (name : Text) (w : W)
      → let answer = (resource_exists host word kind name w).0 in
        let inspected = (docker host (word ∷ chars "inspect" ∷ name ∷ []) w).0 in
        ((answer ≡ ok true) ↔ ((out : List ℕ) × (inspected ≡ ok out)))
        × ((answer ≡ ok false)
            ↔ ((e : FxDockerError) × (inspected ≡ err e) × (docker_not_found e kind ≡ true)))
  unfolding resource_exists
  resource_exists_iff word kind name w =
      exists_result_iff kind (docker host (word ∷ chars "inspect" ∷ name ∷ []) w).0
