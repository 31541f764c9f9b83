-- ===== src/Docker/Control/Laws.antt =====
-- When a start creates its container, and what a status leaves.
use becky.Base.{◌≡◌, ◌⊎◌, ◌↔◌, refl, ap, sym, ◌∙◌, arith, none, some, Option, true, false, Bool}
use becky.Base.{inl, inr, Result, ok, err, ok_of_bind, ◌>>=◌, ◌>>◌, pure}
use becky.Text.{Text}
use becky.State.{FxExecutionState}
use becky.Docker.{
  FxContainerDocker, DockerContainerHandle, DockerInspectContainer, FxDockerError,
  container_missing_no_image,
}
use becky.Docker.Cli.{
  DockerHost, container_exists, inspect_container, ensure_image, create_container,
}
use becky.Docker.Monitor.{monitor_handle}
use becky.Docker.Control.{
  fx_start, with_ensured_network, make_container, created_unless, start_created, run_unless,
  handle_of, fx_status, status_result,
}

module _ {W : Type 0} (host : DockerHost W) (c : FxContainerDocker) where
  handle_created :
      (created : Bool) (inspect : DockerInspectContainer) (w : W) (h : DockerContainerHandle)
      → (handle_of host created inspect w).0 ≡ ok h
      → h.created ≡ created
  unfolding handle_of monitor_handle
  handle_created created inspect w h e = ground arith

  start_created_flag :
      (created : Bool) (w : W) (h : DockerContainerHandle)
      → (start_created host c created w).0 ≡ ok h
      → h.created ≡ created
  unfolding start_created
  start_created_flag created w h e =
      let again = λ (_ : Unit {0}). inspect_container host c.name >>= handle_of host created in
      let (inspect, _, e₁) =
        ok_of_bind (inspect_container host c.name)
          (λ i. run_unless host c i.state.running >>= again) w h e in
      let (_, _, e₂) = ok_of_bind (run_unless host c inspect.state.running) again _ h e₁ in
      let (started, _, e₃) =
        ok_of_bind (inspect_container host c.name) (handle_of host created) _ h e₂ in
      handle_created created started _ h e₃

  created_unless_iff :
      (image : Option Text) (found b : Bool) (w : W)
      → (created_unless host c image found w).0 ≡ ok b
      → (b ≡ true) ↔ (found ≡ false)
  unfolding created_unless
  created_unless_iff image true b w e = (λ h. absurd (ground arith), λ h. absurd cc)
  created_unless_iff none false b w e = absurd cc
  created_unless_iff (some image) false b w e =
      let done = λ (_ : Unit {0}). create_container host c >> pure true in
      let (_, _, e₁) = ok_of_bind (ensure_image host image) done w b e in
      let (_, _, e₂) = ok_of_bind (create_container host c) (λ _. pure true) _ b e₁ in
      (λ _. refl, λ _. ground arith)

  make_container_iff :
      (created : Bool) (w : W)
      → (make_container host c w).0 ≡ ok created
      → (created ≡ true) ↔ ((container_exists host c.name w).0 ≡ ok false)
  unfolding make_container
  make_container_iff created w e =
      let (found, seen, e₁) =
        ok_of_bind (container_exists host c.name) (created_unless host c c.image) w created e in
      let (to, from) = created_unless_iff c.image found created _ e₁ in
      (λ t. seen ∙ ap ok (to t), λ f. from (ground arith))

  -- The handle of a start says that it created the container exactly when docker had reported that
  -- there was none, after the network was ensured.
  pub fx_start_created_iff :
      (w : W) (h : DockerContainerHandle)
      → (fx_start host c w).0 ≡ ok h
      → let w₁ = (with_ensured_network host c.network w).1 in
        (h.created ≡ true) ↔ ((container_exists host c.name w₁).0 ≡ ok false)
  unfolding fx_start
  fx_start_created_iff w h e =
      let rest = λ (_ : Unit {0}). make_container host c >>= start_created host c in
      let (_, _, e₁) = ok_of_bind (with_ensured_network host c.network) rest w h e in
      let (created, made, e₂) = ok_of_bind (make_container host c) (start_created host c) _ h e₁ in
      let same = start_created_flag created _ h e₂ in
      let (to, from) = make_container_iff created _ made in
      (λ t. to (sym same ∙ t), λ f. same ∙ from f)

  -- A start of a container that is missing, with no image to create it from, fails with its name,
  -- and asks docker for nothing more.
  pub fx_start_no_image :
      (w : W)
      → let (ensured, w₁) = with_ensured_network host c.network w in
        let (found, w₂) = container_exists host c.name w₁ in
        ensured ≡ ok tt
        → found ≡ ok false
        → c.image ≡ none
        → fx_start host c w ≡ (err (container_missing_no_image c.name), w₂)
  unfolding fx_start make_container created_unless
  fx_start_no_image w e f g = ground arith

  status_cases :
      (h : DockerContainerHandle) (r : Result FxDockerError DockerInspectContainer) (w : W)
      → ((s : FxExecutionState) × (status_result host h r w
            ≡ (ok s, host.runtime.write_cell h.latest_state s w)))
        ⊎ ((e : FxDockerError) × (r ≡ err e) × (status_result host h r w ≡ (err e, w)))
  unfolding status_result
  status_cases h (ok inspect) w = inl (_, refl)
  status_cases h (err e) w = inr (e, refl, refl)

  -- A status that succeeds writes what it returns into the handle's cell, last; one that fails only
  -- inspects, so the cell keeps its state.
  pub fx_status_cell :
      (h : DockerContainerHandle) (w : W)
      → let (inspected, w₁) = inspect_container host c.name w in
        ((s : FxExecutionState) × (fx_status host c h w
            ≡ (ok s, host.runtime.write_cell h.latest_state s w₁)))
        ⊎ ((e : FxDockerError) × (inspected ≡ err e) × (fx_status host c h w ≡ (err e, w₁)))
  unfolding fx_status status_result
  fx_status_cell h w = status_cases h (inspect_container host c.name w).0 _
