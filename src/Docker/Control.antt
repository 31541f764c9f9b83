-- ===== src/Docker/Control.antt =====
-- `FxControl` and the run time of `FxContainerDocker`.
pub mod Laws
use becky.Base.{ℕ, [], ◌∷◌, ◌++◌, Option, none, some, Bool, true, false, not, ◌&&◌}
use becky.Base.{Result, ok, err, map_ok, Action, pure, fail, ◌>>=◌, ◌>>◌, if◌then◌else◌}
use becky.Text.{Text, chars}
use becky.Text.Lossy.{starts_with}
use becky.State.{FxExecutionState}
use becky.Docker.{
  FxContainerDocker, DockerNetwork, DockerContainerHandle, FxDockerError, DockerInspectContainer,
  DockerInspectState, container_missing_no_image,
}
use becky.Docker.Cli.{
  DockerHost, docker_with_timeout, docker_ok, inspect_container, resource_exists, container_exists,
  ensure_image, ensure_network, create_container,
}
use becky.Docker.Inspect.{inspect_to_state, docker_started_at_runtime_secs}
use becky.Docker.Monitor.{monitor_handle, stop_monitor}

module _ {W : Type 0} (host : DockerHost W) where
  unfoldable pub with_ensured_network : Option DockerNetwork → Action W FxDockerError (Unit {0})
  unfolding ensure_network
  with_ensured_network none = pure tt
  with_ensured_network (some network) = ensure_network host network.name

  with_ensured_image : Option Text → Action W FxDockerError (Unit {0})
  unfolding ensure_image
  with_ensured_image none = pure tt
  with_ensured_image (some image) = ensure_image host image

  unfoldable pub fx_allocate : FxContainerDocker → Action W FxDockerError (Unit {0})
  unfolding with_ensured_network with_ensured_image
  fx_allocate c = do with_ensured_network c.network; with_ensured_image c.image

  -- Whether the container was created.
  created_unless : FxContainerDocker → Option Text → Bool → Action W FxDockerError Bool
  unfolding ensure_image create_container
  created_unless c image true = pure false
  created_unless c none false = fail (container_missing_no_image c.name)
  created_unless c (some image) false = do
    ensure_image host image
    create_container host c
    pure true

  run_unless : FxContainerDocker → Bool → Action W FxDockerError (Unit {0})
  unfolding docker_with_timeout
  run_unless c true w = (ok tt, w)
  run_unless c false w = docker_ok host (chars "start" ∷ c.name ∷ []) w

  handle_of : Bool → DockerInspectContainer → Action W FxDockerError DockerContainerHandle
  unfolding monitor_handle
  handle_of created inspect w = let (h, w') = monitor_handle host inspect created w in (ok h, w')

  start_created : FxContainerDocker → Bool → Action W FxDockerError DockerContainerHandle
  unfolding inspect_container run_unless handle_of
  start_created c created = do
    inspect ← inspect_container host c.name
    run_unless c inspect.state.running
    started ← inspect_container host c.name
    handle_of created started

  unfoldable pub make_container : FxContainerDocker → Action W FxDockerError Bool
  unfolding resource_exists created_unless
  make_container c = container_exists host c.name >>= created_unless c c.image

  unfoldable pub fx_start : FxContainerDocker → Action W FxDockerError DockerContainerHandle
  unfolding with_ensured_network make_container start_created
  fx_start c = do
    with_ensured_network c.network
    created ← make_container c
    start_created c created

  status_result :
      DockerContainerHandle
      → Result FxDockerError DockerInspectContainer
      → Action W FxDockerError FxExecutionState
  unfolding inspect_to_state
  status_result h (err e) w = (err e, w)
  status_result h (ok inspect) w =
      let state = inspect_to_state inspect in
      (ok state, host.runtime.write_cell h.latest_state state w)

  unfoldable pub fx_status :
      FxContainerDocker → DockerContainerHandle → Action W FxDockerError FxExecutionState
  unfolding status_result inspect_container
  fx_status c h w = let (r, w') = inspect_container host c.name w in status_result h r w'

  unfoldable pub fx_stop : FxContainerDocker → Action W FxDockerError (Unit {0})
  unfolding docker_with_timeout
  fx_stop c = docker_ok host (chars "stop" ∷ c.name ∷ [])

  unfoldable pub fx_destroy :
      FxContainerDocker → Action (DockerContainerHandle × W) FxDockerError (Unit {0})
  unfolding stop_monitor docker_with_timeout
  fx_destroy c (h, w) =
      let (h', w₁) = stop_monitor host h w in
      let (r, w₂) = docker_ok host (chars "rm" ∷ chars "--force" ∷ c.name ∷ []) w₁ in (r, (h', w₂))

  unfoldable pub fx_archive : FxContainerDocker → Action W FxDockerError Text
  unfolding docker_with_timeout
  fx_archive c w =
      let image_ref = chars "becky-archive:" ++ c.name in
      let (r, w') = docker_ok host (chars "commit" ∷ c.name ∷ image_ref ∷ []) w in
      (map_ok image_ref r, w')

  abbrev or_zero : Option ℕ → ℕ
  or_zero none = 0
  or_zero (some n) = n

  age : DockerInspectState → W → ℕ × W
  unfolding starts_with docker_started_at_runtime_secs
  age s w =
      let (now, w') = host.utc_now w in
      if s.running && not (starts_with s.started_at (chars "0001-"))
      then (or_zero (docker_started_at_runtime_secs host.parse_rfc3339 s.started_at now), w')
      else (0, w)

  unfoldable pub run_time : FxContainerDocker → W → ℕ × W
  unfolding inspect_container age
  run_time c w =
      let (r, w') = inspect_container host c.name w in
      elim r [ ok inspect ↦ age inspect.state w' | err e ↦ (0, w') ]
