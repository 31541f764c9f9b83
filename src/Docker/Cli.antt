-- ===== src/Docker/Cli.antt =====
-- The calls of the docker command line, and the resources that they look up and make.
pub mod Exists
use becky.Base.{ℕ, List, [], ◌∷◌, Option, none, some, Bool, true, false, ◌==◌, nat_eq, ◌||◌}
use becky.Base.{Result, ok, err, map_ok, Action, pure, fail, ◌>>=◌, ◌>>◌, if◌then◌else◌}
use becky.Text.{Text, chars, join}
use becky.Text.Trim.{trim}
use becky.Text.Lossy.{from_utf8_lossy, to_ascii_lowercase, contains}
use becky.Runtime.{Runtime}
use becky.Utils.{Pipes, CommandRanError, CommandRanResult, run_system_command}
use becky.Docker.{
  docker_bin, docker_command_timeout, docker_pull_timeout, FxDockerError, docker_exit, json,
  missing_field, DockerInspectContainer, MonitorTask, DockerResourceKind, FxContainerDocker,
  missing_image,
}
use becky.Docker.Args.{docker_create_args}

-- What the provider stands on: the runtime, the pipes of its children, `serde_json` for the
-- records that it reads, and `chrono` for timestamps, in nanoseconds of one era.
pub record DockerHost (W : Type 0) : Type 0 where
  pub runtime : Runtime W MonitorTask
  pub pipes : Pipes W
  pub parse_containers : List ℕ → Option (List DockerInspectContainer)
  pub parse_rfc3339 : Text → Option ℕ
  pub utc_now : W → ℕ × W

abbrev word_list : List Text → Text
word_list args = join (chars " ") args

checked : List Text → Result CommandRanError CommandRanResult → Result FxDockerError (List ℕ)
unfolding join from_utf8_lossy trim nat_eq
checked args (err e) = err (FxDockerError.command e)
checked args (ok result) =
    if result.output.status == 0
    then ok result.output.stdout
    else err (
        docker_exit (word_list args) result.output.status
          (trim (from_utf8_lossy result.output.stderr)))

unfoldable pub docker_not_found : FxDockerError → DockerResourceKind → Bool
unfolding to_ascii_lowercase contains
docker_not_found (docker_exit c status stderr) DockerResourceKind.container =
    contains (to_ascii_lowercase stderr) (chars "no such container")
docker_not_found (docker_exit c status stderr) DockerResourceKind.image =
    let text = to_ascii_lowercase stderr in
    contains text (chars "no such image") || contains text (chars "no such object")
docker_not_found (docker_exit c status stderr) DockerResourceKind.network =
    contains (to_ascii_lowercase stderr) (chars "no such network")
docker_not_found _ kind = false

exists_result : DockerResourceKind → Result FxDockerError (List ℕ) → Result FxDockerError Bool
unfolding docker_not_found
exists_result kind (ok _) = ok true
exists_result kind (err e) = if docker_not_found e kind then ok false else err e

last_container : List DockerInspectContainer → Result FxDockerError DockerInspectContainer
last_container [] = err (missing_field (chars "container inspect") (chars "container"))
last_container (c ∷ []) = ok c
last_container (c ∷ d ∷ cs) = last_container (d ∷ cs)

read_inspect : Option (List DockerInspectContainer) → Result FxDockerError DockerInspectContainer
unfolding last_container
read_inspect none = err (json (chars "container inspect"))
read_inspect (some containers) = last_container containers

module _ {W : Type 0} (host : DockerHost W) where
  unfoldable pub docker_with_timeout : List Text → ℕ → Action W FxDockerError (List ℕ)
  unfolding checked run_system_command
  docker_with_timeout args timeout w =
      let (r, w') = run_system_command host.pipes docker_bin args (some timeout) w in
      (checked args r, w')

  abbrev pub docker : List Text → Action W FxDockerError (List ℕ)
  docker args = docker_with_timeout args docker_command_timeout

  abbrev pub docker_ok : List Text → Action W FxDockerError (Unit {0})
  docker_ok args w = let (r, w') = docker args w in (map_ok tt r, w')

  unfoldable pub inspect_container : Text → Action W FxDockerError DockerInspectContainer
  unfolding docker_with_timeout read_inspect
  inspect_container name = do
    output ← docker (chars "container" ∷ chars "inspect" ∷ name ∷ [])
    λ w. (read_inspect (host.parse_containers output), w)

  unfoldable pub resource_exists : Text → DockerResourceKind → Text → Action W FxDockerError Bool
  unfolding docker_with_timeout exists_result
  resource_exists word kind name w =
      let (r, w') = docker (word ∷ chars "inspect" ∷ name ∷ []) w in (exists_result kind r, w')

  abbrev pub container_exists : Text → Action W FxDockerError Bool
  container_exists = resource_exists (chars "container") DockerResourceKind.container

  abbrev pub image_exists : Text → Action W FxDockerError Bool
  image_exists = resource_exists (chars "image") DockerResourceKind.image

  abbrev pub network_exists : Text → Action W FxDockerError Bool
  network_exists = resource_exists (chars "network") DockerResourceKind.network

  pull_unless : Text → Bool → Action W FxDockerError (Unit {0})
  unfolding docker_with_timeout
  pull_unless image true w = (ok tt, w)
  pull_unless image false w =
      let (r, w') = docker_with_timeout (chars "pull" ∷ image ∷ []) docker_pull_timeout w in
      (map_ok tt r, w')

  unfoldable pub ensure_image : Text → Action W FxDockerError (Unit {0})
  unfolding resource_exists pull_unless
  ensure_image image = image_exists image >>= pull_unless image

  create_unless : Text → Bool → Action W FxDockerError (Unit {0})
  unfolding docker_with_timeout
  create_unless name true w = (ok tt, w)
  create_unless name false w = docker_ok (chars "network" ∷ chars "create" ∷ name ∷ []) w

  unfoldable pub ensure_network : Text → Action W FxDockerError (Unit {0})
  unfolding resource_exists create_unless
  ensure_network name = network_exists name >>= create_unless name

  unfoldable pub create_container : FxContainerDocker → Action W FxDockerError (Unit {0})
  unfolding docker_with_timeout docker_create_args
  create_container c w = elim c.image [
    | none ↦ (err missing_image, w)
    | some image ↦ docker_ok (docker_create_args c.name image c.network c.env c.command) w
  ]
