-- ===== src/Docker.antt =====
-- becky-fx-docker/src/lib.rs: the data of the provider, which drives the docker command line.
pub mod Args
pub mod Cli
pub mod Inspect
pub mod Monitor
pub mod Control
mod Sample
mod Examples
use becky.Base.{ℕ, List, [], ◌∷◌, ◌++◌, Option, none, some, Bool}
use becky.Text.{Text, chars}
use becky.State.{ExitStatus}
use becky.Utils.{CommandRanError}

abbrev pub docker_bin : Text
docker_bin = chars "docker"

-- in milliseconds
abbrev pub docker_command_timeout : ℕ
docker_command_timeout = 30000

abbrev pub docker_pull_timeout : ℕ
docker_pull_timeout = 600000

abbrev pub docker_monitor_poll_interval : ℕ
docker_monitor_poll_interval = 2000

pub record DockerNetwork : Type 0 where
  pub name : Text

pub record FxContainerDocker : Type 0 where
  pub name : Text
  pub image : Option Text
  pub command : List Text
  pub env : List (Text × Text)
  pub network : Option DockerNetwork

-- `FxContainerDocker::new`
abbrev pub new : Text → FxContainerDocker
new name = record { name = name; image = none; command = []; env = []; network = none }

abbrev pub from_image : Text → Text → FxContainerDocker
from_image name image = record (new name) { image = some image }

abbrev pub with_network : Text → DockerNetwork → FxContainerDocker
with_network name network = record (new name) { network = some network }

abbrev pub set_image : FxContainerDocker → Text → FxContainerDocker
set_image c image = record c { image = some image }

abbrev pub set_command : FxContainerDocker → List Text → FxContainerDocker
set_command c command = record c { command = command }

abbrev pub add_env : FxContainerDocker → Text → Text → FxContainerDocker
add_env c name value = record c { env = c.env ++ (name, value) ∷ [] }

abbrev pub set_network : FxContainerDocker → DockerNetwork → FxContainerDocker
set_network c network = record c { network = some network }

-- `latest_state` names the cell that the monitor shares.
pub record DockerContainerHandle : Type 0 where
  pub id : Text
  pub name : Text
  pub created : Bool
  pub latest_state : ℕ
  pub monitor : Option ℕ

-- The error of `serde_json` inside `Json` is left out.
pub data FxDockerError : Type 0 where
  command : CommandRanError → FxDockerError
  docker_exit : Text → ExitStatus → Text → FxDockerError
  json : Text → FxDockerError
  missing_field : Text → Text → FxDockerError
  container_missing_no_image : Text → FxDockerError
  missing_image : FxDockerError

pub record DockerInspectState : Type 0 where
  pub pid : ℕ
  pub running : Bool
  pub paused : Bool
  pub status : Text
  pub started_at : Text

pub record DockerInspectContainer : Type 0 where
  pub id : Text
  pub name : Text
  pub state : DockerInspectState

-- The task that follows a container: its name, and the cell that it writes.
pub data MonitorTask : Type 0 where
  container_monitor : Text → ℕ → MonitorTask

pub data DockerResourceKind : Type 0 where
  container image network : DockerResourceKind

pub data MonitorWaitAction : Type 0 where
  stopped cancelled retry : MonitorWaitAction
