-- ===== src/Docker/Examples.antt =====
-- Runs of docker in memory, and the theorems at concrete data.
use becky.Base.{
  if◌then◌else◌, ◌++◌, ◌==◌, ◌≢◌, Option, ℕ, ◌≡◌, ◌↔◌, ◌⊎◌, refl, arith, List, [], ◌∷◌, none, some,
  true, false, ok, err, map,
}
use becky.Base.{list_eq, lists_eq, nat_eq}
use becky.Text.{Text, chars}
use becky.State.{FxExecutionState}
use becky.Os.Memory.{memory_os}
use becky.SystemCommand.Sample.{empty_host}
use becky.Utils.{Output, CommandRanResult, timed_out, run_system_command}
use becky.Utils.Memory.{memory_pipes}
use becky.Utils.Runs.{run_system_command_iff}
use becky.Docker.{
  DockerContainerHandle, FxDockerError, DockerResourceKind, new, container_missing_no_image,
}
use becky.Docker.Args.{docker_create_args}
use becky.Docker.Args.Parse.{
  CreateRequest, empty_request, with_image, DockerCli, IsDockerCli, read-docker_create_args,
}
use becky.Docker.Cli.{
  docker, docker_not_found, resource_exists, container_exists, inspect_container,
}
use becky.Docker.Cli.Exists.{resource_exists_iff}
use becky.Docker.Inspect.{trim_docker_name, docker_started_at_runtime_secs}
use becky.Docker.Monitor.{monitor_container}
use becky.Docker.Monitor.Ends.{WasCancelled, monitor_container-WasCancelled}
use becky.Docker.Control.{fx_start, fx_status, with_ensured_network}
use becky.Docker.Control.Laws.{fx_start_created_iff, fx_start_no_image, fx_status_cell}
use becky.Docker.Sample.{docker_program, docker_host, web, handle}

trims : trim_docker_name (chars "/worker") ≡ chars "worker"
unfolding trim_docker_name nat_eq
trims = refl

-- An age of 30 seconds, and none for a container that was not started.
ages :
    (docker_started_at_runtime_secs (λ s. some 5) (chars "2026-05-26T10:00:00Z") 30000000005
      ≡ some 30)
    × (docker_started_at_runtime_secs (λ s. some 5) (chars "0001-01-01T00:00:00Z") 30000000005
        ≡ none)
unfolding docker_started_at_runtime_secs
ages = (refl, refl)

create_args :
    docker_create_args
      (chars "worker")
      (chars "alpine:latest")
      (some (record { name = chars "becky" }))
      ((chars "RUST_LOG", chars "debug") ∷ [])
      (map chars ("sh" ∷ "-c" ∷ "sleep 60" ∷ []))
    ≡ map chars (
        "create" ∷ "--name" ∷ "worker" ∷ "--network" ∷ "becky" ∷ "--env" ∷ "RUST_LOG=debug"
        ∷ "alpine:latest" ∷ "sh" ∷ "-c" ∷ "sleep 60" ∷ [])
unfolding docker_create_args
create_args = refl

-- A reader of the three options, as they are documented.
unfoldable read_create : CreateRequest → List Text → Option CreateRequest
unfolding list_eq nat_eq
read_create r [] = none
read_create r ([] ∷ rest) = none
read_create r ((c ∷ word) ∷ []) = if c == b'-' then none else some (with_image (c ∷ word) [] r)
read_create r ((c ∷ word) ∷ value ∷ rest) =
    let named = read_create (record r { name = some value }) rest in
    let networked = read_create (record r { networks = r.networks ++ value ∷ [] }) rest in
    let with_env = read_create (record r { env = r.env ++ value ∷ [] }) rest in
    if c == b'-'
    then (if word == chars "-name"
        then named
        else (if word == chars "-network"
            then networked
            else (if word == chars "-env" then with_env else none)))
    else some (with_image (c ∷ word) (value ∷ rest) r)

read_plain :
    (r : CreateRequest) (c : ℕ) (word : Text) (command : List Text)
    → c ≢ b'-'
    → read_create r ((c ∷ word) ∷ command) ≡ some (with_image (c ∷ word) command r)
unfolding read_create nat_eq
read_plain r c word [] plain = ground arith
read_plain r c word (value ∷ rest) plain = ground arith

reader : DockerCli
reader = record { read = read_create }

reader-IsDockerCli : IsDockerCli reader
unfolding reader read_create list_eq nat_eq
reader-IsDockerCli = record {
  read_name = λ r value rest. refl;
  read_network = λ r value rest plain. refl;
  read_env = λ r key value rest named. refl;
  read_image = read_plain;
}

read-docker_create_args_example :
    (rest : List Text) × (docker_create_args
        (chars "web")
        (chars "nginx")
        none
        ((chars "A", chars "1") ∷ [])
        (chars "--rm" ∷ [])
      ≡ chars "create" ∷ rest)
    × (reader.read empty_request rest
        ≡ some (record {
          name = some (chars "web");
          networks = [];
          env = chars "A=1" ∷ [];
          image = some (chars "nginx");
          command = chars "--rm" ∷ [];
        }))
read-docker_create_args_example =
    read-docker_create_args reader reader-IsDockerCli (chars "web") b'n' (chars "ginx") none
      ((chars "A", chars "1") ∷ []) (chars "--rm" ∷ []) (λ h. omega arith) (λ h. ground arith, tt)
      tt

started : DockerContainerHandle
started = record handle { created = true; latest_state = 100; monitor = some 101 }

starts : (fx_start docker_host web empty_host).0 ≡ ok started
unfolding fx_start docker_host memory_os list_eq lists_eq nat_eq started
starts = refl

fx_start_created_iff_example : (started.created ≡ true) ↔ (
    (container_exists docker_host
      (chars "web")
      (with_ensured_network docker_host none empty_host).1).0
    ≡ ok false)
fx_start_created_iff_example = fx_start_created_iff docker_host web empty_host started starts

no_network : (with_ensured_network docker_host none empty_host).0 ≡ ok tt
unfolding with_ensured_network
no_network = refl

missing_web :
    (container_exists docker_host
      (chars "web")
      (with_ensured_network docker_host none empty_host).1).0
    ≡ ok false
unfolding with_ensured_network docker_host memory_os list_eq lists_eq nat_eq
missing_web = refl

fx_start_no_image_run : fx_start docker_host (new (chars "web")) empty_host ≡ (
  err (container_missing_no_image (chars "web")),
  (container_exists docker_host
      (chars "web")
      (with_ensured_network docker_host none empty_host).1).1,
)
fx_start_no_image_run =
    fx_start_no_image docker_host (new (chars "web")) empty_host no_network missing_web refl

fx_status_cell_run :
    ((s : FxExecutionState) × (fx_status docker_host web handle empty_host ≡ (
      ok s,
      docker_host.runtime.write_cell 7 s (inspect_container docker_host (chars "web") empty_host).1,
    )))
    ⊎ ((e : FxDockerError) × ((inspect_container docker_host (chars "web") empty_host).0 ≡ err e)
        × (fx_status docker_host web handle empty_host
            ≡ (err e, (inspect_container docker_host (chars "web") empty_host).1)))
fx_status_cell_run = fx_status_cell docker_host web handle empty_host

resource_exists_iff_run :
    let answer =
      (resource_exists docker_host
        (chars "image")
        DockerResourceKind.image
        (chars "web")
        empty_host).0 in
    let inspected =
      (docker docker_host (map chars ("image" ∷ "inspect" ∷ "web" ∷ [])) empty_host).0 in
    ((answer ≡ ok true) ↔ ((out : List ℕ) × (inspected ≡ ok out)))
    × ((answer ≡ ok false) ↔ (
        (e : FxDockerError) × (inspected ≡ err e)
        × (docker_not_found e DockerResourceKind.image ≡ true)))
resource_exists_iff_run =
    resource_exists_iff docker_host (chars "image") DockerResourceKind.image (chars "web")
      empty_host

-- The first inspection fails, and the channel wins over the pause after it.
ends : (monitor_container docker_host 3 (chars "web") 7 empty_host).0 ≡ true
unfolding monitor_container docker_host memory_os list_eq lists_eq nat_eq inspect_container
ends = refl

monitor_container-WasCancelled_example : WasCancelled docker_host
monitor_container-WasCancelled_example =
    monitor_container-WasCancelled docker_host 3 (chars "web") 7 empty_host ends

run_system_command_iff_run :
    let pipes = memory_pipes docker_program in
    let (t0, w₁) = pipes.now empty_host in
    let (child, w₂) = pipes.spawn_piped (chars "docker") [] w₁ in
    let answer = (run_system_command pipes (chars "docker") [] (some 30000) empty_host).0 in
    (((r : CommandRanResult) × (answer ≡ ok r)) ↔ (
      (c : ℕ) × (o : Output) × (child ≡ ok c) × ((pipes.output_within 30000 c w₂).0 ≡ some (ok o))))
    × ((answer ≡ err (timed_out 30000))
        ↔ ((c : ℕ) × (child ≡ ok c) × ((pipes.output_within 30000 c w₂).0 ≡ none)))
run_system_command_iff_run =
    run_system_command_iff (memory_pipes docker_program) (chars "docker") [] 30000 empty_host
