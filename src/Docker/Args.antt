-- ===== src/Docker/Args.antt =====
-- The arguments of `docker create`.
pub mod Parse
use becky.Base.{List, [], ◌∷◌, ◌++◌, Option, none, some}
use becky.Text.{Text, chars}
use becky.Docker.{DockerNetwork}

network_args : Option DockerNetwork → List Text
network_args none = []
network_args (some network) = chars "--network" ∷ network.name ∷ []

env_args : List (Text × Text) → List Text
env_args [] = []
env_args ((key, value) ∷ env) = chars "--env" ∷ (key ++ b'=' ∷ value) ∷ env_args env

unfoldable pub docker_create_args :
    Text → Text → Option DockerNetwork → List (Text × Text) → List Text → List Text
unfolding network_args env_args
docker_create_args name image network env command =
    (chars "create" ∷ chars "--name" ∷ name ∷ [])
    ++ (network_args network ++ (env_args env ++ image ∷ command))
