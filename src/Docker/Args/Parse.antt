-- ===== src/Docker/Args/Parse.antt =====
-- What docker reads in the command line that is built for `docker create`.
use becky.Base.{ℕ, ◌≡◌, ◌≢◌, refl, ap, sym, ◌∙◌, List, [], ◌∷◌, ◌++◌, append-nil, append_assoc}
use becky.Base.{Option, none, some, map, All}
use becky.Text.{Text, chars}
use becky.Docker.{DockerNetwork}
use becky.Docker.Args.{docker_create_args, network_args, env_args}

-- What `docker create` is asked for.
pub record CreateRequest : Type 0 where
  pub name : Option Text
  pub networks : List Text
  pub env : List Text
  pub image : Option Text
  pub command : List Text

abbrev pub empty_request : CreateRequest
empty_request = record { name = none; networks = []; env = []; image = none; command = [] }

abbrev pub with_image : Text → List Text → CreateRequest → CreateRequest
with_image image command request = record request { image = some image; command = command }

-- The reader of docker's arguments behind `create`, from what was read before; none is refused.
pub record DockerCli : Type 0 where
  pub read : CreateRequest → List Text → Option CreateRequest

-- What docker documents of it: an option takes the word behind it, a variable has a name, a network
-- that has no `=` is one by its name, and the first word that does not begin with a dash is the
-- image, behind which all words are the command.
pub record IsDockerCli (cli : DockerCli) : Type 0 where
  pub read_name :
      (r : CreateRequest) (value : Text) (rest : List Text)
      → cli.read r (chars "--name" ∷ value ∷ rest) ≡ cli.read (record r { name = some value }) rest
  pub read_network :
      (r : CreateRequest) (value : Text) (rest : List Text)
      → All (λ c. c ≢ b'=') value
      → cli.read r (chars "--network" ∷ value ∷ rest)
        ≡ cli.read (record r { networks = r.networks ++ value ∷ [] }) rest
  pub read_env :
      (r : CreateRequest) (key value : Text) (rest : List Text)
      → key ≢ []
      → cli.read r (chars "--env" ∷ (key ++ b'=' ∷ value) ∷ rest)
        ≡ cli.read (record r { env = r.env ++ (key ++ b'=' ∷ value) ∷ [] }) rest
  pub read_image :
      (r : CreateRequest) (c : ℕ) (word : Text) (command : List Text)
      → c ≢ b'-'
      → cli.read r ((c ∷ word) ∷ command) ≡ some (with_image (c ∷ word) command r)

abbrev pub env_words : List (Text × Text) → List Text
env_words env = map (λ (key, value). key ++ b'=' ∷ value) env

abbrev pub network_names : Option DockerNetwork → List Text
network_names none = []
network_names (some network) = network.name ∷ []

-- A network whose name docker does not take for a list of settings.
abbrev pub IsPlainNetwork : Option DockerNetwork → Type 0
IsPlainNetwork none = Unit
IsPlainNetwork (some network) = All (λ c. c ≢ b'=') network.name

module _ (cli : DockerCli) (laws : IsDockerCli cli) where
  read_vars :
      (env : List (Text × Text)) (r : CreateRequest) (c : ℕ) (word : Text) (command : List Text)
      → All (λ var. var.0 ≢ []) env
      → c ≢ b'-'
      → cli.read r (env_args env ++ (c ∷ word) ∷ command)
        ≡ some (with_image (c ∷ word) command (record r { env = r.env ++ env_words env }))
  unfolding env_args
  read_vars [] r c word command keys plain =
      laws.read_image r c word command plain
      ∙ ap (λ env. some (with_image (c ∷ word) command (record r { env = env })))
          (sym (append-nil r.env))
  read_vars ((key, value) ∷ env) r c word command (named, keys) plain =
      laws.read_env r key value _ named
      ∙ read_vars env _ c word command keys plain
      ∙ ap (λ env. some (with_image (c ∷ word) command (record r { env = env })))
          (append_assoc r.env ((key ++ b'=' ∷ value) ∷ []) (env_words env))

  read_from_network :
      (network : Option DockerNetwork) (env : List (Text × Text)) (name : Text) (c : ℕ)
      (word : Text) (command : List Text)
      → IsPlainNetwork network
      → All (λ var. var.0 ≢ []) env
      → c ≢ b'-'
      → cli.read
          (record empty_request { name = some name })
          (network_args network ++ (env_args env ++ (c ∷ word) ∷ command))
        ≡ some (record {
          name = some name;
          networks = network_names network;
          env = env_words env;
          image = some (c ∷ word);
          command = command;
        })
  unfolding network_args
  read_from_network none env name c word command plain keys start =
      read_vars env _ c word command keys start
  read_from_network (some network) env name c word command plain keys start =
      laws.read_network _ network.name _ plain ∙ read_vars env _ c word command keys start

  -- If docker reads its arguments as it documents, the image does not begin with a dash, every
  -- variable has a name and the name of the network has no `=`, then what docker reads behind
  -- `create` is the name, the network if there is one, every variable in order, the image, and the
  -- whole command unchanged.
  pub read-docker_create_args :
      (name : Text) (c : ℕ) (word : Text) (network : Option DockerNetwork)
      (env : List (Text × Text)) (command : List Text)
      → c ≢ b'-'
      → All (λ var. var.0 ≢ []) env
      → IsPlainNetwork network
      → (rest : List Text) × (docker_create_args name (c ∷ word) network env command
          ≡ chars "create" ∷ rest)
        × (cli.read empty_request rest
            ≡ some (record {
              name = some name;
              networks = network_names network;
              env = env_words env;
              image = some (c ∷ word);
              command = command;
            }))
  unfolding docker_create_args
  read-docker_create_args name c word network env command start keys plain = (
    _,
    refl,
    laws.read_name empty_request name _
        ∙ read_from_network network env name c word command plain keys start,
  )
