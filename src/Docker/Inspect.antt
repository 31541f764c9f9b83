-- ===== src/Docker/Inspect.antt =====
-- What an inspection says of a container: its state, its name and its age.
use becky.Base.{ℕ, ◌-◌, ◌/◌, [], ◌∷◌, Option, none, some, Bool, ◌||◌, ◌==◌}
use becky.Base.{list_eq, nat_eq, leb, if◌then◌else◌}
use becky.Text.{Text, chars}
use becky.Text.Lossy.{to_ascii_lowercase, starts_with}
use becky.State.{FxExecutionState, running, paused, stopped, unknown}
use becky.Docker.{DockerInspectContainer, DockerInspectState}

-- `name.strip_prefix('/').unwrap_or(name)`
unfoldable pub trim_docker_name : Text → Text
unfolding nat_eq
trim_docker_name [] = []
trim_docker_name (c ∷ name) = if c == b'/' then name else c ∷ name

unfoldable pub eq_ignore_ascii_case : Text → Text → Bool
unfolding to_ascii_lowercase list_eq
eq_ignore_ascii_case s t = to_ascii_lowercase s == to_ascii_lowercase t

unfoldable pub state_of : DockerInspectState → FxExecutionState
unfolding eq_ignore_ascii_case
state_of s =
    if s.running
    then running s.pid
    else (if s.paused
        then paused s.pid
        else (if eq_ignore_ascii_case s.status (chars "exited")
              || eq_ignore_ascii_case s.status (chars "created")
            then stopped
            else unknown))

unfoldable pub inspect_to_state : DockerInspectContainer → FxExecutionState
unfolding state_of
inspect_to_state inspect = state_of inspect.state

-- Whole seconds between two instants in nanoseconds, if they are in this order.
seconds_since : ℕ → Option ℕ → Option ℕ
seconds_since now none = none
seconds_since now (some started) =
    if leb started now then some ((now - started) / 1000000000) else none

unfoldable pub docker_started_at_runtime_secs : (Text → Option ℕ) → Text → ℕ → Option ℕ
unfolding starts_with list_eq seconds_since
docker_started_at_runtime_secs parse_rfc3339 started_at now =
    if started_at == [] || starts_with started_at (chars "0001-")
    then none
    else seconds_since now (parse_rfc3339 started_at)
