-- ===== src/Runtime.antt =====
-- What the providers ask of the async runtime, over the host's state `W`: the clock, shared cells
-- (`Arc<RwLock<_>>`), and tasks with the channel that cancels them.
pub mod Time
pub mod Memory
pub mod Beside
use becky.Base.{ℕ, Bool, Action}
use becky.Text.{Text}
use becky.State.{FxExecutionState}
use becky.Os.{IoError, Os}

pub record Runtime (W M : Type 0) : Type 0 where
  pub os : Os W
  -- `std::env::current_exe`
  pub current_exe : Action W IoError Text
  -- A monotonic clock, in milliseconds.
  pub now : W → ℕ × W
  -- `{:?}` of a string, which goes by the tables of Unicode.
  pub format_debug : Text → Text
  pub new_cell : FxExecutionState → W → ℕ × W
  pub read_cell : ℕ → W → FxExecutionState × W
  pub write_cell : ℕ → FxExecutionState → W → W
  -- A monitor `M` that was spawned, by the name of its task and of its channel.
  pub spawn_task : M → W → ℕ × W
  pub send_cancel : ℕ → W → W
  pub join_task : ℕ → W → W
  -- Which arm of a `select!` wins: `true` for the channel's.
  pub cancelled : W → Bool × W
  -- What the arm that sleeps leaves, when it wins.
  pub interval : ℕ → W → W
