-- ===== src/Utils/Runs.antt =====
-- When a system command has run.
use becky.Base.{ℕ, ◌≡◌, ◌↔◌, refl, arith, List, Option, none, some, ok, err, Result}
use becky.Text.{Text}
use becky.Os.{IoError}
use becky.Utils.{
  Output, CommandRanResult, Pipes, timed_out, run_system_command, run_child, wait_for,
  finish_within, finish,
}

module _ {W : Type 0} (pipes : Pipes W) (limit : ℕ) where
  finish_ok :
      (t0 : ℕ) (r : Option (Result IoError Output)) (w : W)
      → ((x : CommandRanResult) × ((finish_within pipes limit t0 r w).0 ≡ ok x))
        ↔ ((o : Output) × (r ≡ some (ok o)))
  unfolding finish_within finish
  finish_ok t0 none w = (λ (x, e). absurd cc, λ (o, e). absurd cc)
  finish_ok t0 (some (ok o)) w = (λ _. (o, refl), λ _. (_, refl))
  finish_ok t0 (some (err e)) w = (λ (x, e'). absurd cc, λ (o, e'). absurd (ground arith))

  finish_late :
      (t0 : ℕ) (r : Option (Result IoError Output)) (w : W)
      → ((finish_within pipes limit t0 r w).0 ≡ err (timed_out limit)) ↔ (r ≡ none)
  unfolding finish_within finish
  finish_late t0 none w = (λ _. refl, λ _. refl)
  finish_late t0 (some (ok o)) w = (λ e. absurd cc, λ e. absurd cc)
  finish_late t0 (some (err e)) w = (λ e'. absurd (ground arith), λ e'. absurd cc)

  run_child_iff :
      (t0 : ℕ) (child : Result IoError ℕ) (w : W)
      → let answer = (run_child pipes (some limit) t0 child w).0 in
        (((x : CommandRanResult) × (answer ≡ ok x)) ↔ (
          (c : ℕ) × (o : Output) × (child ≡ ok c)
          × ((pipes.output_within limit c w).0 ≡ some (ok o))))
        × ((answer ≡ err (timed_out limit))
            ↔ ((c : ℕ) × (child ≡ ok c) × ((pipes.output_within limit c w).0 ≡ none)))
  unfolding run_child wait_for
  run_child_iff t0 (err e) w = (
    (λ (x, e'). absurd cc, λ (c, o, e', _). absurd cc),
    (λ e'. absurd (ground arith), λ (c, e', _). absurd cc),
  )
  run_child_iff t0 (ok child) w =
      let (in_time, w') = pipes.output_within limit child w in
      (
        (
          λ h. let (o, e) = (finish_ok t0 in_time w').0 h in (child, o, refl, e),
          λ (c, o, e, h). (finish_ok t0 in_time w').1 (o, ground arith),
        ),
        (
          λ h. (child, refl, (finish_late t0 in_time w').0 h),
          λ (c, e, h). (finish_late t0 in_time w').1 (ground arith),
        ),
      )

module _ {W : Type 0} (pipes : Pipes W) (cmd : Text) (args : List Text) (limit : ℕ) (w : W) where
  -- A command with a timeout ends with an output exactly when it was spawned and its output came in
  -- time, and it reports the timeout exactly when it was spawned and its output did not.
  pub run_system_command_iff :
      let (t0, w₁) = pipes.now w in
      let (child, w₂) = pipes.spawn_piped cmd args w₁ in
      let answer = (run_system_command pipes cmd args (some limit) w).0 in
      (((r : CommandRanResult) × (answer ≡ ok r)) ↔ (
        (c : ℕ) × (o : Output) × (child ≡ ok c)
        × ((pipes.output_within limit c w₂).0 ≡ some (ok o))))
      × ((answer ≡ err (timed_out limit))
          ↔ ((c : ℕ) × (child ≡ ok c) × ((pipes.output_within limit c w₂).0 ≡ none)))
  unfolding run_system_command
  run_system_command_iff =
      run_child_iff pipes limit (pipes.now w).0 (pipes.spawn_piped cmd args (pipes.now w).1).0
        (pipes.spawn_piped cmd args (pipes.now w).1).1
