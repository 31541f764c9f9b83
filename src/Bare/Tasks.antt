-- ===== src/Bare/Tasks.antt =====
-- Which tasks an engine has after a start, and after it has destroyed them.
use becky.Base.{
  ℕ, ◌≡◌, refl, ◌∙◌, ap, true, none, List, [], ◌∷◌, nat_eq, ◌==◌, arith, Map, get, get-insert,
  get-insert_other, get-remove, get-remove_other, Result, ok, err, ◌++◌, All, some, Option,
  Option-cases, ◌⊎◌, inl, inr, any, subst, ℕ_discrete,
}
use becky.Id.{UuidCrate, FxId}
use becky.Os.{Os}
use becky.SystemCommand.{FxSystemCommand, FxSystemProcessRunning, FxSysCommandError}
use becky.SystemCommand.Control
use becky.Bare.{
  BareEngine, keys, started, instance_fx_id, start_all, fx_start, destroy_one, destroy_all,
  fx_destroy,
}
use becky.Bare.Status.{key_or_none}

-- A copy's task and command are as they were.
abbrev IsSameAt : ℕ → BareEngine → BareEngine → Type 0
IsSameAt k engine engine' =
    (get engine'.tasks k ≡ get engine.tasks k) × (get engine'.cmds k ≡ get engine.cmds k)

-- No entry of a list has the key.
abbrev pub IsAbsent : ℕ → List (ℕ × FxSystemCommand) → Type 0
IsAbsent k specs = All (λ entry. ¬ (entry.0 ≡ k)) specs

-- The task that a start of one copy leaves, and its command.
abbrev pub task_of : Result FxSysCommandError FxSystemProcessRunning → Option FxSystemProcessRunning
task_of (ok c) = some c
task_of (err x) = none

abbrev pub command_after :
    FxSystemCommand
    → FxSystemCommand
    → Result FxSysCommandError FxSystemProcessRunning
    → FxSystemCommand
command_after old started (ok c) = started
command_after old started (err x) = old

started_other :
    (id : ℕ) (cmd_spec : FxSystemCommand) (r : Result FxSysCommandError FxSystemProcessRunning)
    (engine : BareEngine) (k : ℕ)
    → ¬ (id ≡ k)
    → IsSameAt k engine (started id cmd_spec r engine)
unfolding started nat_eq
started_other id cmd_spec (err x) engine k ne = (refl, refl)
started_other id cmd_spec (ok c) engine k ne =
    (get-insert_other engine.tasks id c k ne, get-insert_other engine.cmds id cmd_spec k ne)

started_own :
    (k : ℕ) (old cmd_spec : FxSystemCommand) (r : Result FxSysCommandError FxSystemProcessRunning)
    (engine : BareEngine)
    → get engine.tasks k ≡ none
    → get engine.cmds k ≡ some old
    → (get (started k cmd_spec r engine).tasks k ≡ task_of r)
      × (get (started k cmd_spec r engine).cmds k ≡ some (command_after old cmd_spec r))
unfolding started nat_eq
started_own k old cmd_spec (err x) engine lost found = (lost, found)
started_own k old cmd_spec (ok c) engine lost found =
    (get-insert engine.tasks k c, get-insert engine.cmds k cmd_spec)

get_in_middle :
    (before after : List (ℕ × FxSystemCommand)) (k : ℕ) (c : FxSystemCommand)
    → IsAbsent k before
    → get (before ++ (k, c) ∷ after) k ≡ some c
unfolding nat_eq
get_in_middle [] after k c absent = ground arith
get_in_middle ((j, d) ∷ before) after k c (ne, absent) =
    ground (arith, get_in_middle before after k c absent)

module _ {W : Type 0} (os : Os W) (U : UuidCrate) (fx_id : FxId U) where
  abbrev pub start_copy :
      ℕ
      → FxSystemCommand
      → W
      → Result FxSysCommandError FxSystemProcessRunning × (FxSystemCommand × W)
  start_copy k c w = Control.fx_start os U (instance_fx_id os U fx_id k) (c, w)

  -- The host after the starts of some copies, one after the other.
  abbrev pub host_after : List (ℕ × FxSystemCommand) → W → W
  host_after [] w = w
  host_after ((id, cmd_spec) ∷ specs) w = host_after specs (start_copy id cmd_spec w).1.1

  start_all-host_after :
      (specs : List (ℕ × FxSystemCommand)) (engine : BareEngine) (w : W)
      → (start_all os U fx_id specs (engine, w)).1 ≡ host_after specs w
  unfolding start_all
  start_all-host_after [] engine w = refl
  start_all-host_after ((id, cmd_spec) ∷ specs) engine w = start_all-host_after specs _ _

  start_all_other :
      (specs : List (ℕ × FxSystemCommand)) (engine : BareEngine) (w : W) (k : ℕ)
      → IsAbsent k specs
      → IsSameAt k engine (start_all os U fx_id specs (engine, w)).0
  unfolding start_all
  start_all_other [] engine w k absent = (refl, refl)
  start_all_other ((id, cmd_spec) ∷ specs) engine w k (ne, absent) =
      let (r, (cmd_spec', w')) = start_copy id cmd_spec w in
      let (tasks, cmds) = started_other id cmd_spec' r engine k ne in
      let (tasks', cmds') = start_all_other specs (started id cmd_spec' r engine) w' k absent in
      (tasks' ∙ tasks, cmds' ∙ cmds)

  start_all-append :
      (xs ys : List (ℕ × FxSystemCommand)) (s : BareEngine × W)
      → start_all os U fx_id (xs ++ ys) s ≡ start_all os U fx_id ys (start_all os U fx_id xs s)
  unfolding start_all
  start_all-append [] ys s = refl
  start_all-append ((id, cmd_spec) ∷ xs) ys (engine, w) = start_all-append xs ys _

  start_all_first :
      (after : List (ℕ × FxSystemCommand)) (k : ℕ) (c : FxSystemCommand) (engine : BareEngine)
      (w : W)
      → IsAbsent k after
      → get engine.tasks k ≡ none
      → get engine.cmds k ≡ some c
      → let (r, (c', w')) = start_copy k c w in
        let s = start_all os U fx_id ((k, c) ∷ after) (engine, w) in
        (get s.0.tasks k ≡ task_of r) × (get s.0.cmds k ≡ some (command_after c c' r))
  unfolding start_all
  start_all_first after k c engine w absent lost found =
      let (r, (c', w')) = start_copy k c w in
      let (task, command) = started_own k c c' r engine lost found in
      let (tasks, cmds) = start_all_other after (started k c' r engine) w' k absent in
      (tasks ∙ task, cmds ∙ command)

  start_all_own :
      (before after : List (ℕ × FxSystemCommand)) (k : ℕ) (c : FxSystemCommand)
      (engine : BareEngine) (w : W)
      → IsAbsent k before
      → IsAbsent k after
      → get engine.tasks k ≡ none
      → get engine.cmds k ≡ some c
      → let (r, (c', w')) = start_copy k c (host_after before w) in
        let s = start_all os U fx_id (before ++ (k, c) ∷ after) (engine, w) in
        (get s.0.tasks k ≡ task_of r) × (get s.0.cmds k ≡ some (command_after c c' r))
  start_all_own before after k c engine w no_before no_after lost found =
      let mid = start_all os U fx_id before (engine, w) in
      let host = start_all-host_after before engine w in
      let whole = start_all-append before ((k, c) ∷ after) (engine, w) in
      let (tasks, cmds) = start_all_other before engine w k no_before in
      let (task, command) =
        start_all_first after k c mid.0 mid.1 no_after (tasks ∙ lost) (cmds ∙ found) in
      (
        ap (λ s. get s.0.tasks k) whole ∙ task ∙ ap (λ v. task_of (start_copy k c v).0) host,
        ap (λ s. get s.0.cmds k) whole
            ∙ command
            ∙ ap (λ v. let (r, (c', w')) = start_copy k c v in some (command_after c c' r)) host,
      )

  -- If a copy occurs once among the commands, a start of the engine starts it on the host that the
  -- starts of those before it leave, whether they failed or not: it has the task of its start and the
  -- command that its start leaves, or no task and the command that it had if its start fails. The
  -- host is the one that the starts of all copies leave.
  pub fx_start_each :
      (before after : List (ℕ × FxSystemCommand)) (k : ℕ) (c : FxSystemCommand)
      (tasks : Map ℕ FxSystemProcessRunning) (w : W)
      → IsAbsent k before
      → IsAbsent k after
      → let engine : BareEngine = record { cmds = before ++ (k, c) ∷ after; tasks = tasks } in
        let (r, (c', w')) = start_copy k c (host_after before w) in
        let s = fx_start os U fx_id (engine, w) in
        (get s.0.tasks k ≡ task_of r)
        × (get s.0.cmds k ≡ some (command_after c c' r))
        × (s.1 ≡ host_after (before ++ (k, c) ∷ after) w)
  unfolding fx_start
  fx_start_each before after k c tasks w no_before no_after =
      let specs = before ++ (k, c) ∷ after in
      let fresh : BareEngine = record { cmds = specs; tasks = [] } in
      let (task, command) =
        start_all_own before after k c fresh w no_before no_after refl
          (get_in_middle before after k c no_before) in
      (task, command, start_all-host_after specs fresh w)

module _ {W : Type 0} (os : Os W) where
  destroy_one-none :
      (id : ℕ) (engine : BareEngine) (w : W) → get (destroy_one os id (engine, w)).0.tasks id ≡ none
  unfolding destroy_one nat_eq
  destroy_one-none id engine w = elim (Option-cases (get engine.tasks id)) [
    | inl lost ↦ rw (lost, destroy_one) lost
    | inr (process, found) ↦ rw (found, destroy_one) (get-remove engine.tasks id)
  ]

  destroy_one_other :
      (id : ℕ) (engine : BareEngine) (w : W) (k : ℕ)
      → ¬ (id ≡ k)
      → get (destroy_one os id (engine, w)).0.tasks k ≡ get engine.tasks k
  unfolding destroy_one nat_eq
  destroy_one_other id engine w k ne = elim (Option-cases (get engine.tasks id)) [
    | inl lost ↦ rw (lost, destroy_one) refl
    | inr (process, found) ↦ rw (found, destroy_one) (get-remove_other engine.tasks id k ne)
  ]

  destroy_all-none :
      (ids : List ℕ) (engine : BareEngine) (w : W) (k : ℕ)
      → (get engine.tasks k ≡ none) ⊎ (any (λ id. id == k) ids ≡ true)
      → get (destroy_all os ids (engine, w)).0.tasks k ≡ none
  unfolding destroy_all nat_eq
  destroy_all-none [] engine w k (inl lost) = lost
  destroy_all-none [] engine w k (inr listed) = absurd (ground arith)
  destroy_all-none (id ∷ ids) engine w k h =
      let s = destroy_one os id (engine, w) in
      destroy_all-none ids s.0 s.1 k (elim (ℕ_discrete id k) [
        | yes same ↦ inl (subst (λ j. get s.0.tasks j ≡ none) same (destroy_one-none id engine w))
        | no ne ↦ elim h [
          | inl lost ↦ inl (destroy_one_other id engine w k ne ∙ lost)
          | inr listed ↦ inr (ground arith)
        ]
      ])

  -- After all tasks were destroyed no copy has one, whatever the errors.
  pub fx_destroy-none :
      (engine : BareEngine) (w : W) (k : ℕ) → get (fx_destroy os (engine, w)).0.tasks k ≡ none
  unfolding fx_destroy
  fx_destroy-none engine w k =
      destroy_all-none (keys engine.tasks) engine w k (key_or_none engine.tasks k)
