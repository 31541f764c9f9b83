-- ===== src/Bare/Status.antt =====
-- Which tasks an engine keeps after it has asked for their status.
use becky.Base.{
  ℕ, ◌≡◌, refl, ap, true, none, some, List, [], ◌∷◌, nat_eq, ◌==◌, arith, Map, get, remove,
  get-insert, get-insert_other, get-remove, get-remove_other, Result, ok, err, Bool-cases,
  Option-cases, ◌⊎◌, any, subst, sym, ◌∙◌, inl, inr, ℕ_discrete,
}
use becky.State.{FxExecutionState, is_running_state}
use becky.Os.{Os}
use becky.SystemCommand.{FxSystemCommand, FxSystemProcessRunning}
use becky.SystemCommand.Control
use becky.Bare.{
  BareEngine, set_state, keys, observed, status_of_task, status_of, status_all, fx_status,
}

-- A copy that is still tracked runs, as far as its command says.
abbrev pub IsTrackedRunning : BareEngine → ℕ → Type 0
IsTrackedRunning engine id =
    (c : FxSystemCommand)
    → ¬ (get engine.tasks id ≡ none)
    → get engine.cmds id ≡ some c
    → is_running_state c.state ≡ true

get-set_state :
    (cmds : Map ℕ FxSystemCommand) (id : ℕ) (status : FxExecutionState) (c : FxSystemCommand)
    → get (set_state cmds id status) id ≡ some c
    → c.state ≡ status
unfolding set_state nat_eq
get-set_state cmds id status c = elim (Option-cases (get cmds id)) [
  | inl lost ↦ rw (lost, set_state) (λ h. absurd (ground (arith, lost)))
  | inr (old, found) ↦
      rw (found, set_state)
        (λ h. ground (arith, get-insert cmds id (record old { state = status })))
]

get-set_state_other :
    (cmds : Map ℕ FxSystemCommand) (id other : ℕ) (status : FxExecutionState)
    → ¬ (id ≡ other)
    → get (set_state cmds id status) other ≡ get cmds other
unfolding set_state nat_eq
get-set_state_other cmds id other status ne = elim (Option-cases (get cmds id)) [
  | inl lost ↦ rw (lost, set_state) refl
  | inr (old, found) ↦ rw (found, set_state) (get-insert_other cmds id _ other ne)
]

-- What a copy of another number is.
abbrev IsSameAt : BareEngine → BareEngine → ℕ → Type 0
IsSameAt engine engine' other =
    (get engine'.tasks other ≡ get engine.tasks other)
    × (get engine'.cmds other ≡ get engine.cmds other)

observed_other :
    (id : ℕ) (process : FxSystemProcessRunning) (r : Result FxExecutionState FxExecutionState)
    (engine : BareEngine) (other : ℕ)
    → ¬ (id ≡ other)
    → IsSameAt engine (observed id process r engine) other
unfolding observed nat_eq
observed_other id process (err status) engine other ne =
    (refl, get-set_state_other engine.cmds id other status ne)
observed_other id process (ok status) engine other ne = (
  elim (Bool-cases (is_running_state status)) [
    | inl runs ↦ rw (runs, observed) (get-insert_other engine.tasks id process other ne)
    | inr ended ↦ rw (ended, observed) refl
  ],
  get-set_state_other engine.cmds id other status ne,
)

observed_tracked :
    (id : ℕ) (process : FxSystemProcessRunning) (r : Result FxExecutionState FxExecutionState)
    (engine : BareEngine)
    → get engine.tasks id ≡ none
    → IsTrackedRunning (observed id process r engine) id
unfolding observed nat_eq
observed_tracked id process (err status) engine taken c tracked known = absurd (tracked taken)
observed_tracked id process (ok status) engine taken c tracked known =
    elim (Bool-cases (is_running_state status)) [
      | inl runs ↦ ap is_running_state (get-set_state engine.cmds id status c known) ∙ runs
      | inr ended ↦ absurd (tracked (rw (ended, observed) taken))
    ]

pub key_or_none :
    (tasks : Map ℕ FxSystemProcessRunning) (k : ℕ)
    → (get tasks k ≡ none) ⊎ (any (λ id. id == k) (keys tasks) ≡ true)
unfolding nat_eq
key_or_none [] k = inl refl
key_or_none ((id, c) ∷ tasks) k = ground (arith, key_or_none tasks k)

module _ {W : Type 0} (os : Os W) where
  status_of_task_other :
      (id : ℕ) (process : FxSystemProcessRunning) (engine : BareEngine) (w : W) (other : ℕ)
      → ¬ (id ≡ other)
      → IsSameAt engine (status_of_task os id process (engine, w)).0 other
  unfolding status_of_task nat_eq
  status_of_task_other id process engine w other ne = elim (Option-cases (get engine.cmds id)) [
    | inl lost ↦ rw (lost, status_of_task) (get-insert_other engine.tasks id process other ne, refl)
    | inr (command, found) ↦
        rw (found, status_of_task)
          (observed_other id process (Control.fx_status os command process w).0 engine other ne)
  ]

  status_of_task_tracked :
      (id : ℕ) (process : FxSystemProcessRunning) (engine : BareEngine) (w : W)
      → get engine.tasks id ≡ none
      → IsTrackedRunning (status_of_task os id process (engine, w)).0 id
  unfolding status_of_task nat_eq
  status_of_task_tracked id process engine w taken = elim (Option-cases (get engine.cmds id)) [
    | inl lost ↦ rw (lost, status_of_task) (λ c tracked known. absurd (ground (arith, lost, known)))
    | inr (command, found) ↦
        rw (found, status_of_task)
          (observed_tracked id process (Control.fx_status os command process w).0 engine taken)
  ]

  status_of_other :
      (id : ℕ) (engine : BareEngine) (w : W) (other : ℕ)
      → ¬ (id ≡ other)
      → IsSameAt engine (status_of os id (engine, w)).0 other
  unfolding status_of nat_eq
  status_of_other id engine w other ne = elim (Option-cases (get engine.tasks id)) [
    | inl lost ↦ rw (lost, status_of) (refl, refl)
    | inr (process, found) ↦
        let (tasks, cmds) =
          status_of_task_other id process (record engine { tasks = remove engine.tasks id }) w other
            ne in
        rw (found, status_of) (tasks ∙ get-remove_other engine.tasks id other ne, cmds)
  ]

  status_of_tracked :
      (id : ℕ) (engine : BareEngine) (w : W) → IsTrackedRunning (status_of os id (engine, w)).0 id
  unfolding status_of nat_eq
  status_of_tracked id engine w = elim (Option-cases (get engine.tasks id)) [
    | inl lost ↦ rw (lost, status_of) (λ c tracked known. absurd (tracked lost))
    | inr (process, found) ↦
        rw (found, status_of)
          (status_of_task_tracked id process (record engine { tasks = remove engine.tasks id }) w
            (get-remove engine.tasks id))
  ]

  -- A status of any copy keeps what is known of one that was looked at.
  status_of_keeps :
      (id : ℕ) (engine : BareEngine) (w : W) (other : ℕ)
      → IsTrackedRunning engine other
      → IsTrackedRunning (status_of os id (engine, w)).0 other
  status_of_keeps id engine w other known = elim (ℕ_discrete id other) [
    | yes same ↦
        subst (λ k. IsTrackedRunning (status_of os id (engine, w)).0 k) same
          (status_of_tracked id engine w)
    | no ne ↦
        let (tasks, cmds) = status_of_other id engine w other ne in
        λ c tracked found. known c (λ lost. tracked (tasks ∙ lost)) (sym cmds ∙ found)
  ]

  status_all_tracked :
      (ids : List ℕ) (engine : BareEngine) (w : W) (k : ℕ)
      → IsTrackedRunning engine k ⊎ (any (λ id. id == k) ids ≡ true)
      → IsTrackedRunning (status_all os ids (engine, w)).0 k
  unfolding status_all nat_eq
  status_all_tracked [] engine w k (inl known) = known
  status_all_tracked [] engine w k (inr listed) = absurd (ground arith)
  status_all_tracked (id ∷ ids) engine w k (inl known) =
      let s = status_of os id (engine, w) in
      status_all_tracked ids s.0 s.1 k (inl (status_of_keeps id engine w k known))
  status_all_tracked (id ∷ ids) engine w k (inr listed) =
      let s = status_of os id (engine, w) in
      elim (ℕ_discrete id k) [
        | yes same ↦
            status_all_tracked ids s.0 s.1 k
              (inl (subst (λ j. IsTrackedRunning s.0 j) same (status_of_tracked id engine w)))
        | no ne ↦ status_all_tracked ids s.0 s.1 k (inr (ground arith))
      ]

  -- After a status of all tasks, every copy that still has a task and a command is running, as its
  -- command says; the tasks of the others were dropped.
  pub fx_status_tracked :
      (engine : BareEngine) (w : W) (k : ℕ) (c : FxSystemCommand)
      → ¬ (get (fx_status os (engine, w)).0.tasks k ≡ none)
      → get (fx_status os (engine, w)).0.cmds k ≡ some c
      → is_running_state c.state ≡ true
  unfolding fx_status
  fx_status_tracked engine w k =
      status_all_tracked (keys engine.tasks) engine w k (elim (key_or_none engine.tasks k) [
        | inl lost ↦ inl (λ c tracked known. absurd (tracked lost))
        | inr listed ↦ inr listed
      ])
