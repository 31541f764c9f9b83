-- ===== src/Qemu/Manager/Ends/Drained.antt =====
-- What the metadata holds when the reports of the workers are drained.
use becky.Base.{
  ℕ, ◌+◌, ◌≡◌, refl, ◌∙◌, ap, subst, List, [], ◌∷◌, Option, none, some, Eq, Map, get, ◌==◌,
  if◌then◌else◌, Result, ok, err, both_of_bind, catch, length, arith, map_err,
}
use becky.State.{FxExecutionState}
use becky.Qemu.Errors.{CreateError}
use becky.Qemu.Events.{QemuWorkerEvent}
use becky.Qemu.Manager.{QemuHost, QemuManager}
use becky.Qemu.Manager.Ends.{drain_worker_events, drain, persist_event, upsert_known, runtime_pid}

-- The state that the last of some events about a machine reports.
abbrev pub last_state :
    {K : Type 0} ⦃e : Eq K⦄
    → List (QemuWorkerEvent K)
    → K
    → Option FxExecutionState
    → Option FxExecutionState
last_state [] k state = state
last_state (event ∷ events) k state =
    last_state events k (if event.fx_id == k then some event.state else state)

-- The state that is on record for a machine, and which calls change it.
pub record RecordsStates {K Q W : Type 0} (host : QemuHost K Q W)
    (recorded : K → W → Option FxExecutionState) : Type 0 where
  pub updated :
      (k : K) (state : FxExecutionState) (w : W)
      → (host.state_update k state w).0 ≡ ok tt
      → recorded k (host.state_update k state w).1 ≡ some state
  pub other_kept :
      (k i : K) (state : FxExecutionState) (w : W)
      → ¬ (k ≡ i)
      → recorded i (host.state_update k state w).1 ≡ recorded i w
  pub upsert_kept :
      (k i : K) (qemu : Q) (pid : Option ℕ) (w : W)
      → recorded i (host.record_upsert k qemu pid w).1 ≡ recorded i w
  pub read_kept : (i : K) (vm : ℕ) (w : W) → recorded i (host.read_instance vm w).1 ≡ recorded i w

module _ {K Q W : Type 0} ⦃e : Eq K⦄ (host : QemuHost K Q W)
    (recorded : K → W → Option FxExecutionState) (laws : RecordsStates host recorded) where
  upsert_known_kept :
      (k i : K) (state : FxExecutionState) (vm : Option ℕ) (w : W)
      → recorded i (upsert_known host k state vm w).1 ≡ recorded i w
  unfolding upsert_known
  upsert_known_kept k i state none w = refl
  upsert_known_kept k i state (some vm) w =
      let (shared, w') = host.read_instance vm w in
      laws.upsert_kept k i shared.qemu (runtime_pid host state) w' ∙ laws.read_kept i vm w

  map_err_ok : {E F A : Type 0} (f : E → F) (r : Result E A) (a : A) → map_err f r ≡ ok a → r ≡ ok a
  map_err_ok f (ok b) a h = ground arith
  map_err_ok f (err x) a h = absurd (ground arith)

  recorded-persist_event :
      (vms : Map K ℕ) (event : QemuWorkerEvent K) (w : W) (k : K)
      → (persist_event host vms event w).0 ≡ ok tt
      → recorded k (persist_event host vms event w).1
        ≡ (if event.fx_id == k then some event.state else recorded k w)
  unfolding persist_event
  recorded-persist_event vms event w k h =
      let update = catch CreateError.metadata (host.state_update event.fx_id event.state) in
      let rest =
        λ (_ : Unit {0}). upsert_known host event.fx_id event.state (get vms event.fx_id) in
      let (_, first, second, same) = both_of_bind update rest w tt h in
      let first' =
        map_err_ok CreateError.metadata (host.state_update event.fx_id event.state w).0 tt first in
      ap (λ r. recorded k r.1) same
      ∙ upsert_known_kept event.fx_id k event.state (get vms event.fx_id) _
      ∙ elim (e.dec event.fx_id k) [
        | yes is ↦
            subst
              (λ i. recorded i (host.state_update event.fx_id event.state w).1 ≡ some event.state)
              is (laws.updated event.fx_id event.state w first')
            ∙ ground arith
        | no ne ↦ laws.other_kept event.fx_id k event.state w ne ∙ ground arith
      ]

  drain-recorded :
      (vms : Map K ℕ) (n : ℕ) (events : List (QemuWorkerEvent K)) (w : W) (k : K) (updated : ℕ)
      → (drain host vms n events w).0 ≡ ok updated
      → (updated ≡ n + length events)
        × (recorded k (drain host vms n events w).1 ≡ last_state events k (recorded k w))
  unfolding drain
  drain-recorded vms n [] w k updated h = (ground arith, refl)
  drain-recorded vms n (event ∷ events) w k updated h =
      let rest = λ (_ : Unit {0}). drain host vms (n + 1) events in
      let (_, first, second, same) = both_of_bind (persist_event host vms event) rest w updated h in
      let (count, states) = drain-recorded vms (n + 1) events _ k updated second in
      (
        ground (arith, count),
        ap (λ r. recorded k r.1) same
            ∙ states
            ∙ ap (last_state events k) (recorded-persist_event vms event w k first),
      )

  -- If the metadata manager records what it is told, a drain that succeeds reports how many events
  -- it took, and leaves on record for every machine the state of its last event, if it had one.
  pub drain_last_state :
      (events : List (QemuWorkerEvent K)) (m : QemuManager K) (w : W) (k : K) (updated : ℕ)
      → (drain_worker_events host events (m, w)).0 ≡ ok updated
      → (updated ≡ length events)
        × (recorded k (drain_worker_events host events (m, w)).1.1
            ≡ last_state events k (recorded k w))
  unfolding drain_worker_events
  drain_last_state events m w k updated h =
      let (count, states) = drain-recorded m.vms 0 events w k updated h in
      (omega (arith, count), states)
