-- ===== src/RustFn/Exit/Waits.antt =====
-- The rounds and the answer of the wait for a worker's end.
use becky.Base.{ℕ, zero, suc, ◌+◌, ◌-◌, ◌*◌, ◌≤◌, ◌≡◌, ◌⊎◌, inl, inr, arith, Bool-cases}
use becky.Base.{true, false, leb, Result, ok, err, ◌/◌}
use becky.Runtime.{Runtime}
use becky.Runtime.Time.{clock, KeepsTime}
use becky.SystemCommand.Signals.{process_exists}
use becky.RustFn.{RustFnError, stop_timeout}
use becky.RustFn.Exit.{poll_exit, exit_rounds, exit_poll_interval, wait_for_process_exit}

module _ {W M : Type 0} (rt : Runtime W M) where
  -- The host after one more look and pause of the wait.
  abbrev pub next_look : ℕ → W → W
  next_look pid w = rt.os.sleep exit_poll_interval (rt.now (process_exists rt.os pid w).1).1

  -- A run of the loop as it is written, with no bound on its rounds, by the pauses that it makes: it
  -- ends when the process is gone or the time is over, and else it pauses and goes on.
  pub data Loop (pid start timeout : ℕ) : ℕ → W → Result RustFnError (Unit {0}) × W → Type 0 where
    ends_gone :
        (w : W)
        → (process_exists rt.os pid w).0 ≡ false
        → Loop pid start timeout 0 w (ok tt, (process_exists rt.os pid w).1)
    ends_late :
        (w : W)
        → (process_exists rt.os pid w).0 ≡ true
        → leb timeout ((rt.now (process_exists rt.os pid w).1).0 - start) ≡ true
        → Loop pid start timeout 0 w
            (err (stop_timeout pid timeout), (rt.now (process_exists rt.os pid w).1).1)
    goes_on :
        (w : W) {looks : ℕ} {end : Result RustFnError (Unit {0}) × W}
        → (process_exists rt.os pid w).0 ≡ true
        → leb timeout ((rt.now (process_exists rt.os pid w).1).0 - start) ≡ false
        → Loop pid start timeout looks (next_look pid w) end
        → Loop pid start timeout (suc looks) w end

module _ {W M : Type 0} (rt : Runtime W M) (L : KeepsTime rt) where
  looks_later : (pid : ℕ) (w : W) → clock rt w ≤ clock rt (process_exists rt.os pid w).1
  unfolding process_exists
  looks_later pid w = L.new_all_later w

  round_later :
      (pid : ℕ) (w : W)
      → clock rt w + exit_poll_interval
        ≤ clock rt (rt.os.sleep exit_poll_interval (rt.now (process_exists rt.os pid w).1).1)
  round_later pid w = omega (
    arith,
    looks_later pid w,
    L.now_later (process_exists rt.os pid w).1,
    L.sleep_later exit_poll_interval (rt.now (process_exists rt.os pid w).1).1,
  )

  -- A run of the loop that has as many pauses left as its rounds ends as the rounds say.
  poll_exit_runs :
      (n pid start timeout : ℕ) (w : W)
      → start + timeout ≤ clock rt w + exit_poll_interval * n
      → (looks : ℕ) × (looks ≤ n)
        × Loop rt pid start timeout looks w (poll_exit rt n pid start timeout w)
  unfolding poll_exit
  poll_exit_runs zero pid start timeout w h = elim (Bool-cases (process_exists rt.os pid w).0) [
    | inr gone ↦ (0, omega arith, rw (gone, poll_exit) (Loop.ends_gone w gone))
    | inl alive ↦
        let late : leb timeout ((rt.now (process_exists rt.os pid w).1).0 - start) ≡ true =
          grind (arith, looks_later pid w) in
        (0, omega arith, rw (alive, poll_exit) (Loop.ends_late w alive late))
  ]
  poll_exit_runs (suc n) pid start timeout w h = elim (Bool-cases (process_exists rt.os pid w).0) [
    | inr gone ↦ (0, omega arith, rw (gone, poll_exit) (Loop.ends_gone w gone))
    | inl alive ↦
        elim (Bool-cases (leb timeout ((rt.now (process_exists rt.os pid w).1).0 - start))) [
          | inl late ↦ (0, omega arith, rw (alive, late, poll_exit) (Loop.ends_late w alive late))
          | inr early ↦
              let (looks, le, run) =
                poll_exit_runs n pid start timeout (next_look rt pid w)
                  (omega (arith, round_later pid w)) in
              (
                suc looks,
                omega arith,
                rw (alive, early, poll_exit) (Loop.goes_on w alive early run),
              )
        ]
  ]

  -- If the clock is not turned back, and a pause takes its time, then the loop of the wait, which the
  -- source bounds by its clock alone, ends: after at most as many pauses as the timeout holds, and one
  -- more, with the result and on the host that the wait has.
  pub wait_for_process_exit_runs :
      (pid timeout : ℕ) (w : W)
      → (looks : ℕ) × (looks ≤ timeout / exit_poll_interval + 1)
        × Loop rt pid
            (rt.now w).0
            timeout
            looks
            (rt.now w).1
            (wait_for_process_exit rt pid timeout w)
  unfolding wait_for_process_exit
  wait_for_process_exit_runs pid timeout w =
      poll_exit_runs (exit_rounds timeout) pid (rt.now w).0 timeout (rt.now w).1
        (omega (arith, L.now_later w))

module _ {W M : Type 0} (rt : Runtime W M) where
  -- The host before each look of the wait.
  abbrev pub look_of : ℕ → ℕ → W → W
  look_of pid zero w = w
  look_of pid (suc k) w = look_of pid k (next_look rt pid w)

  poll_exit_answers :
      (n pid start timeout : ℕ) (w : W)
      → (((poll_exit rt n pid start timeout w).0 ≡ ok tt)
          × ((k : ℕ) × (k ≤ n)
              × ((process_exists rt.os pid (look_of pid k w)).0 ≡ false)
              × ((poll_exit rt n pid start timeout w).1
                  ≡ (process_exists rt.os pid (look_of pid k w)).1)))
        ⊎ ((poll_exit rt n pid start timeout w).0 ≡ err (stop_timeout pid timeout))
  unfolding poll_exit
  poll_exit_answers zero pid start timeout w = elim (Bool-cases (process_exists rt.os pid w).0) [
    | inl alive ↦ inr (ground arith)
    | inr gone ↦ inl (ground arith, (0, omega arith, gone, ground arith))
  ]
  poll_exit_answers (suc n) pid start timeout w = elim (Bool-cases (process_exists rt.os pid w).0) [
    | inl alive ↦
        elim (Bool-cases (leb timeout ((rt.now (process_exists rt.os pid w).1).0 - start))) [
          | inl late ↦ inr (ground arith)
          | inr early ↦ elim (poll_exit_answers n pid start timeout (next_look rt pid w)) [
            | inl (o, (k, le, gone, same)) ↦
                inl (ground arith, (suc k, omega arith, gone, ground arith))
            | inr e ↦ inr (ground arith)
          ]
        ]
    | inr gone ↦ inl (ground arith, (0, omega arith, gone, ground arith))
  ]

  -- A wait that succeeds ends with a look that finds no such process, and one that fails reports
  -- the pid and the timeout.
  pub wait_for_process_exit_gone :
      (pid timeout : ℕ) (w : W)
      → (((wait_for_process_exit rt pid timeout w).0 ≡ ok tt)
          × ((v : W) × ((process_exists rt.os pid v).0 ≡ false)
              × ((wait_for_process_exit rt pid timeout w).1 ≡ (process_exists rt.os pid v).1)))
        ⊎ ((wait_for_process_exit rt pid timeout w).0 ≡ err (stop_timeout pid timeout))
  unfolding wait_for_process_exit
  wait_for_process_exit_gone pid timeout w =
      elim (poll_exit_answers (exit_rounds timeout) pid (rt.now w).0 timeout (rt.now w).1) [
        | inl (o, (k, le, gone, same)) ↦ inl (o, (_, gone, same))
        | inr e ↦ inr e
      ]
