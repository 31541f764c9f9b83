-- ===== src/Runtime/Time.antt =====
-- How the clock moves: a pause takes its time, and no other call turns it back.
use becky.Base.{ℕ, ◌+◌, ◌≤◌}
use becky.Runtime.{Runtime}

module _ {W M : Type 0} (rt : Runtime W M) where
  abbrev pub clock : W → ℕ
  clock w = (rt.now w).0

  pub record KeepsTime : Type 0 where
    pub now_later : (w : W) → clock w ≤ clock (rt.now w).1
    pub new_all_later : (w : W) → clock w ≤ clock (rt.os.new_all w).1
    pub sleep_later : (ms : ℕ) (w : W) → clock w + ms ≤ clock (rt.os.sleep ms w)
