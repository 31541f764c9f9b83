-- ===== src/RustFn/Worker/Found.antt =====
-- Which processes count as a worker.
use becky.Base.{◌≡◌, refl, ap, ◌↔◌, arith, List, [], ◌∷◌, ◌++◌, true, list_eq, map, Bool-cases}
use becky.Base.{inl, inr, ==-self}
use becky.Text.{Text}
use becky.Os.{OsString, utf8, invalid, eq_str}
use becky.RustFn.{FxRustFn}
use becky.RustFn.Worker.{worker_args, process_cmd_contains_worker}

-- The marker stands in the command line, and the name of the function behind it.
abbrev pub IsWorkerLine : List OsString → Text → Text → Type 0
IsWorkerLine cmd m f =
    (before : List OsString) × (after : List OsString) × (cmd ≡ before ++ utf8 m ∷ utf8 f ∷ after)

eq_str_sound : (s : Text) (o : OsString) → eq_str s o ≡ true → o ≡ utf8 s
unfolding list_eq
eq_str_sound s (utf8 t) h = ground arith
eq_str_sound s (invalid t) h = cc

one_later :
    {cmd : List OsString} {m f : Text} (a : OsString)
    → IsWorkerLine cmd m f
    → IsWorkerLine (a ∷ cmd) m f
one_later a (before, after, e) = (a ∷ before, after, ap (λ cmd. a ∷ cmd) e)

contains_sound :
    (cmd : List OsString) (m f : Text)
    → process_cmd_contains_worker cmd m f ≡ true
    → IsWorkerLine cmd m f
unfolding process_cmd_contains_worker
contains_sound [] m f h = cc
contains_sound (a ∷ []) m f h = cc
contains_sound (a ∷ b ∷ cmd) m f h = elim (Bool-cases (eq_str m a)) [
  | inl ea ↦ elim (Bool-cases (eq_str f b)) [
    | inl eb ↦ ([], cmd, rw (eq_str_sound m a ea, eq_str_sound f b eb) refl)
    | inr nb ↦ one_later a (contains_sound (b ∷ cmd) m f (ground arith))
  ]
  | inr na ↦ one_later a (contains_sound (b ∷ cmd) m f (ground arith))
]

contains_complete :
    (before after : List OsString) (m f : Text)
    → process_cmd_contains_worker (before ++ utf8 m ∷ utf8 f ∷ after) m f ≡ true
unfolding process_cmd_contains_worker
contains_complete [] after m f = ground (arith, ==-self m, ==-self f)
contains_complete (a ∷ []) after m f = ground (arith, contains_complete [] after m f)
contains_complete (a ∷ b ∷ before) after m f =
    ground (arith, contains_complete (b ∷ before) after m f)

-- A process is taken for the worker exactly when the marker and the function's name stand side by
-- side, in this order, somewhere in its command line.
pub process_cmd_contains_worker_iff :
    (cmd : List OsString) (m f : Text)
    → (process_cmd_contains_worker cmd m f ≡ true) ↔ IsWorkerLine cmd m f
process_cmd_contains_worker_iff cmd m f =
    (contains_sound cmd m f, λ (before, after, e). rw e (contains_complete before after m f))

-- A process that was spawned as the worker of `c` is taken for it.
pub contains_worker-worker_args :
    (c : FxRustFn) (exe : Text)
    → process_cmd_contains_worker (map utf8 (exe ∷ worker_args c)) c.worker_arg c.function ≡ true
unfolding worker_args
contains_worker-worker_args c exe =
    contains_complete (utf8 exe ∷ []) (map utf8 c.args) c.worker_arg c.function
