-- ===== src/RustFn/Registry/Dispatch.antt =====
-- When a process is a worker, and which function it then runs with which arguments.
use becky.Base.{◌≡◌, ◌≢◌, ◌↔◌, refl, arith, List, [], ◌∷◌, none, some}
use becky.Base.{list_eq, All, ok}
use becky.Text.{Text, chars}
use becky.RustFn.{FxRustFn}
use becky.RustFn.Worker.{worker_args}
use becky.RustFn.Registry.{
  RustFn, RustFnRegistry, position, user_args, register, get, run_worker_from_args, run_at,
  run_named, run_function,
}

-- No argument is the marker.
abbrev pub Unmarked : Text → List Text → Type 0
Unmarked m args = All (λ a. a ≢ m) args

position-Unmarked : (m : Text) (args : List Text) → position m args ≡ none → Unmarked m args
unfolding position
position-Unmarked m [] h = tt
position-Unmarked m (a ∷ args) h = (ground arith, position-Unmarked m args (ground arith))

position_of_Unmarked : (m : Text) (args : List Text) → Unmarked m args → position m args ≡ none
unfolding position
position_of_Unmarked m [] h = refl
position_of_Unmarked m (a ∷ args) (ha, h) = ground (arith, position_of_Unmarked m args h)

-- Arguments with no `--` among them are all passed on.
pub user_args-All : (args : List Text) → All (λ a. a ≢ chars "--") args → user_args args ≡ args
unfolding user_args
user_args-All [] h = refl
user_args-All (a ∷ args) (ha, h) = ground (arith, user_args-All args h)

module _ {W : Type 0} where
  -- Startup goes on as no worker, with the host as it was, exactly when no argument is the marker.
  pub run_worker_iff :
      (functions : RustFnRegistry W) (args : List Text) (m : Text) (w : W)
      → (run_worker_from_args functions args m w ≡ (ok none, w)) ↔ Unmarked m args
  unfolding run_worker_from_args
  run_worker_iff functions args m w =
      (λ h. position-Unmarked m args (ground arith), λ h. rw (position_of_Unmarked m args h) refl)

  -- The function that was registered last under a name is the one that is found.
  pub get-register :
      (functions : RustFnRegistry W) (name : Text) (f : RustFn W)
      → get (register functions name f) name ≡ some f
  unfolding get register
  get-register [] name f = ground arith
  get-register ((n, g) ∷ rest) name f = ground (arith, get-register rest name f)

  run_function_found :
      (functions : RustFnRegistry W) (f : RustFn W) (name : Text) (rest : List Text) (w : W)
      → get functions name ≡ some f
      → let (exit, w') = f (record { name = name; args = user_args rest }) w in
        run_function functions name rest w ≡ (ok (some exit), w')
  unfolding run_function
  run_function_found functions f name rest w h = rw (h, run_function) refl

  -- A process that is started with the arguments of a worker of `c` runs the function that was
  -- registered last under the name of `c`, with that name and with the arguments of `c` other than
  -- `--`, if the executable itself is not called like the marker.
  pub run_worker_from_args-worker_args :
      (functions : RustFnRegistry W) (f : RustFn W) (c : FxRustFn) (exe : Text) (w : W)
      → exe ≢ c.worker_arg
      → let (exit, w') = f (record { name = c.function; args = user_args c.args }) w in
        run_worker_from_args (register functions c.function f) (exe ∷ worker_args c) c.worker_arg w
        ≡ (ok (some exit), w')
  unfolding run_worker_from_args worker_args run_at run_named
  run_worker_from_args-worker_args functions f c exe w ne =
      let at_one : position c.worker_arg (exe ∷ c.worker_arg ∷ c.function ∷ c.args) ≡ some 1 =
        unfold position in ground arith in
      rw at_one (
        run_function_found (register functions c.function f) f c.function c.args w
          (get-register functions c.function f))
