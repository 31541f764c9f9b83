-- ===== src/RustFn/Registry.antt =====
-- The registry of functions, and the dispatch of a worker's arguments.
pub mod Dispatch
use becky.Base.{ℕ, suc, ◌+◌, List, [], ◌∷◌, Option, none, some, Bool, ◌==◌, list_eq, get_elem?}
use becky.Base.{drop, Result, ok, err, Action, pure, fail, if◌then◌else◌}
use becky.Text.{Text, chars}
use becky.RustFn.{RustFnContext, RustFnExit, RustFnError, missing_function_name, function_not_found}

-- A registered function acts on the host.
abbrev pub RustFn : Type 0 → Type 0
RustFn W = RustFnContext → W → RustFnExit × W

-- The map from names to functions.
abbrev pub RustFnRegistry : Type 0 → Type 0
RustFnRegistry W = List (Text × RustFn W)

-- `args.iter().position(|arg| arg == worker_arg)`
unfoldable pub position : Text → List Text → Option ℕ
unfolding list_eq
position worker_arg [] = none
position worker_arg (a ∷ args) =
    if a == worker_arg
    then some 0
    else elim (position worker_arg args) [ none ↦ none | some i ↦ some (suc i) ]

-- What is left of the user's arguments.
unfoldable pub user_args : List Text → List Text
unfolding list_eq
user_args [] = []
user_args (a ∷ args) = let rest = user_args args in if a == chars "--" then rest else a ∷ rest

module _ {W : Type 0} where
  -- `register`: a later function takes the name.
  unfoldable pub register : RustFnRegistry W → Text → RustFn W → RustFnRegistry W
  unfolding list_eq
  register [] name f = (name, f) ∷ []
  register ((n, g) ∷ rest) name f =
      let tail = register rest name f in if n == name then (name, f) ∷ rest else (n, g) ∷ tail

  unfoldable pub get : RustFnRegistry W → Text → Option (RustFn W)
  unfolding list_eq
  get [] name = none
  get ((n, g) ∷ rest) name = if n == name then some g else get rest name

  run_function : RustFnRegistry W → Text → List Text → Action W RustFnError (Option RustFnExit)
  unfolding get user_args
  run_function functions name rest w = elim (get functions name) [
    | none ↦ (err (function_not_found name), w)
    | some f ↦
        let (exit, w') = f (record { name = name; args = user_args rest }) w in (ok (some exit), w')
  ]

  run_named : RustFnRegistry W → List Text → Option Text → Action W RustFnError (Option RustFnExit)
  unfolding run_function
  run_named functions rest none = fail missing_function_name
  run_named functions rest (some name) = run_function functions name rest

  run_at : RustFnRegistry W → List Text → Option ℕ → Action W RustFnError (Option RustFnExit)
  unfolding run_named
  run_at functions args none = pure none
  run_at functions args (some marker_idx) =
      let name_idx = marker_idx + 1 in
      run_named functions (drop (name_idx + 1) args) (get_elem? args name_idx)

  unfoldable pub run_worker_from_args :
      RustFnRegistry W → List Text → Text → Action W RustFnError (Option RustFnExit)
  unfolding run_at position
  run_worker_from_args functions args worker_arg = run_at functions args (position worker_arg args)
