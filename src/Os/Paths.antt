-- ===== src/Os/Paths.antt =====
-- Parts of a path, as `std::path` has them, for paths whose components are as `components` gives them.
use becky.Base.{
  Bool, true, false, Option, none, some, List, [], ◌∷◌, ◌++◌, ◌==◌, ◌||◌, if◌then◌else◌,
}
use becky.Base.{list_eq, nat_eq}
use becky.Text.{Text, join}
use becky.Os.{FilePath}

-- `Path::display`, of a path that is UTF-8
unfoldable pub display : FilePath → Text
unfolding join list_eq
display [] = []
display (c ∷ p) = if c == (b'/' ∷ []) then b'/' ∷ join (b'/' ∷ []) p else join (b'/' ∷ []) (c ∷ p)

is_normal : Text → Bool
unfolding list_eq
is_normal c = if c == (b'/' ∷ []) || c == (b'.' ∷ b'.' ∷ []) then false else true

-- `Path::file_name`
unfoldable pub file_name : FilePath → Option Text
unfolding is_normal
file_name [] = none
file_name (c ∷ []) = if is_normal c then some c else none
file_name (c ∷ d ∷ p) = file_name (d ∷ p)

-- What stands before the last dot, if there is one.
before_dot : Text → Option Text
unfolding nat_eq
before_dot [] = none
before_dot (c ∷ s) = elim (before_dot s) [
  | some stem ↦ some (c ∷ stem)
  | none ↦ if c == b'.' then some [] else none
]

-- A name that begins with its only dot has no extension.
stem_of : Text → Option Text → Text
stem_of name none = name
stem_of name (some []) = name
stem_of name (some (c ∷ stem)) = c ∷ stem

-- `Path::file_stem`
unfoldable pub file_stem : FilePath → Option Text
unfolding file_name before_dot stem_of
file_stem p = elim (file_name p) [ none ↦ none | some name ↦ some (stem_of name (before_dot name)) ]

-- The parts of a text between its slashes.
segments : Text → List Text
unfolding nat_eq
segments [] = [] ∷ []
segments (c ∷ s) =
    let rest = segments s in
    if c == b'/'
    then [] ∷ rest
    else elim rest [ [] ↦ (c ∷ []) ∷ [] | part ∷ parts ↦ (c ∷ part) ∷ parts ]

-- The components that they stand for: an empty part and `.` stand for none.
normal_parts : List Text → List Text
unfolding list_eq
normal_parts [] = []
normal_parts (part ∷ parts) =
    let rest = normal_parts parts in if part == [] || part == (b'.' ∷ []) then rest else part ∷ rest

-- `PathBuf::push` of a text to a path with a component: an absolute one replaces the path.
unfoldable pub push : FilePath → Text → FilePath
unfolding segments normal_parts nat_eq
push path [] = path
push path (c ∷ s) =
    let parts = normal_parts (segments (c ∷ s)) in
    if c == b'/' then (b'/' ∷ []) ∷ parts else path ++ parts
