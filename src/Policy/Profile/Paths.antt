-- ===== src/Policy/Profile/Paths.antt =====
-- A path that `_is_safe_relative_path` accepts stays below the directory that it is joined to.
use acgps_public.Prelude.{◌≡◌, refl, String, true, false, ◌||◌, List, [], ◌∷◌, arith, ◌==◌, mem}
use acgps_public.Py.Text.{split_on, has_char}
use acgps_public.Policy.Profile.{is_safe_relative_path, no_part_in}

abbrev up : List String → List String
up [] = []
up (name ∷ names) = names

-- Where a walk along the parts leads from a directory, the innermost name first: `..` goes up, `.`
-- and an empty part stay.
pub walk : List String → List String → List String
walk here [] = here
walk here (part ∷ parts) = elim (part == "..") [
  | true ↦ walk (up here) parts
  | false ↦ elim (part == "." || part == "") [
    | true ↦ walk here parts
    | false ↦ walk (part ∷ here) parts
  ]
]

-- The names below a directory, innermost first.
pub enter : List String → List String → List String
enter here [] = here
enter here (part ∷ parts) = enter (part ∷ here) parts

walk-eq-enter :
    (parts here : List String)
    → no_part_in ("" ∷ "." ∷ ".." ∷ []) parts ≡ true
    → walk here parts ≡ enter here parts
unfolding no_part_in mem walk enter
walk-eq-enter [] here h = refl
walk-eq-enter (part ∷ parts) here h = ground (arith, walk-eq-enter parts (part ∷ here))

-- From every directory, an accepted path leads down through its own parts and never up, and it
-- holds no backslash.
pub is_safe_relative_path-enter :
    (path : String) (here : List String)
    → is_safe_relative_path path ≡ true
    → (walk here (split_on 47 path) ≡ enter here (split_on 47 path)) × (has_char 92 path ≡ false)
unfolding is_safe_relative_path
is_safe_relative_path-enter path here h =
    (walk-eq-enter (split_on 47 path) here (ground arith), ground arith)
