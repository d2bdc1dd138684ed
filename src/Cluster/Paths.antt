-- ===== src/Cluster/Paths.antt =====
-- What cluster.py takes from `pathlib`: a path as its root and its parts.
use gemma_4_31b_mtp_v_llm_se.Prelude.{
  String, Bool, false, not, ◌&&◌, ◌||◌, Option, none, some, List, [], ◌∷◌, ◌==◌, is_empty,
  if◌then◌else◌,
}
use gemma_4_31b_mtp_v_llm_se.Prelude.Text.{codes, starts_with}
use gemma_4_31b_mtp_v_llm_se.Cluster.Serial.{join}
use Prim.Native.Char.{code}
use Prim.Native.String.{◌++◌ as ◌<>◌}
use text.Mathlib.Text.{◌==◌ as str_eq}

-- The pieces between the slashes
unfoldable pub split_slashes : String → List String
split_slashes String.[] = "" ∷ []
split_slashes (String.◌∷◌ c s) = elim (split_slashes s) [
  | [] ↦ []
  | piece ∷ pieces ↦ if code c == b'/' then "" ∷ piece ∷ pieces else String.◌∷◌ c piece ∷ pieces
]

-- The parts of a `PurePosixPath`: without the empty pieces and the single dots
unfoldable pub path_parts : List String → List String
path_parts [] = []
path_parts (piece ∷ pieces) =
    let rest = path_parts pieces in
    if is_empty (codes piece) || str_eq piece "." then rest else piece ∷ rest

-- A path starts at the root by one slash or by three and more; two slashes are kept.
unfoldable pub path_root : String → String
unfolding starts_with
path_root path =
    if starts_with (codes path) (codes "//") && not (starts_with (codes path) (codes "///"))
    then "//"
    else if starts_with (codes path) (codes "/")
    then "/"
    else ""

-- All parts but the last, and the last
unfoldable pub all_but_last : List String → List String
all_but_last [] = []
all_but_last (part ∷ []) = []
all_but_last (part ∷ next ∷ parts) = part ∷ all_but_last (next ∷ parts)

unfoldable pub last_part : List String → String
last_part [] = ""
last_part (part ∷ []) = part
last_part (part ∷ next ∷ parts) = last_part (next ∷ parts)

-- `str(path)`
unfoldable pub path_text : String → List String → String
unfolding join
path_text root parts =
    let text = root <> join "/" parts in if is_empty (codes text) then "." else text

-- The text before its last dot, where there is a dot
unfoldable pub before_last_dot : String → Option String
before_last_dot String.[] = none
before_last_dot (String.◌∷◌ c s) = elim (before_last_dot s) [
  | some before ↦ some (String.◌∷◌ c before)
  | none ↦ if code c == b'.' then some "" else none
]

abbrev ends_in_dot : String → Bool
ends_in_dot text = elim text [
  | String.[] ↦ false
  | String.◌∷◌ c (s → ends) ↦ if is_empty (codes s) then code c == b'.' else ends
]

-- `path.stem` for the last part: what stands before the last dot, if that is neither at the start
-- nor at the end
unfoldable pub stem_of : String → String
unfolding before_last_dot
stem_of name = elim (before_last_dot name) [
  | none ↦ name
  | some before ↦ if is_empty (codes before) || ends_in_dot name then name else before
]

-- `text.rstrip("/")`
unfoldable pub rstrip_slashes : String → String
rstrip_slashes String.[] = ""
rstrip_slashes (String.◌∷◌ c s) =
    let rest = rstrip_slashes s in
    if code c == b'/' && is_empty (codes rest) then "" else String.◌∷◌ c rest
