-- ===== src/Go/FilePath.antt =====
-- `filepath.Clean`, `Join`, `Ext`, `Dir` and `Base` of slash-separated paths.
pub mod Suffix
pub mod Clean
pub mod Join
pub mod Below
use mathlib.Core.List.{reverse}
use red_engine.Prelude.{
  ℕ, ◌≡◌, refl, Bool, true, false, not, ◌&&◌, ◌||◌, Option, none, some, List, [], ◌∷◌, ◌++◌, arith,
  keep, eqb, if◌then◌else◌,
}
use red_engine.Text.{Text, text, ◌==◌, has_prefix, has_suffix, split, join}

abbrev pub dot : Text
dot = text "."

abbrev pub dot_dot : Text
dot_dot = text ".."

-- One element of a path that is cleaned; the result has its last element at the head. ".." takes
-- the element before it, is dropped at the root, and stays where nothing stands before it.
unfoldable pub clean_step : Bool → List Text → Text → List Text
clean_step rooted out part =
    if part == [] || part == dot
    then out
    else if part == dot_dot
    then elim out [
      | [] ↦ if rooted then [] else dot_dot ∷ []
      | last ∷ before ↦ if last == dot_dot then dot_dot ∷ last ∷ before else before
    ]
    else part ∷ out

unfoldable pub clean_parts : Bool → List Text → List Text → List Text
clean_parts rooted out [] = out
clean_parts rooted out (p ∷ ps) = clean_parts rooted (clean_step rooted out p) ps

abbrev pub slash : Text
slash = text "/"

abbrev pub is_rooted : Text → Bool
is_rooted path = has_prefix path slash

-- The elements of a cleaned path.
unfoldable pub elements : Text → List Text
unfolding clean_parts
elements path = reverse (clean_parts (is_rooted path) [] (split b'/' path))

-- The text of a cleaned path.
unfoldable pub render : Bool → List Text → Text
render rooted es =
    let body = join slash es in if rooted then slash ++ body else if body == [] then dot else body

unfoldable pub clean : Text → Text
unfolding elements render
clean path = render (is_rooted path) (elements path)

-- `filepath.Join` of two names: an empty one counts for nothing.
unfoldable pub join_path : Text → Text → Text
unfolding clean
join_path a b =
    if a == []
    then (if b == [] then [] else clean b)
    else if b == []
    then clean a
    else clean (a ++ (slash ++ b))

-- `filepath.Join` of a list: empty names count for nothing at its front, and are cleaned away behind.
unfoldable pub join_all : List Text → Text
unfolding clean
join_all [] = []
join_all (e ∷ es) = if e == [] then join_all es else clean (join slash (e ∷ es))

-- filepath.Ext(p) == ".md": the last dot of the last element begins ".md"
unfoldable pub has_ext_md : Text → Bool
has_ext_md p = has_suffix p (text ".md")

-- The bytes up to the last slash, of the reversed path.
abbrev behind_slash : Text → Text
behind_slash [] = []
behind_slash (c ∷ s) = let rest = behind_slash s in if eqb c b'/' then c ∷ s else rest

-- `filepath.Dir`
unfoldable pub dir : Text → Text
unfolding clean
dir path = clean (reverse (behind_slash (reverse path)))

-- The last element, "." where the path is empty, "/" where it has none.
unfoldable pub base : Text → Text
base path =
    if path == []
    then dot
    else elim (reverse (keep (λ p. not (p == [])) (split b'/' path))) [ [] ↦ slash | p ∷ _ ↦ p ]
