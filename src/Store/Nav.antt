-- ===== src/Store/Nav.antt =====
-- `insertIntoMap`, `removeFromMap`, `Get`, `GetSection` and `Root` of internal/store/store.go.
-- The loops that move a pointer down the tree and write through it are recursions that rebuild it.
pub mod View
pub mod Insert
pub mod Remove
use red_engine.Prelude.{
  Bool, true, false, Option, none, some, List, [], ◌∷◌, ◌++◌, if◌then◌else◌, ◌>>=◌, find, get_or,
}
use red_engine.Text.{Text, text, ◌==◌, trim_prefix, split, join}
use red_engine.Store.{
  Article, Section, section, Sections, nil, entry, articles, sub, set_articles, set_sub, lookup,
  put, remove_key,
}

abbrev pub slash : Text
slash = text "/"

abbrev pub root : Text
root = text "root"

-- strings.Split(path, "/")
abbrev pub split_path : Text → List Text
split_path = split b'/'

-- a new section, with no articles, sub-sections or .meta files
abbrev pub new_section : Text → Text → Section
new_section n path = section n path [] nil false false

-- sec.Articles = append(sec.Articles, art)
abbrev pub append_article : Article → Section → Section
append_article art sec = set_articles (articles sec ++ art ∷ []) sec

-- From `sec` at the path `path_so_far`, down to the section that holds the last part.
unfoldable pub insert_below : Section → Text → List Text → Article → Section
insert_below sec path_so_far [] art = sec
insert_below sec path_so_far (_ ∷ []) art = append_article art sec
insert_below sec path_so_far (sub_name ∷ next ∷ rest) art =
    let path = path_so_far ++ slash ++ sub_name in
    let child = get_or (lookup sub_name (sub sec)) (new_section sub_name path) in
    set_sub (put sub_name (insert_below child path (next ∷ rest) art) (sub sec)) sec

unfoldable pub insert_into_map : Sections → List Text → Article → Sections
insert_into_map nav [] art = nav
insert_into_map nav (_ ∷ []) art =
    put root (append_article art (get_or (lookup root nav) (new_section root slash))) nav
insert_into_map nav (sec_name ∷ next ∷ rest) art =
    let path = slash ++ sec_name in
    let sec = get_or (lookup sec_name nav) (new_section sec_name path) in
    put sec_name (insert_below sec path (next ∷ rest) art) nav

-- append(a[:i], a[i+1:]...) at the first article with the path
unfoldable pub remove_first : Text → List Article → List Article
remove_first path [] = []
remove_first path (a ∷ l) = if a.path == path then l else a ∷ remove_first path l

-- `none` where a sub-section on the way is missing.
unfoldable pub remove_below : Section → List Text → Text → Option Section
unfolding remove_first
remove_below sec [] path = some sec
remove_below sec (_ ∷ []) path = some (set_articles (remove_first path (articles sec)) sec)
remove_below sec (sub_name ∷ next ∷ rest) path = do
  child ← lookup sub_name (sub sec)
  child' ← remove_below child (next ∷ rest) path
  some (set_sub (put sub_name child' (sub sec)) sec)

abbrev pub is_empty : Section → Bool
is_empty (section n p [] nil c i) = true
is_empty (section n p [] (entry k s m) c i) = false
is_empty (section n p (a ∷ l) s c i) = false

-- The section goes back, or its key goes where it has neither articles nor sub-sections.
abbrev pub prune : Text → Option Section → Sections → Sections
prune k none nav = nav
prune k (some sec) nav = if is_empty sec then remove_key k nav else put k sec nav

unfoldable pub remove_from_map : Sections → List Text → Sections
unfolding remove_below
remove_from_map nav [] = nav
remove_from_map nav (part ∷ []) =
    let path = slash ++ join slash (part ∷ []) in
    prune root (do sec ← lookup root nav; remove_below sec (part ∷ []) path) nav
remove_from_map nav (top_name ∷ next ∷ rest) =
    let path = slash ++ join slash (top_name ∷ next ∷ rest) in
    prune top_name (do sec ← lookup top_name nav; remove_below sec (next ∷ rest) path) nav

-- for _, a := range articles { if a.Path == path { return a } }
abbrev pub find_article : Text → List Article → Option Article
find_article path = find (λ a. a.path == path)

unfoldable pub get_below : Section → List Text → Text → Option Article
get_below sec [] path = none
get_below sec (_ ∷ []) path = find_article path (articles sec)
get_below sec (sub_name ∷ next ∷ rest) path = do
  child ← lookup sub_name (sub sec)
  get_below child (next ∷ rest) path

unfoldable pub get_parts : Sections → List Text → Text → Option Article
unfolding get_below
get_parts nav [] path = none
get_parts nav (part ∷ []) path = do sec ← lookup root nav; get_below sec (part ∷ []) path
get_parts nav (top_name ∷ next ∷ rest) path = do
  sec ← lookup top_name nav
  get_below sec (next ∷ rest) path

unfoldable pub get : Sections → Text → Option Article
unfolding get_parts
get nav path = let p = trim_prefix path slash in get_parts nav (split_path p) (slash ++ p)

-- `GetSection`, from a section down the rest of the parts.
unfoldable pub section_below : Section → List Text → Option Section
section_below sec [] = some sec
section_below sec (sub_name ∷ rest) = do child ← lookup sub_name (sub sec); section_below child rest

section_of_parts : Sections → List Text → Option Section
section_of_parts nav [] = none
section_of_parts nav (part ∷ rest) = do sec ← lookup part nav; section_below sec rest

unfoldable pub get_section : Sections → Text → Option Section
unfolding section_of_parts section_below
get_section nav path = section_of_parts nav (split_path (trim_prefix path slash))
