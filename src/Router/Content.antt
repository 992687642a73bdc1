-- ===== src/Router/Content.antt =====
-- `contentAPI` of internal/router/serve.go, up to the JSON that prints what it found.
pub mod Reported
use red_engine.Prelude.{
  ℕ, ◌-◌, ◌≡◌, Bool, true, false, not, ◌&&◌, ◌||◌, Option, none, some, List, [], ◌∷◌, ◌++◌, map,
  any, length, ltb, leb, eqb, if◌then◌else◌, or_else, is_some,
}
use red_engine.Text.{
  Text, text, ◌==◌, has_prefix, has_suffix, trim_prefix, trim_suffix, trim_byte, replace_all, split,
  join,
}
use red_engine.Registry.{Registry}
use red_engine.Registry.Settings.{get_setting}
use red_engine.Store.{VerificationState, Article, Section, section, Sections, articles, remove_key}
use red_engine.Store.Nav.{slash, root, split_path, get, get_section}
use red_engine.Store.Verify.{last_part}
use red_engine.Router.Files.{all_but_last}
use red_engine.Router.Pages.{
  Crumb, build_crumbs, capitalize, find_siblings, segments, is_hidden, find_article,
}

pub record ContentResponse : Type 0 where
  pub title : Text
  pub body_html : Text
  pub verification_state : VerificationState
  pub author : Text
  pub hash : Text
  pub crumb : List Crumb
  pub prev_article : Option Article
  pub next_article : Option Article
  pub is_directory : Bool

pub data Content : Type 0 where
  -- a status 400 or 404
  refused : ℕ → Content
  -- an index out of range
  panicked : Content
  content : ContentResponse → Content

abbrev pub red_knowledge : Text
red_knowledge = text "RED_KNOWLEDGE"

-- The body with the assets of its folder under their absolute URLs.
abbrev rewritten : Article → Text
rewritten art =
    let dir_path = join slash (all_but_last (split_path (trim_prefix art.path slash))) in
    if dir_path == []
    then art.body
    else replace_all (text "src=\".assets/") (text "src=\"/-/assets/" ++ (dir_path ++ slash))
        art.body

-- pathParts of `contentAPI`
abbrev pub path_parts : Text → List Text
path_parts path = if path == slash then [] else segments path

abbrev respond : Sections → Text → Bool → Article → Text → Content
respond nav path is_directory art title =
    let (prev, next) = find_siblings nav art.path (split_path (trim_prefix art.path slash)) in
    content (record {
      title = title;
      body_html = rewritten art;
      verification_state = art.verification_state;
      author = art.author;
      hash = art.hash;
      crumb = build_crumbs (path_parts path);
      prev_article = prev;
      next_article = next;
      is_directory = is_directory;
    })

-- The title of a folder's article without a title of its own is that of the folder.
unfoldable pub describe : Sections → Text → Bool → Article → Content
describe nav path is_directory art =
    if is_directory && (art.title == red_knowledge || art.title == [])
    then elim (path_parts path) [
      | [] ↦ panicked
      | p ∷ ps ↦ respond nav path is_directory art (capitalize (last_part (p ∷ ps)))
    ]
    else respond nav path is_directory art art.title

unfoldable pub content_at : Sections → Text → Content
content_at nav path = if is_hidden path then refused 404 else elim (find_article nav path) [
  | some art ↦ describe nav path false art
  | none ↦ elim (get nav (path ++ (slash ++ red_knowledge))) [
    | some art ↦ describe nav path true art
    | none ↦ refused 404
  ]
]

unfoldable pub content_api : Sections → Text → Content
unfolding content_at
content_api nav path =
    if path == []
    then refused 400
    else content_at nav (if has_prefix path slash then path else slash ++ path)
