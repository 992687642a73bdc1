-- ===== src/Router/Pages.antt =====
-- `serve`, `findSiblings` and `buildCrumbs` of internal/router/serve.go, up to the templates that
-- print what they found.
pub mod Siblings
use red_engine.Prelude.{
  ℕ, ◌-◌, ◌≡◌, Bool, true, false, not, ◌&&◌, ◌||◌, Option, none, some, List, [], ◌∷◌, ◌++◌, map,
  any, length, ltb, leb, eqb, if◌then◌else◌, or_else, is_some,
}
use red_engine.Text.{
  Text, text, ◌==◌, has_prefix, has_suffix, trim_prefix, trim_suffix, trim_byte, replace_all, split,
  join,
}
use red_engine.Registry.{Registry}
use red_engine.Registry.Settings.{get_setting}
use red_engine.Store.{VerificationState, Article, Section, section, Sections, articles, remove_key}
use red_engine.Store.Nav.{slash, root, split_path, get, get_section}
use red_engine.Store.Verify.{last_part}
use red_engine.Router.Files.{all_but_last}

-- The first letter in upper case, after dashes and underscores became spaces.
abbrev pub capitalize : Text → Text
capitalize s = elim (map (λ c. if eqb c b'-' || eqb c b'_' then b' ' else c) s) [
  | [] ↦ []
  | c ∷ rest ↦ (if leb b'a' c && leb c b'z' then c - 32 else c) ∷ rest
]

-- models.Crumb
pub record Crumb : Type 0 where
  pub label : Text
  pub path : Text

unfoldable pub crumbs_from : Text → List Text → List Crumb
crumbs_from path [] = []
crumbs_from path (p ∷ parts) =
    let path' = path ++ (slash ++ p) in
    record { label = capitalize p; path = path' } ∷ crumbs_from path' parts

abbrev pub build_crumbs : List Text → List Crumb
build_crumbs = crumbs_from []

abbrev pub Siblings : Type 0
Siblings = Option Article × Option Article

-- The neighbours of the first article with the path; `prev` is the article before the list.
unfoldable pub siblings_in : Option Article → Text → List Article → Siblings
siblings_in prev path [] = (none, none)
siblings_in prev path (a ∷ arts) =
    let rest = siblings_in (some a) path arts in
    if a.path == path then (prev, elim arts [ [] ↦ none | next ∷ _ ↦ some next ]) else rest

unfoldable pub find_siblings : Sections → Text → List Text → Siblings
unfolding siblings_in
find_siblings nav path parts =
    if ltb (length parts) 2
    then (none, none)
    else elim (get_section nav (slash ++ join slash (all_but_last parts))) [
      | none ↦ (none, none)
      | some sec ↦ siblings_in none path (articles sec)
    ]

-- strings.Split(strings.Trim(path, "/"), "/")
abbrev pub segments : Text → List Text
segments path = split_path (trim_byte b'/' path)

unfoldable pub is_hidden : Text → Bool
is_hidden path = any (λ seg. has_prefix seg (text ".")) (segments path)

-- The article at the path, or at the path without ".md".
unfoldable pub find_article : Sections → Text → Option Article
find_article nav path =
    or_else (get nav path)
      (if has_suffix path (text ".md") then get nav (trim_suffix path (text ".md")) else none)

abbrev pub site_name : Registry → Text
site_name registry =
    let s = get_setting (text "site_name") registry in if s == [] then text "RED Engine" else s

pub data Page : Type 0 where
  not_found : Page
  article_page : Article → List Crumb → Siblings → Page
  -- main.html and sub1.html, with the title and the crumbs
  main_hub sub_hub : Section → Text → List Crumb → Page

-- TemplateSwitchDepth, 2 where it is not set; a negative number is given as 0.
abbrev pub switch_depth_or_two : ℕ → ℕ
switch_depth_or_two n = if eqb n 0 then 2 else n

abbrev hub : ℕ → ℕ → Section → Text → List Crumb → Page
hub depth switch_depth sec title crumbs =
    if ltb depth switch_depth then main_hub sec title crumbs else sub_hub sec title crumbs

-- The page of "/": the top-level sections but the one that holds the articles at the top.
abbrev pub root_page : Sections → Registry → ℕ → Page
root_page nav registry switch_depth =
    let site = site_name registry in
    hub 0 (switch_depth_or_two switch_depth)
      (section site slash [] (remove_key root nav) false false) site []

unfoldable pub serve : Sections → Registry → ℕ → Text → Page
serve nav registry switch_depth path =
    let parts = segments path in
    if path == slash
    then root_page nav registry switch_depth
    else if is_hidden path
    then not_found
    else elim (find_article nav path) [
      | some art ↦ article_page art (build_crumbs parts) (find_siblings nav path parts)
      | none ↦ elim (get_section nav path) [
        | none ↦ not_found
        | some sec ↦
            hub (length parts) (switch_depth_or_two switch_depth) sec (capitalize (last_part parts))
              (build_crumbs parts)
      ]
    ]
