-- ===== src/Store/Search.antt =====
-- `BuildSearchIndex` of internal/store/store.go. The sub-sections of a section are walked in the
-- order of the Go map; here it is that of their insertion.
pub mod Complete
use red_engine.Prelude.{List, [], ◌∷◌, ◌++◌, map, Option, none, some, if◌then◌else◌}
use red_engine.Text.{Text, text, ◌==◌, sort}
use red_engine.Store.{Article, Section, section, Sections, nil, entry, lookup}
use red_engine.Store.Nav.{slash, root}
use red_engine.Store.Nav.View.{in_section}
use red_engine.Store.Verify.{humanized}

pub record SearchItem : Type 0 where
  pub title : Text
  pub path : Text

abbrev pub article_item : Article → SearchItem
article_item art = record { title = text "📄 " ++ art.title; path = art.path }

abbrev pub folder_item : Text → Text → SearchItem
folder_item name path = record { title = text "📁 " ++ humanized name; path = path }

unfoldable mutual
  pub walk : Section → Text → List SearchItem
  walk (section n p arts subs c i) parent_path =
      let current_path = parent_path ++ (slash ++ n) in
      let below = walk_all subs current_path in
      if n == root
      then map article_item arts
      else folder_item n current_path ∷ (map article_item arts ++ below)

  pub walk_all : Sections → Text → List SearchItem
  walk_all nil parent_path = []
  walk_all (entry k sec m) parent_path = walk sec parent_path ++ walk_all m parent_path

abbrev pub keys : Sections → List Text
keys nil = []
keys (entry k sec m) = k ∷ keys m

unfoldable pub walk_keys : Sections → List Text → List SearchItem
walk_keys nav [] = []
walk_keys nav (k ∷ ks) = in_section (lookup k nav) (λ sec. walk sec []) ++ walk_keys nav ks

unfoldable pub build_search_index : Sections → List SearchItem
unfolding walk_keys
build_search_index nav = walk_keys nav (sort (keys nav))
