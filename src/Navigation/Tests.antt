-- ===== src/Navigation/Tests.antt =====
-- Scans, trees and lists of a small data directory.
use mathlib.Core.List.{Perm}
use red_engine.Prelude.{
  ◌+◌, ◌≡◌, refl, ◌⊎◌, inl, inr, true, false, none, some, [], ◌∷◌, map, find, keep, All, arith,
}
use red_engine.Text.{text, ◌==◌, fields_from}
use red_engine.Navigation.{
  FolderRow, NavDb, has_path, store_folder, upsert_folder, upsert_guide, get_folder_by_id,
  set_folder_description,
}
use red_engine.Navigation.Extract.{
  extract_first_paragraph, extract_first_heading, humanize_folder, count_words,
}
use red_engine.Navigation.Valid.{IsValidNav}
use red_engine.Navigation.Upsert.{Step}
use red_engine.Navigation.Scan.{
  file, dir, Entries, nil, cons, unreadable, readable, Counts, read_failed, scan_data_directories,
  scan_vaults, scan_dir, scan_stored, md_files, index_files, index_file,
}
use red_engine.Navigation.Scan.Survey.{Covered}
use red_engine.Navigation.Scan.Whole.{scan-Step, scan-Covered, survey_vaults}
use red_engine.Navigation.Override.{get_folder_by_id-override}
use red_engine.Navigation.Tree.{node, NavNodes, get_navigation_tree}
use red_engine.Navigation.Tree.Faithful.{IsTree, get_navigation_tree-IsTree}
use red_engine.Navigation.Flat.{get_navigation_flat}
use red_engine.Navigation.Flat.Ordered.{is_under, IsSortedByPath, get_navigation_flat-perm}
use red_engine.Navigation.Aggregates.{IsCounted, scan-IsCounted}

abbrev physics : FolderRow
physics = record {
  id = 1;
  path = text "physics";
  parent_id = none;
  display_name = text "Physics";
  description = [];
  description_source = text "auto";
  is_leaf = false;
  child_count = 1;
  guide_count = 0;
  content_type = text "physics";
  last_scanned = some 7;
  created_at = 7;
}

abbrev waves : FolderRow
waves = record physics {
  id = 2;
  path = text "physics/waves";
  parent_id = some 1;
  display_name = text "Waves";
  is_leaf = true;
  child_count = 0;
  guide_count = 1;
}

abbrev pub two_folders : NavDb
two_folders = record {
  folders = physics ∷ waves ∷ [];
  next_folder_id = 3;
  guides =
      record {
        id = 1;
        folder_id = 2;
        file_name = text "a.md";
        file_path = text "physics/waves/a.md";
        title = text "A";
        preview = [];
        word_count = 1;
        last_modified = none;
      }
      ∷ [];
  next_guide_id = 2;
  overrides = [];
}

pub two_folders-IsValidNav : IsValidNav two_folders
two_folders-IsValidNav = record {
  folders_valid = record {
    ids_below = omega arith;
    ids_differ = ((λ e. absurd (omega arith), tt), (tt, tt));
    paths_differ = ((λ e. cc e, tt), (tt, tt));
    parents = (inl refl, (inr (1, refl, omega arith, inl refl), tt));
  };
  guides_valid = record { guides_differ = (tt, tt); owners = (inr (inl refl), tt) };
}

abbrev empty : NavDb
empty = record { folders = []; next_folder_id = 1; guides = []; next_guide_id = 1; overrides = [] }

-- A vault with a guide in a subfolder, a file that cannot be read, and what a scan passes over.
abbrev tree : Entries
tree = cons (dir (text ".git") unreadable) (
    cons (file (text "README.md") (some (text "x")) none) (
      cons
        (dir (text "physics") (
          readable (
            cons
              (dir (text "waves") (
                readable (
                  cons (file (text "a.MD") (some (text "# A\nsome *text*\n")) (some 3))
                    (cons (file (text "b.md") none none) nil))))
              nil)))
        nil))

tree_counts :
    (scan_data_directories (readable tree) 9 empty).0
    ≡ some
        (record { folders = 2; guides = 1; errors = read_failed (text "physics/waves/b.md") ∷ [] })
unfolding scan_data_directories scan_vaults scan_dir scan_stored index_files index_file
    upsert_folder store_folder upsert_guide md_files ◌==◌
tree_counts = refl

paragraph :
    extract_first_paragraph (text "# T\n\n Some **bold** [link](u) text\n\nmore")
    ≡ text "Some bold  text"
unfolding extract_first_paragraph
paragraph = refl

heading : extract_first_heading (text "x\n # A heading \n") ≡ text "A heading"
unfolding extract_first_heading
heading = refl

humanized : humanize_folder (text "classical-mechanics") ≡ text "Classical Mechanics"
unfolding humanize_folder
humanized = refl

-- The first letter "é" is broken.
humanized_broken : humanize_folder (text "é") ≡ 0xef ∷ 0xbf ∷ 0xbd ∷ 0xa9 ∷ []
unfolding humanize_folder
humanized_broken = refl

words : count_words (text " a  b\tc ") ≡ 3
unfolding count_words fields_from
words = refl

scan-Step_example : Step two_folders (scan_data_directories (readable tree) 9 two_folders).1
scan-Step_example = scan-Step (readable tree) 9 two_folders two_folders-IsValidNav

scan-Covered_example :
    (c : Counts) × ((scan_data_directories (readable tree) 9 two_folders).0 ≡ some c)
    × Covered (survey_vaults tree) c (scan_data_directories (readable tree) 9 two_folders).1
scan-Covered_example = scan-Covered tree 9 two_folders two_folders-IsValidNav

scan-IsCounted_example :
    All
      (IsCounted (scan_data_directories (readable tree) 9 two_folders).1)
      (scan_data_directories (readable tree) 9 two_folders).1.folders
scan-IsCounted_example = scan-IsCounted tree 9 two_folders

get_folder_by_id-override_example :
    (r : FolderRow) × (get_folder_by_id 2
        (scan_data_directories
          (readable tree)
          9
          (set_folder_description 2 (text "Waves.") (text "admin") 8 two_folders)).1
      ≡ some r)
    × (r.description ≡ text "Waves.")
    × (r.description_source ≡ text "override")
get_folder_by_id-override_example =
    get_folder_by_id-override 2 (text "Waves.") (text "admin") 8 9 (readable tree) two_folders
      two_folders-IsValidNav (inr (inl refl))

get_navigation_tree-IsTree_example :
    ((get_navigation_tree (5 + 3) (text "physics") two_folders ≡ some none)
      × (find (has_path (text "physics")) two_folders.folders ≡ none))
    ⊎ ((r : FolderRow) × (ns : NavNodes) × (find (has_path (text "physics")) two_folders.folders
          ≡ some r)
        × (get_navigation_tree 3 (text "physics") two_folders ≡ some (some (node r ns)))
        × (get_navigation_tree (5 + 3) (text "physics") two_folders ≡ some (some (node r ns)))
        × IsTree two_folders (node r ns))
get_navigation_tree-IsTree_example =
    get_navigation_tree-IsTree (text "physics") 5 two_folders two_folders-IsValidNav

get_navigation_flat-perm_example :
    Perm
      (get_navigation_flat (text "Phys") [] two_folders)
      (keep (is_under (text "Phys") []) two_folders.folders)
    × IsSortedByPath (get_navigation_flat (text "Phys") [] two_folders)
get_navigation_flat-perm_example =
    get_navigation_flat-perm (text "Phys") [] two_folders
      ((refl, refl), ((refl, refl), ((refl, refl), ((refl, refl), tt))))

flat : map (λ r. r.id) (get_navigation_flat (text "PHYSICS/") [] two_folders) ≡ 2 ∷ []
unfolding get_navigation_flat
flat = refl
