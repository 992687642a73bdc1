-- ===== src/Router/Navigation/Tests.antt =====
-- The navigation handlers on two folders.
use red_engine.Prelude.{◌≡◌, refl, inl, inr, some, []}
use red_engine.Text.{text}
use red_engine.Navigation.{FolderRow, NavDb, get_folder_by_id}
use red_engine.Navigation.Tests.{two_folders, two_folders-IsValidNav}
use red_engine.Navigation.Scan.{readable, nil}
use red_engine.Navigation.Tree.{get_navigation_tree}
use red_engine.Router.Navigation.{failed, nav_api, nav_rescan, nav_folder_description}
use red_engine.Router.Navigation.Described.{nav_folder_description-nav_rescan}

missing : nav_api (text "chemistry") [] [] (some two_folders) ≡ failed 404
unfolding nav_api get_navigation_tree
missing = refl

wrong_method : (nav_rescan (text "GET") (readable nil) 1 (some two_folders)).0 ≡ failed 405
unfolding nav_rescan
wrong_method = refl

nav_folder_description-nav_rescan_example :
    (db' : NavDb) × (r : FolderRow) × ((nav_rescan
        (text "POST")
        (readable nil)
        9
        (nav_folder_description
          (text "PUT")
          (some 2)
          (some (record { description = text "Waves."; override_by = [] }))
          8
          (some two_folders)).1).1
      ≡ some db')
    × (get_folder_by_id 2 db' ≡ some r)
    × (r.description ≡ text "Waves.")
    × (r.description_source ≡ text "override")
nav_folder_description-nav_rescan_example =
    nav_folder_description-nav_rescan 2 (record { description = text "Waves."; override_by = [] }) 8
      9 (readable nil) two_folders two_folders-IsValidNav (inr (inl refl)) (λ e. cc e)
