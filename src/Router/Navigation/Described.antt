-- ===== src/Router/Navigation/Described.antt =====
-- The navigation handlers of internal/router/nav_handlers.go in sequence.
use red_engine.Prelude.{ℕ, ◌≡◌, ◌≢◌, refl, false, Option, none, some, [], arith}
use red_engine.Text.{text, ◌==◌, eq_iff}
use red_engine.Navigation.{FolderRow, NavDb, get_folder_by_id, set_folder_description}
use red_engine.Navigation.Rows.{kept_folders}
use red_engine.Navigation.Valid.{IsId, IsValidNav}
use red_engine.Navigation.Override.{get_folder_by_id-override}
use red_engine.Navigation.Scan.{Listing, Counts, scan_data_directories}
use red_engine.Router.Navigation.{
  DescriptionRequest, scan_reply, nav_rescan, nav_folder_description,
}

scan_reply_db : (p : Option Counts × NavDb) → (scan_reply p).1 ≡ some p.1
scan_reply_db (none, db) = refl
scan_reply_db (some c, db) = refl

-- A description that navFolderDescription accepted for a known folder is still its description after
-- a navRescan of any data directory.
pub nav_folder_description-nav_rescan :
    (id : ℕ) (req : DescriptionRequest) (now later : ℕ) (l : Listing) (db : NavDb)
    → IsValidNav db
    → IsId id (kept_folders db)
    → req.description ≢ []
    → (db' : NavDb) × (r : FolderRow) × ((nav_rescan
          (text "POST")
          l
          later
          (nav_folder_description (text "PUT") (some id) (some req) now (some db)).1).1
        ≡ some db')
      × (get_folder_by_id id db' ≡ some r)
      × (r.description ≡ req.description)
      × (r.description_source ≡ text "override")
unfolding nav_rescan nav_folder_description
nav_folder_description-nav_rescan id req now later l db v i h =
    let given : (req.description == []) ≡ false = ground (arith, eq_iff req.description []) in
    let db1 = set_folder_description id req.description req.override_by now db in
    let (r, found, d, s) =
      get_folder_by_id-override id req.description req.override_by now later l db v i in
    let db2 = (scan_data_directories l later db1).1 in
    (db2, r, rw given (scan_reply_db (scan_data_directories l later db1)), found, d, s)
