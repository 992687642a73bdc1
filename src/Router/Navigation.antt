-- ===== src/Router/Navigation.antt =====
-- The handlers of internal/router/nav_handlers.go on the navigation service, which is none where it
-- was not started. The JSON decoder and the clock are arguments, and folder ids are not negative.
pub mod Described
mod Tests
use red_engine.Prelude.{
  ℕ, ◌+◌, ◌≡◌, Bool, not, ◌&&◌, ◌||◌, Option, none, some, List, [], if◌then◌else◌,
}
use red_engine.Text.{Text, text, ◌==◌}
use red_engine.Navigation.{FolderRow, NavDb, set_folder_description}
use red_engine.Navigation.Tree.{NavNode, get_navigation_tree}
use red_engine.Navigation.Flat.{get_navigation_flat}
use red_engine.Navigation.Scan.{Listing, Counts, scan_data_directories}

abbrev pub Service : Type 0
Service = Option NavDb

-- An error has its status; `diverged` stands for a tree that does not end.
pub data Reply : Type 0 where
  failed : ℕ → Reply
  tree : NavNode → Reply
  nodes : List FolderRow → Reply
  scanned : Counts → Reply
  updated : Reply
  diverged : Reply

abbrev pub tree_reply : Option (Option NavNode) → Reply
tree_reply none = diverged
tree_reply (some none) = failed 404
tree_reply (some (some n)) = tree n

-- `navAPI`, with the values of its query.
unfoldable pub nav_api : Text → Text → Text → Service → Reply
unfolding ◌==◌
nav_api path content_type flat none = failed 503
nav_api path content_type flat (some db) =
    if not (flat == []) || not (content_type == []) || path == []
    then nodes (get_navigation_flat path content_type db)
    else tree_reply (get_navigation_tree db.next_folder_id path db)

abbrev pub scan_reply : Option Counts × NavDb → Reply × Service
scan_reply (none, db) = (failed 500, some db)
scan_reply (some c, db) = (scanned c, some db)

-- `navRescan` of the data directory as it is at that time.
unfoldable pub nav_rescan : Text → Listing → ℕ → Service → Reply × Service
unfolding ◌==◌
nav_rescan method l now none = (failed 503, none)
nav_rescan method l now (some db) =
    if method == text "POST"
    then scan_reply (scan_data_directories l now db)
    else (failed 405, some db)

-- The body of `navFolderDescription`, where it is JSON.
pub record DescriptionRequest : Type 0 where
  pub description : Text
  pub override_by : Text

abbrev pub describe_reply : Option ℕ → Option DescriptionRequest → ℕ → NavDb → Reply × Service
describe_reply none body now db = (failed 400, some db)
describe_reply (some id) none now db = (failed 400, some db)
describe_reply (some id) (some req) now db =
    if req.description == []
    then (failed 400, some db)
    else (updated, some (set_folder_description id req.description req.override_by now db))

unfoldable pub nav_folder_description :
    Text → Option ℕ → Option DescriptionRequest → ℕ → Service → Reply × Service
unfolding ◌==◌
nav_folder_description method id body now none = (failed 503, none)
nav_folder_description method id body now (some db) =
    if method == text "PUT" || method == text "POST"
    then describe_reply id body now db
    else (failed 405, some db)
