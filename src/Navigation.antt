-- ===== src/Navigation.antt =====
-- internal/navigation/db.go and models.go: the tables of the guides' navigation in the registry's
-- database, what its statements do to their rows, and the queries. The columns that no code reads
-- (sort_order, hide_from_nav) are left out.
pub mod Extract
pub mod Rows
pub mod Valid
pub mod Upsert
pub mod Scan
pub mod Tree
pub mod Override
pub mod Flat
pub mod Aggregates
pub mod Tests
use red_engine.Prelude.{
  ℕ, suc, Bool, false, not, Option, none, some, List, [], ◌∷◌, ◌++◌, map, if◌then◌else◌, find, keep,
  any, length, ltb, eqb,
}
use red_engine.Text.{Text, text, ◌==◌}

-- nav_folders. The times are counted from some start; NULL is `none`.
pub record FolderRow : Type 0 where
  pub id : ℕ
  pub path : Text
  pub parent_id : Option ℕ
  pub display_name : Text
  pub description : Text
  pub description_source : Text
  pub is_leaf : Bool
  pub child_count : ℕ
  pub guide_count : ℕ
  pub content_type : Text
  pub last_scanned : Option ℕ
  pub created_at : ℕ

-- nav_guides
pub record GuideRow : Type 0 where
  pub id : ℕ
  pub folder_id : ℕ
  pub file_name : Text
  pub file_path : Text
  pub title : Text
  pub preview : Text
  pub word_count : ℕ
  pub last_modified : Option ℕ

-- nav_description_overrides
pub record OverrideRow : Type 0 where
  pub folder_id : ℕ
  pub custom_description : Text
  pub override_by : Text
  pub override_date : ℕ

-- The two numbers are what AUTOINCREMENT gives next.
pub record NavDb : Type 0 where
  pub folders : List FolderRow
  pub next_folder_id : ℕ
  pub guides : List GuideRow
  pub next_guide_id : ℕ
  pub overrides : List OverrideRow

-- The arguments of `upsertFolder` and of `upsertGuide`.
pub record Folder : Type 0 where
  pub path : Text
  pub display_name : Text
  pub description : Text
  pub content_type : Text
  pub parent_id : Option ℕ
  pub is_leaf : Bool

pub record Guide : Type 0 where
  pub file_name : Text
  pub file_path : Text
  pub title : Text
  pub preview : Text
  pub word_count : ℕ
  pub last_modified : Option ℕ

abbrev pub has_path : Text → FolderRow → Bool
has_path path r = r.path == path

abbrev pub new_folder : Folder → ℕ → ℕ → FolderRow
new_folder f id now = record {
  id = id;
  path = f.path;
  parent_id = f.parent_id;
  display_name = f.display_name;
  description = f.description;
  description_source = text "auto";
  is_leaf = f.is_leaf;
  child_count = 0;
  guide_count = 0;
  content_type = f.content_type;
  last_scanned = some now;
  created_at = now;
}

-- ON CONFLICT(path) DO UPDATE
abbrev pub rescanned : Folder → ℕ → FolderRow → FolderRow
rescanned f now r = record r {
  display_name = f.display_name;
  is_leaf = f.is_leaf;
  content_type = f.content_type;
  last_scanned = some now;
}

unfoldable pub rescan : Folder → ℕ → List FolderRow → List FolderRow
rescan f now [] = []
rescan f now (r ∷ rows) = (if has_path f.path r then rescanned f now r else r) ∷ rescan f now rows

unfoldable pub store_folder : Folder → ℕ → NavDb → NavDb
store_folder f now db =
    if any (has_path f.path) db.folders
    then record db { folders = rescan f now db.folders }
    else record db {
      folders = db.folders ++ new_folder f db.next_folder_id now ∷ [];
      next_folder_id = suc db.next_folder_id;
    }

abbrev pub id_of : Option FolderRow → Option ℕ
id_of none = none
id_of (some r) = some r.id

-- `upsertFolder`: none where the SELECT behind the INSERT finds no row.
unfoldable pub upsert_folder : Folder → ℕ → NavDb → Option ℕ × NavDb
upsert_folder f now db =
    let db' = store_folder f now db in (id_of (find (has_path f.path) db'.folders), db')

abbrev pub new_guide : ℕ → Guide → ℕ → GuideRow
new_guide folder_id g id = record {
  id = id;
  folder_id = folder_id;
  file_name = g.file_name;
  file_path = g.file_path;
  title = g.title;
  preview = g.preview;
  word_count = g.word_count;
  last_modified = g.last_modified;
}

abbrev pub has_file_path : Text → GuideRow → Bool
has_file_path path r = r.file_path == path

unfoldable pub reindex : Guide → List GuideRow → List GuideRow
reindex g [] = []
reindex g (r ∷ rows) =
    (if has_file_path g.file_path r
      then record r {
        title = g.title;
        preview = g.preview;
        word_count = g.word_count;
        last_modified = g.last_modified;
      }
      else r)
    ∷ reindex g rows

unfoldable pub upsert_guide : ℕ → Guide → NavDb → NavDb
upsert_guide folder_id g db =
    if any (has_file_path g.file_path) db.guides
    then record db { guides = reindex g db.guides }
    else record db {
      guides = db.guides ++ new_guide folder_id g db.next_guide_id ∷ [];
      next_guide_id = suc db.next_guide_id;
    }

-- parent_id = ?, which NULL never satisfies
abbrev pub has_parent : ℕ → FolderRow → Bool
has_parent id r = elim r.parent_id [ none ↦ false | some p ↦ eqb p id ]

abbrev pub count_children : List FolderRow → ℕ → ℕ
count_children rows id = length (keep (has_parent id) rows)

abbrev pub count_guides : List GuideRow → ℕ → ℕ
count_guides rows id = length (keep (λ g. eqb g.folder_id id) rows)

-- The two statements of `updateAggregates`.
abbrev pub with_child_count : List FolderRow → FolderRow → FolderRow
with_child_count all_rows r = record r { child_count = count_children all_rows r.id }

abbrev pub with_guide_count : List GuideRow → FolderRow → FolderRow
with_guide_count guides r =
    if r.is_leaf then record r { guide_count = count_guides guides r.id } else r

unfoldable pub update_aggregates : NavDb → NavDb
update_aggregates db = record db {
  folders = map (with_guide_count db.guides) (map (with_child_count db.folders) db.folders);
}

-- `GetFolderByID`: none for sql.ErrNoRows.
unfoldable pub get_folder_by_id : ℕ → NavDb → Option FolderRow
get_folder_by_id id db = find (λ r. eqb r.id id) db.folders

-- `SetFolderDescription`: the override, then the folder's own columns.
unfoldable pub put_override : OverrideRow → List OverrideRow → List OverrideRow
put_override o [] = o ∷ []
put_override o (r ∷ rows) =
    if eqb r.folder_id o.folder_id then o ∷ rows else r ∷ put_override o rows

unfoldable pub describe : ℕ → Text → List FolderRow → List FolderRow
describe id description [] = []
describe id description (r ∷ rows) =
    (if eqb r.id id
      then record r { description = description; description_source = text "override" }
      else r)
    ∷ describe id description rows

-- REFERENCES nav_folders(id) is not enforced: the engine never turns SQLite's foreign keys on.
unfoldable pub set_folder_description : ℕ → Text → Text → ℕ → NavDb → NavDb
unfolding put_override describe
set_folder_description id description override_by now db = record db {
  overrides =
      put_override
        (record {
          folder_id = id;
          custom_description = description;
          override_by = override_by;
          override_date = now;
        })
        db.overrides;
  folders = describe id description db.folders;
}

-- `VerifyNavigationDB`: the number of rows whose parent is no row.
abbrev pub is_orphan : List FolderRow → FolderRow → Bool
is_orphan rows r = elim r.parent_id [ none ↦ false | some p ↦ not (any (λ x. eqb x.id p) rows) ]

unfoldable pub orphans : NavDb → ℕ
orphans db = length (keep (is_orphan db.folders) db.folders)

unfoldable pub verify_navigation_db : NavDb → Option ℕ
verify_navigation_db db = if ltb 0 (orphans db) then some (orphans db) else none
