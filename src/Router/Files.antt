-- ===== src/Router/Files.antt =====
-- `branchMeta` and `assetFile` of internal/router/router.go and `adminRemove` of
-- internal/router/sync.go: the path on the disk that a request reads or removes.
pub mod Confined
use red_engine.Prelude.{
  ℕ, ◌≡◌, Bool, true, false, not, ◌&&◌, ◌||◌, Option, none, some, List, [], ◌∷◌, ◌++◌, any, length,
  ltb, if◌then◌else◌,
}
use red_engine.Text.{Text, text, ◌==◌, has_prefix, trim_prefix, contains, split}
use red_engine.Go.FilePath.{dot, clean, is_rooted, join_path, join_all}
use red_engine.Registry.{Registry, Result, ok, err}
use red_engine.Registry.Sync.{remove_startup_sync}
use red_engine.Store.Verify.{last_part}

-- parts[:len(parts)-1]
abbrev pub all_but_last : List Text → List Text
all_but_last [] = []
all_but_last (p ∷ []) = []
all_but_last (p ∷ q ∷ ps) = p ∷ all_but_last (q ∷ ps)

abbrev pub is_blocked : Text → Bool
is_blocked part = has_prefix part (text ".") || part == []

abbrev pub cover : Text
cover = text "cover.jpg"

abbrev pub icon : Text
icon = text "icon.svg"

-- The file that is served; none for a 404.
unfoldable pub branch_meta : Text → Text → Option Text
branch_meta data_dir url_path =
    let suffix = trim_prefix url_path (text "/-/branch-meta/") in
    let parts = split b'/' suffix in
    let file_name = last_part parts in
    let dir_parts = all_but_last parts in
    if contains suffix (text "..") || ltb (length parts) 2
    then none
    else if not (file_name == cover) && not (file_name == icon)
    then none
    else if any is_blocked dir_parts
    then none
    else some (join_all (data_dir ∷ (dir_parts ++ text ".meta" ∷ file_name ∷ [])))

unfoldable pub asset_file : Text → Text → Option Text
asset_file data_dir url_path =
    let suffix = trim_prefix url_path (text "/-/assets/") in
    let parts = split b'/' suffix in
    let file_name = last_part parts in
    let dir_parts = all_but_last parts in
    if contains suffix (text "..") || ltb (length parts) 2
    then none
    else if any is_blocked parts
    then none
    else some (join_all (data_dir ∷ (dir_parts ++ text ".assets" ∷ file_name ∷ [])))

-- The path of os.RemoveAll; none where nothing is removed.
unfoldable pub removal_path : Text → Text → Option Text
removal_path data_dir filename =
    let safe_name = clean filename in
    if not (safe_name == dot)
      && not (safe_name == [])
      && not (has_prefix safe_name (text ".."))
      && not (is_rooted safe_name)
    then some (join_path data_dir safe_name)
    else none

pub record RemoveRequest : Type 0 where
  pub filename : Text
  pub delete_local_files : Bool

-- The status, the path that is removed and the registry after the request. A body that is no JSON
-- of a request is `none`.
unfoldable pub admin_remove :
    Text → Bool → Option RemoveRequest → Registry → ℕ × (Option Text × Registry)
unfolding removal_path
admin_remove data_dir false body registry = (405, (none, registry))
admin_remove data_dir true none registry = (400, (none, registry))
admin_remove data_dir true (some req) registry =
    let (result, registry') = remove_startup_sync req.filename registry in
    elim result [
      | err e ↦ (500, (none, registry'))
      | ok _ ↦ (
        200,
        (if req.delete_local_files then removal_path data_dir req.filename else none, registry'),
      )
    ]
