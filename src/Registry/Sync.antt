-- ===== src/Registry/Sync.antt =====
-- The startup syncs of internal/registry/registry.go: `AddStartupSync`, `MarkSyncResult`,
-- `RemoveStartupSync` and `ListStartupSync`.
pub mod Status
use red_engine.Prelude.{
  ℕ, suc, ◌≡◌, Bool, true, false, not, ◌&&◌, Option, none, some, List, [], ◌∷◌, ◌++◌, arith,
  if◌then◌else◌, find, keep, any, all, leb,
}
use red_engine.Text.{Text, text, ◌==◌, has_suffix, to_lower}
use red_engine.Registry.{
  SyncRow, Db, Result, ok, err, constraint, Registry, exec, query, is_one_of, sync_statuses,
}

unfoldable pub detect_sync_type : Text → Text
detect_sync_type u =
    let lower = to_lower u in
    if has_suffix lower (text ".git")
    then text "git"
    else if has_suffix lower (text ".tar.gz")
    then text "tar.gz"
    else if has_suffix lower (text ".zip")
    then text "zip"
    else text "raw"

abbrev pub has_filename : Text → SyncRow → Bool
has_filename filename row = row.filename == filename

-- The columns that the upsert sets on a conflict.
abbrev pub retargeted : Text → SyncRow → SyncRow
retargeted url r = record r { url = url; sync_type = detect_sync_type url }

unfoldable pub retarget : Text → Text → List SyncRow → List SyncRow
retarget url filename [] = []
retarget url filename (r ∷ rows) =
    (if has_filename filename r then retargeted url r else r) ∷ retarget url filename rows

-- `now` is the CURRENT_TIMESTAMP of the new row.
abbrev pub new_sync : Text → Text → ℕ → ℕ → SyncRow
new_sync url filename id now = record {
  id = id;
  url = url;
  filename = filename;
  sync_type = detect_sync_type url;
  last_synced_at = none;
  last_error = [];
  sync_status = text "pending";
  added_at = now;
}

unfoldable pub add_startup_sync : Text → Text → ℕ → Registry → Result (Unit {0}) × Registry
unfolding retarget
add_startup_sync url filename now = exec λ db.
    if any (has_filename filename) db.startup_sync
    then ok (record db { startup_sync = retarget url filename db.startup_sync })
    else ok (record db {
      startup_sync = db.startup_sync ++ new_sync url filename db.next_sync_id now ∷ [];
      next_sync_id = suc db.next_sync_id;
    })

abbrev pub marked : Text → Text → ℕ → SyncRow → SyncRow
marked status err_msg now r = record r {
  sync_status = status;
  last_error = err_msg;
  last_synced_at = if status == text "ok" then some now else r.last_synced_at;
}

unfoldable pub mark : Text → Text → Text → ℕ → List SyncRow → List SyncRow
mark filename status err_msg now [] = []
mark filename status err_msg now (r ∷ rows) =
    (if has_filename filename r then marked status err_msg now r else r)
    ∷ mark filename status err_msg now rows

-- The CHECK constraint on the status fails for a row that the statement changes.
unfoldable pub mark_sync_result : Text → Text → Text → ℕ → Registry → Result (Unit {0}) × Registry
unfolding mark
mark_sync_result filename status err_msg now = exec λ db.
    if any (has_filename filename) db.startup_sync && not (is_one_of sync_statuses status)
    then err constraint
    else ok (record db { startup_sync = mark filename status err_msg now db.startup_sync })

unfoldable pub remove_startup_sync : Text → Registry → Result (Unit {0}) × Registry
remove_startup_sync filename = exec λ db.
    ok (record db { startup_sync = keep (λ r. not (has_filename filename r)) db.startup_sync })

-- ORDER BY added_at ASC
unfoldable pub insert_by_time : SyncRow → List SyncRow → List SyncRow
insert_by_time r [] = r ∷ []
insert_by_time r (o ∷ rows) =
    if leb r.added_at o.added_at then r ∷ o ∷ rows else o ∷ insert_by_time r rows

unfoldable pub by_time : List SyncRow → List SyncRow
unfolding insert_by_time
by_time [] = []
by_time (r ∷ rows) = insert_by_time r (by_time rows)

unfoldable pub list_startup_sync : Registry → Result (List SyncRow)
unfolding by_time
list_startup_sync = query λ db. ok (by_time db.startup_sync)
