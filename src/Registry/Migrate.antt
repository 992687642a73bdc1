-- ===== src/Registry/Migrate.antt =====
-- `migrate` of internal/registry/registry.go, with `migratePeersToV2` and `migrateStartupSyncToV2`: a
-- database that is new, of the first schema or of the second. Each of the two table migrations is a
-- transaction; what was done before a failure stays. The times of the old rows are taken as present,
-- and the map of captured paths as the list of its entries in the order of the rows.
pub mod Copied
pub mod Upgraded
pub mod Paths
mod Tests
use red_engine.Prelude.{
  ℕ, zero, suc, ◌≡◌, Bool, true, false, not, ◌&&◌, ◌||◌, Option, none, some, List, [], ◌∷◌, ◌++◌,
  map, if◌then◌else◌, any, eqb, ltb,
}
use red_engine.Text.{Text, text, ◌==◌}
use red_engine.Dict.{Dict, lookup, insert}
use red_engine.Go.Strconv.{digits_value, without_plus}
use red_engine.Registry.{PeerRow, PathRow, SyncRow, is_one_of, sync_types}
use red_engine.Registry.Peers.{normalize_peer_type, null_if_empty, checks, key_is_free, add_paths}
use red_engine.Registry.Sync.{has_filename, new_sync}

-- A row of the first schema, NULLs replaced as the query does, with the list that its JSON holds.
pub record OldPeer : Type 0 where
  pub id : ℕ
  pub url : Text
  pub public_key : Text
  pub name : Text
  pub peer_type : Text
  pub paths : List Text
  pub last_seen : Option ℕ
  pub added_at : ℕ

pub record OldSync : Type 0 where
  pub id : ℕ
  pub url : Text
  pub filename : Text
  pub added_at : ℕ

pub data PeerTable : Type 0 where
  no_peers : PeerTable
  old_peers : List OldPeer → PeerTable
  -- the rows, and the next id
  new_peers : List PeerRow → ℕ → PeerTable

pub data SyncTable : Type 0 where
  no_syncs : SyncTable
  old_syncs : List OldSync → SyncTable
  new_syncs : List SyncRow → ℕ → SyncTable

-- exported_paths is empty where its table is not there yet.
pub record Schema : Type 0 where
  pub node_settings : Dict Text
  pub peers : PeerTable
  pub startup_sync : SyncTable
  pub exported_paths : List PathRow

-- The second one: a query for a column of the first schema on a table of the second.
pub data Failure : Type 0 where
  constraint_failed no_such_column : Failure

pub data Outcome {ℓ} (A : Type ℓ) : Type ℓ where
  done : A → Outcome A
  failed : Failure → Outcome A

abbrev pub version_key : Text
version_key = text "registry_schema_version"

abbrev version_of : Option Text → ℕ
version_of none = 0
version_of (some value) =
    if without_plus value == []
    then 0
    else elim (digits_value 0 (without_plus value)) [ none ↦ 0 | some n ↦ n ]

unfoldable pub schema_version_value : Dict Text → ℕ
unfolding digits_value ◌==◌
schema_version_value settings = version_of (lookup version_key settings)

abbrev pub set_schema_version_value : Dict Text → Dict Text
set_schema_version_value settings = insert version_key (text "2") settings

unfoldable pub migrated_peer : OldPeer → PeerRow
migrated_peer o = record {
  id = o.id;
  url = o.url;
  node_public_key = null_if_empty o.public_key;
  name = o.name;
  peer_type = normalize_peer_type o.peer_type;
  description = [];
  public_url = [];
  tunnel_type = [];
  is_online = false;
  online_checked_at = none;
  last_seen = o.last_seen;
  added_at = o.added_at;
}

-- The INSERTs of the transaction, in order.
abbrev pub is_insertable : PeerRow → List PeerRow → Bool
is_insertable r rows = not (any (λ o. eqb o.id r.id) rows) && (checks r && key_is_free r rows)

unfoldable pub copy_peers : List OldPeer → List PeerRow → Outcome (List PeerRow)
copy_peers [] rows = done rows
copy_peers (o ∷ olds) rows =
    let rest = copy_peers olds (rows ++ migrated_peer o ∷ []) in
    if is_insertable (migrated_peer o) rows then rest else failed constraint_failed

-- AUTOINCREMENT goes on behind the largest id.
unfoldable pub next_behind : ℕ → List PeerRow → ℕ
next_behind n [] = n
next_behind n (r ∷ rows) = next_behind (if ltb r.id n then n else suc r.id) rows

abbrev pub migrated_sync : OldSync → SyncRow
migrated_sync o = new_sync o.url o.filename o.id o.added_at

abbrev pub is_insertable_sync : SyncRow → List SyncRow → Bool
is_insertable_sync r rows =
    not (any (λ o. eqb o.id r.id) rows)
    && (not (any (has_filename r.filename) rows) && is_one_of sync_types r.sync_type)

unfoldable pub copy_syncs : List OldSync → List SyncRow → Outcome (List SyncRow)
copy_syncs [] rows = done rows
copy_syncs (o ∷ olds) rows =
    let rest = copy_syncs olds (rows ++ migrated_sync o ∷ []) in
    if is_insertable_sync (migrated_sync o) rows then rest else failed constraint_failed

unfoldable pub next_sync_behind : ℕ → List SyncRow → ℕ
next_sync_behind n [] = n
next_sync_behind n (r ∷ rows) = next_sync_behind (if ltb r.id n then n else suc r.id) rows

-- The paths that are captured are those of the old rows that have any.
unfoldable pub migrate_peers : Bool → PeerTable → Outcome (PeerTable × List OldPeer)
unfolding copy_peers
migrate_peers is_old no_peers = done (new_peers [] 1, [])
migrate_peers false t = done (t, [])
migrate_peers true (new_peers rows next) = failed no_such_column
migrate_peers true (old_peers olds) = elim (copy_peers olds []) [
  | failed e ↦ failed e
  | done rows ↦ done (new_peers rows (next_behind 1 rows), olds)
]

-- The columns that are read. A table of the second schema has them too, and loses the others.
abbrev columns : SyncRow → OldSync
columns r = record { id = r.id; url = r.url; filename = r.filename; added_at = r.added_at }

abbrev recreated : Outcome (List SyncRow) → Outcome SyncTable
recreated (failed e) = failed e
recreated (done rows) = done (new_syncs rows (next_sync_behind 1 rows))

unfoldable pub migrate_syncs : Bool → SyncTable → Outcome SyncTable
unfolding copy_syncs
migrate_syncs is_old no_syncs = done (new_syncs [] 1)
migrate_syncs false t = done t
migrate_syncs true (new_syncs rows next) = recreated (copy_syncs (map columns rows) [])
migrate_syncs true (old_syncs olds) = recreated (copy_syncs olds [])

-- INSERT OR IGNORE of the captured paths.
unfoldable pub backfill : List OldPeer → List PathRow → List PathRow
unfolding add_paths
backfill [] rows = rows
backfill (o ∷ olds) rows = backfill olds (add_paths o.id o.paths rows)

abbrev with_version : Bool → Dict Text → Dict Text
with_version true settings = set_schema_version_value settings
with_version false settings = settings

abbrev pub finish_migration :
    Bool → Schema → PeerTable → List OldPeer → Outcome SyncTable → Outcome (Unit {0}) × Schema
finish_migration is_old s peers captured (failed e) = (failed e, record s { peers = peers })
finish_migration is_old s peers captured (done syncs) = (
  done tt,
  record {
    node_settings = with_version is_old s.node_settings;
    peers = peers;
    startup_sync = syncs;
    exported_paths = backfill captured s.exported_paths;
  },
)

-- Where `is_old`, the tables that are there are of the first schema.
unfoldable pub migrate_from : Bool → Schema → Outcome (Unit {0}) × Schema
unfolding migrate_peers migrate_syncs backfill
migrate_from is_old s = elim (migrate_peers is_old s.peers) [
  | failed e ↦ (failed e, s)
  | done (peers, captured) ↦
      finish_migration is_old s peers captured (migrate_syncs is_old s.startup_sync)
]

unfoldable pub migrate : Schema → Outcome (Unit {0}) × Schema
unfolding schema_version_value migrate_from
migrate s = migrate_from (ltb (schema_version_value s.node_settings) 2) s
