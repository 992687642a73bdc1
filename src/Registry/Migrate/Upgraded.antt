-- ===== src/Registry/Migrate/Upgraded.antt =====
-- What `migrate` of internal/registry/registry.go makes of a database of the first schema.
use red_engine.Prelude.{
  any, ℕ, ◌≡◌, refl, ◌∙◌, ap, Bool, true, false, List, [], map, arith, All, Pairwise, ltb, ◌<◌, ◌∷◌,
}
use red_engine.Text.{Text, text, ◌==◌}
use red_engine.Go.Strconv.{digits_value}
use red_engine.Dict.{Dict, lookup-insert_self}
use red_engine.Registry.{SyncRow}
use red_engine.Registry.Peers.{checks}
use red_engine.Registry.Peers.Valid.{OtherId, OtherKey, IsValid}
use red_engine.Registry.Migrate.{
  OldPeer, OldSync, Schema, old_peers, old_syncs, new_peers, new_syncs, done, version_key,
  schema_version_value, set_schema_version_value, migrated_peer, migrated_sync, copy_syncs,
  next_behind, next_sync_behind, migrate_peers, migrate_syncs, backfill, migrate_from, migrate,
}
use red_engine.Registry.Peers.{is_path}
use red_engine.Registry.Migrate.Paths.{is_exported, any-backfill}
use red_engine.Registry.Migrate.Copied.{
  OtherOld, OtherOldSync, OtherId-migrated_peer, OtherKey-migrated_peer, OtherSync-migrated_sync,
  checks-migrated_peer, copy_peers-all, copy_syncs-all, next_behind-above,
}

-- A database of the first schema, and what it is to become.
abbrev pub legacy : Dict Text → List OldPeer → List OldSync → Schema
legacy settings olds syncs = record {
  node_settings = settings;
  peers = old_peers olds;
  startup_sync = old_syncs syncs;
  exported_paths = [];
}

abbrev pub upgraded : Dict Text → List OldPeer → List OldSync → Schema
upgraded settings olds syncs = record {
  node_settings = set_schema_version_value settings;
  peers = new_peers (map migrated_peer olds) (next_behind 1 (map migrated_peer olds));
  startup_sync = new_syncs (map migrated_sync syncs) (next_sync_behind 1 (map migrated_sync syncs));
  exported_paths = backfill olds [];
}

All-checked : (olds : List OldPeer) → All (λ r. checks r ≡ true) (map migrated_peer olds)
All-checked [] = tt
All-checked (o ∷ olds) = (checks-migrated_peer o, All-checked olds)

ltb-true : (a b : ℕ) → a < b → ltb a b ≡ true
ltb-true a b h = ground arith

version_two : (settings : Dict Text) → schema_version_value (set_schema_version_value settings) ≡ 2
unfolding schema_version_value digits_value ◌==◌
version_two settings = rw (lookup-insert_self version_key (text "2") settings) refl

migrate-from :
    (is_old : Bool) (s : Schema)
    → ltb (schema_version_value s.node_settings) 2 ≡ is_old
    → migrate s ≡ migrate_from is_old s
unfolding migrate
migrate-from is_old s e = ap (λ b. migrate_from b s) e

migrate_peers-all :
    (olds : List OldPeer)
    → Pairwise OtherId (map migrated_peer olds)
    → Pairwise OtherKey (map migrated_peer olds)
    → migrate_peers true (old_peers olds)
      ≡ done (new_peers (map migrated_peer olds) (next_behind 1 (map migrated_peer olds)), olds)
unfolding migrate_peers
migrate_peers-all olds ids keys = rw (migrate_peers, copy_peers-all olds [] ids keys) refl

migrate_syncs-copied :
    (syncs : List OldSync) (rows : List SyncRow)
    → copy_syncs syncs [] ≡ done rows
    → migrate_syncs true (old_syncs syncs) ≡ done (new_syncs rows (next_sync_behind 1 rows))
unfolding migrate_syncs
migrate_syncs-copied syncs rows e = rw (migrate_syncs, e) refl

migrate-upgraded :
    (settings : Dict Text) (olds : List OldPeer) (syncs : List OldSync)
    → migrate (upgraded settings olds syncs) ≡ (done tt, upgraded settings olds syncs)
migrate-upgraded settings olds syncs =
    let s = upgraded settings olds syncs in
    migrate-from false s (ap (λ n. ltb n 2) (version_two settings)) ∙ unfold migrate_from in refl

-- A database of the first schema, in which no two peers share an id or a key that is not empty and
-- no two startup syncs an id or a file name, is upgraded: its peers and startup syncs are the migrated
-- rows, in their order; the peers are valid, the version is 2, a peer exports a path exactly where its
-- old row listed it and it is not empty, and another run of `migrate` changes nothing.
pub migrate-IsUpgraded :
    (settings : Dict Text) (olds : List OldPeer) (syncs : List OldSync)
    → schema_version_value settings < 2
    → Pairwise OtherOld olds
    → Pairwise OtherOldSync syncs
    → (migrate (legacy settings olds syncs) ≡ (done tt, upgraded settings olds syncs))
      × IsValid (map migrated_peer olds) (next_behind 1 (map migrated_peer olds))
      × (schema_version_value (upgraded settings olds syncs).node_settings ≡ 2)
      × ((id : ℕ) (path : Text)
          → any (is_path id path) (upgraded settings olds syncs).exported_paths
            ≡ is_exported id path olds)
      × (migrate (upgraded settings olds syncs) ≡ (done tt, upgraded settings olds syncs))
migrate-IsUpgraded settings olds syncs old differ others =
    let ids = OtherId-migrated_peer olds differ in
    let keys = OtherKey-migrated_peer olds differ in
    let copied = copy_syncs-all syncs [] (OtherSync-migrated_sync syncs others) in
    (
      migrate-from true (legacy settings olds syncs)
            (ltb-true (schema_version_value settings) 2 old)
          ∙ unfold migrate_from in
            rw
              (
                migrate_from,
                migrate_peers-all olds ids keys,
                migrate_syncs-copied syncs (map migrated_sync syncs) copied,
              )
              refl,
      record {
        ids_below = next_behind-above 1 (map migrated_peer olds);
        ids_differ = ids;
        keys_differ = keys;
        checked = All-checked olds;
      },
      version_two settings,
      any-backfill olds [],
      migrate-upgraded settings olds syncs,
    )
