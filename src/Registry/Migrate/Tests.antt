-- ===== src/Registry/Migrate/Tests.antt =====
-- A registry of the first schema with two peers and a startup sync, upgraded.
use red_engine.Prelude.{any, ℕ, ◌≡◌, ◌<◌, arith, some, none, List, [], ◌∷◌, inr, map, Pairwise}
use red_engine.Text.{Text, text, ◌==◌}
use red_engine.Dict.{Dict, lookup}
use red_engine.Registry.Peers.Valid.{IsValid}
use red_engine.Registry.Migrate.{
  OldPeer, OldSync, done, schema_version_value, migrated_peer, next_behind, migrate,
}
use red_engine.Registry.Peers.{is_path}
use red_engine.Registry.Migrate.Paths.{is_exported}
use red_engine.Registry.Migrate.Copied.{OtherOld}
use red_engine.Registry.Migrate.Upgraded.{legacy, upgraded, migrate-IsUpgraded}

abbrev old_settings : Dict Text
old_settings = (text "node_alias", text "harbour") ∷ []

abbrev keyed_peer : OldPeer
keyed_peer = record {
  id = 1;
  url = text "https://a.example";
  public_key = text "aa";
  name = text "a";
  peer_type = text "peer";
  paths = text "guides" ∷ [];
  last_seen = none;
  added_at = 10;
}

abbrev other_peer : OldPeer
other_peer = record {
  id = 4;
  url = text "https://b.example";
  public_key = [];
  name = text "b";
  peer_type = text "mirror";
  paths = [];
  last_seen = some 30;
  added_at = 20;
}

abbrev old_rows : List OldPeer
old_rows = keyed_peer ∷ other_peer ∷ []

abbrev guides_sync : OldSync
guides_sync = record {
  id = 1;
  url = text "https://a.example/guides.zip";
  filename = text "guides";
  added_at = 10;
}

rows_differ : Pairwise OtherOld old_rows
rows_differ = (((λ e. omega arith, inr (λ e. cc)), tt), (tt, tt))

is_old : schema_version_value old_settings < 2
unfolding schema_version_value lookup ◌==◌
is_old = omega arith

migrate-IsUpgraded_example :
    (migrate (legacy old_settings old_rows (guides_sync ∷ []))
      ≡ (done tt, upgraded old_settings old_rows (guides_sync ∷ [])))
    × IsValid (map migrated_peer old_rows) (next_behind 1 (map migrated_peer old_rows))
    × (schema_version_value (upgraded old_settings old_rows (guides_sync ∷ [])).node_settings ≡ 2)
    × ((id : ℕ) (path : Text)
        → any (is_path id path) (upgraded old_settings old_rows (guides_sync ∷ [])).exported_paths
          ≡ is_exported id path old_rows)
    × (migrate (upgraded old_settings old_rows (guides_sync ∷ []))
        ≡ (done tt, upgraded old_settings old_rows (guides_sync ∷ [])))
migrate-IsUpgraded_example =
    migrate-IsUpgraded old_settings old_rows (guides_sync ∷ []) is_old rows_differ (tt, tt)
