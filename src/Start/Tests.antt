-- ===== src/Start/Tests.antt =====
-- A node whose configuration names a site and a zipped startup sync, and a round that pulls it.
use red_engine.Prelude.{◌≡◌, ◌≢◌, refl, ◌+◌, false, Option, none, some, [], ◌∷◌, arith, All}
use red_engine.Text.{Text, text, ◌==◌, has_suffix, to_lower}
use red_engine.Registry.{Db}
use red_engine.Registry.Tests.{empty_db}
use red_engine.Registry.Settings.{get_setting}
use red_engine.Registry.Sync.{
  list_startup_sync, by_time, insert_by_time, detect_sync_type, new_sync,
}
use red_engine.Store.{nil}
use red_engine.Store.Update.{World}
use red_engine.Store.Watch.{Watched, FileEvent, handle_events}
use red_engine.Start.{
  RemoteSync, Config, default_config, settings_of, seed, listed, PullResult, pull_error,
  periodic_round,
}
use red_engine.Start.Once.{seed-once}
use red_engine.Start.Periodic.{IsNoGit, periodic_round-stale}

abbrev guides_zip : RemoteSync
guides_zip = record { url = text "https://a.example/guides.zip"; filename = text "guides" }

abbrev named_config : Config
named_config = record default_config { site_name = text "harbour"; startup_sync = guides_zip ∷ [] }

abbrev synced_db : Db
synced_db = record empty_db { startup_sync = new_sync guides_zip.url guides_zip.filename 1 10 ∷ [] }

abbrev disk : World
disk = record {
  platform = record {
    sha256 = λ content. content;
    ed25519_verify = λ key message signature. false;
    markdown = λ source path. some source;
    data_dir = text "/data";
    exists = λ path. false;
    read_file = λ path. some (text "new");
    rel = λ path. some (text "guides/a.md");
  };
  trusted_authors = [];
  signers = [];
  files = text "/data/guides/a.md" ∷ [];
}

abbrev node_store : Watched
node_store = record { nav = nil; remote_sync_active = false; remote_sync_end = 0 }

abbrev saved : FileEvent
saved = record { now = 1_000_000_000 + 5; world = disk; path = text "/data/guides/a.md" }

-- A download that succeeds, and a repository that is never there.
abbrev pull_all : Text → Text → Text → World → Option Text × World
pull_all url src_type dir w = (none, w)

abbrev no_repository : Text → Text → World → PullResult × World
no_repository url dir w = (pull_error (text "no repository"), w)

is_no_git : All IsNoGit (listed (some synced_db))
unfolding list_startup_sync by_time insert_by_time detect_sync_type ◌==◌ has_suffix to_lower
is_no_git = (refl, tt)

seed-once_example :
    (db' : Db) × (seed named_config 20 (some empty_db) ≡ some db')
    × (seed named_config 30 (some db') ≡ some db')
    × ((key : Text)
        → get_setting key (some empty_db) ≢ []
        → get_setting key (some db') ≡ get_setting key (some empty_db))
    × (empty_db.startup_sync ≢ [] → db'.startup_sync ≡ empty_db.startup_sync)
    × All (λ s. get_setting s.0 (some db') ≡ [] → s.1 ≡ []) (settings_of named_config)
    × (named_config.startup_sync ≢ [] → db'.startup_sync ≢ [])
seed-once_example = seed-once named_config 20 30 empty_db

periodic_round-stale_example :
    (handle_events
      (saved ∷ [])
      (periodic_round pull_all no_repository
        (text "/data")
        5
        node_store
        disk
        (some synced_db)).0).nav
    ≡ nil
periodic_round-stale_example =
    periodic_round-stale pull_all no_repository (text "/data") 5 node_store disk synced_db
      (saved ∷ []) (omega arith) is_no_git ((omega arith, omega arith), tt)
