-- ===== src/Start/Once.antt =====
-- The one-time migrations of cmd/red/main.go as a whole.
use red_engine.Prelude.{ℕ, ◌≡◌, ◌≢◌, ap, ◌∙◌, get_or, All, All-map, arith, sym, some, []}
use red_engine.Text.{Text, eq_iff}
use red_engine.Dict.{lookup}
use red_engine.Registry.{Db, Registry}
use red_engine.Registry.Settings.{get_setting}
use red_engine.Start.{Config, settings_of, seed}
use red_engine.Start.Seeded.{IsSeeded, seeds, seed_settings-done}
use red_engine.Start.Syncs.{seeds_syncs, seed_syncs-done}

get_setting-same :
    (key : Text) (db db' : Db)
    → db'.node_settings ≡ db.node_settings
    → get_setting key (some db') ≡ get_setting key (some db)
unfolding get_setting
get_setting-same key db db' e = ap (λ m. get_or (lookup key m) []) e

nothing_left :
    (key value : Text) (registry : Registry)
    → IsSeeded key value registry
    → get_setting key registry ≡ []
    → value ≡ []
nothing_left key value registry h k =
    ground (arith, eq_iff (get_setting key registry) [], eq_iff value [])

-- The one-time migrations of a configuration into an open registry, before any startup sync is
-- pulled: made again with the same configuration they change nothing, a setting that is there keeps
-- its value, and a table of startup syncs that holds any is left as it is; and after them no setting
-- of the configuration that is not empty is missing in the registry, nor are there no startup syncs
-- where the configuration has any.
pub seed-once :
    (cfg : Config) (now later : ℕ) (db : Db)
    → (db' : Db) × (seed cfg now (some db) ≡ some db')
      × (seed cfg later (some db') ≡ some db')
      × ((key : Text)
          → get_setting key (some db) ≢ []
          → get_setting key (some db') ≡ get_setting key (some db))
      × (db.startup_sync ≢ [] → db'.startup_sync ≡ db.startup_sync)
      × All (λ s. get_setting s.0 (some db') ≡ [] → s.1 ≡ []) (settings_of cfg)
      × (cfg.startup_sync ≢ [] → db'.startup_sync ≢ [])
unfolding seed
seed-once cfg now later db =
    let (db1, a) = seeds_syncs cfg.startup_sync now db in
    let (db2, s) = seeds (settings_of cfg) db1 in
    (
      db2,
      rw (seed, a.is_open) s.is_open,
      rw
          (
            seed,
            seed_syncs-done cfg.startup_sync later db2 (λ h k. a.stores h (sym s.syncs_kept ∙ k)),
          )
          (seed_settings-done (settings_of cfg) (some db2) s.all_seeded),
      λ key h.
          let kept = get_setting-same key db db1 a.settings_kept in
          s.value_kept key (λ k. h (sym kept ∙ k)) ∙ kept,
      λ h. s.syncs_kept ∙ a.rows_kept h,
      All-map (λ s. IsSeeded s.0 s.1 (some db2)) (λ s. get_setting s.0 (some db2) ≡ [] → s.1 ≡ [])
          (settings_of cfg) (λ s h k. nothing_left s.0 s.1 (some db2) h k) s.all_seeded,
      λ h k. a.stores h (sym s.syncs_kept ∙ k),
    )
