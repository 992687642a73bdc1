-- ===== src/Start.antt =====
-- cmd/red/main.go and internal/config/config.go: the configuration over its defaults and the
-- environment, what a start stores in the registry, the startup syncs, and one round of
-- `periodicSync`; `PullDelta` of internal/fetch/fetch.go. The file and the environment, the downloads
-- and the clock are arguments. The listener and the logs are left out.
pub mod Seeded
pub mod Syncs
pub mod Once
pub mod Periodic
mod Tests
use red_engine.Prelude.{
  ℕ, Bool, true, false, not, ◌&&◌, Option, none, some, List, [], ◌∷◌, ◌++◌, if◌then◌else◌, ltb,
}
use red_engine.Text.{Text, text, ◌==◌}
use red_engine.Go.Strconv.{atoi}
use red_engine.Go.FilePath.{clean, base, join_path}
use red_engine.Registry.{PeerRow, SyncRow, Registry, Result, ok, err}
use red_engine.Registry.Settings.{get_setting, set_setting}
use red_engine.Registry.Sync.{
  detect_sync_type, add_startup_sync, mark_sync_result, list_startup_sync,
}
use red_engine.Store.{Sections}
use red_engine.Store.Update.{World, reload, update_files}
use red_engine.Store.Watch.{Watched, begin_remote_sync, end_remote_sync}

pub record RemoteSync : Type 0 where
  pub url : Text
  pub filename : Text

pub record Config : Type 0 where
  pub addr : Text
  pub data_dir : Text
  pub admin_token : Text
  pub webhook_secret : Text
  pub site_name : Text
  pub node_name : Text
  pub public_url : Text
  pub tunnel_type : Text
  pub node_description : Text
  pub startup_sync : List RemoteSync
  pub template_switch_depth : ℕ

abbrev pub default_config : Config
default_config = record {
  addr = text ":8080";
  data_dir = text "./data";
  admin_token = [];
  webhook_secret = [];
  site_name = [];
  node_name = [];
  public_url = [];
  tunnel_type = [];
  node_description = [];
  startup_sync = [];
  template_switch_depth = 2;
}

abbrev or_default : Option Config → Config
or_default none = default_config
or_default (some cfg) = cfg

abbrev depth_of : Text → ℕ → ℕ
depth_of v depth = elim (atoi v) [ none ↦ depth | some d ↦ if ltb 0 d then d else depth ]

-- A variable that is set replaces the value.
abbrev overridden : Text → Text → Text
overridden v value = if v == [] then value else v

-- A variable stands in for a value that is missing.
abbrev seeded_name : Text → Text → Text
seeded_name v value = if not (v == []) && value == [] then v else value

-- The configuration that the node runs with, from the file's, if it is read, and the environment.
unfoldable pub configure : (Text → Text) → Option Config → Config
unfolding atoi ◌==◌
configure getenv file =
    let cfg = or_default file in
    record cfg {
      template_switch_depth =
          depth_of (getenv (text "RED_TEMPLATE_DEPTH")) cfg.template_switch_depth;
      addr = overridden (getenv (text "RED_ADDR")) cfg.addr;
      data_dir = overridden (getenv (text "RED_DATA_DIR")) cfg.data_dir;
      admin_token = overridden (getenv (text "RED_ADMIN_TOKEN")) cfg.admin_token;
      webhook_secret = overridden (getenv (text "RED_WEBHOOK_SECRET")) cfg.webhook_secret;
      site_name = seeded_name (getenv (text "RED_SITE_NAME")) cfg.site_name;
      node_name = seeded_name (getenv (text "RED_NODE_NAME")) cfg.node_name;
    }

unfoldable pub add_syncs : List RemoteSync → ℕ → Registry → Registry
add_syncs [] now registry = registry
add_syncs (s ∷ syncs) now registry =
    add_syncs syncs now (add_startup_sync s.url s.filename now registry).1

-- A list that cannot be read is nil.
abbrev pub listed : Registry → List SyncRow
listed registry = elim (list_startup_sync registry) [ err e ↦ [] | ok rows ↦ rows ]

abbrev seed_into : List SyncRow → List RemoteSync → ℕ → Registry → Registry
seed_into [] syncs now registry = add_syncs syncs now registry
seed_into (r ∷ rows) syncs now registry = registry

unfoldable pub seed_syncs : List RemoteSync → ℕ → Registry → Registry
unfolding add_syncs
seed_syncs syncs now registry = seed_into (listed registry) syncs now registry

unfoldable pub seed_setting : Text → Text → Registry → Registry
unfolding get_setting set_setting
seed_setting key value registry =
    if get_setting key registry == [] && not (value == [])
    then (set_setting key value registry).1
    else registry

unfoldable pub seed_settings : List (Text × Text) → Registry → Registry
unfolding seed_setting
seed_settings [] registry = registry
seed_settings ((key, value) ∷ settings) registry =
    seed_settings settings (seed_setting key value registry)

abbrev pub settings_of : Config → List (Text × Text)
settings_of cfg =
    (text "site_name", cfg.site_name)
    ∷ (text "node_name", cfg.node_name)
    ∷ (text "public_url", cfg.public_url)
    ∷ (text "tunnel_type", cfg.tunnel_type)
    ∷ (text "node_description", cfg.node_description)
    ∷ []

-- The one-time migrations of the start.
unfoldable pub seed : Config → ℕ → Registry → Registry
unfolding seed_syncs seed_settings
seed cfg now registry = seed_settings (settings_of cfg) (seed_syncs cfg.startup_sync now registry)

-- filepath.Join(dataDir, filepath.Base(filepath.Clean(filename)))
abbrev pub dest_dir : Text → Text → Text
dest_dir data_dir filename = join_path data_dir (base (clean filename))

pub data PullResult : Type 0 where
  pull_error : Text → PullResult
  changed : List Text → PullResult

abbrev pub mark_pulled : Text → Option Text → ℕ → Registry → Registry
mark_pulled filename none now registry = (mark_sync_result filename (text "ok") [] now registry).1
mark_pulled filename (some e) now registry =
    (mark_sync_result filename (text "error") e now registry).1

-- `UpdateFiles` returns no error.
abbrev pub refresh_changed : World → List Text → Sections → Sections
refresh_changed w [] nav = nav
refresh_changed w (f ∷ files) nav = update_files w nav (f ∷ files)

-- `Pull` and `pullGit`, each given the URL and the directory: what they return, and the disk then.
module _ (pull : Text → Text → Text → World → Option Text × World)
    (pull_git : Text → Text → World → PullResult × World) where
  -- nil and an empty list are the same to the loop that appends them.
  unfoldable pub pull_delta : Text → Text → Text → World → PullResult × World
  pull_delta url src_type dir w =
      let (failure, w') = pull url src_type dir w in
      if src_type == text "git"
      then pull_git url dir w
      else (elim failure [ none ↦ changed [] | some e ↦ pull_error e ], w')

-- `data_dir` is the directory of the configuration.
module _ (pull : Text → Text → Text → World → Option Text × World)
    (pull_git : Text → Text → World → PullResult × World) (data_dir : Text) where
  -- The loop over the startup syncs, and the reload behind it.
  unfoldable pub startup_rows : List SyncRow → ℕ → World × Registry → World × Registry
  unfolding mark_sync_result
  startup_rows [] now state = state
  startup_rows (row ∷ rows) now (w, registry) =
      let (failure, w') =
        pull row.url (detect_sync_type row.url) (dest_dir data_dir row.filename) w in
      startup_rows rows now (w', mark_pulled row.filename failure now registry)

  unfoldable pub start : Config → ℕ → World → Registry → Sections × World × Registry
  unfolding seed startup_rows
  start cfg now w registry =
      let seeded = seed cfg now registry in
      let (w', registry') = startup_rows (listed seeded) now (w, seeded) in
      (reload w', w', registry')

  -- The loop of a round: the files that changed, the disk and the registry.
  unfoldable pub round_rows :
      List SyncRow → ℕ → List Text → World → Registry → List Text × World × Registry
  unfolding pull_delta mark_sync_result
  round_rows [] now all_changed w registry = (all_changed, w, registry)
  round_rows (row ∷ rows) now all_changed w registry =
      let (result, w') =
        pull_delta pull pull_git row.url (detect_sync_type row.url) (dest_dir data_dir row.filename)
          w in
      elim result [
        | pull_error e ↦
            round_rows rows now all_changed w' (mark_pulled row.filename (some e) now registry)
        | changed files ↦
            round_rows rows now (all_changed ++ files) w'
              (mark_pulled row.filename none now registry)
      ]

  -- One tick of `periodicSync`; the remote sync ends at `now`.
  unfoldable pub periodic_round : ℕ → Watched → World → Registry → Watched × World × Registry
  unfolding round_rows
  periodic_round now s w registry = elim (list_startup_sync registry) [
    | err e ↦ (s, w, registry)
    | ok rows ↦
        let (all_changed, w', registry') = round_rows rows now [] w registry in
        let ended = end_remote_sync now (begin_remote_sync s) in
        (record ended { nav = refresh_changed w' all_changed ended.nav }, w', registry')
  ]
