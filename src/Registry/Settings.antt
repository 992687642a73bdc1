-- ===== src/Registry/Settings.antt =====
-- `GetSetting` and `SetSetting` of internal/registry/registry.go.
use red_engine.Prelude.{◌≡◌, none, some, [], arith, if◌then◌else◌, get_or}
use red_engine.Text.{Text, ◌==◌}
use red_engine.Dict.{lookup, insert, lookup-insert}
use red_engine.Registry.{Db, Result, ok, Registry, exec}

-- The zero value "" stays where no row is scanned.
unfoldable pub get_setting : Text → Registry → Text
get_setting key none = []
get_setting key (some db) = get_or (lookup key db.node_settings) []

unfoldable pub set_setting : Text → Text → Registry → Result (Unit {0}) × Registry
set_setting key value =
    exec λ db. ok (record db { node_settings = insert key value db.node_settings })

-- In an open registry a setting reads back what was last written to it, and a write to another key
-- does not change it.
pub get-set_setting :
    (key asked value : Text) (db : Db)
    → get_setting asked (set_setting key value (some db)).1
      ≡ (if key == asked then value else get_setting asked (some db))
unfolding get_setting set_setting
get-set_setting key asked value db = ground (arith, lookup-insert key asked value db.node_settings)
