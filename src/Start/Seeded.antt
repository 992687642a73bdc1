-- ===== src/Start/Seeded.antt =====
-- What cmd/red/main.go stores in the registry when the node starts: once, and over nothing that is
-- there.
use red_engine.Prelude.{
  ◌≡◌, ◌≢◌, refl, ◌∙◌, sym, false, not, ◌&&◌, some, List, [], ◌∷◌, arith, if◌then◌else◌, All,
  Bool-cases, inl, inr,
}
use red_engine.Text.{Text, ◌==◌, eq_iff}
use red_engine.Dict.{insert}
use red_engine.Registry.{Db, Registry}
use red_engine.Registry.Settings.{get_setting, set_setting, get-set_setting}
use red_engine.Start.{seed_setting, seed_settings}

-- There is nothing left to store for the setting.
abbrev pub IsSeeded : Text → Text → Registry → Type 0
IsSeeded key value registry = (get_setting key registry == [] && not (value == [])) ≡ false

seed_setting-same :
    (key value : Text) (registry : Registry)
    → IsSeeded key value registry
    → seed_setting key value registry ≡ registry
unfolding seed_setting
seed_setting-same key value registry h = rw h refl

get-seed_setting :
    (key value asked : Text) (db : Db)
    → get_setting asked (seed_setting key value (some db)) ≡ (
        if key == asked && (get_setting key (some db) == [] && not (value == []))
        then value
        else get_setting asked (some db))
unfolding seed_setting get_setting set_setting
get-seed_setting key value asked db =
    ground (arith, get-set_setting key asked value db, eq_iff key asked)

IsSeeded-self : (key value : Text) (db : Db) → IsSeeded key value (seed_setting key value (some db))
IsSeeded-self key value db = ground (arith, get-seed_setting key value key db, eq_iff key key)

IsSeeded-kept :
    (key value other new : Text) (db : Db)
    → IsSeeded key value (some db)
    → IsSeeded key value (seed_setting other new (some db))
IsSeeded-kept key value other new db h =
    ground (arith, get-seed_setting other new key db, eq_iff other key, eq_iff new [])

seed_setting-some :
    (key value : Text) (db : Db)
    → (db' : Db) × (seed_setting key value (some db) ≡ some db')
      × (db'.startup_sync ≡ db.startup_sync)
unfolding seed_setting set_setting
seed_setting-some key value db =
    elim (Bool-cases (get_setting key (some db) == [] && not (value == []))) [
      | inl e ↦ (
        record db { node_settings = insert key value db.node_settings },
        rw (seed_setting, e) refl,
        refl,
      )
      | inr e ↦ (db, rw (seed_setting, e) refl, refl)
    ]

-- What the settings that are stored leave behind.
pub record Seeds (settings : List (Text × Text)) (db db' : Db) : Type 0 where
  pub is_open : seed_settings settings (some db) ≡ some db'
  pub all_seeded : All (λ s. IsSeeded s.0 s.1 (some db')) settings
  pub seeded_kept :
      (key value : Text) → IsSeeded key value (some db) → IsSeeded key value (some db')
  pub value_kept :
      (key : Text)
      → get_setting key (some db) ≢ []
      → get_setting key (some db') ≡ get_setting key (some db)
  pub syncs_kept : db'.startup_sync ≡ db.startup_sync

value-seed_setting :
    (key value asked : Text) (db : Db)
    → get_setting asked (some db) ≢ []
    → get_setting asked (seed_setting key value (some db)) ≡ get_setting asked (some db)
value-seed_setting key value asked db h = ground (
  arith,
  get-seed_setting key value asked db,
  eq_iff key asked,
  eq_iff (get_setting key (some db)) [],
)

pub seeds : (settings : List (Text × Text)) (db : Db) → (db' : Db) × Seeds settings db db'
unfolding seed_settings
seeds [] db = (
  db,
  record {
    is_open = refl;
    all_seeded = tt;
    seeded_kept = λ key value h. h;
    value_kept = λ key h. refl;
    syncs_kept = refl;
  },
)
seeds ((key, value) ∷ settings) db =
    let (db1, e, same) = seed_setting-some key value db in
    let (db2, s) = seeds settings db1 in
    (
      db2,
      record {
        is_open = rw (seed_settings, e) s.is_open;
        all_seeded = (s.seeded_kept key value (rw e at (IsSeeded-self key value db)), s.all_seeded);
        seeded_kept = λ k v h. s.seeded_kept k v (rw e at (IsSeeded-kept k v key value db h));
        value_kept = λ k h.
            let kept : get_setting k (some db1) ≡ get_setting k (some db) =
              rw e at (value-seed_setting key value k db h) in
            s.value_kept k (λ z. h (sym kept ∙ z)) ∙ kept;
        syncs_kept = s.syncs_kept ∙ same;
      },
    )

pub seed_settings-done :
    (settings : List (Text × Text)) (registry : Registry)
    → All (λ s. IsSeeded s.0 s.1 registry) settings
    → seed_settings settings registry ≡ registry
unfolding seed_settings
seed_settings-done [] registry h = refl
seed_settings-done ((key, value) ∷ settings) registry (h, k) =
    rw (seed_settings, seed_setting-same key value registry h)
      (seed_settings-done settings registry k)
