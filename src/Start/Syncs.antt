-- ===== src/Start/Syncs.antt =====
-- The startup syncs that cmd/red/main.go stores from the configuration: only into an empty table.
use red_engine.Prelude.{
  ℕ, suc, ◌≡◌, ◌≢◌, refl, ◌∙◌, true, some, List, [], ◌∷◌, ◌++◌, Bool-cases, any, inl, inr, ◌⊎◌, leb,
}
use red_engine.Text.{Text}
use red_engine.Registry.{Db, SyncRow}
use red_engine.Registry.Sync.{
  add_startup_sync, list_startup_sync, by_time, insert_by_time, has_filename, new_sync, retarget,
}
use red_engine.Start.{RemoteSync, add_syncs, seed_syncs}

-- The first startup syncs that are stored.
record AddsSyncs (syncs : List RemoteSync) (now : ℕ) (db db' : Db) : Type 0 where
  is_open : add_syncs syncs now (some db) ≡ some db'
  settings_kept : db'.node_settings ≡ db.node_settings
  has_syncs : db.startup_sync ≢ [] → db'.startup_sync ≢ []
  stores : syncs ≢ [] → db'.startup_sync ≢ []

append_one-ne : (rows : List SyncRow) (r : SyncRow) → rows ++ r ∷ [] ≢ []
append_one-ne [] r h = cc
append_one-ne (o ∷ rows) r h = cc

retarget-ne :
    (url filename : Text) (rows : List SyncRow)
    → any (has_filename filename) rows ≡ true
    → retarget url filename rows ≢ []
unfolding retarget
retarget-ne url filename [] h k = cc
retarget-ne url filename (r ∷ rows) h k = cc

add_startup_sync-some :
    (url filename : Text) (now : ℕ) (db : Db)
    → (db' : Db) × ((add_startup_sync url filename now (some db)).1 ≡ some db')
      × (db'.node_settings ≡ db.node_settings)
      × (db'.startup_sync ≢ [])
unfolding add_startup_sync
add_startup_sync-some url filename now db =
    elim (Bool-cases (any (has_filename filename) db.startup_sync)) [
      | inl e ↦ (
        record db { startup_sync = retarget url filename db.startup_sync },
        rw (add_startup_sync, e) refl,
        refl,
        retarget-ne url filename db.startup_sync e,
      )
      | inr e ↦ (
        record db {
          startup_sync = db.startup_sync ++ new_sync url filename db.next_sync_id now ∷ [];
          next_sync_id = suc db.next_sync_id;
        },
        rw (add_startup_sync, e) refl,
        refl,
        append_one-ne db.startup_sync (new_sync url filename db.next_sync_id now),
      )
    ]

adds_syncs : (syncs : List RemoteSync) (now : ℕ) (db : Db) → (db' : Db) × AddsSyncs syncs now db db'
unfolding add_syncs
adds_syncs [] now db = (
  db,
  record {
    is_open = refl;
    settings_kept = refl;
    has_syncs = λ h. h;
    stores = λ h. absurd (h refl);
  },
)
adds_syncs (s ∷ syncs) now db =
    let (db1, e, same, ne) = add_startup_sync-some s.url s.filename now db in
    let (db2, a) = adds_syncs syncs now db1 in
    (
      db2,
      record {
        is_open = rw (add_syncs, e) a.is_open;
        settings_kept = a.settings_kept ∙ same;
        has_syncs = λ h. a.has_syncs ne;
        stores = λ h. a.has_syncs ne;
      },
    )

insert_by_time-ne : (r : SyncRow) (rows : List SyncRow) → insert_by_time r rows ≢ []
unfolding insert_by_time
insert_by_time-ne r [] h = cc
insert_by_time-ne r (o ∷ rows) h = elim (Bool-cases (leb r.added_at o.added_at)) [
  | inl e ↦ cc (rw (insert_by_time, e) at h)
  | inr e ↦ cc (rw (insert_by_time, e) at h)
]

list-cases :
    (l : List SyncRow) → (l ≡ []) ⊎ ((r : SyncRow) × (rows : List SyncRow) × (l ≡ r ∷ rows))
list-cases [] = inl refl
list-cases (r ∷ rows) = inr (r, rows, refl)

by_time-ne : (rows : List SyncRow) → rows ≢ [] → by_time rows ≢ []
unfolding by_time
by_time-ne [] h k = h refl
by_time-ne (r ∷ rows) h k = insert_by_time-ne r (by_time rows) k

seed_syncs-empty :
    (syncs : List RemoteSync) (now : ℕ) (db : Db)
    → db.startup_sync ≡ []
    → seed_syncs syncs now (some db) ≡ add_syncs syncs now (some db)
unfolding list_startup_sync by_time seed_syncs add_syncs
seed_syncs-empty syncs now db h = rw (seed_syncs, list_startup_sync, h, by_time) refl

-- Rows that are there are left alone.
pub seed_syncs-kept :
    (syncs : List RemoteSync) (now : ℕ) (db : Db)
    → db.startup_sync ≢ []
    → seed_syncs syncs now (some db) ≡ some db
unfolding seed_syncs list_startup_sync
seed_syncs-kept syncs now db h = elim (list-cases (by_time db.startup_sync)) [
  | inl e ↦ absurd (by_time-ne db.startup_sync h e)
  | inr (r, rows, e) ↦ rw (seed_syncs, list_startup_sync, e) refl
]

pub record SeedsSyncs (syncs : List RemoteSync) (now : ℕ) (db db' : Db) : Type 0 where
  pub is_open : seed_syncs syncs now (some db) ≡ some db'
  pub settings_kept : db'.node_settings ≡ db.node_settings
  pub rows_kept : db.startup_sync ≢ [] → db'.startup_sync ≡ db.startup_sync
  pub stores : syncs ≢ [] → db'.startup_sync ≢ []

pub seeds_syncs :
    (syncs : List RemoteSync) (now : ℕ) (db : Db) → (db' : Db) × SeedsSyncs syncs now db db'
seeds_syncs syncs now db = elim (list-cases db.startup_sync) [
  | inl e ↦
      let (db', a) = adds_syncs syncs now db in
      (
        db',
        record {
          is_open = seed_syncs-empty syncs now db e ∙ a.is_open;
          settings_kept = a.settings_kept;
          rows_kept = λ h. absurd (h e);
          stores = a.stores;
        },
      )
  | inr (r, rows, e) ↦ (
    db,
    record {
      is_open = seed_syncs-kept syncs now db (λ k. cc);
      settings_kept = refl;
      rows_kept = λ h. refl;
      stores = λ h k. cc;
    },
  )
]

-- What was stored once is not stored again.
pub seed_syncs-done :
    (syncs : List RemoteSync) (now : ℕ) (db : Db)
    → (syncs ≢ [] → db.startup_sync ≢ [])
    → seed_syncs syncs now (some db) ≡ some db
seed_syncs-done syncs now db h = elim (list-cases db.startup_sync) [
  | inl e ↦ nothing syncs h e
  | inr (r, rows, e) ↦ seed_syncs-kept syncs now db (λ k. cc)
]
  where
    nothing :
        (l : List RemoteSync)
        → (l ≢ [] → db.startup_sync ≢ [])
        → db.startup_sync ≡ []
        → seed_syncs l now (some db) ≡ some db
    nothing [] k e = seed_syncs-empty [] now db e ∙ unfold add_syncs in refl
    nothing (s ∷ l) k e = absurd (k (λ m. cc) e)
