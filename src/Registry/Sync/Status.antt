-- ===== src/Registry/Sync/Status.antt =====
-- The startup syncs of internal/registry/registry.go as a map from file names.
use mathlib.Core.Option
use red_engine.Prelude.{
  ℕ, ◌≡◌, true, false, not, ◌&&◌, Option, none, some, List, [], ◌∷◌, ◌++◌, arith, if◌then◌else◌,
  inl, inr, refl, any, keep, Bool-cases, is_some, ◌↔◌,
}
use red_engine.Text.{Text, ◌==◌, eq_iff}
use red_engine.Registry.{SyncRow, Db, err, constraint, Registry, is_one_of, sync_statuses}
use red_engine.Registry.Sync.{
  has_filename, retargeted, marked, new_sync, retarget, add_startup_sync, mark, mark_sync_result,
  remove_startup_sync,
}

-- The row of a file, of the table's first.
unfoldable pub of_file : Text → List SyncRow → Option SyncRow
of_file filename [] = none
of_file filename (r ∷ rows) = if has_filename filename r then some r else of_file filename rows

any-of_file :
    (f : Text) (rows : List SyncRow) → any (has_filename f) rows ≡ false → of_file f rows ≡ none
unfolding of_file
any-of_file f [] h = refl
any-of_file f (r ∷ rows) h = ground (arith, any-of_file f rows)

any-of_file-some :
    (f : Text) (rows : List SyncRow)
    → any (has_filename f) rows ≡ true
    → (r : SyncRow) × (of_file f rows ≡ some r)
unfolding of_file
any-of_file-some f [] h = cc
any-of_file-some f (r ∷ rows) h = elim (Bool-cases (has_filename f r)) [
  | inl e ↦ (r, rw e refl)
  | inr e ↦ rw e (any-of_file-some f rows (ground arith))
]

of_file-append :
    (f : Text) (rows : List SyncRow) (r : SyncRow)
    → of_file f (rows ++ r ∷ []) ≡ (
        if any (has_filename f) rows
        then of_file f rows
        else if has_filename f r
        then some r
        else none)
unfolding of_file
of_file-append f [] r = refl
of_file-append f (o ∷ rows) r = ground (arith, of_file-append f rows r)

of_file-retarget :
    (url f q : Text) (rows : List SyncRow)
    → of_file q (retarget url f rows)
      ≡ (if f == q then Option.map (retargeted url) (of_file q rows) else of_file q rows)
unfolding of_file retarget
of_file-retarget url f q [] = ground arith
of_file-retarget url f q (r ∷ rows) =
    ground
      (arith, eq_iff f q, eq_iff r.filename f, eq_iff r.filename q, of_file-retarget url f q rows)

of_file-mark :
    (f status err_msg q : Text) (now : ℕ) (rows : List SyncRow)
    → of_file q (mark f status err_msg now rows)
      ≡ (if f == q then Option.map (marked status err_msg now) (of_file q rows) else of_file q rows)
unfolding of_file mark
of_file-mark f status err_msg q now [] = ground arith
of_file-mark f status err_msg q now (r ∷ rows) = ground (
  arith,
  eq_iff f q,
  eq_iff r.filename f,
  eq_iff r.filename q,
  of_file-mark f status err_msg q now rows,
)

of_file-keep :
    (f q : Text) (rows : List SyncRow)
    → of_file q (keep (λ r. not (has_filename f r)) rows)
      ≡ (if f == q then none else of_file q rows)
unfolding of_file
of_file-keep f q [] = ground arith
of_file-keep f q (r ∷ rows) =
    ground (arith, eq_iff f q, eq_iff r.filename f, eq_iff r.filename q, of_file-keep f q rows)

abbrev pub rows_of : Registry → List SyncRow
rows_of none = []
rows_of (some db) = db.startup_sync

-- Adding a sync keys it by its file name: a new name gets a pending row, of the type that its URL
-- shows; a known name keeps its status and its error, and gets the URL and its type. The syncs of
-- other names do not change.
pub of_file-add_startup_sync :
    (url f q : Text) (now : ℕ) (db : Db)
    → of_file q (rows_of (add_startup_sync url f now (some db)).1) ≡ (
        if f == q
        then some (elim (of_file f db.startup_sync) [
          | some r ↦ retargeted url r
          | none ↦ new_sync url f db.next_sync_id now
        ])
        else of_file q db.startup_sync)
unfolding add_startup_sync
of_file-add_startup_sync url f q now db = elim (Bool-cases (any (has_filename f) db.startup_sync)) [
  | inl known ↦
      let (r, e) = any-of_file-some f db.startup_sync known in
      ground (arith, of_file-retarget url f q db.startup_sync, eq_iff f q)
  | inr fresh ↦ ground (
    arith,
    any-of_file f db.startup_sync fresh,
    of_file-append q db.startup_sync (new_sync url f db.next_sync_id now),
    any-of_file q db.startup_sync,
    any-of_file-some q db.startup_sync,
    eq_iff f q,
  )
]

-- In an open registry a result is recorded for the sync of its file alone. It is refused exactly
-- when the file is known and the status is none of the schema's; then the sync of no file changes.
pub of_file-mark_sync_result :
    (f status err_msg q : Text) (now : ℕ) (db : Db)
    → let (reply, registry) = mark_sync_result f status err_msg now (some db) in
      ((reply ≡ err constraint)
        ↔ (is_some (of_file f db.startup_sync) ≡ true) × (is_one_of sync_statuses status ≡ false))
      × (of_file q (rows_of registry) ≡ (
          if f == q && is_one_of sync_statuses status
          then Option.map (marked status err_msg now) (of_file q db.startup_sync)
          else of_file q db.startup_sync))
unfolding mark_sync_result
of_file-mark_sync_result f status err_msg q now db =
    elim (Bool-cases (any (has_filename f) db.startup_sync)) [
      | inl known ↦
          let (r, e) = any-of_file-some f db.startup_sync known in
          ground (arith, of_file-mark f status err_msg q now db.startup_sync, eq_iff f q)
      | inr fresh ↦ ground (
        arith,
        any-of_file f db.startup_sync fresh,
        of_file-mark f status err_msg q now db.startup_sync,
        eq_iff f q,
      )
    ]

-- A removed sync is gone, whatever rows its name has, and no other is.
pub of_file-remove_startup_sync :
    (f q : Text) (db : Db)
    → of_file q (rows_of (remove_startup_sync f (some db)).1)
      ≡ (if f == q then none else of_file q db.startup_sync)
unfolding remove_startup_sync
of_file-remove_startup_sync f q db = of_file-keep f q db.startup_sync
