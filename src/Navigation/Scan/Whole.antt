-- ===== src/Navigation/Scan/Whole.antt =====
-- `ScanDataDirectories` of internal/navigation/scanner.go as a whole.
use red_engine.Prelude.{
  ℕ, ◌≡◌, refl, inl, inr, true, none, some, List, [], ◌∷◌, map, arith, if◌then◌else◌, any, eqb,
  keep, length, All, Bool-cases,
}
use red_engine.Navigation.{
  FolderRow, NavDb, update_aggregates, is_orphan, orphans, verify_navigation_db,
}
use red_engine.Navigation.Rows.{kept}
use red_engine.Navigation.Valid.{IsId, HasParent, IsValidNav}
use red_engine.Navigation.Upsert.{Step, update_aggregates-Step}
use red_engine.Navigation.Scan.{
  Entry, file, dir, Entries, nil, cons, Listing, unreadable, readable, is_dotted, Counts,
  scan_vault, scan_vaults, scan_data_directories,
}
use red_engine.Navigation.Scan.Survey.{
  Survey, nothing, add, survey, Covered, Covered-nothing, Covered-add, Covered-Step,
}
use red_engine.Navigation.Scan.Complete.{scan_dir-Covered}
use red_engine.Navigation.Scan.Steps.{scan_dir-Step, Step-then, Step-refl}

-- The vaults: the directories of the data directory that are not hidden.
abbrev pub survey_vault : Entry → Survey
survey_vault (file name content mod_time) = nothing
survey_vault (dir name l) = if is_dotted name then nothing else survey l name

unfoldable pub survey_vaults : Entries → Survey
survey_vaults nil = nothing
survey_vaults (cons e es) = add (survey_vault e) (survey_vaults es)

scan_vault-Step :
    (e : Entry) (now : ℕ) (db : NavDb) → IsValidNav db → Step db (scan_vault e now db).1
scan_vault-Step (file name content mod_time) now db v = Step-refl db v
scan_vault-Step (dir name l) now db v = elim (Bool-cases (is_dotted name)) [
  | inl h ↦ rw h (Step-refl db v)
  | inr h ↦ rw h (scan_dir-Step l name name none now db v (inl refl))
]

scan_vault-Covered :
    (e : Entry) (now : ℕ) (db : NavDb)
    → IsValidNav db
    → Covered (survey_vault e) (scan_vault e now db).0 (scan_vault e now db).1
scan_vault-Covered (file name content mod_time) now db v = Covered-nothing db
scan_vault-Covered (dir name l) now db v = elim (Bool-cases (is_dotted name)) [
  | inl h ↦ rw h (Covered-nothing db)
  | inr h ↦ rw h (scan_dir-Covered l name name none now db v (inl refl))
]

scan_vaults-Step :
    (es : Entries) (now : ℕ) (db : NavDb) → IsValidNav db → Step db (scan_vaults es now db).1
unfolding scan_vaults
scan_vaults-Step nil now db v = Step-refl db v
scan_vaults-Step (cons e es) now db v =
    let db1 = (scan_vault e now db).1 in
    Step-then db db1 (scan_vaults es now db1).1 (scan_vault-Step e now db v)
      λ w. scan_vaults-Step es now db1 w

scan_vaults-Covered :
    (es : Entries) (now : ℕ) (db : NavDb)
    → IsValidNav db
    → Covered (survey_vaults es) (scan_vaults es now db).0 (scan_vaults es now db).1
unfolding scan_vaults survey_vaults
scan_vaults-Covered nil now db v = Covered-nothing db
scan_vaults-Covered (cons e es) now db v =
    let (c, db1) = scan_vault e now db in
    let (d, db2) = scan_vaults es now db1 in
    let step = scan_vault-Step e now db v in
    Covered-add (survey_vault e) (survey_vaults es) c d db1 db2 (scan_vault-Covered e now db v)
      (scan_vaults-Step es now db1 step.valid) (scan_vaults-Covered es now db1 step.valid)

-- Any scan, of any data directory, of valid tables: ids and paths stay unique, each parent is a
-- folder of a smaller id, each guide has a folder. No row goes away, and a folder keeps its id,
-- path, parent and description, also one that an admin wrote; a guide keeps its id and folder.
pub scan-Step :
    (l : Listing) (now : ℕ) (db : NavDb)
    → IsValidNav db
    → Step db (scan_data_directories l now db).1
unfolding scan_data_directories
scan-Step unreadable now db v = Step-refl db v
scan-Step (readable es) now db v =
    let db1 = (scan_vaults es now db).1 in
    Step-then db db1 (update_aggregates db1) (scan_vaults-Step es now db v)
      λ w. update_aggregates-Step db1 w

-- A scan of a readable data directory on valid tables ends with a result. Its numbers are those of
-- the folders and guides below the vaults, its errors are what could not be read there, in order;
-- and each of these folders and guides is in the tables afterwards.
pub scan-Covered :
    (es : Entries) (now : ℕ) (db : NavDb)
    → IsValidNav db
    → (c : Counts) × ((scan_data_directories (readable es) now db).0 ≡ some c)
      × Covered (survey_vaults es) c (scan_data_directories (readable es) now db).1
unfolding scan_data_directories
scan-Covered es now db v =
    let (c, db1) = scan_vaults es now db in
    let step = scan_vaults-Step es now db v in
    (
      c,
      refl,
      Covered-Step (survey_vaults es) c db1 (update_aggregates db1)
          (update_aggregates-Step db1 step.valid) (scan_vaults-Covered es now db v),
    )

any-IsId :
    (id : ℕ) (rows : List FolderRow) → IsId id (map kept rows) → any (λ x. eqb x.id id) rows ≡ true
any-IsId id [] h = absurd h
any-IsId id (r ∷ rows) (inl e) = ground arith
any-IsId id (r ∷ rows) (inr h) = ground (arith, any-IsId id rows h)

no_orphans :
    (all_rows rows : List FolderRow)
    → All (HasParent (map kept all_rows)) (map kept rows)
    → length (keep (is_orphan all_rows) rows) ≡ 0
no_orphans all_rows [] h = refl
no_orphans all_rows (r ∷ rows) (p, h) = elim p [
  | inl e ↦ ground (arith, no_orphans all_rows rows h)
  | inr (q, e, l, i) ↦ ground (arith, no_orphans all_rows rows h, any-IsId q all_rows i)
]

-- After any scan of valid tables VerifyNavigationDB reports no orphaned folder.
pub verify_navigation_db-scan :
    (l : Listing) (now : ℕ) (db : NavDb)
    → IsValidNav db
    → verify_navigation_db (scan_data_directories l now db).1 ≡ none
unfolding verify_navigation_db orphans
verify_navigation_db-scan l now db v =
    let db' = (scan_data_directories l now db).1 in
    let step = scan-Step l now db v in
    rw (no_orphans db'.folders db'.folders step.valid.folders_valid.parents) refl
