-- ===== src/Navigation/Scan/Steps.antt =====
-- Every part of a scan of internal/navigation/scanner.go leaves valid tables, and only adds rows.
use red_engine.Prelude.{
  ℕ, refl, subst, sym, inl, inr, Option, none, some, List, [], ◌∷◌, ◌++◌, Bool-cases,
}
use red_engine.Text.{Text}
use red_engine.Go.FilePath.{slash}
use red_engine.Navigation.{NavDb, upsert_folder}
use red_engine.Navigation.Rows.{kept_folders, Grows-refl, Grows-trans}
use red_engine.Navigation.Valid.{IsId, HasPath, IsValidNav, IsId-append, HasPath-append}
use red_engine.Navigation.Upsert.{ParentIn, Step, upsert_folder-Step, upsert_guide-Step}
use red_engine.Navigation.Scan.{
  Entry, file, dir, Entries, nil, cons, Listing, unreadable, readable, File, is_dotted, md_files,
  guide_of, index_file, index_files, Counts, folder_of, scan_stored, scan_dir, scan_sub_dirs,
  scan_entry,
}

pub Step-refl : (db : NavDb) → IsValidNav db → Step db db
Step-refl db v = record { valid = v; grows = Grows-refl db }

pub Step-then : (a b c : NavDb) → Step a b → (IsValidNav b → Step b c) → Step a c
Step-then a b c s k =
    let t = k s.valid in record { valid = t.valid; grows = Grows-trans a b c s.grows t.grows }

pub IsId-Step :
    (id : ℕ) (a b : NavDb) → Step a b → IsId id (kept_folders a) → IsId id (kept_folders b)
IsId-Step id a b s h =
    subst (IsId id) (sym s.grows.folders_eq) (IsId-append id (kept_folders a) s.grows.new_folders h)

pub HasPath-Step :
    (path : Text) (a b : NavDb)
    → Step a b
    → HasPath path (kept_folders a)
    → HasPath path (kept_folders b)
HasPath-Step path a b s h =
    subst (HasPath path) (sym s.grows.folders_eq)
      (HasPath-append path (kept_folders a) s.grows.new_folders h)

pub index_file-Step :
    (id : ℕ) (rel name : Text) (mod_time : Option ℕ) (content : Option Text) (db : NavDb)
    → IsValidNav db
    → IsId id (kept_folders db)
    → Step db (index_file id rel name mod_time content db).1
unfolding index_file
index_file-Step id rel name mod_time none db v h = Step-refl db v
index_file-Step id rel name mod_time (some content) db v h =
    upsert_guide-Step id (guide_of rel name mod_time content) db v h

pub index_files-Step :
    (id : ℕ) (rel : Text) (files : List File) (db : NavDb)
    → IsValidNav db
    → IsId id (kept_folders db)
    → Step db (index_files id rel files db).1
unfolding index_files
index_files-Step id rel [] db v h = Step-refl db v
index_files-Step id rel (f ∷ files) db v h =
    let db1 = (index_file id rel f.name f.mod_time f.content db).1 in
    let step = index_file-Step id rel f.name f.mod_time f.content db v h in
    Step-then db db1 (index_files id rel files db1).1 step
      λ w. index_files-Step id rel files db1 w (IsId-Step id db db1 step h)

pub scan_stored-Step :
    (id : ℕ) (rel : Text) (files : List File) (scan_subs : ℕ → NavDb → Counts × NavDb) (db : NavDb)
    → IsValidNav db
    → IsId id (kept_folders db)
    → ((d : NavDb) → IsValidNav d → IsId id (kept_folders d) → Step d (scan_subs id d).1)
    → Step db (scan_stored (some id) rel files scan_subs db).1
unfolding scan_stored
scan_stored-Step id rel files scan_subs db v i scanned =
    let db1 = (index_files id rel files db).1 in
    let indexed = index_files-Step id rel files db v i in
    Step-then db db1 (scan_subs id db1).1 indexed λ w. scanned db1 w (IsId-Step id db db1 indexed i)

mutual
  unfolding scan_dir scan_sub_dirs scan_entry

  pub scan_dir-Step :
      (l : Listing) (rel content_type : Text) (parent_id : Option ℕ) (now : ℕ) (db : NavDb)
      → IsValidNav db
      → ParentIn db parent_id
      → Step db (scan_dir l rel content_type parent_id now db).1
  scan_dir-Step unreadable rel content_type parent_id now db v p = Step-refl db v
  scan_dir-Step (readable es) rel content_type parent_id now db v p =
      let f = folder_of rel content_type parent_id es in
      let (id, e, i, there, step) = upsert_folder-Step f now db v p in
      let db1 = (upsert_folder f now db).1 in
      let subs = λ (j : ℕ) (d : NavDb). scan_sub_dirs es rel content_type j now d in
      rw e (
        Step-then db db1 (scan_stored (some id) rel (md_files es) subs db1).1 step λ w.
          scan_stored-Step id rel (md_files es) subs db1 w i
            λ d w' i'. scan_sub_dirs-Step es rel content_type id now d w' i')

  pub scan_sub_dirs-Step :
      (es : Entries) (rel content_type : Text) (id now : ℕ) (db : NavDb)
      → IsValidNav db
      → IsId id (kept_folders db)
      → Step db (scan_sub_dirs es rel content_type id now db).1
  scan_sub_dirs-Step nil rel content_type id now db v i = Step-refl db v
  scan_sub_dirs-Step (cons e es) rel content_type id now db v i =
      let db1 = (scan_entry e rel content_type id now db).1 in
      let step = scan_entry-Step e rel content_type id now db v i in
      Step-then db db1 (scan_sub_dirs es rel content_type id now db1).1 step
        λ w. scan_sub_dirs-Step es rel content_type id now db1 w (IsId-Step id db db1 step i)

  pub scan_entry-Step :
      (e : Entry) (rel content_type : Text) (id now : ℕ) (db : NavDb)
      → IsValidNav db
      → IsId id (kept_folders db)
      → Step db (scan_entry e rel content_type id now db).1
  scan_entry-Step (file name content mod_time) rel content_type id now db v i = Step-refl db v
  scan_entry-Step (dir name l) rel content_type id now db v i = elim (Bool-cases (is_dotted name)) [
    | inl h ↦ rw h (Step-refl db v)
    | inr h ↦
        let scanned =
          scan_dir-Step l (rel ++ (slash ++ name)) content_type (some id) now db v
            (inr (id, refl, i)) in
        rw h scanned
  ]
