-- ===== src/Navigation/Scan/Complete.antt =====
-- A scan of internal/navigation/scanner.go stores and counts what the survey of its directory finds.
use red_engine.Prelude.{
  ℕ, suc, refl, ap, inl, inr, Option, none, some, List, [], ◌∷◌, ◌++◌, Bool-cases,
}
use red_engine.Text.{Text}
use red_engine.Go.FilePath.{slash}
use red_engine.Navigation.{NavDb, upsert_folder}
use red_engine.Navigation.Rows.{kept_folders}
use red_engine.Navigation.Valid.{IsId, HasPath, IsValidNav}
use red_engine.Navigation.Upsert.{ParentIn, Step, upsert_folder-Step, upsert_guide-HasGuide}
use red_engine.Navigation.Scan.{
  Entry, file, dir, Entries, nil, cons, Listing, unreadable, readable, File, is_dotted, md_files,
  guide_of, Counts, index_file, index_files, folder_of, scan_stored, scan_dir, scan_sub_dirs,
  scan_entry,
}
use red_engine.Navigation.Scan.Survey.{
  Survey, survey_file, survey_files, survey_folder, survey, survey_subs, survey_entry, Covered,
  Covered-nothing, Covered-add,
}
use red_engine.Navigation.Scan.Steps.{
  IsId-Step, HasPath-Step, index_file-Step, index_files-Step, scan_sub_dirs-Step, scan_entry-Step,
}

index_file-Covered :
    (id : ℕ) (rel name : Text) (mod_time : Option ℕ) (content : Option Text) (db : NavDb)
    → Covered
        (survey_file rel name content)
        (index_file id rel name mod_time content db).0
        (index_file id rel name mod_time content db).1
unfolding index_file guide_of
index_file-Covered id rel name mod_time none db = record {
  folders_counted = refl;
  guides_counted = refl;
  errors_told = refl;
  folders_stored = tt;
  guides_stored = tt;
}
index_file-Covered id rel name mod_time (some content) db = record {
  folders_counted = refl;
  guides_counted = refl;
  errors_told = refl;
  folders_stored = tt;
  guides_stored = (upsert_guide-HasGuide id (guide_of rel name mod_time content) db, tt);
}

index_files-Covered :
    (id : ℕ) (rel : Text) (files : List File) (db : NavDb)
    → IsValidNav db
    → IsId id (kept_folders db)
    → Covered
        (survey_files rel files)
        (index_files id rel files db).0
        (index_files id rel files db).1
unfolding survey_files index_files
index_files-Covered id rel [] db v h = Covered-nothing db
index_files-Covered id rel (f ∷ files) db v h =
    let (c, db1) = index_file id rel f.name f.mod_time f.content db in
    let step = index_file-Step id rel f.name f.mod_time f.content db v h in
    let i = IsId-Step id db db1 step h in
    let (d, db2) = index_files id rel files db1 in
    Covered-add (survey_file rel f.name f.content) (survey_files rel files) c d db1 db2
      (index_file-Covered id rel f.name f.mod_time f.content db)
      (index_files-Step id rel files db1 step.valid i)
      (index_files-Covered id rel files db1 step.valid i)

scan_stored-Covered :
    (id : ℕ) (rel : Text) (files : List File) (scan_subs : ℕ → NavDb → Counts × NavDb) (t : Survey)
    (db : NavDb)
    → IsValidNav db
    → IsId id (kept_folders db)
    → HasPath rel (kept_folders db)
    → ((d : NavDb) → IsValidNav d → IsId id (kept_folders d) → Step d (scan_subs id d).1)
    → ((d : NavDb)
        → IsValidNav d
        → IsId id (kept_folders d)
        → Covered t (scan_subs id d).0 (scan_subs id d).1)
    → Covered
        (survey_folder rel (survey_files rel files) t)
        (scan_stored (some id) rel files scan_subs db).0
        (scan_stored (some id) rel files scan_subs db).1
unfolding scan_stored
scan_stored-Covered id rel files scan_subs t db v i there stepped covered =
    let (c, db1) = index_files id rel files db in
    let step = index_files-Step id rel files db v i in
    let u = index_files-Covered id rel files db v i in
    let i1 = IsId-Step id db db1 step i in
    let s = survey_files rel files in
    let here : Covered (record s { folders = rel ∷ s.folders })
        (record c { folders = suc c.folders }) db1 =
      record {
        folders_counted = ap suc u.folders_counted;
        guides_counted = u.guides_counted;
        errors_told = u.errors_told;
        folders_stored = (HasPath-Step rel db db1 step there, u.folders_stored);
        guides_stored = u.guides_stored;
      } in
    Covered-add (record s { folders = rel ∷ s.folders }) t (record c { folders = suc c.folders })
      (scan_subs id db1).0 db1 (scan_subs id db1).1 here (stepped db1 step.valid i1)
      (covered db1 step.valid i1)

mutual
  unfolding survey survey_subs survey_entry scan_dir scan_sub_dirs scan_entry

  pub scan_dir-Covered :
      (l : Listing) (rel content_type : Text) (parent_id : Option ℕ) (now : ℕ) (db : NavDb)
      → IsValidNav db
      → ParentIn db parent_id
      → Covered
          (survey l rel)
          (scan_dir l rel content_type parent_id now db).0
          (scan_dir l rel content_type parent_id now db).1
  scan_dir-Covered unreadable rel content_type parent_id now db v p = record {
    folders_counted = refl;
    guides_counted = refl;
    errors_told = refl;
    folders_stored = tt;
    guides_stored = tt;
  }
  scan_dir-Covered (readable es) rel content_type parent_id now db v p =
      let f = folder_of rel content_type parent_id es in
      let (id, e, i, there, step) = upsert_folder-Step f now db v p in
      let db1 = (upsert_folder f now db).1 in
      let subs = λ (j : ℕ) (d : NavDb). scan_sub_dirs es rel content_type j now d in
      rw e (
        scan_stored-Covered id rel (md_files es) subs (survey_subs es rel) db1 step.valid i there
          (λ d w j. scan_sub_dirs-Step es rel content_type id now d w j)
          (λ d w j. scan_sub_dirs-Covered es rel content_type id now d w j))

  scan_sub_dirs-Covered :
      (es : Entries) (rel content_type : Text) (id now : ℕ) (db : NavDb)
      → IsValidNav db
      → IsId id (kept_folders db)
      → Covered
          (survey_subs es rel)
          (scan_sub_dirs es rel content_type id now db).0
          (scan_sub_dirs es rel content_type id now db).1
  scan_sub_dirs-Covered nil rel content_type id now db v i = Covered-nothing db
  scan_sub_dirs-Covered (cons e es) rel content_type id now db v i =
      let (c, db1) = scan_entry e rel content_type id now db in
      let step = scan_entry-Step e rel content_type id now db v i in
      let (d, db2) = scan_sub_dirs es rel content_type id now db1 in
      let i1 = IsId-Step id db db1 step i in
      Covered-add (survey_entry e rel) (survey_subs es rel) c d db1 db2
        (scan_entry-Covered e rel content_type id now db v i)
        (scan_sub_dirs-Step es rel content_type id now db1 step.valid i1)
        (scan_sub_dirs-Covered es rel content_type id now db1 step.valid i1)

  scan_entry-Covered :
      (e : Entry) (rel content_type : Text) (id now : ℕ) (db : NavDb)
      → IsValidNav db
      → IsId id (kept_folders db)
      → Covered
          (survey_entry e rel)
          (scan_entry e rel content_type id now db).0
          (scan_entry e rel content_type id now db).1
  scan_entry-Covered (file name content mod_time) rel content_type id now db v i =
      Covered-nothing db
  scan_entry-Covered (dir name l) rel content_type id now db v i =
      let scanned =
        scan_dir-Covered l (rel ++ (slash ++ name)) content_type (some id) now db v
          (inr (id, refl, i)) in
      elim (Bool-cases (is_dotted name)) [
        | inl h ↦ rw h (Covered-nothing db)
        | inr h ↦ rw h scanned
      ]
