-- ===== src/Navigation/Scan.antt =====
-- internal/navigation/scanner.go: `ScanDataDirectories` and `scanDir` over a tree of directories.
pub mod Steps
pub mod Survey
pub mod Complete
pub mod Whole
use mathlib.Core.List.{reverse}
use red_engine.Prelude.{
  ℕ, zero, suc, ◌+◌, Bool, true, false, not, ◌&&◌, ◌||◌, Option, none, some, List, [], ◌∷◌, ◌++◌,
  if◌then◌else◌, keep, length, ltb, leb, eqb, get_or,
}
use red_engine.Text.{Text, text, ◌==◌, has_prefix, trim_suffix, to_lower}
use red_engine.Go.FilePath.{base, slash}
use red_engine.Navigation.{Folder, Guide, NavDb, upsert_folder, upsert_guide, update_aggregates}
use red_engine.Navigation.Extract.{
  extract_first_paragraph, extract_first_heading, humanize_folder, count_words,
}

-- What os.ReadDir returns for a directory: nothing where it fails, else its entries in order. A
-- file has its content, if it can be read, and the time of its last change, if that is known.
mutual
  pub data Entry : Type 0 where
    file : Text → Option Text → Option ℕ → Entry
    dir : Text → Listing → Entry

  pub data Entries : Type 0 where
    nil : Entries
    cons : Entry → Entries → Entries

  pub data Listing : Type 0 where
    unreadable : Listing
    readable : Entries → Listing

pub record File : Type 0 where
  pub name : Text
  pub content : Option Text
  pub mod_time : Option ℕ

-- filepath.Ext: from the last dot of the last element.
abbrev ext_step : Text → Text → Text
ext_step acc [] = []
ext_step acc (c ∷ s) =
    let rest = ext_step (c ∷ acc) s in
    if eqb c b'.' then c ∷ acc else if eqb c b'/' then [] else rest

unfoldable pub ext : Text → Text
ext name = ext_step [] (reverse name)

abbrev pub equal_fold : Text → Text → Bool
equal_fold s t = to_lower s == to_lower t

abbrev pub is_dotted : Text → Bool
is_dotted name = has_prefix name (text ".")

abbrev pub is_md : Text → Bool
is_md name = equal_fold (ext name) (text ".md")

-- `mdFiles`, and the number of `subDirs`.
unfoldable pub md_files : Entries → List File
unfolding has_prefix ext to_lower ◌==◌
md_files nil = []
md_files (cons (file name content mod_time) es) =
    if not (is_dotted name) && is_md name
    then record { name = name; content = content; mod_time = mod_time } ∷ md_files es
    else md_files es
md_files (cons (dir name l) es) = md_files es

unfoldable pub count_sub_dirs : Entries → ℕ
unfolding has_prefix
count_sub_dirs nil = 0
count_sub_dirs (cons (file name content mod_time) es) = count_sub_dirs es
count_sub_dirs (cons (dir name l) es) = (if is_dotted name then 0 else 1) + count_sub_dirs es

abbrev pub is_leaf_folder : Entries → Bool
is_leaf_folder es = ltb 0 (length (md_files es)) && eqb (count_sub_dirs es) 0

-- The first index.md decides.
unfoldable pub index_description : List File → Text
unfolding to_lower ◌==◌ extract_first_paragraph
index_description [] = []
index_description (f ∷ files) =
    if equal_fold f.name (text "index.md")
    then elim f.content [ none ↦ [] | some content ↦ extract_first_paragraph content ]
    else index_description files

-- The numbers that `scanDir` returns, with its errors by the paths that they name.
pub data ScanError : Type 0 where
  read_failed upsert_failed : Text → ScanError

pub record Counts : Type 0 where
  pub folders : ℕ
  pub guides : ℕ
  pub errors : List ScanError

abbrev pub no_counts : Counts
no_counts = record { folders = 0; guides = 0; errors = [] }

abbrev pub add_counts : Counts → Counts → Counts
add_counts a b = record {
  folders = a.folders + b.folders;
  guides = a.guides + b.guides;
  errors = a.errors ++ b.errors;
}

unfoldable pub title_of : Text → Text → Text
unfolding extract_first_heading humanize_folder trim_suffix ext ◌==◌
title_of name content =
    let heading = extract_first_heading content in
    if heading == [] then humanize_folder (trim_suffix name (ext name)) else heading

unfoldable pub guide_of : Text → Text → Option ℕ → Text → Guide
unfolding title_of extract_first_paragraph count_words
guide_of rel name mod_time content = record {
  file_name = name;
  file_path = rel ++ (slash ++ name);
  title = title_of name content;
  preview = extract_first_paragraph content;
  word_count = count_words content;
  last_modified = mod_time;
}

-- The loop over `mdFiles`: a file that cannot be read is an error.
unfoldable pub index_file : ℕ → Text → Text → Option ℕ → Option Text → NavDb → Counts × NavDb
index_file id rel name mod_time none db =
    (record { folders = 0; guides = 0; errors = read_failed (rel ++ (slash ++ name)) ∷ [] }, db)
index_file id rel name mod_time (some content) db = (
  record { folders = 0; guides = 1; errors = [] },
  upsert_guide id (guide_of rel name mod_time content) db,
)

unfoldable pub index_files : ℕ → Text → List File → NavDb → Counts × NavDb
index_files id rel [] db = (no_counts, db)
index_files id rel (f ∷ files) db =
    let (c, db1) = index_file id rel f.name f.mod_time f.content db in
    let (d, db2) = index_files id rel files db1 in (add_counts c d, db2)

abbrev pub folder_of : Text → Text → Option ℕ → Entries → Folder
folder_of rel content_type parent_id es = record {
  path = rel;
  display_name = humanize_folder (base rel);
  description = index_description (md_files es);
  content_type = content_type;
  parent_id = parent_id;
  is_leaf = is_leaf_folder es;
}

-- The rest of `scanDir` behind its upsert: the files, then the subfolders.
unfoldable pub scan_stored :
    Option ℕ → Text → List File → (ℕ → NavDb → Counts × NavDb) → NavDb → Counts × NavDb
scan_stored none rel files scan_subs db =
    (record { folders = 0; guides = 0; errors = upsert_failed rel ∷ [] }, db)
scan_stored (some id) rel files scan_subs db =
    let (c, db1) = index_files id rel files db in
    let (d, db2) = scan_subs id db1 in (add_counts (record c { folders = suc c.folders }) d, db2)

-- `scanDir`, its loop over `subDirs`, and one round of that loop.
unfoldable mutual
  unfolding has_prefix

  pub scan_dir : Listing → Text → Text → Option ℕ → ℕ → NavDb → Counts × NavDb
  scan_dir unreadable rel content_type parent_id now db =
      (record { folders = 0; guides = 0; errors = read_failed rel ∷ [] }, db)
  scan_dir (readable es) rel content_type parent_id now db =
      let (id, db1) = upsert_folder (folder_of rel content_type parent_id es) now db in
      scan_stored id rel (md_files es) (λ i d. scan_sub_dirs es rel content_type i now d) db1

  pub scan_sub_dirs : Entries → Text → Text → ℕ → ℕ → NavDb → Counts × NavDb
  scan_sub_dirs nil rel content_type id now db = (no_counts, db)
  scan_sub_dirs (cons e es) rel content_type id now db =
      let (c, db1) = scan_entry e rel content_type id now db in
      let (d, db2) = scan_sub_dirs es rel content_type id now db1 in (add_counts c d, db2)

  pub scan_entry : Entry → Text → Text → ℕ → ℕ → NavDb → Counts × NavDb
  scan_entry (file name content mod_time) rel content_type id now db = (no_counts, db)
  scan_entry (dir name l) rel content_type id now db =
      let scanned = scan_dir l (rel ++ (slash ++ name)) content_type (some id) now db in
      if is_dotted name then (no_counts, db) else scanned

-- The loop of `ScanDataDirectories` over the entries of the data directory.
abbrev pub scan_vault : Entry → ℕ → NavDb → Counts × NavDb
scan_vault (file name content mod_time) now db = (no_counts, db)
scan_vault (dir name l) now db =
    if is_dotted name then (no_counts, db) else scan_dir l name name none now db

unfoldable pub scan_vaults : Entries → ℕ → NavDb → Counts × NavDb
unfolding has_prefix
scan_vaults nil now db = (no_counts, db)
scan_vaults (cons e es) now db =
    let (c, db1) = scan_vault e now db in
    let (d, db2) = scan_vaults es now db1 in (add_counts c d, db2)

-- None where the data directory cannot be read; then the transaction does not begin.
unfoldable pub scan_data_directories : Listing → ℕ → NavDb → Option Counts × NavDb
scan_data_directories unreadable now db = (none, db)
scan_data_directories (readable es) now db =
    let (c, db') = scan_vaults es now db in (some c, update_aggregates db')
