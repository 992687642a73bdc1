-- ===== src/Store/Update.antt =====
-- `loadSecurityData`, `UpdateFiles` and `Reload` of internal/store/store.go, without the lock that
-- they hold throughout. A `World` is what they read while they hold it: the rows of the registry,
-- the signer databases, and the disk.
pub mod Patch
pub mod Rebuild
use red_engine.Prelude.{
  ◌≡◌, Bool, true, false, not, ◌&&◌, Option, none, some, List, [], ◌∷◌, ◌++◌, if◌then◌else◌, ◌>>=◌,
}
use red_engine.Text.{Text, text, ◌==◌, has_prefix, trim_prefix, trim_suffix, to_lower}
use red_engine.Dict.{Dict, insert}
use red_engine.Go.FilePath.{clean, join_path, has_ext_md, dot}
use red_engine.Store.{Article, Sections, nil}
use red_engine.Store.Nav.{slash, split_path, insert_into_map, remove_from_map}
use red_engine.Store.Meta.{check_meta_files}
use red_engine.Store.Verify.{Platform, ManifestEntry, process_article}

pub record SignerRow : Type 0 where
  pub path : Text
  pub file_hash : Text
  pub public_key : Text
  pub signature : Text

-- A readable signer.db under a `.red-signer` directory: its vault's path from the data directory,
-- and its table `files`.
pub record SignerDb : Type 0 where
  pub rel_dir : Text
  pub files : List SignerRow

pub record World : Type 0 where
  pub platform : Platform
  -- SELECT public_key, name FROM trusted_authors WHERE revoked = 0
  pub trusted_authors : List (Text × Text)
  pub signers : List SignerDb
  -- the files that `filepath.WalkDir` visits, in its order
  pub files : List Text

unfoldable pub load_trusted_keys : Dict Text → List (Text × Text) → Dict Text
load_trusted_keys keys [] = keys
load_trusted_keys keys ((key, name) ∷ rows) =
    load_trusted_keys (insert (to_lower key) name keys) rows

abbrev pub full_key : Text → Text → Text
full_key rel_dir file_path =
    if not (rel_dir == dot) && not (has_prefix file_path (rel_dir ++ slash))
    then join_path rel_dir file_path
    else file_path

load_rows : Text → Dict ManifestEntry → List SignerRow → Dict ManifestEntry
load_rows rel_dir entries [] = entries
load_rows rel_dir entries (r ∷ rows) =
    let e : ManifestEntry = record {
      file_hash = r.file_hash;
      hash = r.file_hash;
      public_key = r.public_key;
      signature = r.signature;
    } in
    load_rows rel_dir (insert (full_key rel_dir r.path) e entries) rows

unfoldable pub load_signatures : Dict ManifestEntry → List SignerDb → Dict ManifestEntry
unfolding load_rows
load_signatures entries [] = entries
load_signatures entries (s ∷ dbs) = load_signatures (load_rows s.rel_dir entries s.files) dbs

-- `processArticle` with the security data of the world.
abbrev pub process : World → Text → Option (Article × List Text)
process w p =
    process_article w.platform p (load_trusted_keys [] w.trusted_authors)
      (load_signatures [] w.signers)

abbrev pub clean_path_of : Text → Text
clean_path_of rel = trim_suffix (trim_prefix rel slash) (text ".md")

-- The path of a changed file from the data directory; none for what `UpdateFiles` skips.
unfoldable pub changed_rel : World → Text → Option Text
changed_rel w p =
    if has_ext_md p
    then elim (w.platform.rel p) [
      | none ↦ none
      | some rel ↦ if has_prefix rel (text "..") then none else some rel
    ]
    else none

abbrev insert_processed : Sections → List Text → Option (Article × List Text) → Sections
insert_processed nav parts none = nav
insert_processed nav parts (some (art, _)) = insert_into_map nav parts art

-- One round of the loop of `UpdateFiles`.
unfoldable pub update_file : World → Sections → Text → Sections
update_file w nav changed =
    let p = clean changed in
    elim (changed_rel w p) [
      | none ↦ nav
      | some rel ↦
          let parts = split_path (clean_path_of rel) in
          insert_processed (remove_from_map nav parts) parts (process w p)
    ]

unfoldable pub update_files : World → Sections → List Text → Sections
unfolding update_file
update_files w nav [] = nav
update_files w nav (p ∷ ps) = update_files w (update_file w nav p) ps

-- One file of the walk of `Reload`.
unfoldable pub add_file : World → Sections → Text → Sections
add_file w nav p =
    if has_ext_md p
    then elim (process w p) [ none ↦ nav | some (art, parts) ↦ insert_into_map nav parts art ]
    else nav

unfoldable pub add_files : World → Sections → List Text → Sections
unfolding add_file
add_files w nav [] = nav
add_files w nav (p ∷ ps) = add_files w (add_file w nav p) ps

unfoldable pub reload : World → Sections
unfolding add_files check_meta_files
reload w = check_meta_files w.platform.exists w.platform.data_dir (add_files w nil w.files)
