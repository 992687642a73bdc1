-- ===== src/Navigation/Scan/Survey.antt =====
-- What a scan of internal/navigation/scanner.go finds in a tree of directories, described with no
-- database: the folders, the guides and what cannot be read; and that `scanDir` counts and stores it.
use red_engine.Prelude.{
  ◌≡◌, refl, ap, subst, sym, ◌∙◌, Option, none, some, List, [], ◌∷◌, ◌++◌, arith, if◌then◌else◌,
  length, length-append, All, All-append, All-map,
}
use red_engine.Text.{Text}
use red_engine.Go.FilePath.{slash}
use red_engine.Navigation.{NavDb}
use red_engine.Navigation.Rows.{kept_folders, kept_guides}
use red_engine.Navigation.Valid.{HasPath, HasGuide, HasGuide-append}
use red_engine.Navigation.Upsert.{Step}
use red_engine.Navigation.Scan.{
  Entry, file, dir, Entries, nil, cons, Listing, unreadable, readable, File, is_dotted, md_files,
  ScanError, read_failed, Counts, no_counts, add_counts,
}
use red_engine.Navigation.Scan.Steps.{HasPath-Step}

pub record Survey : Type 0 where
  pub folders : List Text
  pub guides : List Text
  pub failed : List ScanError

abbrev pub nothing : Survey
nothing = record { folders = []; guides = []; failed = [] }

abbrev pub add : Survey → Survey → Survey
add s t = record {
  folders = s.folders ++ t.folders;
  guides = s.guides ++ t.guides;
  failed = s.failed ++ t.failed;
}

abbrev pub survey_file : Text → Text → Option Text → Survey
survey_file rel name none = record {
  folders = [];
  guides = [];
  failed = read_failed (rel ++ (slash ++ name)) ∷ [];
}
survey_file rel name (some content) = record {
  folders = [];
  guides = (rel ++ (slash ++ name)) ∷ [];
  failed = [];
}

unfoldable pub survey_files : Text → List File → Survey
survey_files rel [] = nothing
survey_files rel (f ∷ files) = add (survey_file rel f.name f.content) (survey_files rel files)

abbrev pub survey_folder : Text → Survey → Survey → Survey
survey_folder rel s t = add (record s { folders = rel ∷ s.folders }) t

unfoldable mutual
  pub survey : Listing → Text → Survey
  survey unreadable rel = record { folders = []; guides = []; failed = read_failed rel ∷ [] }
  survey (readable es) rel = survey_folder rel (survey_files rel (md_files es)) (survey_subs es rel)

  pub survey_subs : Entries → Text → Survey
  survey_subs nil rel = nothing
  survey_subs (cons e es) rel = add (survey_entry e rel) (survey_subs es rel)

  pub survey_entry : Entry → Text → Survey
  survey_entry (file name content mod_time) rel = nothing
  survey_entry (dir name l) rel =
      let below = survey l (rel ++ (slash ++ name)) in if is_dotted name then nothing else below

-- The numbers are the survey's, and its folders and guides are in the tables.
pub record Covered (s : Survey) (c : Counts) (db : NavDb) : Type 0 where
  pub folders_counted : c.folders ≡ length s.folders
  pub guides_counted : c.guides ≡ length s.guides
  pub errors_told : c.errors ≡ s.failed
  pub folders_stored : All (λ p. HasPath p (kept_folders db)) s.folders
  pub guides_stored : All (λ p. HasGuide p (kept_guides db)) s.guides

HasGuide-Step :
    (path : Text) (a b : NavDb)
    → Step a b
    → HasGuide path (kept_guides a)
    → HasGuide path (kept_guides b)
HasGuide-Step path a b s h =
    subst (HasGuide path) (sym s.grows.guides_eq)
      (HasGuide-append path (kept_guides a) s.grows.new_guides h)

pub Covered-Step :
    (s : Survey) (c : Counts) (a b : NavDb) → Step a b → Covered s c a → Covered s c b
Covered-Step s c a b step u = record {
  folders_counted = u.folders_counted;
  guides_counted = u.guides_counted;
  errors_told = u.errors_told;
  folders_stored =
      All-map (λ p. HasPath p (kept_folders a)) (λ p. HasPath p (kept_folders b)) s.folders
        (λ p h. HasPath-Step p a b step h) u.folders_stored;
  guides_stored =
      All-map (λ p. HasGuide p (kept_guides a)) (λ p. HasGuide p (kept_guides b)) s.guides
        (λ p h. HasGuide-Step p a b step h) u.guides_stored;
}

pub Covered-nothing : (db : NavDb) → Covered nothing no_counts db
Covered-nothing db = record {
  folders_counted = refl;
  guides_counted = refl;
  errors_told = refl;
  folders_stored = tt;
  guides_stored = tt;
}

pub Covered-add :
    (s t : Survey) (c d : Counts) (a b : NavDb)
    → Covered s c a
    → Step a b
    → Covered t d b
    → Covered (add s t) (add_counts c d) b
Covered-add s t c d a b u step v = record {
  folders_counted =
      omega (arith, length-append s.folders t.folders, u.folders_counted, v.folders_counted);
  guides_counted =
      omega (arith, length-append s.guides t.guides, u.guides_counted, v.guides_counted);
  errors_told = ap (λ l. l ++ d.errors) u.errors_told ∙ ap (λ l. s.failed ++ l) v.errors_told;
  folders_stored =
      All-append (λ p. HasPath p (kept_folders b)) s.folders t.folders
        (Covered-Step s c a b step u).folders_stored v.folders_stored;
  guides_stored =
      All-append (λ p. HasGuide p (kept_guides b)) s.guides t.guides
        (Covered-Step s c a b step u).guides_stored v.guides_stored;
}
