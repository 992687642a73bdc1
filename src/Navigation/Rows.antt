-- ===== src/Navigation/Rows.antt =====
-- The rows of the navigation tables of internal/navigation/db.go that a scan never changes: a folder
-- keeps its id, path, parent and description, a guide its id, folder and path.
use red_engine.Prelude.{
  ℕ, suc, ◌≡◌, refl, sym, ap, ◌∙◌, inl, inr, true, false, Option, List, [], ◌∷◌, ◌++◌, map,
  append-nil, append_assoc, any, Bool-cases, map-snoc,
}
use red_engine.Text.{Text}
use red_engine.Navigation.{
  FolderRow, GuideRow, NavDb, Folder, Guide, has_path, new_folder, rescan, store_folder,
  has_file_path, reindex, upsert_guide, with_child_count, with_guide_count, update_aggregates,
}

pub record Kept : Type 0 where
  pub id : ℕ
  pub path : Text
  pub parent_id : Option ℕ
  pub description : Text
  pub description_source : Text

pub record KeptGuide : Type 0 where
  pub id : ℕ
  pub folder_id : ℕ
  pub file_path : Text

abbrev pub kept : FolderRow → Kept
kept r = record {
  id = r.id;
  path = r.path;
  parent_id = r.parent_id;
  description = r.description;
  description_source = r.description_source;
}

abbrev pub kept_guide : GuideRow → KeptGuide
kept_guide g = record { id = g.id; folder_id = g.folder_id; file_path = g.file_path }

abbrev pub kept_folders : NavDb → List Kept
kept_folders db = map kept db.folders

abbrev pub kept_guides : NavDb → List KeptGuide
kept_guides db = map kept_guide db.guides

-- Rows are only added.
pub record Grows (db db' : NavDb) : Type 0 where
  pub new_folders : List Kept
  pub new_guides : List KeptGuide
  pub folders_eq : kept_folders db' ≡ kept_folders db ++ new_folders
  pub guides_eq : kept_guides db' ≡ kept_guides db ++ new_guides

pub Grows-refl : (db : NavDb) → Grows db db
Grows-refl db = record {
  new_folders = [];
  new_guides = [];
  folders_eq = sym (append-nil _);
  guides_eq = sym (append-nil _);
}

pub Grows-trans : (a b c : NavDb) → Grows a b → Grows b c → Grows a c
Grows-trans a b c g h = record {
  new_folders = g.new_folders ++ h.new_folders;
  new_guides = g.new_guides ++ h.new_guides;
  folders_eq =
      h.folders_eq
      ∙ ap (λ l. l ++ h.new_folders) g.folders_eq
      ∙ append_assoc (kept_folders a) g.new_folders h.new_folders;
  guides_eq =
      h.guides_eq
      ∙ ap (λ l. l ++ h.new_guides) g.guides_eq
      ∙ append_assoc (kept_guides a) g.new_guides h.new_guides;
}

kept-rescan :
    (f : Folder) (now : ℕ) (rows : List FolderRow) → map kept (rescan f now rows) ≡ map kept rows
unfolding rescan
kept-rescan f now [] = refl
kept-rescan f now (r ∷ rows) = elim (Bool-cases (has_path f.path r)) [
  | inl e ↦ rw e (ap (◌∷◌ (kept r)) (kept-rescan f now rows))
  | inr e ↦ rw e (ap (◌∷◌ (kept r)) (kept-rescan f now rows))
]

kept_guide-reindex :
    (g : Guide) (rows : List GuideRow) → map kept_guide (reindex g rows) ≡ map kept_guide rows
unfolding reindex
kept_guide-reindex g [] = refl
kept_guide-reindex g (r ∷ rows) = elim (Bool-cases (has_file_path g.file_path r)) [
  | inl e ↦ rw e (ap (◌∷◌ (kept_guide r)) (kept_guide-reindex g rows))
  | inr e ↦ rw e (ap (◌∷◌ (kept_guide r)) (kept_guide-reindex g rows))
]

kept-with_child_count :
    (all_rows rows : List FolderRow)
    → map kept (map (with_child_count all_rows) rows) ≡ map kept rows
kept-with_child_count all_rows [] = refl
kept-with_child_count all_rows (r ∷ rows) = ap (◌∷◌ (kept r)) (kept-with_child_count all_rows rows)

kept-with_guide_count :
    (guides : List GuideRow) (rows : List FolderRow)
    → map kept (map (with_guide_count guides) rows) ≡ map kept rows
kept-with_guide_count guides [] = refl
kept-with_guide_count guides (r ∷ rows) = elim (Bool-cases r.is_leaf) [
  | inl e ↦ rw e (ap (◌∷◌ (kept r)) (kept-with_guide_count guides rows))
  | inr e ↦ rw e (ap (◌∷◌ (kept r)) (kept-with_guide_count guides rows))
]

pub kept-update_aggregates : (db : NavDb) → kept_folders (update_aggregates db) ≡ kept_folders db
unfolding update_aggregates
kept-update_aggregates db =
    kept-with_guide_count db.guides (map (with_child_count db.folders) db.folders)
    ∙ kept-with_child_count db.folders db.folders

-- An upsert adds the folder as a new row, or adds nothing where its path is known.
pub kept-store_folder_known :
    (f : Folder) (now : ℕ) (db : NavDb)
    → any (has_path f.path) db.folders ≡ true
    → (kept_folders (store_folder f now db) ≡ kept_folders db)
      × ((store_folder f now db).next_folder_id ≡ db.next_folder_id)
      × ((store_folder f now db).guides ≡ db.guides)
unfolding store_folder
kept-store_folder_known f now db h = rw h (kept-rescan f now db.folders, refl, refl)

pub kept-store_folder_new :
    (f : Folder) (now : ℕ) (db : NavDb)
    → any (has_path f.path) db.folders ≡ false
    → (kept_folders (store_folder f now db)
        ≡ kept_folders db ++ kept (new_folder f db.next_folder_id now) ∷ [])
      × ((store_folder f now db).next_folder_id ≡ suc db.next_folder_id)
      × ((store_folder f now db).guides ≡ db.guides)
unfolding store_folder
kept-store_folder_new f now db h = rw h (map-snoc kept db.folders _, refl, refl)

pub kept-upsert_guide_known :
    (id : ℕ) (g : Guide) (db : NavDb)
    → any (has_file_path g.file_path) db.guides ≡ true
    → (kept_guides (upsert_guide id g db) ≡ kept_guides db)
      × ((upsert_guide id g db).folders ≡ db.folders)
      × ((upsert_guide id g db).next_folder_id ≡ db.next_folder_id)
unfolding upsert_guide
kept-upsert_guide_known id g db h = rw h (kept_guide-reindex g db.guides, refl, refl)

pub kept-upsert_guide_new :
    (id : ℕ) (g : Guide) (db : NavDb)
    → any (has_file_path g.file_path) db.guides ≡ false
    → (kept_guides (upsert_guide id g db)
        ≡ kept_guides db
          ++ record { id = db.next_guide_id; folder_id = id; file_path = g.file_path } ∷ [])
      × ((upsert_guide id g db).folders ≡ db.folders)
      × ((upsert_guide id g db).next_folder_id ≡ db.next_folder_id)
unfolding upsert_guide
kept-upsert_guide_new id g db h = rw h (map-snoc kept_guide db.guides _, refl, refl)
