-- ===== src/Navigation/Upsert.antt =====
-- What `upsertFolder` and `upsertGuide` of internal/navigation/db.go do to valid tables.
use red_engine.Prelude.{
  ℕ, suc, ◌≡◌, refl, sym, ap, subst, ◌∙◌, ◌⊎◌, inl, inr, Option, none, some, List, [], ◌∷◌, ◌++◌,
  map, append-nil, any, Bool-cases,
}
use red_engine.Navigation.{
  NavDb, Folder, Guide, has_path, new_folder, store_folder, upsert_folder, has_file_path,
  upsert_guide, update_aggregates,
}
use red_engine.Navigation.Rows.{
  Kept, KeptGuide, kept, kept_guide, kept_folders, kept_guides, Grows, kept-update_aggregates,
  kept-store_folder_known, kept-store_folder_new, kept-upsert_guide_known, kept-upsert_guide_new,
}
use red_engine.Navigation.Valid.{
  IsId, HasPath, HasGuide, HasGuide-snoc, HasGuide-of_any, IsValidFolders, IsValidGuides,
  IsValidNav, HasPath-of_any, HasPath-snoc, paths-fresh, file_paths-fresh, find-HasPath,
  IsValidFolders-snoc, IsValidGuides-more, IsValidGuides-snoc,
}

abbrev pub ParentIn : NavDb → Option ℕ → Type 0
ParentIn db parent = (parent ≡ none) ⊎ ((p : ℕ) × (parent ≡ some p) × IsId p (kept_folders db))

-- The tables stay valid, and rows are only added.
pub record Step (db db' : NavDb) : Type 0 where
  pub valid : IsValidNav db'
  pub grows : Grows db db'

-- Tables with these folders and guides.
IsValidNav-of_eq :
    (ks : List Kept) (gs : List KeptGuide) (n : ℕ) (db : NavDb)
    → kept_folders db ≡ ks
    → kept_guides db ≡ gs
    → db.next_folder_id ≡ n
    → IsValidFolders ks n
    → IsValidGuides ks gs
    → IsValidNav db
IsValidNav-of_eq ks gs n db e f k v w = record {
  folders_valid =
      subst (λ m. IsValidFolders (kept_folders db) m) (sym k)
        (subst (λ l. IsValidFolders l n) (sym e) v);
  guides_valid =
      subst (λ m. IsValidGuides (kept_folders db) m) (sym f)
        (subst (λ l. IsValidGuides l gs) (sym e) w);
}

store_folder-Step :
    (f : Folder) (now : ℕ) (db : NavDb)
    → IsValidNav db
    → ParentIn db f.parent_id
    → Step db (store_folder f now db) × HasPath f.path (kept_folders (store_folder f now db))
store_folder-Step f now db v parent = elim (Bool-cases (any (has_path f.path) db.folders)) [
  | inl known ↦
      let (e, n, g) = kept-store_folder_known f now db known in
      (
        record {
          valid =
              IsValidNav-of_eq (kept_folders db) (kept_guides db) db.next_folder_id
                (store_folder f now db) e (ap (map kept_guide) g) n v.folders_valid v.guides_valid;
          grows = record {
            new_folders = [];
            new_guides = [];
            folders_eq = e ∙ sym (append-nil (kept_folders db));
            guides_eq = ap (map kept_guide) g ∙ sym (append-nil (kept_guides db));
          };
        },
        subst (HasPath f.path) (sym e) (HasPath-of_any f.path db.folders known),
      )
  | inr new ↦
      let k = kept (new_folder f db.next_folder_id now) in
      let (e, n, g) = kept-store_folder_new f now db new in
      (
        record {
          valid =
              IsValidNav-of_eq (kept_folders db ++ k ∷ []) (kept_guides db) (suc db.next_folder_id)
                (store_folder f now db) e (ap (map kept_guide) g) n
                (IsValidFolders-snoc (kept_folders db) k v.folders_valid
                  (paths-fresh f.path db.folders new) parent)
                (IsValidGuides-more (kept_folders db) (k ∷ []) (kept_guides db) v.guides_valid);
          grows = record {
            new_folders = k ∷ [];
            new_guides = [];
            folders_eq = e;
            guides_eq = ap (map kept_guide) g ∙ sym (append-nil (kept_guides db));
          };
        },
        subst (HasPath f.path) (sym e) (HasPath-snoc (kept_folders db) k),
      )
]

-- `upsertFolder` finds the row that it wrote: its id is a folder's, and the folder is there.
pub upsert_folder-Step :
    (f : Folder) (now : ℕ) (db : NavDb)
    → IsValidNav db
    → ParentIn db f.parent_id
    → (id : ℕ) × ((upsert_folder f now db).0 ≡ some id)
      × IsId id (kept_folders (upsert_folder f now db).1)
      × HasPath f.path (kept_folders (upsert_folder f now db).1)
      × Step db (upsert_folder f now db).1
unfolding upsert_folder
upsert_folder-Step f now db v parent =
    let (step, there) = store_folder-Step f now db v parent in
    let (id, e, i) = find-HasPath f.path (store_folder f now db).folders there in
    (id, e, i, there, step)

pub upsert_guide-Step :
    (id : ℕ) (g : Guide) (db : NavDb)
    → IsValidNav db
    → IsId id (kept_folders db)
    → Step db (upsert_guide id g db)
upsert_guide-Step id g db v owner = elim (Bool-cases (any (has_file_path g.file_path) db.guides)) [
  | inl known ↦
      let (e, f, n) = kept-upsert_guide_known id g db known in
      record {
        valid =
            IsValidNav-of_eq (kept_folders db) (kept_guides db) db.next_folder_id
              (upsert_guide id g db) (ap (map kept) f) e n v.folders_valid v.guides_valid;
        grows = record {
          new_folders = [];
          new_guides = [];
          folders_eq = ap (map kept) f ∙ sym (append-nil (kept_folders db));
          guides_eq = e ∙ sym (append-nil (kept_guides db));
        };
      }
  | inr new ↦
      let k : KeptGuide = record {
        id = db.next_guide_id;
        folder_id = id;
        file_path = g.file_path;
      } in
      let (e, f, n) = kept-upsert_guide_new id g db new in
      record {
        valid =
            IsValidNav-of_eq (kept_folders db) (kept_guides db ++ k ∷ []) db.next_folder_id
              (upsert_guide id g db) (ap (map kept) f) e n v.folders_valid
              (IsValidGuides-snoc (kept_folders db) (kept_guides db) k v.guides_valid
                (file_paths-fresh g.file_path db.guides new) owner);
        grows = record {
          new_folders = [];
          new_guides = k ∷ [];
          folders_eq = ap (map kept) f ∙ sym (append-nil (kept_folders db));
          guides_eq = e;
        };
      }
]

pub update_aggregates-Step : (db : NavDb) → IsValidNav db → Step db (update_aggregates db)
update_aggregates-Step db v =
    let e = kept-update_aggregates db in
    record {
      valid =
          IsValidNav-of_eq (kept_folders db) (kept_guides db) db.next_folder_id
            (update_aggregates db) e (unfold update_aggregates in refl)
            (unfold update_aggregates in refl) v.folders_valid v.guides_valid;
      grows = record {
        new_folders = [];
        new_guides = [];
        folders_eq = e ∙ sym (append-nil (kept_folders db));
        guides_eq = unfold update_aggregates in sym (append-nil (kept_guides db));
      };
    }

-- The guide is there afterwards.
pub upsert_guide-HasGuide :
    (id : ℕ) (g : Guide) (db : NavDb) → HasGuide g.file_path (kept_guides (upsert_guide id g db))
upsert_guide-HasGuide id g db = elim (Bool-cases (any (has_file_path g.file_path) db.guides)) [
  | inl known ↦
      subst (HasGuide g.file_path) (sym (kept-upsert_guide_known id g db known).0)
        (HasGuide-of_any g.file_path db.guides known)
  | inr new ↦
      let k : KeptGuide = record {
        id = db.next_guide_id;
        folder_id = id;
        file_path = g.file_path;
      } in
      subst (HasGuide g.file_path) (sym (kept-upsert_guide_new id g db new).0)
        (HasGuide-snoc (kept_guides db) k)
]
