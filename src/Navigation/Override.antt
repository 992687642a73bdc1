-- ===== src/Navigation/Override.antt =====
-- `SetFolderDescription` of internal/navigation/db.go: the tables stay valid, and what an admin wrote
-- outlives every later scan.
use red_engine.Prelude.{
  ℕ, ◌<◌, ◌≡◌, refl, ap, ◌∙◌, inl, inr, Bool, some, List, [], ◌∷◌, ◌++◌, map, arith, if◌then◌else◌,
  find, eqb, All, All-map, Bool-cases,
}
use red_engine.Text.{Text, text}
use red_engine.Navigation.{FolderRow, NavDb, get_folder_by_id, describe, set_folder_description}
use red_engine.Navigation.Rows.{Kept, kept, kept_folders, kept_guides}
use red_engine.Navigation.Valid.{IsId, HasParent, IsValidNav}
use red_engine.Navigation.Scan.{Listing, scan_data_directories}
use red_engine.Navigation.Scan.Whole.{scan-Step}

module _ (id : ℕ) (d : Text) where
  abbrev described : FolderRow → FolderRow
  described r =
      if eqb r.id id then record r { description = d; description_source = text "override" } else r

  ids-describe :
      (rows : List FolderRow)
      → map (λ k. k.id) (map kept (describe id d rows)) ≡ map (λ k. k.id) (map kept rows)
  unfolding describe
  ids-describe [] = refl
  ids-describe (r ∷ rows) = elim (Bool-cases (eqb r.id id)) [
    | inl e ↦ rw e (ap (◌∷◌ r.id) (ids-describe rows))
    | inr e ↦ rw e (ap (◌∷◌ r.id) (ids-describe rows))
  ]

  paths-describe :
      (rows : List FolderRow)
      → map (λ k. k.path) (map kept (describe id d rows)) ≡ map (λ k. k.path) (map kept rows)
  unfolding describe
  paths-describe [] = refl
  paths-describe (r ∷ rows) = elim (Bool-cases (eqb r.id id)) [
    | inl e ↦ rw e (ap (◌∷◌ r.path) (paths-describe rows))
    | inr e ↦ rw e (ap (◌∷◌ r.path) (paths-describe rows))
  ]

  -- What holds of the ids, paths and parents is kept.
  All-describe :
      (P : Kept → Type 0) (rows : List FolderRow)
      → ((r : FolderRow)
          → P (kept r)
          → P (record (kept r) { description = d; description_source = text "override" }))
      → All P (map kept rows)
      → All P (map kept (describe id d rows))
  unfolding describe
  All-describe P [] f h = tt
  All-describe P (r ∷ rows) f (p, h) = elim (Bool-cases (eqb r.id id)) [
    | inl e ↦ rw e (f r p, All-describe P rows f h)
    | inr e ↦ rw e (p, All-describe P rows f h)
  ]

  IsId-describe :
      (i : ℕ) (rows : List FolderRow)
      → IsId i (map kept rows)
      → IsId i (map kept (describe id d rows))
  unfolding describe
  IsId-describe i [] h = absurd h
  IsId-describe i (r ∷ rows) h = elim (Bool-cases (eqb r.id id)) [
    | inl e ↦ rw e (elim h [ inl s ↦ inl s | inr k ↦ inr (IsId-describe i rows k) ])
    | inr e ↦ rw e (elim h [ inl s ↦ inl s | inr k ↦ inr (IsId-describe i rows k) ])
  ]

  HasParent-describe :
      (rows : List FolderRow) (k : Kept)
      → HasParent (map kept rows) k
      → HasParent (map kept (describe id d rows)) k
  HasParent-describe rows k (inl e) = inl e
  HasParent-describe rows k (inr (p, e, l, h)) = inr (p, e, l, IsId-describe p rows h)

  find-describe :
      (rows : List FolderRow)
      → IsId id (map kept rows)
      → (k : Kept) × (find (λ x. eqb x.id id) (map kept (describe id d rows)) ≡ some k)
        × (k.description ≡ d)
        × (k.description_source ≡ text "override")
  unfolding describe
  find-describe [] h = absurd h
  find-describe (r ∷ rows) h = elim (Bool-cases (eqb r.id id)) [
    | inl e ↦ rw e (rw e (kept (described r), ground arith, ground arith, ground arith))
    | inr e ↦ elim h [ inl s ↦ absurd (ground arith) | inr k ↦ rw e (rw e (find-describe rows k)) ]
  ]

-- Valid tables stay valid.
pub set_folder_description-IsValidNav :
    (id : ℕ) (d by : Text) (now : ℕ) (db : NavDb)
    → IsValidNav db
    → IsValidNav (set_folder_description id d by now db)
unfolding set_folder_description
set_folder_description-IsValidNav id d by now db v =
    let f = v.folders_valid in
    let rows = db.folders in
    record {
      folders_valid = record {
        ids_below = All-describe id d (λ k. k.id < db.next_folder_id) rows (λ r h. h) f.ids_below;
        ids_differ = rw ids-describe f.ids_differ;
        paths_differ = rw paths-describe f.paths_differ;
        parents =
            All-map (HasParent (map kept rows)) (HasParent (map kept (describe id d rows)))
              (map kept (describe id d rows)) (HasParent-describe id d rows)
              (All-describe id d (HasParent (map kept rows)) rows (λ r h. h) f.parents);
      };
      guides_valid = record {
        guides_differ = v.guides_valid.guides_differ;
        owners =
            All-map (λ g. IsId g.folder_id (map kept rows))
              (λ g. IsId g.folder_id (map kept (describe id d rows))) (kept_guides db)
              (λ g h. IsId-describe id d g.folder_id rows h) v.guides_valid.owners;
      };
    }

find-append {ℓ} :
    {A : Type ℓ} (p : A → Bool) (xs more : List A) (a : A)
    → find p xs ≡ some a
    → find p (xs ++ more) ≡ some a
find-append p [] more a h = cc
find-append p (x ∷ xs) more a h = elim (Bool-cases (p x)) [
  | inl e ↦ rw e (rw e at h)
  | inr e ↦ rw e (find-append p xs more a (rw e at h))
]

find-kept :
    (id : ℕ) (rows : List FolderRow) (k : Kept)
    → find (λ x. eqb x.id id) (map kept rows) ≡ some k
    → (r : FolderRow) × (find (λ x. eqb x.id id) rows ≡ some r) × (kept r ≡ k)
find-kept id [] k h = cc
find-kept id (r ∷ rows) k h = elim (Bool-cases (eqb r.id id)) [
  | inl e ↦ (r, rw e refl, cc (rw e at h))
  | inr e ↦ let (s, f, i) = find-kept id rows k (rw e at h) in (s, rw e f, i)
]

-- Once an admin has set the description of a folder, any later scan leaves it: the folder is still
-- found by its id, with that description, marked as an override.
pub get_folder_by_id-override :
    (id : ℕ) (d by : Text) (now later : ℕ) (l : Listing) (db : NavDb)
    → IsValidNav db
    → IsId id (kept_folders db)
    → (r : FolderRow) × (get_folder_by_id id
          (scan_data_directories l later (set_folder_description id d by now db)).1
        ≡ some r)
      × (r.description ≡ d)
      × (r.description_source ≡ text "override")
unfolding get_folder_by_id
get_folder_by_id-override id d by now later l db v h =
    let db1 = set_folder_description id d by now db in
    let db2 = (scan_data_directories l later db1).1 in
    let g = (scan-Step l later db1 (set_folder_description-IsValidNav id d by now db v)).grows in
    let (k, e, dd, ds) = find-describe id d db.folders h in
    let f : find (λ x. eqb x.id id) (kept_folders db1) ≡ some k =
      unfold set_folder_description in e in
    let found : find (λ x. eqb x.id id) (kept_folders db2) ≡ some k =
      rw (g.folders_eq)
        (find-append (λ (x : Kept). eqb x.id id) (kept_folders db1) g.new_folders k f) in
    let (r, fr, kr) = find-kept id db2.folders k found in
    (
      r,
      fr,
      ap (λ (x : Kept). x.description) kr ∙ dd,
      ap (λ (x : Kept). x.description_source) kr ∙ ds,
    )
