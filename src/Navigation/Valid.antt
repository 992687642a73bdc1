-- ===== src/Navigation/Valid.antt =====
-- The navigation tables of internal/navigation/db.go stay valid: ids and paths are unique, a parent
-- is a folder that was added before, and a guide belongs to a folder.
use red_engine.Prelude.{
  ℕ, suc, ◌<◌, ◌≡◌, refl, ◌≢◌, ◌⊎◌, inl, inr, true, false, none, some, List, [], ◌∷◌, ◌++◌, map,
  arith, any, find, All, All-snoc, All-map, Distinct, Distinct-snoc, Bool-cases, map-snoc,
}
use red_engine.Text.{Text, eq_iff}
use red_engine.Navigation.{FolderRow, GuideRow, NavDb, has_path, id_of, has_file_path}
use red_engine.Navigation.Rows.{Kept, KeptGuide, kept, kept_guide, kept_folders, kept_guides}

-- The id, or the path, is a folder's.
abbrev pub IsId : ℕ → List Kept → Type 0
IsId id [] = ⊥
IsId id (k ∷ ks) = (k.id ≡ id) ⊎ IsId id ks

abbrev pub HasPath : Text → List Kept → Type 0
HasPath path [] = ⊥
HasPath path (k ∷ ks) = (k.path ≡ path) ⊎ HasPath path ks

abbrev pub HasGuide : Text → List KeptGuide → Type 0
HasGuide path [] = ⊥
HasGuide path (g ∷ gs) = (g.file_path ≡ path) ⊎ HasGuide path gs

-- A parent has a smaller id, and it is there.
abbrev pub HasParent : List Kept → Kept → Type 0
HasParent ks k = (k.parent_id ≡ none) ⊎ ((p : ℕ) × (k.parent_id ≡ some p) × (p < k.id) × IsId p ks)

pub record IsValidFolders (ks : List Kept) (next_id : ℕ) : Type 0 where
  pub ids_below : All (λ k. k.id < next_id) ks
  pub ids_differ : Distinct (map (λ k. k.id) ks)
  pub paths_differ : Distinct (map (λ k. k.path) ks)
  pub parents : All (HasParent ks) ks

pub record IsValidGuides (ks : List Kept) (gs : List KeptGuide) : Type 0 where
  pub guides_differ : Distinct (map (λ g. g.file_path) gs)
  pub owners : All (λ g. IsId g.folder_id ks) gs

pub record IsValidNav (db : NavDb) : Type 0 where
  pub folders_valid : IsValidFolders (kept_folders db) db.next_folder_id
  pub guides_valid : IsValidGuides (kept_folders db) (kept_guides db)

pub IsId-append : (id : ℕ) (ks more : List Kept) → IsId id ks → IsId id (ks ++ more)
IsId-append id [] more h = absurd h
IsId-append id (k ∷ ks) more (inl e) = inl e
IsId-append id (k ∷ ks) more (inr h) = inr (IsId-append id ks more h)

IsId-snoc : (ks : List Kept) (k : Kept) → IsId k.id (ks ++ k ∷ [])
IsId-snoc [] k = inl refl
IsId-snoc (j ∷ ks) k = inr (IsId-snoc ks k)

pub HasPath-append :
    (path : Text) (ks more : List Kept) → HasPath path ks → HasPath path (ks ++ more)
HasPath-append path [] more h = absurd h
HasPath-append path (k ∷ ks) more (inl e) = inl e
HasPath-append path (k ∷ ks) more (inr h) = inr (HasPath-append path ks more h)

pub HasPath-snoc : (ks : List Kept) (k : Kept) → HasPath k.path (ks ++ k ∷ [])
HasPath-snoc [] k = inl refl
HasPath-snoc (j ∷ ks) k = inr (HasPath-snoc ks k)

IsId-lt : (id n : ℕ) (ks : List Kept) → IsId id ks → All (λ k. k.id < n) ks → id < n
IsId-lt id n [] h a = absurd h
IsId-lt id n (k ∷ ks) (inl e) (b, a) = omega arith
IsId-lt id n (k ∷ ks) (inr h) (b, a) = IsId-lt id n ks h a

HasParent-append : (ks more : List Kept) (k : Kept) → HasParent ks k → HasParent (ks ++ more) k
HasParent-append ks more k (inl e) = inl e
HasParent-append ks more k (inr (p, e, l, h)) = inr (p, e, l, IsId-append p ks more h)

id-fresh : (ks : List Kept) (n : ℕ) → All (λ k. k.id < n) ks → All (λ i. n ≢ i) (map (λ k. k.id) ks)
id-fresh [] n h = tt
id-fresh (k ∷ ks) n (l, h) = (λ e. absurd (omega arith), id-fresh ks n h)

-- A new folder whose parent is there, at a path that no folder has.
pub IsValidFolders-snoc :
    (ks : List Kept) (k : Kept)
    → IsValidFolders ks k.id
    → All (λ path. k.path ≢ path) (map (λ j. j.path) ks)
    → (k.parent_id ≡ none) ⊎ ((p : ℕ) × (k.parent_id ≡ some p) × IsId p ks)
    → IsValidFolders (ks ++ k ∷ []) (suc k.id)
IsValidFolders-snoc ks k v fresh parent = record {
  ids_below =
      All-snoc (λ j. j.id < suc k.id) ks k
        (All-map (λ j. j.id < k.id) (λ j. j.id < suc k.id) ks (λ j l. omega arith) v.ids_below)
        (omega arith);
  ids_differ = rw map-snoc (Distinct-snoc _ k.id v.ids_differ (id-fresh ks k.id v.ids_below));
  paths_differ = rw map-snoc (Distinct-snoc _ k.path v.paths_differ fresh);
  parents =
      All-snoc (HasParent (ks ++ k ∷ [])) ks k
        (All-map (HasParent ks) (HasParent (ks ++ k ∷ [])) ks (HasParent-append ks (k ∷ []))
          v.parents)
        (elim parent [
          | inl e ↦ inl e
          | inr (p, e, h) ↦ inr (p, e, IsId-lt p k.id ks h v.ids_below, IsId-append p ks (k ∷ []) h)
        ]);
}

pub IsValidGuides-more :
    (ks more : List Kept) (gs : List KeptGuide)
    → IsValidGuides ks gs
    → IsValidGuides (ks ++ more) gs
IsValidGuides-more ks more gs v = record {
  guides_differ = v.guides_differ;
  owners =
      All-map (λ g. IsId g.folder_id ks) (λ g. IsId g.folder_id (ks ++ more)) gs
        (λ g h. IsId-append g.folder_id ks more h) v.owners;
}

pub IsValidGuides-snoc :
    (ks : List Kept) (gs : List KeptGuide) (g : KeptGuide)
    → IsValidGuides ks gs
    → All (λ path. g.file_path ≢ path) (map (λ j. j.file_path) gs)
    → IsId g.folder_id ks
    → IsValidGuides ks (gs ++ g ∷ [])
IsValidGuides-snoc ks gs g v fresh owner = record {
  guides_differ = rw map-snoc (Distinct-snoc _ g.file_path v.guides_differ fresh);
  owners = All-snoc (λ j. IsId j.folder_id ks) gs g v.owners owner;
}

pub HasPath-of_any :
    (path : Text) (rows : List FolderRow)
    → any (has_path path) rows ≡ true
    → HasPath path (map kept rows)
HasPath-of_any path [] h = absurd (ground arith)
HasPath-of_any path (r ∷ rows) h = elim (Bool-cases (has_path path r)) [
  | inl e ↦ inl ((eq_iff r.path path).0 e)
  | inr e ↦ inr (HasPath-of_any path rows (ground arith))
]

pub paths-fresh :
    (path : Text) (rows : List FolderRow)
    → any (has_path path) rows ≡ false
    → All (λ p. path ≢ p) (map (λ k. k.path) (map kept rows))
paths-fresh path [] h = tt
paths-fresh path (r ∷ rows) h =
    (ground (arith, eq_iff r.path path), paths-fresh path rows (ground arith))

-- The SELECT behind the INSERT finds the row.
pub find-HasPath :
    (path : Text) (rows : List FolderRow)
    → HasPath path (map kept rows)
    → (id : ℕ) × (id_of (find (has_path path) rows) ≡ some id) × IsId id (map kept rows)
find-HasPath path [] h = absurd h
find-HasPath path (r ∷ rows) h = elim (Bool-cases (has_path path r)) [
  | inl e ↦ (r.id, rw e refl, inl refl)
  | inr e ↦ elim h [
    | inl s ↦ absurd (cc (e, (eq_iff r.path path).1 s))
    | inr k ↦ let (id, f, i) = find-HasPath path rows k in (id, rw e f, inr i)
  ]
]

pub file_paths-fresh :
    (path : Text) (rows : List GuideRow)
    → any (has_file_path path) rows ≡ false
    → All (λ p. path ≢ p) (map (λ g. g.file_path) (map kept_guide rows))
file_paths-fresh path [] h = tt
file_paths-fresh path (r ∷ rows) h =
    (ground (arith, eq_iff r.file_path path), file_paths-fresh path rows (ground arith))

pub HasGuide-append :
    (path : Text) (gs more : List KeptGuide) → HasGuide path gs → HasGuide path (gs ++ more)
HasGuide-append path [] more h = absurd h
HasGuide-append path (g ∷ gs) more (inl e) = inl e
HasGuide-append path (g ∷ gs) more (inr h) = inr (HasGuide-append path gs more h)

pub HasGuide-snoc : (gs : List KeptGuide) (g : KeptGuide) → HasGuide g.file_path (gs ++ g ∷ [])
HasGuide-snoc [] g = inl refl
HasGuide-snoc (j ∷ gs) g = inr (HasGuide-snoc gs g)

pub HasGuide-of_any :
    (path : Text) (rows : List GuideRow)
    → any (has_file_path path) rows ≡ true
    → HasGuide path (map kept_guide rows)
HasGuide-of_any path [] h = absurd (ground arith)
HasGuide-of_any path (r ∷ rows) h = elim (Bool-cases (has_file_path path r)) [
  | inl e ↦ inl ((eq_iff r.file_path path).0 e)
  | inr e ↦ inr (HasGuide-of_any path rows (ground arith))
]
