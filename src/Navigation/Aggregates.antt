-- ===== src/Navigation/Aggregates.antt =====
-- `updateAggregates` of internal/navigation/db.go: the numbers that it writes are the rows' numbers.
use red_engine.Prelude.{
  ℕ, ◌≡◌, refl, sym, ◌⊎◌, inl, inr, false, List, [], ◌∷◌, map, arith, All, Bool-cases,
}
use red_engine.Navigation.{
  FolderRow, GuideRow, NavDb, count_children, count_guides, with_child_count, with_guide_count,
  update_aggregates,
}
use red_engine.Navigation.Scan.{readable, Entries, scan_data_directories, scan_vaults}

count_children-child_count :
    (all_rows rows : List FolderRow) (id : ℕ)
    → count_children (map (with_child_count all_rows) rows) id ≡ count_children rows id
count_children-child_count all_rows [] id = refl
count_children-child_count all_rows (r ∷ rows) id =
    ground (arith, count_children-child_count all_rows rows id)

count_children-guide_count :
    (guides : List GuideRow) (rows : List FolderRow) (id : ℕ)
    → count_children (map (with_guide_count guides) rows) id ≡ count_children rows id
count_children-guide_count guides [] id = refl
count_children-guide_count guides (r ∷ rows) id = elim (Bool-cases r.is_leaf) [
  | inl e ↦ rw e (ground (arith, count_children-guide_count guides rows id))
  | inr e ↦ rw e (ground (arith, count_children-guide_count guides rows id))
]

-- The numbers of a folder agree with the tables; those of guides are kept for leaves only.
abbrev pub IsCounted : NavDb → FolderRow → Type 0
IsCounted db r =
    (r.child_count ≡ count_children db.folders r.id)
    × ((r.is_leaf ≡ false) ⊎ (r.guide_count ≡ count_guides db.guides r.id))

rows-IsCounted :
    (db : NavDb) (all_rows rows : List FolderRow)
    → ((id : ℕ) → count_children db.folders id ≡ count_children all_rows id)
    → All (IsCounted db) (map (with_guide_count db.guides) (map (with_child_count all_rows) rows))
rows-IsCounted db all_rows [] same = tt
rows-IsCounted db all_rows (r ∷ rows) same = elim (Bool-cases r.is_leaf) [
  | inl e ↦ rw e ((sym (same r.id), inr refl), rows-IsCounted db all_rows rows same)
  | inr e ↦ rw e ((sym (same r.id), inl refl), rows-IsCounted db all_rows rows same)
]

update_aggregates-IsCounted :
    (db : NavDb) → All (IsCounted (update_aggregates db)) (update_aggregates db).folders
unfolding update_aggregates
update_aggregates-IsCounted db = rows-IsCounted (update_aggregates db) db.folders db.folders λ id.
    unfold update_aggregates in
    (rw count_children-guide_count (count_children-child_count db.folders db.folders id))

-- After a scan of a readable data directory, whatever was in the tables before, the child count of
-- each folder is the number of folders that name it as their parent, and the guide count of each
-- leaf is the number of its guides.
pub scan-IsCounted :
    (es : Entries) (now : ℕ) (db : NavDb)
    → All
        (IsCounted (scan_data_directories (readable es) now db).1)
        (scan_data_directories (readable es) now db).1.folders
unfolding scan_data_directories
scan-IsCounted es now db = update_aggregates-IsCounted (scan_vaults es now db).1
