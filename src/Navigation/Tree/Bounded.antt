-- ===== src/Navigation/Tree/Bounded.antt =====
-- The recursion of `getChildren` of internal/navigation/db.go ends on valid tables.
use red_engine.Prelude.{
  ℕ, zero, suc, ◌+◌, ◌≤◌, ◌<◌, ◌≡◌, refl, inl, inr, Option, some, List, [], ◌∷◌, map, arith, keep,
  All, Bool-cases,
}
use red_engine.Text.{text_leb}
use red_engine.Navigation.{FolderRow, NavDb, has_parent}
use red_engine.Navigation.Rows.{kept}
use red_engine.Navigation.Valid.{HasParent, IsValidNav}
use red_engine.Navigation.Tree.{
  node, NavNodes, nil, cons, insert_named, by_name, children_rows, nodes_of, get_children,
}

module _ (P : FolderRow → Type 0) where
  All-insert_named :
      (r : FolderRow) (rows : List FolderRow) → P r → All P rows → All P (insert_named r rows)
  unfolding insert_named
  All-insert_named r [] p h = (p, tt)
  All-insert_named r (o ∷ rows) p (q, h) =
      elim (Bool-cases (text_leb r.display_name o.display_name)) [
        | inl e ↦ rw e (p, (q, h))
        | inr e ↦ rw e (q, All-insert_named r rows p h)
      ]

  All-by_name : (rows : List FolderRow) → All P rows → All P (by_name rows)
  unfolding by_name
  All-by_name [] h = tt
  All-by_name (r ∷ rows) (p, h) = All-insert_named r (by_name rows) p (All-by_name rows h)

-- A child has a larger id than its parent, below the next that is given.
abbrev Above : ℕ → ℕ → FolderRow → Type 0
Above id n r = (id < r.id) × (r.id < n)

keep-Above :
    (db : NavDb) (id : ℕ) (rows : List FolderRow)
    → All (λ k. k.id < db.next_folder_id) (map kept rows)
    → All (HasParent (map kept db.folders)) (map kept rows)
    → All (Above id db.next_folder_id) (keep (has_parent id) rows)
keep-Above db id [] b h = tt
keep-Above db id (r ∷ rows) (b, bs) (p, h) = elim (Bool-cases (has_parent id r)) [
  | inl e ↦ elim p [
    | inl s ↦ absurd (ground arith)
    | inr (q, s, l, i) ↦ rw e ((ground arith, b), keep-Above db id rows bs h)
  ]
  | inr e ↦ rw e (keep-Above db id rows bs h)
]

children_rows-Above :
    (db : NavDb) (id : ℕ) → IsValidNav db → All (Above id db.next_folder_id) (children_rows db id)
unfolding children_rows
children_rows-Above db id v =
    All-by_name (Above id db.next_folder_id) (keep (has_parent id) db.folders)
      (keep-Above db id db.folders v.folders_valid.ids_below v.folders_valid.parents)

nodes_of-some :
    (recur : ℕ → Option NavNodes) (id n : ℕ) (rows : List FolderRow)
    → ((i : ℕ) → id < i → i < n → (ns : NavNodes) × (recur i ≡ some ns))
    → All (Above id n) rows
    → (ns : NavNodes) × (nodes_of recur rows ≡ some ns)
unfolding nodes_of
nodes_of-some recur id n [] f h = (nil, refl)
nodes_of-some recur id n (r ∷ rows) f ((a, b), h) =
    let (rest, e) = nodes_of-some recur id n rows f h in
    elim (Bool-cases r.is_leaf) [
      | inl leaf ↦ (cons (node r nil) rest, simp (leaf, e))
      | inr inner ↦ let (sub, s) = f r.id a b in (cons (node r sub) rest, simp (inner, s, e))
    ]

-- With as much fuel as there are ids from the folder's to the next.
pub get_children-some :
    (fuel : ℕ) (db : NavDb) (id : ℕ)
    → IsValidNav db
    → id < db.next_folder_id
    → db.next_folder_id ≤ fuel + id
    → (ns : NavNodes) × (get_children fuel db id ≡ some ns)
unfolding get_children
get_children-some zero db id v l h = absurd (omega arith)
get_children-some (suc fuel) db id v l h =
    nodes_of-some (get_children fuel db) id db.next_folder_id (children_rows db id)
      (λ i a b. get_children-some fuel db i v b (omega arith)) (children_rows-Above db id v)
