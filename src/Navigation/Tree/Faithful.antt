-- ===== src/Navigation/Tree/Faithful.antt =====
-- The tree of `GetNavigationTree` of internal/navigation/db.go: it is there for any path, does not
-- depend on the fuel, and holds each folder below its parent.
use red_engine.Prelude.{
  ℕ, zero, suc, ◌+◌, ◌<◌, ◌≡◌, refl, ap, subst, ◌⊎◌, inl, inr, true, false, Option, none, some,
  List, [], ◌∷◌, map, arith, find, All, Bool-cases, Option-cases, >>=-eq-some,
}
use red_engine.Text.{Text}
use red_engine.Navigation.{FolderRow, NavDb, has_path}
use red_engine.Navigation.Rows.{kept}
use red_engine.Navigation.Valid.{IsValidNav}
use red_engine.Navigation.Tree.{
  NavNode, node, NavNodes, nil, cons, children_rows, sub_nodes, nodes_of, get_children,
  get_navigation_tree,
}
use red_engine.Navigation.Tree.Bounded.{get_children-some}

-- The rows of a list of nodes.
unfoldable pub rows_of : NavNodes → List FolderRow
rows_of nil = []
rows_of (cons (node r sub) ns) = r ∷ rows_of ns

-- A leaf has no children; the children of another node are the folders that name it as their parent,
-- ordered by display name, and so on below.
unfoldable mutual
  pub IsTree : NavDb → NavNode → Type 0
  IsTree db (node r ns) =
      let below = AreTrees db ns in
      elim r.is_leaf [ true ↦ ns ≡ nil | false ↦ (rows_of ns ≡ children_rows db r.id) × below ]

  pub AreTrees : NavDb → NavNodes → Type 0
  AreTrees db nil = Unit
  AreTrees db (cons n ns) = IsTree db n × AreTrees db ns

abbrev AreBelow : NavDb → ℕ → NavNodes → Type 0
AreBelow db id ns = (rows_of ns ≡ children_rows db id) × AreTrees db ns

sub_nodes-IsTree :
    (db : NavDb) (recur : ℕ → Option NavNodes) (r : FolderRow) (sub : NavNodes)
    → ((i : ℕ) (ms : NavNodes) → recur i ≡ some ms → AreBelow db i ms)
    → sub_nodes recur r ≡ some sub
    → IsTree db (node r sub)
unfolding IsTree
sub_nodes-IsTree db recur r sub f h = elim (Bool-cases r.is_leaf) [
  | inl leaf ↦ ground (arith, leaf)
  | inr inner ↦ ground (arith, inner, f r.id sub)
]

nodes_of-AreTrees :
    (db : NavDb) (recur : ℕ → Option NavNodes) (rows : List FolderRow) (ns : NavNodes)
    → ((i : ℕ) (ms : NavNodes) → recur i ≡ some ms → AreBelow db i ms)
    → nodes_of recur rows ≡ some ns
    → (rows_of ns ≡ rows) × AreTrees db ns
unfolding nodes_of rows_of AreTrees
nodes_of-AreTrees db recur [] ns f h =
    let empty : nil ≡ ns = cc h in subst (λ m. (rows_of m ≡ []) × AreTrees db m) empty (refl, tt)
nodes_of-AreTrees db recur (r ∷ rows) ns f h =
    let (sub, e, h') = >>=-eq-some (sub_nodes recur r) _ h in
    let (rest, e', h'') = >>=-eq-some (nodes_of recur rows) _ h' in
    let (same, trees) = nodes_of-AreTrees db recur rows rest f e' in
    let built : cons (node r sub) rest ≡ ns = cc h'' in
    subst (λ m. (rows_of m ≡ r ∷ rows) × AreTrees db m) built
      (ap (◌∷◌ r) same, (sub_nodes-IsTree db recur r sub f e, trees))

get_children-AreBelow :
    (fuel : ℕ) (db : NavDb) (id : ℕ) (ns : NavNodes)
    → get_children fuel db id ≡ some ns
    → AreBelow db id ns
unfolding get_children
get_children-AreBelow zero db id ns h = absurd (cc h)
get_children-AreBelow (suc fuel) db id ns h =
    nodes_of-AreTrees db (get_children fuel db) (children_rows db id) ns
      (get_children-AreBelow fuel db) h

-- More fuel changes nothing.
nodes_of-more :
    (recur more : ℕ → Option NavNodes) (rows : List FolderRow) (ns : NavNodes)
    → ((i : ℕ) (ms : NavNodes) → recur i ≡ some ms → more i ≡ some ms)
    → nodes_of recur rows ≡ some ns
    → nodes_of more rows ≡ some ns
unfolding nodes_of
nodes_of-more recur more [] ns f h = h
nodes_of-more recur more (r ∷ rows) ns f h =
    let (sub, e, h') = >>=-eq-some (sub_nodes recur r) _ h in
    let (rest, e', h'') = >>=-eq-some (nodes_of recur rows) _ h' in
    let below = nodes_of-more recur more rows rest f e' in
    elim (Bool-cases r.is_leaf) [
      | inl leaf ↦ ground (arith, leaf, below)
      | inr inner ↦ ground (arith, inner, below, f r.id sub)
    ]

get_children-suc :
    (fuel : ℕ) (db : NavDb) (id : ℕ) (ns : NavNodes)
    → get_children fuel db id ≡ some ns
    → get_children (suc fuel) db id ≡ some ns
unfolding get_children
get_children-suc zero db id ns h = absurd (cc h)
get_children-suc (suc fuel) db id ns h =
    nodes_of-more (get_children fuel db) (get_children (suc fuel) db) (children_rows db id) ns
      (get_children-suc fuel db) h

get_children-plus :
    (more fuel : ℕ) (db : NavDb) (id : ℕ) (ns : NavNodes)
    → get_children fuel db id ≡ some ns
    → get_children (more + fuel) db id ≡ some ns
get_children-plus zero fuel db id ns h = let e : 0 + fuel ≡ fuel = omega arith in rw e h
get_children-plus (suc more) fuel db id ns h =
    let e : suc more + fuel ≡ suc (more + fuel) = omega arith in
    rw e (get_children-suc (more + fuel) db id ns (get_children-plus more fuel db id ns h))

find-lt :
    (path : Text) (n : ℕ) (rows : List FolderRow) (r : FolderRow)
    → All (λ k. k.id < n) (map kept rows)
    → find (has_path path) rows ≡ some r
    → r.id < n
find-lt path n [] r b h = cc h
find-lt path n (o ∷ rows) r (l, b) h = elim (Bool-cases (has_path path o)) [
  | inl e ↦ ground arith
  | inr e ↦ find-lt path n rows r b (ground arith)
]

-- On valid tables, with as much fuel as there are ids, GetNavigationTree ends: it answers none only
-- for a path that no folder has. Else the tree's root is that folder; each node that is no leaf has
-- below it exactly the folders that name it as their parent, ordered by display name; and more fuel
-- gives the same tree.
pub get_navigation_tree-IsTree :
    (path : Text) (more : ℕ) (db : NavDb)
    → IsValidNav db
    → ((get_navigation_tree (more + db.next_folder_id) path db ≡ some none)
        × (find (has_path path) db.folders ≡ none))
      ⊎ ((r : FolderRow) × (ns : NavNodes) × (find (has_path path) db.folders ≡ some r)
          × (get_navigation_tree db.next_folder_id path db ≡ some (some (node r ns)))
          × (get_navigation_tree (more + db.next_folder_id) path db ≡ some (some (node r ns)))
          × IsTree db (node r ns))
unfolding get_navigation_tree
get_navigation_tree-IsTree path more db v = elim (Option-cases (find (has_path path) db.folders)) [
  | inl e ↦ inl (rw e refl, e)
  | inr (r, e) ↦
      let n = db.next_folder_id in
      let l = find-lt path n db.folders r v.folders_valid.ids_below e in
      let (ns, h) = get_children-some n db r.id v l (omega arith) in
      let h' = get_children-plus more n db r.id ns h in
      elim (Bool-cases r.is_leaf) [
        | inl leaf ↦ inr (
          r,
          nil,
          e,
          rw e (simp leaf),
          rw e (simp leaf),
          sub_nodes-IsTree db (get_children n db) r nil (get_children-AreBelow n db)
              (ground (arith, leaf)),
        )
        | inr inner ↦ inr (
          r,
          ns,
          e,
          rw e (simp (inner, h)),
          rw e (simp (inner, h')),
          sub_nodes-IsTree db (get_children n db) r ns (get_children-AreBelow n db)
              (ground (arith, inner, h)),
        )
      ]
]
