-- ===== src/Navigation/Tree.antt =====
-- `GetNavigationTree` and `getChildren` of internal/navigation/db.go. The recursion follows parent ids
-- in a table, so that nothing but the data bounds it; here it takes fuel, and none means that the fuel
-- ran out.
pub mod Bounded
pub mod Faithful
use red_engine.Prelude.{
  ℕ, zero, suc, ◌≡◌, Bool, true, false, Option, none, some, List, [], ◌∷◌, if◌then◌else◌, find,
  keep, ◌>>=◌,
}
use red_engine.Text.{Text, text_leb, ◌==◌}
use red_engine.Navigation.{FolderRow, NavDb, has_path, has_parent}

-- NavNode: the columns of a row that are selected, and `Children`.
mutual
  pub data NavNode : Type 0 where
    node : FolderRow → NavNodes → NavNode

  pub data NavNodes : Type 0 where
    nil : NavNodes
    cons : NavNode → NavNodes → NavNodes

-- ORDER BY display_name
unfoldable pub insert_named : FolderRow → List FolderRow → List FolderRow
unfolding text_leb
insert_named r [] = r ∷ []
insert_named r (o ∷ rows) =
    if text_leb r.display_name o.display_name then r ∷ o ∷ rows else o ∷ insert_named r rows

unfoldable pub by_name : List FolderRow → List FolderRow
unfolding insert_named
by_name [] = []
by_name (r ∷ rows) = insert_named r (by_name rows)

unfoldable pub children_rows : NavDb → ℕ → List FolderRow
unfolding by_name
children_rows db id = by_name (keep (has_parent id) db.folders)

-- The loop over the rows, with the recursive call for those that are no leaf.
abbrev pub sub_nodes : (ℕ → Option NavNodes) → FolderRow → Option NavNodes
sub_nodes recur r = if r.is_leaf then some nil else recur r.id

unfoldable pub nodes_of : (ℕ → Option NavNodes) → List FolderRow → Option NavNodes
nodes_of recur [] = some nil
nodes_of recur (r ∷ rows) = do
  sub ← sub_nodes recur r
  rest ← nodes_of recur rows
  some (cons (node r sub) rest)

unfoldable pub get_children : ℕ → NavDb → ℕ → Option NavNodes
unfolding nodes_of children_rows
get_children zero db id = none
get_children (suc fuel) db id = nodes_of (get_children fuel db) (children_rows db id)

-- The answer is none where no folder has the path.
abbrev pub tree_of : ℕ → NavDb → Option FolderRow → Option (Option NavNode)
tree_of fuel db none = some none
tree_of fuel db (some r) = sub_nodes (get_children fuel db) r >>= λ sub. some (some (node r sub))

unfoldable pub get_navigation_tree : ℕ → Text → NavDb → Option (Option NavNode)
unfolding get_children ◌==◌
get_navigation_tree fuel path db = tree_of fuel db (find (has_path path) db.folders)
