-- ===== src/Registry/Migrate/Paths.antt =====
-- The exported paths that `migrate` of internal/registry/registry.go carries over.
use red_engine.Prelude.{
  inl, inr, any-append, ap₂, ℕ, ◌≡◌, Bool, not, ◌&&◌, ◌||◌, List, [], ◌∷◌, ◌++◌, any, eqb, arith,
  if◌then◌else◌, Bool-cases,
}
use red_engine.Text.{Text, ◌==◌, eq_iff}
use red_engine.Registry.{PathRow}
use red_engine.Registry.Peers.{is_path, add_paths}
use red_engine.Registry.Migrate.{OldPeer, backfill}

-- Whether the list names the path.
abbrev pub names_path : Text → List Text → Bool
names_path path paths = not (path == []) && any (λ p. p == path) paths

same_path :
    (id i : ℕ) (path asked : Text) (rows : List PathRow)
    → id ≡ i
    → path ≡ asked
    → any (is_path id path) rows ≡ any (is_path i asked) rows
same_path id i path asked rows e f = ap₂ (λ k t. any (is_path k t) rows) e f

added_path :
    (id : ℕ) (path : Text) (rows : List PathRow) (i : ℕ) (asked : Text)
    → any (is_path i asked) (
        if path == [] || any (is_path id path) rows
        then rows
        else rows ++ record { peer_id = id; path = path } ∷ [])
      ≡ (any (is_path i asked) rows || (eqb id i && (not (asked == []) && path == asked)))
added_path id path rows i asked = elim (Bool-cases (path == [])) [
  | inl e ↦ rw e (ground (arith, eq_iff path [], eq_iff path asked, eq_iff asked []))
  | inr e ↦ elim (Bool-cases (any (is_path id path) rows)) [
    | inl held ↦
        rw (e, held) (ground (arith, eq_iff path asked, same_path id i path asked rows, held))
    | inr new ↦
        let r : PathRow = record { peer_id = id; path = path } in
        rw (e, new)
          (ground (
            arith,
            any-append (is_path i asked) rows (r ∷ []),
            eq_iff path asked,
            eq_iff path [],
            eq_iff asked [],
          ))
  ]
]

any-add_paths :
    (id : ℕ) (paths : List Text) (rows : List PathRow) (i : ℕ) (asked : Text)
    → any (is_path i asked) (add_paths id paths rows)
      ≡ (any (is_path i asked) rows || (eqb id i && names_path asked paths))
unfolding add_paths
any-add_paths id [] rows i asked = ground arith
any-add_paths id (path ∷ paths) rows i asked =
    let next =
      if path == [] || any (is_path id path) rows
      then rows
      else rows ++ record { peer_id = id; path = path } ∷ [] in
    ground (arith, any-add_paths id paths next i asked, added_path id path rows i asked)

-- Whether the row with the id exports the path.
abbrev pub is_exported : ℕ → Text → List OldPeer → Bool
is_exported id path olds = any (λ o. eqb o.id id && names_path path o.paths) olds

pub any-backfill :
    (olds : List OldPeer) (rows : List PathRow) (id : ℕ) (path : Text)
    → any (is_path id path) (backfill olds rows)
      ≡ (any (is_path id path) rows || is_exported id path olds)
unfolding backfill
any-backfill [] rows id path = ground arith
any-backfill (o ∷ olds) rows id path = ground (
  arith,
  any-backfill olds (add_paths o.id o.paths rows) id path,
  any-add_paths o.id o.paths rows id path,
)
