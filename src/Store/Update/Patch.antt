-- ===== src/Store/Update/Patch.antt =====
-- What `Get` finds after `UpdateFiles` of internal/store/store.go.
use mathlib.Core.List.{head?, tail}
use red_engine.Prelude.{
  ◌≤◌, ◌≡◌, refl, inl, inr, none, some, List, [], ◌∷◌, ◌++◌, append-nil, arith, if◌then◌else◌,
  Bool-cases, Option-cases, length,
}
use red_engine.Text.{Text, ◌==◌, trim_prefix}
use red_engine.Go.FilePath.{clean}
use red_engine.Store.{Article, Sections}
use red_engine.Store.Nav.{slash, split_path, remove_from_map, get}
use red_engine.Store.Nav.View.{view, IsUnique, head?-view}
use red_engine.Store.Nav.Insert.{view-insert_into_map}
use red_engine.Store.Nav.Remove.{view-remove_from_map}
use red_engine.Store.Verify.{process_article}
use red_engine.Store.Update.{World, process, clean_path_of, changed_rel, update_file, update_files}

-- A processed article has the path, and the parts, of its file.
pub process_path :
    (w : World) (p : Text) {art : Article} {parts : List Text}
    → process w p ≡ some (art, parts)
    → (rel : Text) × (w.platform.rel p ≡ some rel)
      × (art.path ≡ slash ++ clean_path_of rel)
      × (parts ≡ split_path (clean_path_of rel))
unfolding process_article
process_path w p h = elim (Option-cases (w.platform.rel p)) [
  | inl e ↦ ground arith
  | inr (rel, e) ↦ (rel, e, ground arith, ground arith)
]

-- The article that a changed file is given.
abbrev pub processed : World → Text → List Article
processed w p = elim (process w p) [ none ↦ [] | some (art, parts) ↦ art ∷ [] ]

pub changed_rel_rel :
    (w : World) (p : Text) {rel : Text} → changed_rel w p ≡ some rel → w.platform.rel p ≡ some rel
unfolding changed_rel
changed_rel_rel w p h = ground arith

-- A changed Markdown file below the data directory takes the oldest article of its path away, and
-- puts its article, if it can be read and rendered, behind the others of the path. The articles of
-- other paths stay.
pub view-update_file :
    (w : World) (nav : Sections) (p rel q : Text)
    → changed_rel w (clean p) ≡ some rel
    → view (update_file w nav p) q
      ≡ (if q == clean_path_of rel then tail (view nav q) ++ processed w (clean p) else view nav q)
unfolding update_file
view-update_file w nav p rel q h =
    let r = clean_path_of rel in
    elim (Option-cases (process w (clean p))) [
      | inl e ↦ ground (arith, view-remove_from_map nav r q, append-nil (tail (view nav q)))
      | inr ((art, parts), e) ↦
          let (rel', placed, at_path, at_parts) = process_path w (clean p) e in
          ground (
            arith,
            changed_rel_rel w (clean p) h,
            view-remove_from_map nav r q,
            view-insert_into_map (remove_from_map nav (split_path r)) r q art,
          )
    ]

pub tail_of_length-le-one {ℓ} : {A : Type ℓ} (l : List A) → length l ≤ 1 → tail l ≡ []
tail_of_length-le-one [] h = refl
tail_of_length-le-one (x ∷ []) h = refl
tail_of_length-le-one (x ∷ y ∷ l) h = absurd (omega arith)

-- Where no path is held twice, a changed Markdown file below the data directory is found as it is
-- now, and is gone if it cannot be read or rendered; what `Get` finds at any other path stays.
pub get-update_file :
    (w : World) (nav : Sections) (p rel path : Text)
    → IsUnique nav
    → changed_rel w (clean p) ≡ some rel
    → get (update_file w nav p) path ≡ (
        if trim_prefix path slash == clean_path_of rel
        then head? (processed w (clean p))
        else get nav path)
get-update_file w nav p rel path u h =
    let q = trim_prefix path slash in
    rw (← head?-view (update_file w nav p) path, ← head?-view nav path)
      (rw (view-update_file w nav p rel q h) (elim (Bool-cases (q == clean_path_of rel)) [
        | inl e ↦ rw (e, tail_of_length-le-one (view nav q) (u q)) refl
        | inr e ↦ rw e refl
      ]))

update_file_skips :
    (w : World) (nav : Sections) (p : Text)
    → changed_rel w (clean p) ≡ none
    → update_file w nav p ≡ nav
unfolding update_file
update_file_skips w nav p h = ground arith

pub length-processed : (w : World) (p : Text) → length (processed w p) ≤ 1
length-processed w p = elim (Option-cases (process w p)) [
  | inl e ↦ ground arith
  | inr (r, e) ↦ ground arith
]

update_file-IsUnique :
    (w : World) (nav : Sections) (p : Text) → IsUnique nav → IsUnique (update_file w nav p)
update_file-IsUnique w nav p u = elim (Option-cases (changed_rel w (clean p))) [
  | inl e ↦ rw (update_file_skips w nav p e) u
  | inr (rel, e) ↦ λ q.
      rw (view-update_file w nav p rel q e) (elim (Bool-cases (q == clean_path_of rel)) [
        | inl same ↦
            rw (same, tail_of_length-le-one (view nav q) (u q)) (length-processed w (clean p))
        | inr other ↦ rw other (u q)
      ])
]

-- Hot patches, whatever files they are told of, never make the tree hold a path twice.
pub update_files-IsUnique :
    (w : World) (nav : Sections) (ps : List Text) → IsUnique nav → IsUnique (update_files w nav ps)
unfolding update_files
update_files-IsUnique w nav [] u = u
update_files-IsUnique w nav (p ∷ ps) u =
    update_files-IsUnique w (update_file w nav p) ps (update_file-IsUnique w nav p u)
