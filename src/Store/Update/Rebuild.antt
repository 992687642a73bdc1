-- ===== src/Store/Update/Rebuild.antt =====
-- What `Get` finds after `Reload` of internal/store/store.go, and that a hot patch agrees with it.
use mathlib.Core.List.{tail}
use red_engine.Prelude.{
  ◌≡◌, refl, sym, ap, ap₂, ◌∙◌, inl, inr, true, false, none, some, List, [], ◌∷◌, ◌++◌, append-nil,
  append_assoc, arith, if◌then◌else◌, Bool-cases, Option-cases, All,
}
use red_engine.Text.{Text, ◌==◌, eq_iff, eq_refl}
use red_engine.Go.FilePath.{has_ext_md, clean}
use red_engine.Store.{Article, Sections, nil, lookup}
use red_engine.Store.Nav.{slash, split_path}
use red_engine.Store.Nav.View.{view_parts, view}
use red_engine.Store.Nav.Insert.{view-insert_into_map}
use red_engine.Store.Meta.{view-check_meta_files}
use red_engine.Store.Update.{
  World, process, clean_path_of, add_file, add_files, reload, changed_rel, update_file,
}
use red_engine.Store.Update.Patch.{
  process_path, processed, changed_rel_rel, tail_of_length-le-one, length-processed,
  view-update_file,
}

-- The articles that the file gives to the path "/" and `q`, by its own place on the disk.
unfoldable pub articles_for : World → Text → Text → List Article
articles_for w q p =
    if has_ext_md p
    then elim (process w p) [
      | none ↦ []
      | some (art, parts) ↦ if art.path == slash ++ q then art ∷ [] else []
    ]
    else []

unfoldable pub all_articles_for : World → Text → List Text → List Article
all_articles_for w q [] = []
all_articles_for w q (p ∷ ps) = articles_for w q p ++ all_articles_for w q ps

view_parts-nil : (ps : List Text) (path : Text) → view_parts nil ps path ≡ []
unfolding view_parts lookup
view_parts-nil [] path = refl
view_parts-nil (x ∷ []) path = refl
view_parts-nil (x ∷ y ∷ ps) path = refl

pub view-nil : (q : Text) → view nil q ≡ []
unfolding view
view-nil q = view_parts-nil (split_path q) (slash ++ q)

view-add_file :
    (w : World) (nav : Sections) (p q : Text)
    → view (add_file w nav p) q ≡ view nav q ++ articles_for w q p
unfolding add_file articles_for
view-add_file w nav p q = elim (Bool-cases (has_ext_md p)) [
  | inr no_md ↦ rw no_md (sym (append-nil (view nav q)))
  | inl md ↦ rw md (elim (Option-cases (process w p)) [
    | inl e ↦ ground (arith, append-nil (view nav q))
    | inr ((art, parts), e) ↦
        let (rel, placed, at_path, at_parts) = process_path w p e in
        let r = clean_path_of rel in
        ground (
          arith,
          view-insert_into_map nav r q art,
          append-nil (view nav q),
          eq_iff q r,
          eq_iff art.path (slash ++ q),
        )
  ])
]

view-add_files :
    (w : World) (nav : Sections) (ps : List Text) (q : Text)
    → view (add_files w nav ps) q ≡ view nav q ++ all_articles_for w q ps
unfolding add_files all_articles_for
view-add_files w nav [] q = sym (append-nil (view nav q))
view-add_files w nav (p ∷ ps) q =
    view-add_files w (add_file w nav p) ps q
    ∙ ap (λ l. l ++ all_articles_for w q ps) (view-add_file w nav p q)
    ∙ append_assoc (view nav q) (articles_for w q p) (all_articles_for w q ps)

-- A full reload holds at each path the articles that the files on the disk give to it, in the
-- order of the walk, and nothing of the tree before it.
pub view-reload : (w : World) (q : Text) → view (reload w) q ≡ all_articles_for w q w.files
unfolding reload
view-reload w q =
    view-check_meta_files w.platform.exists w.platform.data_dir (add_files w nil w.files) q
    ∙ view-add_files w nil w.files q
    ∙ ap (λ l. l ++ all_articles_for w q w.files) (view-nil q)

articles_for_own :
    (w : World) (q p rel : Text)
    → has_ext_md p ≡ true
    → w.platform.rel p ≡ some rel
    → articles_for w q p ≡ (if q == clean_path_of rel then processed w p else [])
unfolding articles_for
articles_for_own w q p rel md placed = elim (Option-cases (process w p)) [
  | inl e ↦ ground arith
  | inr ((art, parts), e) ↦
      let (rel', placed', at_path, at_parts) = process_path w p e in
      ground (arith, eq_iff q (clean_path_of rel), eq_iff art.path (slash ++ q))
]

all_articles_for-append :
    (w : World) (q : Text) (xs ys : List Text)
    → all_articles_for w q (xs ++ ys) ≡ all_articles_for w q xs ++ all_articles_for w q ys
unfolding all_articles_for
all_articles_for-append w q [] ys = refl
all_articles_for-append w q (x ∷ xs) ys =
    rw (all_articles_for-append w q xs ys) (sym (append_assoc (articles_for w q x) _ _))

all_articles_for_of_same :
    (w w' : World) (q : Text) (xs : List Text)
    → All (λ p. process w' p ≡ process w p) xs
    → all_articles_for w' q xs ≡ all_articles_for w q xs
unfolding all_articles_for articles_for
all_articles_for_of_same w w' q [] h = refl
all_articles_for_of_same w w' q (p ∷ xs) (e, h) =
    ground (arith, all_articles_for_of_same w w' q xs h)

-- What a reload holds at a path, where only the file `p` may have that path `r`.
module _ (w : World) (xs : List Text) (p : Text) (ys : List Text) (rel : Text)
    (files : w.files ≡ xs ++ p ∷ ys) (md : has_ext_md p ≡ true)
    (placed : w.platform.rel p ≡ some rel) where
  reload_elsewhere :
      (q : Text)
      → (q == clean_path_of rel) ≡ false
      → view (reload w) q ≡ all_articles_for w q xs ++ all_articles_for w q ys
  unfolding all_articles_for
  reload_elsewhere q other =
      let own : articles_for w q p ≡ [] =
        rw (articles_for_own w q p rel md placed) (rw other refl) in
      view-reload w q
      ∙ ap (all_articles_for w q) files
      ∙ all_articles_for-append w q xs (p ∷ ys)
      ∙ ap (λ l. all_articles_for w q xs ++ (l ++ all_articles_for w q ys)) own

  reload_here :
      all_articles_for w (clean_path_of rel) xs ≡ []
      → all_articles_for w (clean_path_of rel) ys ≡ []
      → view (reload w) (clean_path_of rel) ≡ processed w p
  unfolding all_articles_for
  reload_here none_before none_after =
      let r = clean_path_of rel in
      let own : articles_for w r p ≡ processed w p =
        rw (articles_for_own w r p rel md placed) (rw eq_refl refl) in
      view-reload w r
      ∙ ap (all_articles_for w r) files
      ∙ all_articles_for-append w r xs (p ∷ ys)
      ∙ ap₂ ◌++◌ none_before (ap₂ ◌++◌ own none_after)
      ∙ append-nil (processed w p)

-- Two states of the disk, before and after one Markdown file changed: the same files are there, and
-- only the changed one, below the data directory, may give another article or have its path.
pub record ChangedOnly (w w' : World) (p rel : Text) : Type 0 where
  pub before : List Text
  pub after : List Text
  pub files : w.files ≡ before ++ clean p ∷ after
  pub files' : w'.files ≡ before ++ clean p ∷ after
  pub placed : w.platform.rel (clean p) ≡ some rel
  pub changed : changed_rel w' (clean p) ≡ some rel
  pub same_before : All (λ f. process w' f ≡ process w f) before
  pub same_after : All (λ f. process w' f ≡ process w f) after
  pub none_before : all_articles_for w (clean_path_of rel) before ≡ []
  pub none_after : all_articles_for w (clean_path_of rel) after ≡ []

changed_rel-has_ext_md :
    (w : World) (p : Text) {rel : Text} → changed_rel w p ≡ some rel → has_ext_md p ≡ true
unfolding changed_rel
changed_rel-has_ext_md w p h = ground arith

-- After a change of one Markdown file below the data directory, where the walk visits the same
-- files as before and no other file gives another article than before or has the path of the
-- changed one, the hot patch of the tree that was loaded before the change holds at every path
-- what a full reload holds after it.
pub patch-reload :
    (w w' : World) (p rel q : Text)
    → ChangedOnly w w' p rel
    → view (update_file w' (reload w) p) q ≡ view (reload w') q
patch-reload w w' p rel q c =
    let r = clean_path_of rel in
    let md = changed_rel-has_ext_md w' (clean p) c.changed in
    let placed' = changed_rel_rel w' (clean p) c.changed in
    let same_b = λ (x : Text). all_articles_for_of_same w w' x c.before c.same_before in
    let same_a = λ (x : Text). all_articles_for_of_same w w' x c.after c.same_after in
    rw (view-update_file w' (reload w) p rel q c.changed) (elim (Bool-cases (q == r)) [
      | inl e ↦ rw e (
          rw ((eq_iff q r).0 e) (
            ap (λ l. tail l ++ processed w' (clean p))
              (reload_here w c.before (clean p) c.after rel c.files md c.placed c.none_before
                c.none_after)
            ∙ ap (λ l. l ++ processed w' (clean p))
                (tail_of_length-le-one _ (length-processed w (clean p)))
            ∙ sym (
                reload_here w' c.before (clean p) c.after rel c.files' md placed'
                  (same_b r ∙ c.none_before) (same_a r ∙ c.none_after))))
      | inr e ↦ rw e (
          reload_elsewhere w c.before (clean p) c.after rel c.files md c.placed q e
          ∙ ap₂ ◌++◌ (sym (same_b q)) (sym (same_a q))
          ∙ sym (reload_elsewhere w' c.before (clean p) c.after rel c.files' md placed' q e))
    ])
