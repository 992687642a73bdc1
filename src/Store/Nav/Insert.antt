-- ===== src/Store/Nav/Insert.antt =====
-- What `Get` finds after `insertIntoMap` of internal/store/store.go.
use red_engine.Prelude.{
  ◌≡◌, refl, ap, ◌∙◌, ◌≢◌, inl, inr, List, [], ◌∷◌, ◌++◌, arith, if◌then◌else◌, get_or, Bool-cases,
}
use red_engine.Text.{Text, ◌==◌, eq_iff, eq_refl, split-ne-nil}
use red_engine.Store.{Article, Section, section, Sections, lookup, put}
use red_engine.Store.Nav.{slash, root, split_path, new_section, insert_below, insert_into_map}
use red_engine.Store.Nav.View.{
  with_path, view_below, view_at, view_parts, view, view_below-get_or, view_at-put,
  view_at-put_self,
}

with_path-append_ne :
    (path : Text) (l : List Article) (art : Article)
    → path ≢ art.path
    → with_path path (l ++ art ∷ []) ≡ with_path path l
with_path-append_ne path [] art h = ground (arith, eq_iff art.path path)
with_path-append_ne path (a ∷ l) art h = ground (arith, with_path-append_ne path l art h)

with_path-append :
    (l : List Article) (art : Article)
    → with_path art.path (l ++ art ∷ []) ≡ with_path art.path l ++ art ∷ []
with_path-append [] art = rw eq_refl
with_path-append (a ∷ l) art = ground (arith, with_path-append l art)

view_below-insert_below_ne :
    (sec : Section) (so_far : Text) (ps qs : List Text) (art : Article) (path : Text)
    → path ≢ art.path
    → view_below (insert_below sec so_far ps art) qs path ≡ view_below sec qs path
unfolding insert_below view_below
view_below-insert_below_ne sec so_far [] qs art path h = refl
view_below-insert_below_ne (section n p a s c i) so_far (x ∷ []) [] art path h = refl
view_below-insert_below_ne (section n p a s c i) so_far (x ∷ []) (y ∷ []) art path h =
    with_path-append_ne path a art h
view_below-insert_below_ne (section n p a s c i) so_far (x ∷ []) (y ∷ z ∷ qs) art path h = refl
view_below-insert_below_ne (section n p a s c i) so_far (x ∷ x' ∷ ps) [] art path h = refl
view_below-insert_below_ne (section n p a s c i) so_far (x ∷ x' ∷ ps) (y ∷ []) art path h = refl
view_below-insert_below_ne (section n p a s c i) so_far (x ∷ x' ∷ ps) (y ∷ y' ∷ qs) art path h =
    let below = so_far ++ slash ++ x in
    let child = get_or (lookup x s) (new_section x below) in
    view_at-put x y _ s (y' ∷ qs) path (
      view_below-insert_below_ne child below (x' ∷ ps) (y' ∷ qs) art path h
      ∙ view_below-get_or (lookup x s) x below (y' ∷ qs) path)

view_below-insert_below :
    (sec : Section) (so_far : Text) (ps : List Text) (art : Article)
    → ps ≢ []
    → view_below (insert_below sec so_far ps art) ps art.path
      ≡ view_below sec ps art.path ++ art ∷ []
unfolding insert_below view_below
view_below-insert_below sec so_far [] art h = absurd (h refl)
view_below-insert_below (section n p a s c i) so_far (x ∷ []) art h = with_path-append a art
view_below-insert_below (section n p a s c i) so_far (x ∷ x' ∷ ps) art h =
    let below = so_far ++ slash ++ x in
    let child = get_or (lookup x s) (new_section x below) in
    view_at-put_self x _ s (x' ∷ ps) art.path
    ∙ view_below-insert_below child below (x' ∷ ps) art (cc)
    ∙ ap (λ l. l ++ art ∷ []) (view_below-get_or (lookup x s) x below (x' ∷ ps) art.path)

module _ (nav : Sections) (k so_far : Text) (ps : List Text) (art : Article) where
  view_at-insert_ne :
      (j : Text) (qs : List Text) (path : Text)
      → path ≢ art.path
      → view_at
          (put k (insert_below (get_or (lookup k nav) (new_section k so_far)) so_far ps art) nav)
          j
          qs
          path
        ≡ view_at nav j qs path
  view_at-insert_ne j qs path h =
      let old = get_or (lookup k nav) (new_section k so_far) in
      view_at-put k j _ nav qs path (
        view_below-insert_below_ne old so_far ps qs art path h
        ∙ view_below-get_or (lookup k nav) k so_far qs path)

  view_at-insert :
      ps ≢ []
      → view_at
          (put k (insert_below (get_or (lookup k nav) (new_section k so_far)) so_far ps art) nav)
          k
          ps
          art.path
        ≡ view_at nav k ps art.path ++ art ∷ []
  view_at-insert h =
      view_at-put_self k _ nav ps art.path
      ∙ view_below-insert_below (get_or (lookup k nav) (new_section k so_far)) so_far ps art h
      ∙ ap (λ l. l ++ art ∷ []) (view_below-get_or (lookup k nav) k so_far ps art.path)

view_parts-insert_into_map_ne :
    (nav : Sections) (ps qs : List Text) (art : Article) (path : Text)
    → path ≢ art.path
    → view_parts (insert_into_map nav ps art) qs path ≡ view_parts nav qs path
unfolding insert_into_map view_parts
view_parts-insert_into_map_ne nav [] qs art path h = refl
view_parts-insert_into_map_ne nav (x ∷ ps) [] art path h = refl
view_parts-insert_into_map_ne nav (x ∷ []) (y ∷ []) art path h =
    unfold insert_below in view_at-insert_ne nav root slash (x ∷ []) art root (y ∷ []) path h
view_parts-insert_into_map_ne nav (x ∷ []) (y ∷ y' ∷ qs) art path h =
    unfold insert_below in view_at-insert_ne nav root slash (x ∷ []) art y (y' ∷ qs) path h
view_parts-insert_into_map_ne nav (x ∷ x' ∷ ps) (y ∷ []) art path h =
    view_at-insert_ne nav x (slash ++ x) (x' ∷ ps) art root (y ∷ []) path h
view_parts-insert_into_map_ne nav (x ∷ x' ∷ ps) (y ∷ y' ∷ qs) art path h =
    view_at-insert_ne nav x (slash ++ x) (x' ∷ ps) art y (y' ∷ qs) path h

view_parts-insert_into_map :
    (nav : Sections) (ps : List Text) (art : Article)
    → ps ≢ []
    → view_parts (insert_into_map nav ps art) ps art.path ≡ view_parts nav ps art.path ++ art ∷ []
unfolding insert_into_map view_parts
view_parts-insert_into_map nav [] art h = absurd (h refl)
view_parts-insert_into_map nav (x ∷ []) art h =
    unfold insert_below in view_at-insert nav root slash (x ∷ []) art (cc)
view_parts-insert_into_map nav (x ∷ x' ∷ ps) art h =
    view_at-insert nav x (slash ++ x) (x' ∷ ps) art (cc)

-- After an article is inserted at the parts of its own path, that path holds it last, behind what
-- the path held before, and every other path holds what it held.
pub view-insert_into_map :
    (nav : Sections) (r q : Text) (art : Article)
    → art.path ≡ slash ++ r
    → view (insert_into_map nav (split_path r) art) q
      ≡ (if q == r then view nav q ++ art ∷ [] else view nav q)
unfolding view
view-insert_into_map nav r q art h = elim (Bool-cases (q == r)) [
  | inl e ↦ rw e (
      rw ((eq_iff q r).0 e)
        (rw (← h) (view_parts-insert_into_map nav (split_path r) art (split-ne-nil _ r))))
  | inr e ↦ rw e (
      view_parts-insert_into_map_ne nav (split_path r) (split_path q) art _
        (ground (arith, eq_iff q r)))
]
