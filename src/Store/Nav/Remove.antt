-- ===== src/Store/Nav/Remove.antt =====
-- What `Get` finds after `removeFromMap` of internal/store/store.go.
use mathlib.Core.List.{tail}
use red_engine.Prelude.{
  ◌≡◌, refl, subst, ◌∙◌, ◌≢◌, inl, inr, Option, none, some, List, [], ◌∷◌, ◌++◌, arith,
  if◌then◌else◌, sym, >>=-eq-some, ◌>>=◌, true, false, Bool-cases, Option-cases,
}
use red_engine.Text.{Text, ◌==◌, eq_iff, eq_refl, join, join-split}
use red_engine.Store.{
  Article, Section, section, Sections, nil, entry, sub, set_sub, lookup, put, lookup-put,
  lookup-remove_key,
}
use red_engine.Store.Nav.{
  slash, root, split_path, remove_first, remove_below, is_empty, prune, remove_from_map,
}
use red_engine.Store.Nav.View.{
  with_path, view_below, view_at, view_parts, view, view_at-put, view_at-put_self,
}

with_path-remove_first_ne :
    (path p : Text) (l : List Article)
    → path ≢ p
    → with_path path (remove_first p l) ≡ with_path path l
unfolding remove_first
with_path-remove_first_ne path p [] h = refl
with_path-remove_first_ne path p (a ∷ l) h =
    ground (arith, with_path-remove_first_ne path p l h, eq_iff a.path path, eq_iff a.path p)

with_path-remove_first :
    (p : Text) (l : List Article) → with_path p (remove_first p l) ≡ tail (with_path p l)
unfolding remove_first
with_path-remove_first p [] = refl
with_path-remove_first p (a ∷ l) = ground (arith, with_path-remove_first p l)

-- A removal that goes below a sub-section goes through it.
remove_below-eq-some :
    (sec : Section) (x y : Text) (ps : List Text) (p : Text) {sec' : Section}
    → remove_below sec (x ∷ y ∷ ps) p ≡ some sec'
    → (c c' : Section) × (lookup x (sub sec) ≡ some c)
      × (remove_below c (y ∷ ps) p ≡ some c')
      × (set_sub (put x c' (sub sec)) sec ≡ sec')
unfolding remove_below
remove_below-eq-some sec x y ps p h =
    let (c, found, h') = >>=-eq-some _ _ h in
    let (c', below, h'') = >>=-eq-some _ _ h' in (c, c', found, below, ground arith)

view_below-remove_below_ne :
    (sec : Section) (ps qs : List Text) (p path : Text) (sec' : Section)
    → path ≢ p
    → remove_below sec ps p ≡ some sec'
    → view_below sec' qs path ≡ view_below sec qs path
unfolding view_below
view_below-remove_below_ne sec [] qs p path sec' h k = unfold remove_below in ground arith
view_below-remove_below_ne (section n r a s c i) (x ∷ []) [] p path sec' h k = refl
view_below-remove_below_ne (section n r a s c i) (x ∷ []) (y ∷ []) p path sec' h k =
    unfold remove_below in ground (arith, with_path-remove_first_ne path p a h)
view_below-remove_below_ne (section n r a s c i) (x ∷ []) (y ∷ z ∷ qs) p path sec' h k =
    unfold remove_below in ground arith
view_below-remove_below_ne (section n r a s c i) (x ∷ x' ∷ ps) [] p path sec' h k = refl
view_below-remove_below_ne (section n r a s c i) (x ∷ x' ∷ ps) (y ∷ []) p path sec' h k =
    let (d, d', found, below, same) = remove_below-eq-some _ x x' ps p k in rw (← same) refl
view_below-remove_below_ne (section n r a s c i) (x ∷ x' ∷ ps) (y ∷ y' ∷ qs) p path sec' h k =
    let (d, d', found, below, same) = remove_below-eq-some _ x x' ps p k in
    rw (← same) (
      view_at-put x y d' s (y' ∷ qs) path
        (rw found (view_below-remove_below_ne d (x' ∷ ps) (y' ∷ qs) p path d' h below)))

view_below-remove_below :
    (sec : Section) (ps : List Text) (p : Text) (sec' : Section)
    → remove_below sec ps p ≡ some sec'
    → view_below sec' ps p ≡ tail (view_below sec ps p)
unfolding view_below
view_below-remove_below sec [] p sec' k = refl
view_below-remove_below (section n r a s c i) (x ∷ []) p sec' k =
    unfold remove_below in ground (arith, with_path-remove_first p a)
view_below-remove_below (section n r a s c i) (x ∷ x' ∷ ps) p sec' k =
    let (d, d', found, below, same) = remove_below-eq-some _ x x' ps p k in
    rw (← same) (
      view_at-put_self x d' s (x' ∷ ps) p
      ∙ rw found (view_below-remove_below d (x' ∷ ps) p d' below))

-- Where a sub-section on the way is missing, the path holds nothing.
view_below_of_none :
    (sec : Section) (ps : List Text) (p : Text)
    → remove_below sec ps p ≡ none
    → view_below sec ps p ≡ []
unfolding view_below remove_below
view_below_of_none sec [] p k = refl
view_below_of_none sec (x ∷ []) p k = cc
view_below_of_none sec (x ∷ x' ∷ ps) p k = elim (Option-cases (lookup x (sub sec))) [
  | inl e ↦ rw e refl
  | inr (d, e) ↦ rw e (view_below_of_none d (x' ∷ ps) p (ground arith))
]

view_below_of_is_empty :
    (sec : Section) (ps : List Text) (p : Text) → is_empty sec ≡ true → view_below sec ps p ≡ []
unfolding view_below lookup
view_below_of_is_empty (section n r [] nil c i) [] p h = refl
view_below_of_is_empty (section n r [] nil c i) (x ∷ []) p h = refl
view_below_of_is_empty (section n r [] nil c i) (x ∷ y ∷ ps) p h = refl
view_below_of_is_empty (section n r [] (entry k s m) c i) ps p h = cc
view_below_of_is_empty (section n r (a ∷ l) s c i) ps p h = cc

-- The section that goes back, or whose key goes, is what is looked up at its key.
view_at-prune_self :
    (k : Text) (sec : Section) (nav : Sections) (ps : List Text) (p : Text)
    → view_at (prune k (some sec) nav) k ps p ≡ view_below sec ps p
view_at-prune_self k sec nav ps p = elim (Bool-cases (is_empty sec)) [
  | inl e ↦ rw e (rw (lookup-remove_key, eq_refl) (sym (view_below_of_is_empty sec ps p e)))
  | inr e ↦ rw e (view_at-put_self k sec nav ps p)
]

view_at-prune_other :
    (k j : Text) (sec : Section) (nav : Sections) (ps : List Text) (p : Text)
    → (k == j) ≡ false
    → view_at (prune k (some sec) nav) j ps p ≡ view_at nav j ps p
view_at-prune_other k j sec nav ps p h = elim (Bool-cases (is_empty sec)) [
  | inl e ↦ rw e (rw (lookup-remove_key, h) refl)
  | inr e ↦ rw e (rw (lookup-put, h) refl)
]

module _ (nav : Sections) (k : Text) (ps : List Text) (p : Text) where
  abbrev removed : Option Section
  removed = lookup k nav >>= λ sec. remove_below sec ps p

  view_at-removed_ne :
      (j : Text) (qs : List Text) (path : Text)
      → path ≢ p
      → view_at (prune k removed nav) j qs path ≡ view_at nav j qs path
  view_at-removed_ne j qs path h = elim (Option-cases removed) [
    | inl e ↦ rw e refl
    | inr (sec', e) ↦
        let (sec, found, below) = >>=-eq-some (lookup k nav) _ e in
        rw e (elim (Bool-cases (k == j)) [
          | inl same ↦ rw (← (eq_iff k j).0 same) (
              view_at-prune_self k sec' nav qs path
              ∙ view_below-remove_below_ne sec ps qs p path sec' h below
              ∙ rw found refl)
          | inr other ↦ view_at-prune_other k j sec' nav qs path other
        ])
  ]

  view_at-removed : view_at (prune k removed nav) k ps p ≡ tail (view_at nav k ps p)
  view_at-removed = elim (Option-cases (lookup k nav)) [
    | inl e ↦ rw e (rw e refl)
    | inr (sec, e) ↦ rw e (elim (Option-cases (remove_below sec ps p)) [
      | inl missing ↦ rw missing (rw (e, view_below_of_none sec ps p missing) refl)
      | inr (sec', below) ↦
          rw below
            (view_at-prune_self k sec' nav ps p ∙ view_below-remove_below sec ps p sec' below)
    ])
  ]

view_parts-remove_from_map_ne :
    (nav : Sections) (ps qs : List Text) (path : Text)
    → path ≢ slash ++ join slash ps
    → view_parts (remove_from_map nav ps) qs path ≡ view_parts nav qs path
unfolding remove_from_map view_parts
view_parts-remove_from_map_ne nav [] qs path h = refl
view_parts-remove_from_map_ne nav (x ∷ ps) [] path h = refl
view_parts-remove_from_map_ne nav (x ∷ []) (y ∷ []) path h =
    view_at-removed_ne nav root (x ∷ []) _ root (y ∷ []) path h
view_parts-remove_from_map_ne nav (x ∷ []) (y ∷ y' ∷ qs) path h =
    view_at-removed_ne nav root (x ∷ []) _ y (y' ∷ qs) path h
view_parts-remove_from_map_ne nav (x ∷ x' ∷ ps) (y ∷ []) path h =
    view_at-removed_ne nav x (x' ∷ ps) _ root (y ∷ []) path h
view_parts-remove_from_map_ne nav (x ∷ x' ∷ ps) (y ∷ y' ∷ qs) path h =
    view_at-removed_ne nav x (x' ∷ ps) _ y (y' ∷ qs) path h

view_parts-remove_from_map :
    (nav : Sections) (ps : List Text)
    → view_parts (remove_from_map nav ps) ps (slash ++ join slash ps)
      ≡ tail (view_parts nav ps (slash ++ join slash ps))
unfolding remove_from_map view_parts
view_parts-remove_from_map nav [] = refl
view_parts-remove_from_map nav (x ∷ []) = view_at-removed nav root (x ∷ []) _
view_parts-remove_from_map nav (x ∷ x' ∷ ps) = view_at-removed nav x (x' ∷ ps) _

-- Removing the parts of a path takes the oldest article of that path, if there is one, and leaves
-- what every other path holds.
pub view-remove_from_map :
    (nav : Sections) (r q : Text)
    → view (remove_from_map nav (split_path r)) q
      ≡ (if q == r then tail (view nav q) else view nav q)
unfolding view
view-remove_from_map nav r q = elim (Bool-cases (q == r)) [
  | inl e ↦ rw e (
      rw ((eq_iff q r).0 e) (
        subst
          (λ t.
            view_parts (remove_from_map nav (split_path r)) (split_path r) (slash ++ t)
            ≡ tail (view_parts nav (split_path r) (slash ++ t)))
          (join-split b'/' r) (view_parts-remove_from_map nav (split_path r))))
  | inr e ↦ rw e (
      view_parts-remove_from_map_ne nav (split_path r) (split_path q) _
        (ground (arith, eq_iff q r, join-split b'/' r)))
]
