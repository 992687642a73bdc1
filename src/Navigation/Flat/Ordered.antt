-- ===== src/Navigation/Flat/Ordered.antt =====
-- The flat list of internal/navigation/db.go holds each selected folder once, in the order of paths;
-- and what its prefix selects.
use mathlib.Core.List.{Perm}
use mathlib.Core.List.Perm
use red_engine.Prelude.{
  ◌+◌, ◌≡◌, refl, ap, inl, inr, Bool, true, false, ◌&&◌, ◌||◌, List, [], ◌∷◌, ◌++◌, arith,
  if◌then◌else◌, keep, leb, eqb, All, Bool-cases,
}
use red_engine.Text.{Text, text, text_leb, ◌==◌, has_prefix, to_lower}
use red_engine.Navigation.{FolderRow, NavDb}
use red_engine.Navigation.Flat.{
  like_lower, like, insert_path, by_path, is_selected, get_navigation_flat,
}

pub text_leb_total : (a b : Text) → text_leb a b ≡ false → text_leb b a ≡ true
unfolding text_leb
text_leb_total [] b h = cc
text_leb_total (c ∷ a) [] h = refl
text_leb_total (c ∷ a) (d ∷ b) h = ground (arith, text_leb_total a b)

abbrev pub IsSortedByPath : List FolderRow → Type 0
IsSortedByPath [] = Unit
IsSortedByPath (r ∷ []) = Unit
IsSortedByPath (r ∷ o ∷ rows) = (text_leb r.path o.path ≡ true) × IsSortedByPath (o ∷ rows)

insert_path-IsSortedByPath :
    (r : FolderRow) (rows : List FolderRow)
    → IsSortedByPath rows
    → IsSortedByPath (insert_path r rows)
unfolding insert_path
insert_path-IsSortedByPath r [] h = tt
insert_path-IsSortedByPath r (o ∷ []) h = elim (Bool-cases (text_leb r.path o.path)) [
  | inl e ↦ rw e (e, tt)
  | inr e ↦ rw e (text_leb_total r.path o.path e, tt)
]
insert_path-IsSortedByPath r (o ∷ o' ∷ rows) (k, h) =
    let ih = insert_path-IsSortedByPath r (o' ∷ rows) h in
    elim (Bool-cases (text_leb r.path o.path)) [
      | inl e ↦ rw e (e, (k, h))
      | inr e ↦ rw e (elim (Bool-cases (text_leb r.path o'.path)) [
        | inl e' ↦ rw e' (text_leb_total r.path o.path e, rw (insert_path, e') at ih)
        | inr e' ↦ rw e' (k, rw (insert_path, e') at ih)
      ])
    ]

by_path-IsSortedByPath : (rows : List FolderRow) → IsSortedByPath (by_path rows)
unfolding by_path
by_path-IsSortedByPath [] = tt
by_path-IsSortedByPath (r ∷ rows) =
    insert_path-IsSortedByPath r (by_path rows) (by_path-IsSortedByPath rows)

insert_path-perm : (r : FolderRow) (rows : List FolderRow) → Perm (insert_path r rows) (r ∷ rows)
unfolding insert_path
insert_path-perm r [] = Perm.refl (r ∷ [])
insert_path-perm r (o ∷ rows) = elim (Bool-cases (text_leb r.path o.path)) [
  | inl e ↦ rw e (Perm.refl (r ∷ o ∷ rows))
  | inr e ↦ rw e (Perm.trans (Perm.cons o (insert_path-perm r rows)) (Perm.swap r o rows))
]

by_path-perm : (rows : List FolderRow) → Perm (by_path rows) rows
unfolding by_path
by_path-perm [] = Perm.refl []
by_path-perm (r ∷ rows) =
    Perm.trans (insert_path-perm r (by_path rows)) (Perm.cons r (by_path-perm rows))

-- No wildcard of LIKE.
abbrev pub IsLiteral : Text → Type 0
IsLiteral = All (λ c. (eqb c b'%' ≡ false) × (eqb c b'_' ≡ false))

IsLiteral-to_lower : (p : Text) → IsLiteral p → IsLiteral (to_lower p)
unfolding to_lower
IsLiteral-to_lower [] h = tt
IsLiteral-to_lower (c ∷ p) ((a, b), h) = ((ground arith, ground arith), IsLiteral-to_lower p h)

like_lower_any : (s : Text) → like_lower (text "%") s ≡ true
unfolding like_lower
like_lower_any [] = refl
like_lower_any (c ∷ s) = ground (arith, like_lower_any s)

like_lower_literal : (p s : Text) → IsLiteral p → like_lower (p ++ text "%") s ≡ has_prefix s p
unfolding like_lower has_prefix
like_lower_literal [] s h = like_lower_any s
like_lower_literal (c ∷ p) [] ((a, b), h) = rw a refl
like_lower_literal (c ∷ p) (d ∷ s) ((a, b), h) = ground (arith, like_lower_literal p s h)

to_lower-percent : (p : Text) → to_lower (p ++ text "%") ≡ to_lower p ++ text "%"
unfolding to_lower
to_lower-percent [] = refl
to_lower-percent (c ∷ p) =
    ap (◌∷◌ (if leb b'A' c && leb c b'Z' then c + 32 else c)) (to_lower-percent p)

pub like_literal :
    (p s : Text) → IsLiteral p → like (p ++ text "%") s ≡ has_prefix (to_lower s) (to_lower p)
unfolding like
like_literal p s h =
    rw (to_lower-percent p) (like_lower_literal (to_lower p) (to_lower s) (IsLiteral-to_lower p h))

-- What a path with no wildcard and a content type select: an empty one selects all, a path each
-- folder whose path begins with it in any letter case.
abbrev pub is_under : Text → Text → FolderRow → Bool
is_under path content_type r =
    (path == [] || has_prefix (to_lower r.path) (to_lower path))
    && (content_type == [] || r.content_type == content_type)

keep_eq {ℓ} :
    {A : Type ℓ} (p q : A → Bool) (xs : List A) → ((x : A) → p x ≡ q x) → keep p xs ≡ keep q xs
keep_eq p q [] f = refl
keep_eq p q (x ∷ xs) f = ground (arith, f x, keep_eq p q xs f)

-- For a path with no wildcard GetNavigationFlat lists each folder as often as it is in the table, if
-- its path begins with the path that is asked for in any letter case, or none is, and its vault is
-- the one that is asked for, or none is; and it lists nothing else. The list is ordered by path.
pub get_navigation_flat-perm :
    (path content_type : Text) (db : NavDb)
    → IsLiteral path
    → Perm (get_navigation_flat path content_type db) (keep (is_under path content_type) db.folders)
      × IsSortedByPath (get_navigation_flat path content_type db)
unfolding get_navigation_flat
get_navigation_flat-perm path content_type db h =
    let same : keep (is_selected path content_type) db.folders
        ≡ keep (is_under path content_type) db.folders =
      keep_eq (is_selected path content_type) (is_under path content_type) db.folders
        (λ r. rw (like_literal path r.path h) refl) in
    (
      rw same (by_path-perm (keep (is_under path content_type) db.folders)),
      by_path-IsSortedByPath (keep (is_selected path content_type) db.folders),
    )
