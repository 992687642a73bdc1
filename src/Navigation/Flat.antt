-- ===== src/Navigation/Flat.antt =====
-- `GetNavigationFlat` of internal/navigation/db.go: LIKE, the filters and ORDER BY path.
pub mod Ordered
use red_engine.Prelude.{
  ℕ, ◌+◌, ◌≡◌, refl, ap, sym, ◌∙◌, ◌↔◌, ◌⊎◌, inl, inr, Bool, true, false, not, ◌&&◌, ◌||◌, Option,
  none, some, List, [], ◌∷◌, ◌++◌, arith, if◌then◌else◌, keep, leb, ltb, eqb, All, Bool-cases,
}
use red_engine.Text.{Text, text, text_leb, ◌==◌, eq_iff, has_prefix, to_lower}
use red_engine.Navigation.{FolderRow, NavDb}

-- SQLite's LIKE: a letter of ASCII in either case, _ for one character, % for any text. The pattern
-- and the text are in lower case already. A character is a byte with the continuation bytes behind.
unfoldable pub skip_continuation : Text → Text
skip_continuation [] = []
skip_continuation (c ∷ s) =
    let rest = skip_continuation s in if leb 0x80 c && ltb c 0xc0 then rest else c ∷ s

unfoldable pub like_lower : Text → Text → Bool
unfolding skip_continuation
like_lower [] [] = true
like_lower [] (c ∷ s) = false
like_lower (p ∷ ps) [] = eqb p b'%' && like_lower ps []
like_lower (p ∷ ps) (c ∷ s) =
    let here = like_lower ps (c ∷ s) in
    let later = like_lower (p ∷ ps) s in
    let one = like_lower ps (skip_continuation s) in
    let same = like_lower ps s in
    if eqb p b'%' then here || later else if eqb p b'_' then one else eqb p c && same

unfoldable pub like : Text → Text → Bool
unfolding like_lower to_lower
like pattern s = like_lower (to_lower pattern) (to_lower s)

-- ORDER BY path
unfoldable pub insert_path : FolderRow → List FolderRow → List FolderRow
unfolding text_leb
insert_path r [] = r ∷ []
insert_path r (o ∷ rows) = if text_leb r.path o.path then r ∷ o ∷ rows else o ∷ insert_path r rows

unfoldable pub by_path : List FolderRow → List FolderRow
unfolding insert_path
by_path [] = []
by_path (r ∷ rows) = insert_path r (by_path rows)

-- The filters that are given.
abbrev pub is_selected : Text → Text → FolderRow → Bool
is_selected path content_type r =
    (path == [] || like (path ++ text "%") r.path)
    && (content_type == [] || r.content_type == content_type)

unfoldable pub get_navigation_flat : Text → Text → NavDb → List FolderRow
unfolding by_path like ◌==◌
get_navigation_flat path content_type db = by_path (keep (is_selected path content_type) db.folders)
