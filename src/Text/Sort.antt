-- ===== src/Text/Sort.antt =====
-- `sort.Strings`, and SQLite's ORDER BY of texts: by bytes.
use Prim.Native.Nat.{compare, Ordering}
use red_engine.Prelude.{Bool, true, false, List, [], ◌∷◌, if◌then◌else◌}
use red_engine.Text.Bytes.{Text}

unfoldable pub text_leb : Text → Text → Bool
text_leb [] t = true
text_leb (c ∷ s) [] = false
text_leb (c ∷ s) (d ∷ t) =
    let rest = text_leb s t in
    elim (compare c d) [ Ordering.lt ↦ true | Ordering.gt ↦ false | Ordering.eq ↦ rest ]

unfoldable pub insert_sorted : Text → List Text → List Text
unfolding text_leb
insert_sorted x [] = x ∷ []
insert_sorted x (y ∷ l) = if text_leb x y then x ∷ y ∷ l else y ∷ insert_sorted x l

unfoldable pub sort : List Text → List Text
unfolding insert_sorted
sort [] = []
sort (x ∷ l) = insert_sorted x (sort l)
