-- ===== src/Store/Nav/View.antt =====
-- The articles of a navigation tree by their paths: what `Get` of internal/store/store.go can show.
use mathlib.Core.List.{head?}
use red_engine.Prelude.{
  ◌≤◌, ◌≡◌, refl, ap, ◌∙◌, inl, inr, Option, none, some, List, [], ◌∷◌, ◌++◌, arith, ◌>>=◌, keep,
  get_or, Bool-cases, Option-cases, length,
}
use red_engine.Text.{Text, ◌==◌, eq_iff, eq_refl, trim_prefix}
use red_engine.Store.{Article, Section, Sections, articles, sub, lookup, put, lookup-put}
use red_engine.Store.Nav.{
  slash, root, split_path, new_section, find_article, get_below, get_parts, get,
}

abbrev pub with_path : Text → List Article → List Article
with_path path = keep (λ a. a.path == path)

abbrev pub in_section {ℓ} : {A : Type ℓ} → Option Section → (Section → List A) → List A
in_section none f = []
in_section (some sec) f = f sec

unfoldable pub view_below : Section → List Text → Text → List Article
view_below sec [] path = []
view_below sec (_ ∷ []) path = with_path path (articles sec)
view_below sec (x ∷ y ∷ ps) path = in_section (lookup x (sub sec)) (λ c. view_below c (y ∷ ps) path)

abbrev pub view_at : Sections → Text → List Text → Text → List Article
view_at nav k ps path = in_section (lookup k nav) (λ c. view_below c ps path)

unfoldable pub view_parts : Sections → List Text → Text → List Article
view_parts nav [] path = []
view_parts nav (x ∷ []) path = view_at nav root (x ∷ []) path
view_parts nav (x ∷ y ∷ ps) path = view_at nav x (y ∷ ps) path

-- The articles whose path is "/" and `q`, where `Get` looks for them, oldest first.
unfoldable pub view : Sections → Text → List Article
view nav q = view_parts nav (split_path q) (slash ++ q)

-- No path is held twice.
abbrev pub IsUnique : Sections → Type 0
IsUnique nav = (q : Text) → length (view nav q) ≤ 1

head?-with_path : (path : Text) (l : List Article) → head? (with_path path l) ≡ find_article path l
head?-with_path path [] = refl
head?-with_path path (a ∷ l) = ground (arith, head?-with_path path l)

head?-view_below :
    (sec : Section) (ps : List Text) (path : Text)
    → head? (view_below sec ps path) ≡ get_below sec ps path
unfolding view_below get_below
head?-view_below sec [] path = refl
head?-view_below sec (x ∷ []) path = head?-with_path path (articles sec)
head?-view_below sec (x ∷ y ∷ ps) path = elim (Option-cases (lookup x (sub sec))) [
  | inl e ↦ rw e refl
  | inr (c, e) ↦ rw e (head?-view_below c (y ∷ ps) path)
]

head?-view_at :
    (nav : Sections) (k : Text) (ps : List Text) (path : Text)
    → head? (view_at nav k ps path) ≡ (lookup k nav >>= λ c. get_below c ps path)
head?-view_at nav k ps path = elim (Option-cases (lookup k nav)) [
  | inl e ↦ rw e refl
  | inr (c, e) ↦ rw e (head?-view_below c ps path)
]

head?-view_parts :
    (nav : Sections) (ps : List Text) (path : Text)
    → head? (view_parts nav ps path) ≡ get_parts nav ps path
unfolding view_parts get_parts
head?-view_parts nav [] path = refl
head?-view_parts nav (x ∷ []) path = head?-view_at nav root (x ∷ []) path
head?-view_parts nav (x ∷ y ∷ ps) path = head?-view_at nav x (y ∷ ps) path

-- `Get` returns the oldest article of its path.
pub head?-view :
    (nav : Sections) (path : Text) → head? (view nav (trim_prefix path slash)) ≡ get nav path
unfolding view get
head?-view nav path =
    head?-view_parts nav (split_path (trim_prefix path slash)) (slash ++ trim_prefix path slash)

pub view_below-new :
    (n p : Text) (ps : List Text) (path : Text) → view_below (new_section n p) ps path ≡ []
unfolding view_below lookup
view_below-new n p [] path = refl
view_below-new n p (q ∷ []) path = refl
view_below-new n p (q ∷ r ∷ ps) path = refl

-- A section made on the way down holds nothing that was not there before.
pub view_below-get_or :
    (o : Option Section) (n p : Text) (ps : List Text) (path : Text)
    → view_below (get_or o (new_section n p)) ps path ≡ in_section o (λ c. view_below c ps path)
view_below-get_or none n p ps path = view_below-new n p ps path
view_below-get_or (some c) n p ps path = refl

-- A section that shows what the old one showed changes nothing.
pub view_at-put :
    (k j : Text) (sec : Section) (nav : Sections) (ps : List Text) (path : Text)
    → view_below sec ps path ≡ view_at nav k ps path
    → view_at (put k sec nav) j ps path ≡ view_at nav j ps path
view_at-put k j sec nav ps path h = rw lookup-put (elim (Bool-cases (k == j)) [
  | inl e ↦ rw e (h ∙ ap (λ i. view_at nav i ps path) ((eq_iff k j).0 e))
  | inr e ↦ rw e refl
])

pub view_at-put_self :
    (k : Text) (sec : Section) (nav : Sections) (ps : List Text) (path : Text)
    → view_at (put k sec nav) k ps path ≡ view_below sec ps path
view_at-put_self k sec nav ps path = rw (lookup-put, eq_refl) refl
