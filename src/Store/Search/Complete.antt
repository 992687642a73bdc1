-- ===== src/Store/Search/Complete.antt =====
-- What the search index of internal/store/store.go lists.
use mathlib.Core.Option
use red_engine.Prelude.{
  any-append, ◌≡◌, refl, ap, subst, ◌∙◌, inl, inr, Bool, true, ◌||◌, ◌&&◌, some, List, [], ◌∷◌,
  ◌++◌, map, arith, ◌>>=◌, >>=-eq-some, any, Bool-cases,
}
use red_engine.Text.{Text, text, ◌==◌, eq_refl, eq_iff, sort, insert_sorted}
use red_engine.Store.{Article, Section, section, Sections, nil, entry, lookup}
use red_engine.Store.Nav.{slash, root, find_article, get_below, get_parts, get}
use red_engine.Store.Nav.View.{in_section}
use red_engine.Store.Search.{
  SearchItem, article_item, walk, walk_all, keys, walk_keys, build_search_index,
}

-- Sections of the name "root" have no sub-sections.
unfoldable mutual
  pub RootIsLeaf : Section → Type 0
  RootIsLeaf (section n p arts subs c i) = (n == root ≡ true → subs ≡ nil) × RootsAreLeaves subs

  pub RootsAreLeaves : Sections → Type 0
  RootsAreLeaves nil = Unit
  RootsAreLeaves (entry k sec m) = RootIsLeaf sec × RootsAreLeaves m

abbrev is_item_of : Article → SearchItem → Bool
is_item_of art item = item.title == text "📄 " ++ art.title && item.path == art.path

-- An item of the list has the article's title and its path.
abbrev pub IsListed : Article → List SearchItem → Type 0
IsListed art items = any (is_item_of art) items ≡ true

IsListed-articles :
    (path : Text) (arts : List Article) (art : Article)
    → find_article path arts ≡ some art
    → IsListed art (map article_item arts)
IsListed-articles path [] art h = cc
IsListed-articles path (a ∷ arts) art h = elim (Bool-cases (a.path == path)) [
  | inl e ↦ ground (arith, eq_refl (text "📄 " ++ art.title), eq_refl art.path)
  | inr e ↦ ground (arith, IsListed-articles path arts art)
]

IsListed-walk_all :
    (k parent : Text) (m : Sections) (sec : Section) (art : Article)
    → lookup k m ≡ some sec
    → IsListed art (walk sec parent)
    → IsListed art (walk_all m parent)
unfolding lookup walk walk_all
IsListed-walk_all k parent nil sec art h l = cc
IsListed-walk_all k parent (entry j s m) sec art h l =
    rw (any-append (is_item_of art) (walk s parent) (walk_all m parent))
      (elim (Bool-cases (j == k)) [
        | inl e ↦ ground arith
        | inr e ↦ ground (arith, IsListed-walk_all k parent m sec art)
      ])

lookup-RootIsLeaf :
    (k : Text) (m : Sections) (sec : Section)
    → RootsAreLeaves m
    → lookup k m ≡ some sec
    → RootIsLeaf sec
unfolding lookup RootsAreLeaves
lookup-RootIsLeaf k nil sec r h = cc
lookup-RootIsLeaf k (entry j s m) sec (r, rs) h = elim (Bool-cases (j == k)) [
  | inl e ↦ subst RootIsLeaf (Option.some_inj.0 (rw (lookup, e) at h)) r
  | inr e ↦ lookup-RootIsLeaf k m sec rs (ground arith)
]

IsListed-walk :
    (sec : Section) (ps : List Text) (path parent : Text) (art : Article)
    → RootIsLeaf sec
    → get_below sec ps path ≡ some art
    → IsListed art (walk sec parent)
unfolding get_below walk RootIsLeaf lookup
IsListed-walk (section n p arts subs c i) [] path parent art r h = cc
IsListed-walk (section n p arts subs c i) (x ∷ []) path parent art r h =
    let listed = IsListed-articles path arts art h in
    elim (Bool-cases (n == root)) [
      | inl e ↦ rw e listed
      | inr e ↦ rw e (
          ground (
            arith,
            any-append (is_item_of art) (map article_item arts)
                (walk_all subs (parent ++ (slash ++ n))),
          ))
    ]
IsListed-walk (section n p arts subs c i) (x ∷ y ∷ ps) path parent art (leaf, rs) h =
    let (child, found, there) = >>=-eq-some (lookup x subs) (λ k. get_below k (y ∷ ps) path) h in
    elim (Bool-cases (n == root)) [
      | inl e ↦ cc (ap (lookup x) (leaf e), found)
      | inr e ↦
          let current = parent ++ (slash ++ n) in
          let listed = IsListed-walk_all x current subs child art found (
            IsListed-walk child (y ∷ ps) path current art (lookup-RootIsLeaf x subs child rs found)
              there) in
          rw e (
            ground
              (arith, any-append (is_item_of art) (map article_item arts) (walk_all subs current)))
    ]

any-insert_sorted :
    (p : Text → Bool) (x : Text) (l : List Text) → any p (insert_sorted x l) ≡ (p x || any p l)
unfolding insert_sorted
any-insert_sorted p x [] = refl
any-insert_sorted p x (y ∷ l) = ground (arith, any-insert_sorted p x l)

any-sort : (p : Text → Bool) (l : List Text) → any p (sort l) ≡ any p l
unfolding sort
any-sort p [] = refl
any-sort p (x ∷ l) = ground (arith, any-sort p l, any-insert_sorted p x (sort l))

any-keys :
    (k : Text) (m : Sections) (sec : Section)
    → lookup k m ≡ some sec
    → any (λ j. j == k) (keys m) ≡ true
unfolding lookup
any-keys k nil sec h = cc
any-keys k (entry j s m) sec h = ground (arith, any-keys k m sec)

IsListed-walk_keys :
    (nav : Sections) (ks : List Text) (k : Text) (sec : Section) (art : Article)
    → any (λ j. j == k) ks ≡ true
    → lookup k nav ≡ some sec
    → IsListed art (walk sec [])
    → IsListed art (walk_keys nav ks)
unfolding walk_keys
IsListed-walk_keys nav [] k sec art h found listed = cc
IsListed-walk_keys nav (j ∷ ks) k sec art h found listed =
    rw (any-append (is_item_of art) (in_section (lookup j nav) (λ s. walk s [])) (walk_keys nav ks))
      (elim (Bool-cases (j == k)) [
        | inl e ↦ ground (arith, ap (λ i. lookup i nav) ((eq_iff j k).0 e))
        | inr e ↦ ground (arith, IsListed-walk_keys nav ks k sec art)
      ])

IsListed-top :
    (nav : Sections) (k : Text) (ps : List Text) (path : Text) (art : Article)
    → RootsAreLeaves nav
    → (lookup k nav >>= λ sec. get_below sec ps path) ≡ some art
    → IsListed art (build_search_index nav)
unfolding build_search_index
IsListed-top nav k ps path art r h =
    let (sec, found, there) = >>=-eq-some (lookup k nav) (λ s. get_below s ps path) h in
    IsListed-walk_keys nav (sort (keys nav)) k sec art
      (any-sort (λ j. j == k) (keys nav) ∙ any-keys k nav sec found) found
      (IsListed-walk sec ps path [] art (lookup-RootIsLeaf k nav sec r found) there)

IsListed-parts :
    (nav : Sections) (ps : List Text) (path : Text) (art : Article)
    → RootsAreLeaves nav
    → get_parts nav ps path ≡ some art
    → IsListed art (build_search_index nav)
unfolding get_parts
IsListed-parts nav [] path art r h = cc
IsListed-parts nav (x ∷ []) path art r h = IsListed-top nav root (x ∷ []) path art r h
IsListed-parts nav (x ∷ y ∷ ps) path art r h = IsListed-top nav x (y ∷ ps) path art r h

-- In a tree where no section of the name "root" has sub-sections, the search index lists every
-- article that `Get` finds, with its title and its path.
pub get-IsListed :
    (nav : Sections) (path : Text) (art : Article)
    → RootsAreLeaves nav
    → get nav path ≡ some art
    → IsListed art (build_search_index nav)
unfolding get
get-IsListed nav path art r h = IsListed-parts nav _ _ art r h
