-- ===== src/Router/Recent/Newest.antt =====
-- Which files `recentFiles` of internal/router/api.go shows.
use mathlib.Core.List.{Perm}
use mathlib.Core.List.Perm
use red_engine.Prelude.{
  ℕ, zero, suc, ◌≤◌, ◌≡◌, refl, ap, sym, subst, ◌∙◌, ◌⊎◌, inl, inr, Bool, true, false, not, Option,
  none, some, List, [], ◌∷◌, ◌++◌, map, arith, take, drop, length, take-append-drop, keep,
  Bool-cases, Option-cases,
}
use red_engine.Text.{Text}
use red_engine.Go.Strconv.{atoi}
use red_engine.Store.{Article, Section, section, Sections, nil, entry}
use red_engine.Router.Recent.{
  limit_of, Candidate, has_hidden_segment, candidate_of, candidates, walk_section, walk_sections,
  is_after, insert_recent, sort_recent, result_of, recent_files,
}

-- All articles of a tree.
unfoldable mutual
  pub articles_in : Section → List Article
  articles_in (section n p arts subs c i) = arts ++ articles_below subs

  pub articles_below : Sections → List Article
  articles_below nil = []
  articles_below (entry k sec m) = articles_in sec ++ articles_below m

abbrev pub is_shown : Article → Bool
is_shown art = not (has_hidden_segment art.path)

candidates-append :
    (f : Article → Candidate) (xs ys : List Article)
    → candidates f (xs ++ ys) ≡ candidates f xs ++ candidates f ys
unfolding candidates
candidates-append f [] ys = refl
candidates-append f (x ∷ xs) ys = elim (Bool-cases (has_hidden_segment x.path)) [
  | inl e ↦ rw e (candidates-append f xs ys)
  | inr e ↦ rw e (ap (◌∷◌ (f x)) (candidates-append f xs ys))
]

candidates-keep :
    (f : Article → Candidate) (xs : List Article) → candidates f xs ≡ map f (keep is_shown xs)
unfolding candidates
candidates-keep f [] = refl
candidates-keep f (x ∷ xs) = elim (Bool-cases (has_hidden_segment x.path)) [
  | inl e ↦ rw e (candidates-keep f xs)
  | inr e ↦ rw e (ap (◌∷◌ (f x)) (candidates-keep f xs))
]

mutual
  unfolding walk_section walk_sections articles_in articles_below candidates

  walk_section-candidates :
      (f : Article → Candidate) (sec : Section)
      → walk_section f sec ≡ candidates f (articles_in sec)
  walk_section-candidates f (section n p arts subs c i) =
      ap (λ l. candidates f arts ++ l) (walk_sections-candidates f subs)
      ∙ sym (candidates-append f arts (articles_below subs))

  walk_sections-candidates :
      (f : Article → Candidate) (m : Sections) → walk_sections f m ≡ candidates f (articles_below m)
  walk_sections-candidates f nil = refl
  walk_sections-candidates f (entry k sec m) =
      ap (λ l. l ++ walk_sections f m) (walk_section-candidates f sec)
      ∙ (ap (λ l. candidates f (articles_in sec) ++ l) (walk_sections-candidates f m)
          ∙ sym (candidates-append f (articles_in sec) (articles_below m)))

-- No file is newer than one before it.
abbrev pub IsNewestFirst : List Candidate → Type 0
IsNewestFirst [] = Unit
IsNewestFirst (c ∷ []) = Unit
IsNewestFirst (c ∷ d ∷ l) = (is_after d.mtime c.mtime ≡ false) × IsNewestFirst (d ∷ l)

is_after_asymm : (a b : Option ℕ) → is_after a b ≡ true → is_after b a ≡ false
unfolding is_after
is_after_asymm none b h = cc h
is_after_asymm (some a) none h = refl
is_after_asymm (some a) (some b) h = ground arith

insert_recent-IsNewestFirst :
    (c : Candidate) (l : List Candidate) → IsNewestFirst l → IsNewestFirst (insert_recent c l)
unfolding insert_recent
insert_recent-IsNewestFirst c [] h = tt
insert_recent-IsNewestFirst c (d ∷ []) h = elim (Bool-cases (is_after d.mtime c.mtime)) [
  | inl e ↦ rw e (is_after_asymm d.mtime c.mtime e, tt)
  | inr e ↦ rw e (e, tt)
]
insert_recent-IsNewestFirst c (d ∷ d' ∷ l) (k, h) =
    let ih = insert_recent-IsNewestFirst c (d' ∷ l) h in
    elim (Bool-cases (is_after d.mtime c.mtime)) [
      | inr e ↦ rw e (e, (k, h))
      | inl e ↦ rw e (elim (Bool-cases (is_after d'.mtime c.mtime)) [
        | inl e' ↦ rw e' (k, rw (insert_recent, e') at ih)
        | inr e' ↦ rw e' (is_after_asymm d.mtime c.mtime e, rw (insert_recent, e') at ih)
      ])
    ]

sort_recent-IsNewestFirst : (l : List Candidate) → IsNewestFirst (sort_recent l)
unfolding sort_recent
sort_recent-IsNewestFirst [] = tt
sort_recent-IsNewestFirst (c ∷ l) =
    insert_recent-IsNewestFirst c (sort_recent l) (sort_recent-IsNewestFirst l)

insert_recent-perm : (c : Candidate) (l : List Candidate) → Perm (insert_recent c l) (c ∷ l)
unfolding insert_recent
insert_recent-perm c [] = Perm.refl (c ∷ [])
insert_recent-perm c (d ∷ l) = elim (Bool-cases (is_after d.mtime c.mtime)) [
  | inl e ↦ rw e (Perm.trans (Perm.cons d (insert_recent-perm c l)) (Perm.swap c d l))
  | inr e ↦ rw e (Perm.refl (c ∷ d ∷ l))
]

sort_recent-perm : (l : List Candidate) → Perm (sort_recent l) l
unfolding sort_recent
sort_recent-perm [] = Perm.refl []
sort_recent-perm (c ∷ l) =
    Perm.trans (insert_recent-perm c (sort_recent l)) (Perm.cons c (sort_recent-perm l))

limit_bounds : (s : Text) → (1 ≤ limit_of s) × (limit_of s ≤ 20)
unfolding limit_of
limit_bounds s = elim (Option-cases (atoi s)) [
  | inl e ↦ rw (e, limit_of) (omega arith)
  | inr (n, e) ↦ rw (e, limit_of) (ground arith)
]

length-take_le : (n : ℕ) (xs : List Candidate) → length (take n xs) ≤ n
length-take_le zero xs = omega arith
length-take_le (suc n) [] = omega arith
length-take_le (suc n) (x ∷ xs) = omega (arith, length-take_le n xs)

take_all-or_full : (n : ℕ) (xs : List Candidate) → (drop n xs ≡ []) ⊎ (length (take n xs) ≡ n)
take_all-or_full zero xs = inr refl
take_all-or_full (suc n) [] = inl refl
take_all-or_full (suc n) (x ∷ xs) = elim (take_all-or_full n xs) [
  | inl e ↦ inl e
  | inr e ↦ inr (ap suc e)
]

-- For any query recentFiles shows between one and 20 files at most, as many as its limit unless
-- it shows all. The files that it shows, with those that it leaves out behind them, are the
-- articles of the tree that have no hidden part in their path, each as often as it is there, and
-- none is newer than one before it.
pub recent_files-IsNewestFirst :
    (data_dir : Text) (mtime : Text → Option ℕ) (limit : Text) (nav : Sections)
    → (shown : List Candidate) × (rest : List Candidate) × (recent_files data_dir mtime limit nav
        ≡ map result_of shown)
      × ((1 ≤ limit_of limit) × (limit_of limit ≤ 20) × (length shown ≤ limit_of limit))
      × ((rest ≡ []) ⊎ (length shown ≡ limit_of limit))
      × IsNewestFirst (shown ++ rest)
      × Perm
          (shown ++ rest)
          (map (candidate_of data_dir mtime) (keep is_shown (articles_below nav)))
unfolding recent_files
recent_files-IsNewestFirst data_dir mtime limit nav =
    let f = candidate_of data_dir mtime in
    let n = limit_of limit in
    let sorted = sort_recent (walk_sections f nav) in
    let whole = take-append-drop n sorted in
    let (low, high) = limit_bounds limit in
    let same = walk_sections-candidates f nav ∙ candidates-keep f (articles_below nav) in
    (
      take n sorted,
      drop n sorted,
      refl,
      (low, high, length-take_le n sorted),
      take_all-or_full n sorted,
      subst IsNewestFirst (sym whole) (sort_recent-IsNewestFirst (walk_sections f nav)),
      subst (λ l. Perm l (map f (keep is_shown (articles_below nav)))) (sym whole)
          (subst (λ l. Perm sorted l) same (sort_recent-perm (walk_sections f nav))),
    )
