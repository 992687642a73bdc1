-- ===== src/Router/Import/Named.antt =====
-- When the naming of internal/router/sync.go panics, and where its names lead.
use red_engine.Prelude.{
  ℕ, zero, suc, ◌-◌, get_or, ◌≤◌, ◌≡◌, refl, subst, sym, ◌∙◌, ◌≢◌, ◌↔◌, ◌⊎◌, inl, inr, true, ◌||◌,
  none, some, List, [], ◌∷◌, ◌++◌, append-nil, arith, length, take, get_elem?, All, Bool-cases,
  Option-cases,
}
use red_engine.Text.{
  Text, text, ◌==◌, eq_iff, has_prefix, has_prefix-append, has_suffix, trim_suffix, split-ne-nil,
  split-HasNoByte, HasNoByte, join,
}
use red_engine.Go.FilePath.{dot, dot_dot, slash, clean, render, is_rooted, join_path, elements}
use red_engine.Go.FilePath.Clean.{IsPlain}
use red_engine.Go.FilePath.Join.{join_path_lem}
use red_engine.Go.FilePath.Below.{IsInside, IsInside-clean, IsBelow-join}
use red_engine.Store.Verify.{last_part}
use red_engine.Router.Files.Confined.{last_part-All}
use red_engine.Router.Import.{
  destination, github, url_parts, trim_right, stem, or_stamp, auto_name, target_sub_path,
  given_name,
}

get_elem?-none : {A : Type 0} (l : List A) → (get_elem? l 3 ≡ none) ↔ (length l ≤ 3)
get_elem?-none [] = ground arith
get_elem?-none (a ∷ []) = ground arith
get_elem?-none (a ∷ b ∷ []) = ground arith
get_elem?-none (a ∷ b ∷ c ∷ []) = ground arith
get_elem?-none (a ∷ b ∷ c ∷ d ∷ l) = ground arith

auto_name-none_iff :
    (host path safe : Text)
    → (auto_name host path safe ≡ none) ↔ ((host ≡ github) × (length (url_parts path) ≡ 3))
unfolding auto_name
auto_name-none_iff host path safe =
    ground (arith, eq_iff host github, get_elem?-none (url_parts path))

clean-ne-nil : (path : Text) → clean path ≢ []
unfolding clean render
clean-ne-nil path h = ground (arith, eq_iff (join slash (elements path)) [])

-- The naming of a download from a URL that parses panics exactly where no file name is given and the
-- URL is one of github.com whose path splits into three parts, as that of a repository does.
pub target_sub_path-none_iff :
    (host path filename stamp : Text)
    → (target_sub_path host path filename stamp ≡ none)
      ↔ ((clean filename ≡ dot) × (host ≡ github) × (length (url_parts path) ≡ 3))
unfolding target_sub_path
target_sub_path-none_iff host path filename stamp = ground (
  arith,
  eq_iff (clean filename) dot,
  eq_iff (clean filename) [],
  clean-ne-nil filename,
  auto_name-none_iff host path (clean filename),
)

pub given_name-none_iff :
    (filename stamp : Text) → (given_name filename stamp ≡ none) ↔ (clean filename ≡ dot)
unfolding given_name
given_name-none_iff filename stamp =
    ground (arith, eq_iff (clean filename) dot, eq_iff (clean filename) [], clean-ne-nil filename)

HasNoByte-take : (n : ℕ) (s : Text) → HasNoByte b'/' s → HasNoByte b'/' (take n s)
HasNoByte-take zero s h = tt
HasNoByte-take (suc n) [] h = tt
HasNoByte-take (suc n) (c ∷ s) (k, h) = (k, HasNoByte-take n s h)

HasNoByte-trim_suffix : (s suffix : Text) → HasNoByte b'/' s → HasNoByte b'/' (trim_suffix s suffix)
unfolding trim_suffix
HasNoByte-trim_suffix s suffix h = elim (Bool-cases (has_suffix s suffix)) [
  | inl e ↦ rw e (HasNoByte-take (length s - length suffix) s h)
  | inr e ↦ rw e h
]

HasNoByte-stem : (s : Text) → HasNoByte b'/' s → HasNoByte b'/' (stem s)
HasNoByte-stem s h = HasNoByte-trim_suffix _ _ (
    HasNoByte-trim_suffix _ _
      (HasNoByte-trim_suffix _ _ (HasNoByte-trim_suffix _ _ (HasNoByte-trim_suffix _ _ h))))

HasNoByte-get_elem? :
    (parts : List Text) (i : ℕ)
    → All (HasNoByte b'/') parts
    → HasNoByte b'/' (get_or (get_elem? parts i) [])
HasNoByte-get_elem? [] i h = tt
HasNoByte-get_elem? (p ∷ parts) zero (k, h) = k
HasNoByte-get_elem? (p ∷ parts) (suc i) (k, h) = HasNoByte-get_elem? parts i h

has_prefix_self : (p : Text) → has_prefix p p ≡ true
has_prefix_self p = rw append-nil at (has_prefix-append p [])

module _ (data_dir stamp : Text) (filled : data_dir ≢ []) (digits : HasNoByte b'/' stamp) where
  IsInside-part :
      (t : Text) → IsPlain t → HasNoByte b'/' t → IsInside data_dir (join_path data_dir t)
  IsInside-part t plain clear =
      let below : clean (data_dir ++ (slash ++ t))
          ≡ render (is_rooted data_dir) (elements data_dir ++ t ∷ []) =
        unfold join in IsBelow-join data_dir (t ∷ []) filled (λ e. cc) (plain, tt) (clear, tt) in
      (t ∷ [], (λ e. cc), (plain, tt), (clear, tt), join_path_lem data_dir t filled plain.0 ∙ below)

  IsInside-stamp : IsInside data_dir (join_path data_dir (text "sync-" ++ stamp))
  IsInside-stamp =
      IsInside-part (text "sync-" ++ stamp) ((λ e. cc), (λ e. cc), (λ e. cc))
        (refl, (refl, (refl, (refl, (refl, digits)))))

  or_stamp-IsInside :
      (t : Text) → HasNoByte b'/' t → IsInside data_dir (join_path data_dir (or_stamp stamp t))
  unfolding or_stamp
  or_stamp-IsInside t clear =
      elim (Bool-cases (t == dot || t == [] || has_prefix t (text "..") || is_rooted t)) [
        | inl e ↦ rw e IsInside-stamp
        | inr e ↦ rw e (
            IsInside-part t
              (
                ground (arith, eq_iff t []),
                ground (arith, eq_iff t dot),
                (λ k. ground (arith, has_prefix_self dot_dot)),
              )
              clear)
      ]

  or_stamp-IsInside-clean :
      (name : Text) → IsInside data_dir (join_path data_dir (or_stamp stamp (clean name)))
  unfolding or_stamp
  or_stamp-IsInside-clean name =
      let t = clean name in
      elim (Bool-cases (t == dot || t == [] || has_prefix t (text "..") || is_rooted t)) [
        | inl e ↦ rw e IsInside-stamp
        | inr e ↦ rw e (
            IsInside-clean data_dir name filled (clean-ne-nil name) (ground (arith, eq_iff t dot))
              (ground arith) (ground arith))
      ]

  pub given_name-IsInside :
      (filename t : Text)
      → given_name filename stamp ≡ some t
      → IsInside data_dir (destination data_dir t)
  unfolding given_name
  given_name-IsInside filename t h =
      subst (λ x. IsInside data_dir (join_path data_dir x)) (unfold given_name in ground arith)
        (or_stamp-IsInside-clean filename)

  -- A name from the URL leads inside the directory, or it is the name that was given.
  auto_name-IsInside :
      (host path name t : Text)
      → auto_name host path (clean name) ≡ some t
      → IsInside data_dir (join_path data_dir (or_stamp stamp t))
  unfolding auto_name
  auto_name-IsInside host path name t h =
      let parts = url_parts path in
      let free = split-HasNoByte b'/' (trim_right path) in
      let last = last_part-All (HasNoByte b'/') parts (split-ne-nil b'/' (trim_right path)) free in
      let cases : (t ≡ clean name)
          ⊎ ((t ≡ get_or (get_elem? parts 2) []) ⊎ (t ≡ stem (last_part parts))) =
        elim (Option-cases (get_elem? parts 3)) [
          | inl e ↦ ground arith
          | inr (p, e) ↦ ground arith
        ] in
      elim cases [
        | inl e ↦
            subst (λ x. IsInside data_dir (join_path data_dir (or_stamp stamp x))) (sym e)
              (or_stamp-IsInside-clean name)
        | inr (inl e) ↦
            or_stamp-IsInside t (subst (HasNoByte b'/') (sym e) (HasNoByte-get_elem? parts 2 free))
        | inr (inr e) ↦
            or_stamp-IsInside t
              (subst (HasNoByte b'/') (sym e) (HasNoByte-stem (last_part parts) last))
      ]

  -- Whatever file name and URL an import is given, where the data directory has a name and no time
  -- has a slash the directory that it downloads to is inside the data directory.
  pub target_sub_path-IsInside :
      (host path filename t : Text)
      → target_sub_path host path filename stamp ≡ some t
      → IsInside data_dir (destination data_dir t)
  unfolding target_sub_path
  target_sub_path-IsInside host path filename t h =
      let safe = clean filename in
      elim (Bool-cases (safe == dot || safe == [])) [
        | inr named ↦
            let e : or_stamp stamp safe ≡ t = ground arith in
            subst (λ x. IsInside data_dir (join_path data_dir x)) e
              (or_stamp-IsInside-clean filename)
        | inl unnamed ↦ elim (Option-cases (auto_name host path safe)) [
          | inl e ↦ absurd (ground arith)
          | inr (x, e) ↦
              let e' : or_stamp stamp x ≡ t = ground arith in
              subst (λ y. IsInside data_dir (join_path data_dir y)) e'
                (auto_name-IsInside host path filename x e)
        ]
      ]
