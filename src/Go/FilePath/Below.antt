-- ===== src/Go/FilePath/Below.antt =====
-- Paths below a directory, by the guards of internal/fetch/fetch.go and internal/router.
use mathlib.Core.List.{head?}
use red_engine.Prelude.{
  ◌≡◌, refl, sym, ap, ap₂, ◌∙◌, ◌≢◌, ◌⊎◌, inl, inr, Bool, true, false, List, [], ◌∷◌, ◌++◌,
  append-nil, All, Bool-cases,
}
use red_engine.Text.{
  Text, ◌==◌, has_prefix, has_prefix-append, trim_prefix, trim_prefix-append, join, HasNoByte,
}
use red_engine.Go.FilePath.{slash, dot, dot_dot, is_rooted, elements, render, clean, join_path}
use red_engine.Go.FilePath.Clean.{
  IsPlain, elements-IsPlain, elements-All-ne-nil, elements-HasNoByte,
}
use red_engine.Go.FilePath.Join.{
  elements-join, clean-eq-render, elements-join_dot, is_rooted-join, join_path_lem,
}

-- The path is that of `dest`, or goes down from it by plain names, in which no slash
-- stands.
abbrev pub IsBelow : Text → Text → Type 0
IsBelow dest target =
    (ps : List Text) × All IsPlain ps
    × All (HasNoByte b'/') ps
    × (target ≡ render (is_rooted dest) (elements dest ++ ps))

has_prefix_self : (p : Text) → has_prefix p p ≡ true
has_prefix_self p = rw append-nil at (has_prefix-append p [])

has_prefix-join : (p : Text) (ps : List Text) → has_prefix (join slash (p ∷ ps)) p ≡ true
unfolding join
has_prefix-join p [] = has_prefix_self p
has_prefix-join p (q ∷ ps) = has_prefix-append p _

-- What is left of a cleaned name without its root.
abbrev Rel : Text → Text → Type 0
Rel name rel =
    (rel ≡ dot)
    ⊎ ((elements name ≢ []) × All IsPlain (elements name) × (rel ≡ join slash (elements name)))

-- A guarded rest of a name without root is "." or the join of plain elements.
Rel-unrooted :
    (name : Text) (es : List Text)
    → es ≡ elements name
    → is_rooted name ≡ false
    → has_prefix (join slash es) dot_dot ≡ false
    → join slash es ≢ []
    → Rel name (join slash es)
Rel-unrooted name [] e r h n = absurd (n (unfold join in refl))
Rel-unrooted name (p ∷ es) e r h n = inr (
  (λ k. cc),
  elements-IsPlain name (inr (λ d. cc (has_prefix-join p es, ap head? e))),
  ap (join slash) e,
)

trim_prefix-join :
    (p : Text) (es : List Text)
    → p ≢ []
    → HasNoByte b'/' p
    → trim_prefix (join slash (p ∷ es)) slash ≡ join slash (p ∷ es)
unfolding join trim_prefix
trim_prefix-join [] es h k = absurd (h refl)
trim_prefix-join (c ∷ p) [] h (k, ks) = rw k refl
trim_prefix-join (c ∷ p) (q ∷ es) h (k, ks) = rw k refl

Rel-of_render :
    (name : Text) (rooted : Bool) (es : List Text)
    → is_rooted name ≡ rooted
    → es ≡ elements name
    → All (λ p. p ≢ []) es
    → All (HasNoByte b'/') es
    → trim_prefix (render rooted es) slash ≢ []
    → has_prefix (trim_prefix (render rooted es) slash) dot_dot ≡ false
    → Rel name (trim_prefix (render rooted es) slash)
unfolding ◌==◌
Rel-of_render name true es r e full clear n h =
    let eq : trim_prefix (render true es) slash ≡ join slash es =
      unfold render in trim_prefix-append slash (join slash es) in
    rw eq (
      inr (
        (λ k. n (eq ∙ ap (join slash) (e ∙ k) ∙ (unfold join in refl))),
        elements-IsPlain name (inl r),
        ap (join slash) e,
      ))
Rel-of_render name false [] r e full clear n h = inl (unfold render join trim_prefix in refl)
Rel-of_render name false (p ∷ es) r e (a, full) (b, clear) n h =
    elim (Bool-cases (join slash (p ∷ es) == [])) [
      | inl empty ↦ inl (unfold render in rw empty (unfold trim_prefix in refl))
      | inr some_body ↦
          let eq : trim_prefix (render false (p ∷ es)) slash ≡ join slash (p ∷ es) =
            unfold render in rw some_body (trim_prefix-join p es a b) in
          rw eq (Rel-unrooted name (p ∷ es) e r (rw eq at h) (λ k. n (eq ∙ k)))
    ]

-- What is left of a cleaned name, if the guard lets it through.
Rel-of_guard :
    (name : Text)
    → trim_prefix (clean name) slash ≢ []
    → has_prefix (trim_prefix (clean name) slash) dot_dot ≡ false
    → Rel name (trim_prefix (clean name) slash)
Rel-of_guard name = rw clean-eq-render (
    Rel-of_render name (is_rooted name) (elements name) refl refl (elements-All-ne-nil name)
      (elements-HasNoByte name))

join_path-elements :
    (dest name rel : Text)
    → dest ≢ []
    → rel ≢ []
    → elements name ≢ []
    → All IsPlain (elements name)
    → rel ≡ join slash (elements name)
    → join_path dest rel ≡ render (is_rooted dest) (elements dest ++ elements name)
join_path-elements dest name rel h n full plain e =
    join_path_lem dest rel h n
    ∙ clean-eq-render _
    ∙ ap₂ render (is_rooted-join dest rel h)
        (rw e (elements-join dest (elements name) h full plain (elements-HasNoByte name)))

IsBelow-join_path :
    (dest name rel : Text) → dest ≢ [] → rel ≢ [] → Rel name rel → IsBelow dest (join_path dest rel)
IsBelow-join_path dest name rel h n (inl e) = (
  [],
  tt,
  tt,
  join_path_lem dest rel h n
      ∙ clean-eq-render _
      ∙ ap₂ render (is_rooted-join dest rel h)
          (rw e (elements-join_dot dest h) ∙ sym (append-nil (elements dest))),
)
IsBelow-join_path dest name rel h n (inr (full, plain, e)) = (
  elements name,
  plain,
  elements-HasNoByte name,
  join_path-elements dest name rel h n full plain e,
)

-- What the guard lets through is below the directory.
pub IsBelow-guarded :
    (dest name : Text)
    → dest ≢ []
    → trim_prefix (clean name) slash ≢ []
    → has_prefix (trim_prefix (clean name) slash) dot_dot ≡ false
    → IsBelow dest (join_path dest (trim_prefix (clean name) slash))
IsBelow-guarded dest name h n clear =
    IsBelow-join_path dest name (trim_prefix (clean name) slash) h n (Rel-of_guard name n clear)

-- Plain names under a directory are below it.
pub IsBelow-join :
    (dest : Text) (ps : List Text)
    → dest ≢ []
    → ps ≢ []
    → All IsPlain ps
    → All (HasNoByte b'/') ps
    → clean (dest ++ (slash ++ join slash ps)) ≡ render (is_rooted dest) (elements dest ++ ps)
IsBelow-join dest ps h n plain clear =
    clean-eq-render _
    ∙ ap₂ render (is_rooted-join dest (join slash ps) h) (elements-join dest ps h n plain clear)

-- The path goes down from that of `dest` by one plain name at least.
abbrev pub IsInside : Text → Text → Type 0
IsInside dest target =
    (ps : List Text) × (ps ≢ [])
    × All IsPlain ps
    × All (HasNoByte b'/') ps
    × (target ≡ render (is_rooted dest) (elements dest ++ ps))

-- A cleaned name without root that is neither "." nor begins with ".." leads inside the directory.
pub IsInside-clean :
    (dest name : Text)
    → dest ≢ []
    → clean name ≢ []
    → clean name ≢ dot
    → has_prefix (clean name) dot_dot ≡ false
    → is_rooted (clean name) ≡ false
    → IsInside dest (join_path dest (clean name))
IsInside-clean dest name h n not_dot clear unrooted =
    let same : trim_prefix (clean name) slash ≡ clean name =
      unfold trim_prefix in rw unrooted refl in
    elim (Rel-of_guard name (λ e. n (sym same ∙ e)) (rw same clear)) [
      | inl e ↦ absurd (not_dot (sym same ∙ e))
      | inr (full, plain, e) ↦ (
        elements name,
        full,
        plain,
        elements-HasNoByte name,
        join_path-elements dest name (clean name) h n full plain (sym same ∙ e),
      )
    ]
