-- ===== src/Go/FilePath/Clean.antt =====
-- Cleaned paths: where ".." can stand in them, and that no part of them holds a slash.
use mathlib.Core.List.{head?, reverse, reverse-cons}
use red_engine.Prelude.{
  ◌≡◌, refl, ap, ◌∙◌, ◌≢◌, ◌⊎◌, inl, inr, Bool, true, false, Option, none, some, List, [], ◌∷◌,
  ◌++◌, append_assoc, arith, or_else, All, All-append,
}
use red_engine.Text.{Text, eq_iff, split, HasNoByte, split-HasNoByte}
use red_engine.Go.FilePath.{dot, dot_dot, is_rooted, clean_step, clean_parts, elements}

-- A name that goes down one directory.
abbrev pub IsPlain : Text → Type 0
IsPlain p = (p ≢ []) × (p ≢ dot) × (p ≢ dot_dot)

clean_step_of_IsPlain :
    (rooted : Bool) (out : List Text) (p : Text) → IsPlain p → clean_step rooted out p ≡ p ∷ out
unfolding clean_step
clean_step_of_IsPlain rooted out p h = ground (arith, eq_iff p [], eq_iff p dot, eq_iff p dot_dot)

-- Plain parts stay as they are.
pub clean_parts_of_All-IsPlain :
    (rooted : Bool) (out ps : List Text)
    → All IsPlain ps
    → clean_parts rooted out ps ≡ reverse ps ++ out
unfolding clean_parts
clean_parts_of_All-IsPlain rooted out [] h = refl
clean_parts_of_All-IsPlain rooted out (p ∷ ps) (h, k) =
    rw (clean_step_of_IsPlain rooted out p h)
      (clean_parts_of_All-IsPlain rooted (p ∷ out) ps k ∙ simp (reverse-cons, append_assoc))

-- ".." stands only below the plain names, and only in a path with no root.
abbrev IsClean : Bool → List Text → Type 0
IsClean rooted [] = Unit
IsClean rooted (p ∷ out) =
    (p ≢ [])
    × (p ≢ dot)
    × (p ≡ dot_dot → (rooted ≡ false) × All (λ q. q ≡ dot_dot) out)
    × IsClean rooted out

clean_step-IsClean :
    (rooted : Bool) (out : List Text) (part : Text)
    → IsClean rooted out
    → IsClean rooted (clean_step rooted out part)
unfolding clean_step
clean_step-IsClean rooted [] part h =
    ground (arith, eq_iff part [], eq_iff part dot, eq_iff part dot_dot)
clean_step-IsClean rooted (q ∷ out) part (a, b, c, d) =
    ground (arith, eq_iff part [], eq_iff part dot, eq_iff part dot_dot, eq_iff q dot_dot, c)

clean_parts-IsClean :
    (rooted : Bool) (out ps : List Text)
    → IsClean rooted out
    → IsClean rooted (clean_parts rooted out ps)
unfolding clean_parts
clean_parts-IsClean rooted out [] h = h
clean_parts-IsClean rooted out (p ∷ ps) h =
    clean_parts-IsClean rooted (clean_step rooted out p) ps (clean_step-IsClean rooted out p h)

pub clean_parts-append :
    (rooted : Bool) (out ps qs : List Text)
    → clean_parts rooted out (ps ++ qs) ≡ clean_parts rooted (clean_parts rooted out ps) qs
unfolding clean_parts
clean_parts-append rooted out [] qs = refl
clean_parts-append rooted out (p ∷ ps) qs =
    clean_parts-append rooted (clean_step rooted out p) ps qs

All-of_eq : (P : Text → Type 0) (a : Text) (l : List Text) → P a → All (λ q. q ≡ a) l → All P l
All-of_eq P a [] p h = tt
All-of_eq P a (x ∷ l) p (e, h) = (rw e p, All-of_eq P a l p h)

-- The element at the bottom, which stands first in the path.
abbrev bottom : List Text → Option Text
bottom [] = none
bottom (p ∷ []) = some p
bottom (p ∷ q ∷ out) = bottom (q ∷ out)

bottom_of_All-eq :
    (a p : Text) (l : List Text) → p ≡ a → All (λ q. q ≡ a) l → bottom (p ∷ l) ≡ some a
bottom_of_All-eq a p [] e h = ap some e
bottom_of_All-eq a p (q ∷ l) e (e', h) = bottom_of_All-eq a q l e' h

All-IsPlain_of_IsClean :
    (rooted : Bool) (out : List Text)
    → IsClean rooted out
    → (rooted ≡ true) ⊎ (bottom out ≢ some dot_dot)
    → All IsPlain out
All-IsPlain_of_IsClean rooted [] h k = tt
All-IsPlain_of_IsClean rooted (p ∷ []) (a, b, c, d) k =
    ((a, b, λ e. elim k [ inl r ↦ cc ((c e).0) | inr n ↦ n (ap some e) ]), tt)
All-IsPlain_of_IsClean rooted (p ∷ q ∷ out) (a, b, c, d) k = (
  (
    a,
    b,
    λ e. elim k [
      | inl r ↦ cc ((c e).0)
      | inr n ↦ n (bottom_of_All-eq dot_dot p (q ∷ out) e (c e).1)
    ],
  ),
  All-IsPlain_of_IsClean rooted (q ∷ out) d k,
)

head?-append_one : (l : List Text) (p : Text) → head? (l ++ p ∷ []) ≡ or_else (head? l) (some p)
head?-append_one [] p = refl
head?-append_one (q ∷ l) p = refl

bottom-cons :
    (q : Text) (l : List Text) (p : Text) → or_else (bottom (q ∷ l)) (some p) ≡ bottom (q ∷ l)
bottom-cons q [] p = refl
bottom-cons q (r ∷ l) p = bottom-cons r l p

head?-reverse : (l : List Text) → head? (reverse l) ≡ bottom l
head?-reverse [] = refl
head?-reverse (p ∷ []) = refl
head?-reverse (p ∷ q ∷ l) = rw reverse-cons (
    head?-append_one (reverse (q ∷ l)) p
    ∙ ap (λ o. or_else o (some p)) (head?-reverse (q ∷ l))
    ∙ bottom-cons q l p)

All-reverse {ℓ} : {A : Type ℓ} (P : A → Type 0) (l : List A) → All P l → All P (reverse l)
All-reverse P [] h = tt
All-reverse P (x ∷ l) (p, h) =
    rw reverse-cons (All-append P (reverse l) (x ∷ []) (All-reverse P l h) (p, tt))

-- The elements of a path that is rooted or does not begin with ".." are plain names.
pub elements-IsPlain :
    (path : Text)
    → (is_rooted path ≡ true) ⊎ (head? (elements path) ≢ some dot_dot)
    → All IsPlain (elements path)
unfolding elements
elements-IsPlain path h =
    let out = clean_parts (is_rooted path) [] (split b'/' path) in
    All-reverse IsPlain out (
      All-IsPlain_of_IsClean (is_rooted path) out
        (clean_parts-IsClean (is_rooted path) [] (split b'/' path) tt)
        (elim h [ inl r ↦ inl r | inr n ↦ inr (λ e. n (head?-reverse out ∙ e)) ]))

clean_step-HasNoByte :
    (rooted : Bool) (out : List Text) (p : Text)
    → All (HasNoByte b'/') out
    → HasNoByte b'/' p
    → All (HasNoByte b'/') (clean_step rooted out p)
unfolding clean_step
clean_step-HasNoByte rooted [] p h k = ground arith
clean_step-HasNoByte rooted (q ∷ out) p h k = ground arith

clean_parts-HasNoByte :
    (rooted : Bool) (out ps : List Text)
    → All (HasNoByte b'/') out
    → All (HasNoByte b'/') ps
    → All (HasNoByte b'/') (clean_parts rooted out ps)
unfolding clean_parts
clean_parts-HasNoByte rooted out [] h k = h
clean_parts-HasNoByte rooted out (p ∷ ps) h (k, ks) =
    clean_parts-HasNoByte rooted (clean_step rooted out p) ps
      (clean_step-HasNoByte rooted out p h k) ks

pub elements-HasNoByte : (path : Text) → All (HasNoByte b'/') (elements path)
unfolding elements
elements-HasNoByte path =
    All-reverse (HasNoByte b'/') _
      (clean_parts-HasNoByte (is_rooted path) [] (split b'/' path) tt (split-HasNoByte b'/' path))

All-ne-nil_of_IsClean :
    (rooted : Bool) (out : List Text) → IsClean rooted out → All (λ p. p ≢ []) out
All-ne-nil_of_IsClean rooted [] h = tt
All-ne-nil_of_IsClean rooted (p ∷ out) (a, b, c, d) = (a, All-ne-nil_of_IsClean rooted out d)

pub elements-All-ne-nil : (path : Text) → All (λ p. p ≢ []) (elements path)
unfolding elements
elements-All-ne-nil path =
    All-reverse (λ p. p ≢ []) _
      (All-ne-nil_of_IsClean (is_rooted path) _
        (clean_parts-IsClean (is_rooted path) [] (split b'/' path) tt))
