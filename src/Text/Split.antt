-- ===== src/Text/Split.antt =====
-- `Split` at a one-byte separator, and `Join`.
use red_engine.Prelude.{
  ℕ, ◌≡◌, refl, ap, ◌∙◌, ◌≢◌, inl, inr, false, List, [], ◌∷◌, ◌++◌, arith, eqb, if◌then◌else◌,
  Bool-cases, All,
}
use red_engine.Text.Bytes.{Text}

-- The byte goes to the part that the separator before it opens.
abbrev push : ℕ → List Text → List Text
push c [] = (c ∷ []) ∷ []
push c (p ∷ ps) = (c ∷ p) ∷ ps

unfoldable pub split : ℕ → Text → List Text
split sep [] = [] ∷ []
split sep (c ∷ s) = let rest = split sep s in if eqb c sep then [] ∷ rest else push c rest

unfoldable pub join : Text → List Text → Text
join sep [] = []
join sep (p ∷ []) = p
join sep (p ∷ q ∷ ps) = p ++ (sep ++ join sep (q ∷ ps))

pub split-ne-nil : (sep : ℕ) (s : Text) → split sep s ≢ []
unfolding split
split-ne-nil sep [] = ground arith
split-ne-nil sep (c ∷ s) = elim (split sep s) [ [] ↦ ground arith | p ∷ ps ↦ ground arith ]

join-push : (sep : Text) (c : ℕ) (ps : List Text) → join sep (push c ps) ≡ c ∷ join sep ps
unfolding join
join-push sep c [] = refl
join-push sep c (p ∷ []) = refl
join-push sep c (p ∷ q ∷ ps) = refl

join-nil-cons : (sep : Text) (ps : List Text) → ps ≢ [] → join sep ([] ∷ ps) ≡ sep ++ join sep ps
unfolding join
join-nil-cons sep [] h = absurd (h refl)
join-nil-cons sep (p ∷ ps) h = refl

-- Joining what was split gives the text back.
pub join-split : (sep : ℕ) (s : Text) → join (sep ∷ []) (split sep s) ≡ s
unfolding split
join-split sep [] = unfold join in refl
join-split sep (c ∷ s) = elim (Bool-cases (eqb c sep)) [
  | inl e ↦ rw e (
      join-nil-cons (sep ∷ []) (split sep s) (split-ne-nil sep s)
      ∙ ground (arith, join-split sep s))
  | inr e ↦ rw e (join-push (sep ∷ []) c (split sep s) ∙ ap (◌∷◌ c) (join-split sep s))
]

abbrev pub HasNoByte : ℕ → Text → Type 0
HasNoByte sep s = All (λ c. eqb c sep ≡ false) s

push-HasNoByte :
    (sep c : ℕ) (ps : List Text)
    → eqb c sep ≡ false
    → All (HasNoByte sep) ps
    → All (HasNoByte sep) (push c ps)
push-HasNoByte sep c [] h k = ((h, tt), tt)
push-HasNoByte sep c (p ∷ ps) h (k, ks) = ((h, k), ks)

-- No part of a split text holds the separator.
pub split-HasNoByte : (sep : ℕ) (s : Text) → All (HasNoByte sep) (split sep s)
unfolding split
split-HasNoByte sep [] = (tt, tt)
split-HasNoByte sep (c ∷ s) = elim (Bool-cases (eqb c sep)) [
  | inl e ↦ rw e (tt, split-HasNoByte sep s)
  | inr e ↦ rw e (push-HasNoByte sep c (split sep s) e (split-HasNoByte sep s))
]

split_one : (sep : ℕ) (p : Text) → HasNoByte sep p → split sep p ≡ p ∷ []
unfolding split
split_one sep [] h = refl
split_one sep (c ∷ p) (h, k) = rw h (rw (split_one sep p k))

split_cons : (sep : ℕ) (p s : Text) → HasNoByte sep p → split sep (p ++ sep ∷ s) ≡ p ∷ split sep s
unfolding split
split_cons sep [] s h = ground arith
split_cons sep (c ∷ p) s (h, k) = rw h (rw (split_cons sep p s k))

-- Splitting what was joined gives the parts back, if they hold no separator.
pub split-join :
    (sep : ℕ) (ps : List Text)
    → ps ≢ []
    → All (HasNoByte sep) ps
    → split sep (join (sep ∷ []) ps) ≡ ps
unfolding join
split-join sep [] h k = absurd (h refl)
split-join sep (p ∷ []) h (k, ks) = split_one sep p k
split-join sep (p ∷ q ∷ ps) h (k, ks) =
    split_cons sep p (join (sep ∷ []) (q ∷ ps)) k ∙ ap (◌∷◌ p) (split-join sep (q ∷ ps) (cc) ks)

push-append : (c : ℕ) (ps qs : List Text) → ps ≢ [] → push c (ps ++ qs) ≡ push c ps ++ qs
push-append c [] qs h = absurd (h refl)
push-append c (p ∷ ps) qs h = refl

-- A separator between two texts splits them.
pub split-append : (sep : ℕ) (a s : Text) → split sep (a ++ sep ∷ s) ≡ split sep a ++ split sep s
unfolding split
split-append sep [] s = ground arith
split-append sep (c ∷ a) s = elim (Bool-cases (eqb c sep)) [
  | inl e ↦ rw e (ap (◌∷◌ []) (split-append sep a s))
  | inr e ↦ rw e (ap (push c) (split-append sep a s) ∙ push-append c _ _ (split-ne-nil sep a))
]
