-- ===== src/Go/FilePath/Suffix.antt =====
-- A path below a directory stays below it with an ending at its last name.
use red_engine.Prelude.{
  ◌≤◌, ◌≡◌, refl, sym, ap, ◌∙◌, ◌≢◌, Bool, true, false, List, [], ◌∷◌, ◌++◌, append_assoc, arith,
  length, length-append, All,
}
use red_engine.Text.{Text, ◌==◌, eq_iff, join, HasNoByte}
use red_engine.Go.FilePath.{slash, is_rooted, elements, render}
use red_engine.Go.FilePath.Clean.{IsPlain}
use red_engine.Go.FilePath.Below.{IsInside}

abbrev suffix_last : Text → List Text → List Text
suffix_last s [] = []
suffix_last s (p ∷ []) = (p ++ s) ∷ []
suffix_last s (p ∷ q ∷ ps) = p ∷ suffix_last s (q ∷ ps)

join-cons : (x : Text) (l : List Text) → l ≢ [] → join slash (x ∷ l) ≡ x ++ (slash ++ join slash l)
unfolding join
join-cons x [] h = absurd (h refl)
join-cons x (y ∷ l) h = refl

suffix_last-ne-nil : (s : Text) (ps : List Text) → ps ≢ [] → suffix_last s ps ≢ []
suffix_last-ne-nil s [] h = h
suffix_last-ne-nil s (p ∷ []) h = λ e. cc e
suffix_last-ne-nil s (p ∷ q ∷ ps) h = λ e. cc e

append-ne-nil : (xs ps : List Text) → ps ≢ [] → xs ++ ps ≢ []
append-ne-nil [] ps h = h
append-ne-nil (x ∷ xs) ps h = λ e. cc e

join-suffix_last :
    (s : Text) (ps : List Text) → ps ≢ [] → join slash (suffix_last s ps) ≡ join slash ps ++ s
join-suffix_last s [] h = absurd (h refl)
join-suffix_last s (p ∷ []) h = unfold join in refl
join-suffix_last s (p ∷ q ∷ ps) h =
    let more : q ∷ ps ≢ [] = λ e. cc e in
    join-cons p (suffix_last s (q ∷ ps)) (suffix_last-ne-nil s (q ∷ ps) more)
    ∙ ap (λ t. p ++ (slash ++ t)) (join-suffix_last s (q ∷ ps) more)
    ∙ sym (append_assoc p (slash ++ join slash (q ∷ ps)) s)
    ∙ ap (λ t. t ++ s) (sym (join-cons p (q ∷ ps) more))

join-append-suffix_last :
    (s : Text) (xs ps : List Text)
    → ps ≢ []
    → join slash (xs ++ suffix_last s ps) ≡ join slash (xs ++ ps) ++ s
join-append-suffix_last s [] ps h = join-suffix_last s ps h
join-append-suffix_last s (x ∷ xs) ps h =
    join-cons x (xs ++ suffix_last s ps)
      (append-ne-nil xs (suffix_last s ps) (suffix_last-ne-nil s ps h))
    ∙ ap (λ t. x ++ (slash ++ t)) (join-append-suffix_last s xs ps h)
    ∙ sym (append_assoc x (slash ++ join slash (xs ++ ps)) s)
    ∙ ap (λ t. t ++ s) (sym (join-cons x (xs ++ ps) (append-ne-nil xs ps h)))

-- A longer name than the two that are special is plain.
IsPlain-append : (p s : Text) → IsPlain p → 2 ≤ length s → IsPlain (p ++ s)
IsPlain-append [] s h k = absurd (h.0 refl)
IsPlain-append (c ∷ p) s h k = (
  λ e. absurd (omega (arith, ap length e)),
  λ e. absurd (omega (arith, ap length e, length-append p s)),
  λ e. absurd (omega (arith, ap length e, length-append p s)),
)

suffix_last-IsPlain :
    (s : Text) (ps : List Text) → 2 ≤ length s → All IsPlain ps → All IsPlain (suffix_last s ps)
suffix_last-IsPlain s [] k h = tt
suffix_last-IsPlain s (p ∷ []) k (h, hs) = (IsPlain-append p s h k, tt)
suffix_last-IsPlain s (p ∷ q ∷ ps) k (h, hs) = (h, suffix_last-IsPlain s (q ∷ ps) k hs)

join-filled : (xs ps : List Text) → ps ≢ [] → All IsPlain ps → join slash (xs ++ ps) ≢ []
join-filled [] [] h k = absurd (h refl)
join-filled [] (p ∷ []) h (k, ks) = unfold join in k.0
join-filled [] ([] ∷ q ∷ ps) h (k, ks) = absurd (k.0 refl)
join-filled [] ((c ∷ p) ∷ q ∷ ps) h (k, ks) = unfold join in λ e. cc e
join-filled (x ∷ xs) ps h k = λ e.
    let longer = ap length (sym (join-cons x (xs ++ ps) (append-ne-nil xs ps h)) ∙ e) in
    absurd (omega (arith, longer, length-append x (slash ++ join slash (xs ++ ps))))

render-suffix_last :
    (rooted : Bool) (s : Text) (xs ps : List Text)
    → ps ≢ []
    → All IsPlain ps
    → 2 ≤ length s
    → render rooted (xs ++ ps) ++ s ≡ render rooted (xs ++ suffix_last s ps)
unfolding render
render-suffix_last true s xs ps h k l =
    ap (λ t. slash ++ t) (sym (join-append-suffix_last s xs ps h))
render-suffix_last false s xs ps h k l =
    let filled = join-filled xs ps h k in
    let filled' =
      join-filled xs (suffix_last s ps) (suffix_last-ne-nil s ps h)
        (suffix_last-IsPlain s ps l k) in
    let e : (join slash (xs ++ ps) == []) ≡ false =
      ground (arith, eq_iff (join slash (xs ++ ps)) []) in
    let e' : (join slash (xs ++ suffix_last s ps) == []) ≡ false =
      ground (arith, eq_iff (join slash (xs ++ suffix_last s ps)) []) in
    rw e (rw e' (sym (join-append-suffix_last s xs ps h)))

HasNoByte-append : (p s : Text) → HasNoByte b'/' p → HasNoByte b'/' s → HasNoByte b'/' (p ++ s)
HasNoByte-append [] s h k = k
HasNoByte-append (c ∷ p) s (h, hs) k = (h, HasNoByte-append p s hs k)

suffix_last-HasNoByte :
    (s : Text) (ps : List Text)
    → HasNoByte b'/' s
    → All (HasNoByte b'/') ps
    → All (HasNoByte b'/') (suffix_last s ps)
suffix_last-HasNoByte s [] k h = tt
suffix_last-HasNoByte s (p ∷ []) k (h, hs) = (HasNoByte-append p s h k, tt)
suffix_last-HasNoByte s (p ∷ q ∷ ps) k (h, hs) = (h, suffix_last-HasNoByte s (q ∷ ps) k hs)

pub IsInside-suffix :
    (dest target s : Text)
    → 2 ≤ length s
    → HasNoByte b'/' s
    → IsInside dest target
    → IsInside dest (target ++ s)
IsInside-suffix dest target s l clear (ps, h, k, c, e) = (
  suffix_last s ps,
  suffix_last-ne-nil s ps h,
  suffix_last-IsPlain s ps l k,
  suffix_last-HasNoByte s ps clear c,
  ap (λ t. t ++ s) e ∙ render-suffix_last (is_rooted dest) s (elements dest) ps h k l,
)
