-- ===== src/Go/FilePath/Join.antt =====
-- Joining a plain path below a directory, as `filepath.Join` does.
use mathlib.Core.List.{reverse, reverse-append, reverse-reverse}
use red_engine.Prelude.{◌≡◌, refl, ap, ◌∙◌, ◌≢◌, Bool, List, [], ◌∷◌, ◌++◌, All}
use red_engine.Text.{Text, ◌==◌, has_prefix, split, join, HasNoByte, split-join, split-append}
use red_engine.Go.FilePath.{
  dot, slash, is_rooted, clean_step, clean_parts, elements, render, clean, join_path,
}
use red_engine.Go.FilePath.Clean.{IsPlain, clean_parts_of_All-IsPlain, clean_parts-append}

-- Below a directory: the elements of `a/b` are those of `a` and then the plain parts of `b`.
pub elements-join :
    (a : Text) (ps : List Text)
    → a ≢ []
    → ps ≢ []
    → All IsPlain ps
    → All (HasNoByte b'/') ps
    → elements (a ++ (slash ++ join slash ps)) ≡ elements a ++ ps
unfolding elements has_prefix
elements-join [] ps h n plain clear = absurd (h refl)
elements-join (c ∷ a) ps h n plain clear =
    let rooted = is_rooted (c ∷ a) in
    let parts = split b'/' (c ∷ a) in
    ap (λ l. reverse (clean_parts rooted [] l))
      (split-append b'/' (c ∷ a) (join slash ps)
        ∙ ap (λ l. parts ++ l) (split-join b'/' ps n clear))
    ∙ ap reverse (
        clean_parts-append rooted [] parts ps
        ∙ clean_parts_of_All-IsPlain rooted (clean_parts rooted [] parts) ps plain)
    ∙ reverse-append (reverse ps) (clean_parts rooted [] parts)
    ∙ ap (λ l. reverse (clean_parts rooted [] parts) ++ l) (reverse-reverse ps)

pub clean-eq-render : (path : Text) → clean path ≡ render (is_rooted path) (elements path)
unfolding clean
clean-eq-render path = refl

clean_parts-dot : (rooted : Bool) (out : List Text) → clean_parts rooted out (split b'/' dot) ≡ out
unfolding split clean_parts clean_step ◌==◌
clean_parts-dot rooted out = refl

pub elements-join_dot : (a : Text) → a ≢ [] → elements (a ++ (slash ++ dot)) ≡ elements a
unfolding elements has_prefix
elements-join_dot [] h = absurd (h refl)
elements-join_dot (c ∷ a) h =
    ap (λ l. reverse (clean_parts (is_rooted (c ∷ a)) [] l)) (split-append b'/' (c ∷ a) dot)
    ∙ ap reverse (
        clean_parts-append (is_rooted (c ∷ a)) [] (split b'/' (c ∷ a)) (split b'/' dot)
        ∙ clean_parts-dot _ _)

pub is_rooted-join : (a b : Text) → a ≢ [] → is_rooted (a ++ (slash ++ b)) ≡ is_rooted a
unfolding has_prefix
is_rooted-join [] b h = absurd (h refl)
is_rooted-join (c ∷ a) b h = refl

pub join_path_lem : (a b : Text) → a ≢ [] → b ≢ [] → join_path a b ≡ clean (a ++ (slash ++ b))
unfolding join_path ◌==◌
join_path_lem [] b h k = absurd (h refl)
join_path_lem (c ∷ a) [] h k = absurd (k refl)
join_path_lem (c ∷ a) (d ∷ b) h k = refl
