-- ===== src/Text/Affix.antt =====
-- Prefixes and suffixes: `HasPrefix`, `HasSuffix`, `TrimPrefix`, `TrimSuffix`, `Contains`.
use mathlib.Core.List.{reverse}
use red_engine.Prelude.{
  ℕ, zero, suc, ◌-◌, ◌≡◌, refl, Bool, true, false, ◌&&◌, ◌||◌, [], ◌∷◌, ◌++◌, arith, leb, eqb,
  if◌then◌else◌, length, take, drop, length-append, drop-length-append, take-length-append,
  take-append-drop,
}
use red_engine.Text.Bytes.{Text, ◌==◌, eq_iff, eq_refl}

unfoldable pub has_prefix : Text → Text → Bool
has_prefix s [] = true
has_prefix [] (p ∷ ps) = false
has_prefix (c ∷ s) (p ∷ ps) = eqb c p && has_prefix s ps

-- `s[len(s)-len(suffix):] == suffix`, where the suffix is no longer than `s`
unfoldable pub has_suffix : Text → Text → Bool
has_suffix s p = leb (length p) (length s) && drop (length s - length p) s == p

unfoldable pub trim_prefix : Text → Text → Text
unfolding has_prefix
trim_prefix s p = if has_prefix s p then drop (length p) s else s

unfoldable pub trim_suffix : Text → Text → Text
unfolding has_suffix
trim_suffix s p = if has_suffix s p then take (length s - length p) s else s

unfoldable pub contains : Text → Text → Bool
unfolding has_prefix
contains [] p = has_prefix [] p
contains (c ∷ s) p = has_prefix (c ∷ s) p || contains s p

pub has_prefix-append : (p s : Text) → has_prefix (p ++ s) p ≡ true
unfolding has_prefix
has_prefix-append [] s = refl
has_prefix-append (x ∷ p) s = ground (arith, has_prefix-append p s)

pub has_prefix-eq-append : (s p : Text) → has_prefix s p ≡ true → s ≡ p ++ drop (length p) s
unfolding has_prefix
has_prefix-eq-append s [] h = refl
has_prefix-eq-append [] (x ∷ p) h = ground arith
has_prefix-eq-append (c ∷ s) (x ∷ p) h = ground (arith, has_prefix-eq-append s p)

pub trim_prefix-append : (p s : Text) → trim_prefix (p ++ s) p ≡ s
unfolding trim_prefix
trim_prefix-append p s = rw has_prefix-append (drop-length-append p s)

length_diff : (s p : Text) → length (s ++ p) - length p ≡ length s
length_diff s p = omega (arith, length-append s p)

pub has_suffix-append : (s p : Text) → has_suffix (s ++ p) p ≡ true
unfolding has_suffix
has_suffix-append s p =
    rw (length_diff s p)
      (rw (drop-length-append s p) (ground (arith, length-append s p, eq_refl p)))

pub trim_suffix-append : (s p : Text) → trim_suffix (s ++ p) p ≡ s
unfolding trim_suffix
trim_suffix-append s p = rw has_suffix-append (rw (length_diff s p) (take-length-append s p))

pub trim_suffix-eq-append : (s p : Text) → has_suffix s p ≡ true → trim_suffix s p ++ p ≡ s
unfolding trim_suffix has_suffix
trim_suffix-eq-append s p h =
    ground
      (arith, take-append-drop (length s - length p) s, eq_iff (drop (length s - length p) s) p)

-- strings.Trim with one byte.
unfoldable pub trim_left : ℕ → Text → Text
trim_left b [] = []
trim_left b (c ∷ s) = let rest = trim_left b s in if eqb c b then rest else c ∷ s

unfoldable pub trim_byte : ℕ → Text → Text
unfolding trim_left
trim_byte b s = reverse (trim_left b (reverse (trim_left b s)))

-- strings.ReplaceAll of a text that is not empty; the number counts bytes that are replaced already.
unfoldable pub replace_from : ℕ → Text → Text → Text → Text
unfolding has_prefix
replace_from skip old new [] = []
replace_from (suc skip) old new (c ∷ s) = replace_from skip old new s
replace_from zero old new (c ∷ s) = elim (has_prefix (c ∷ s) old) [
  | true ↦ new ++ replace_from (length old - 1) old new s
  | false ↦ c ∷ replace_from 0 old new s
]

abbrev pub replace_all : Text → Text → Text → Text
replace_all = replace_from 0
