-- ===== src/Text/Bytes.antt =====
-- Texts as lists of bytes, literals and equality.
use Prim.Native.Char.{code}
use red_engine.Prelude.{
  ◌≢◌, ℕ, ◌+◌, ◌/◌, ◌%◌, String, ◌≡◌, refl, ◌↔◌, Bool, true, false, ◌&&◌, List, [], ◌∷◌, ◌++◌,
  arith, ltb, eqb, if◌then◌else◌,
}

abbrev pub Text : Type 0
Text = List ℕ

-- The UTF-8 bytes of a code point.
abbrev encode_rune : ℕ → Text
encode_rune c =
    if ltb c 0x80
    then c ∷ []
    else if ltb c 0x800
    then (0xc0 + c / 0x40) ∷ (0x80 + c % 0x40) ∷ []
    else if ltb c 0x10000
    then (0xe0 + c / 0x1000) ∷ (0x80 + c / 0x40 % 0x40) ∷ (0x80 + c % 0x40) ∷ []
    else (0xf0 + c / 0x40000)
      ∷ (0x80 + c / 0x1000 % 0x40)
      ∷ (0x80 + c / 0x40 % 0x40)
      ∷ (0x80 + c % 0x40)
      ∷ []

-- A string literal.
abbrev pub text : String → Text
text String.[] = []
text (String.◌∷◌ c s) = encode_rune (code c) ++ text s

infix 50 ◌==◌
unfoldable pub ◌==◌ : Text → Text → Bool
[] == [] = true
[] == (y ∷ ys) = false
(x ∷ xs) == [] = false
(x ∷ xs) == (y ∷ ys) = eqb x y && xs == ys

pub eq_iff : (a b : Text) → ((a == b) ≡ true) ↔ (a ≡ b)
unfolding ◌==◌
eq_iff [] [] = (λ _. refl, λ _. refl)
eq_iff [] (y ∷ ys) = ground arith
eq_iff (x ∷ xs) [] = ground arith
eq_iff (x ∷ xs) (y ∷ ys) = ground (arith, eq_iff xs ys)

pub eq_refl : (a : Text) → (a == a) ≡ true
eq_refl a = (eq_iff a a).1 refl

pub ne-of_false : (a b : Text) → (a == b) ≡ false → a ≢ b
ne-of_false a b h e = cc ((eq_iff a b).1 e, h)
