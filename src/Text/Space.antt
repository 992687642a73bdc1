-- ===== src/Text/Space.antt =====
-- `TrimSpace` and `Fields`: white space is `unicode.IsSpace` of the runes, in their UTF-8 bytes.
use mathlib.Core.List.{reverse}
use red_engine.Prelude.{ℕ, zero, suc, Bool, ◌&&◌, ◌||◌, List, [], ◌∷◌, leb, eqb, if◌then◌else◌}
use red_engine.Text.Bytes.{Text, ◌==◌}

abbrev is_ascii_space : ℕ → Bool
is_ascii_space a = leb 9 a && leb a 13 || eqb a 32

-- U+0085 and U+00A0
abbrev is_space_2 : ℕ → ℕ → Bool
is_space_2 a b = eqb a 0xc2 && (eqb b 0x85 || eqb b 0xa0)

-- U+1680, U+2000 to U+200A, U+2028, U+2029, U+202F, U+205F and U+3000
abbrev is_space_3 : ℕ → ℕ → ℕ → Bool
is_space_3 a b c =
    (eqb a 0xe1 && eqb b 0x9a && eqb c 0x80)
    || (eqb a 0xe2
        && ((eqb b 0x80 && ((leb 0x80 c && leb c 0x8a) || eqb c 0xa8 || eqb c 0xa9 || eqb c 0xaf))
            || (eqb b 0x81 && eqb c 0x9f)))
    || (eqb a 0xe3 && eqb b 0x80 && eqb c 0x80)

-- The bytes of the white space that a text begins with, 0 if it begins with none.
unfoldable pub space_len : Text → ℕ
space_len [] = 0
space_len (a ∷ []) = if is_ascii_space a then 1 else 0
space_len (a ∷ b ∷ []) = if is_ascii_space a then 1 else if is_space_2 a b then 2 else 0
space_len (a ∷ b ∷ c ∷ s) =
    if is_ascii_space a then 1 else if is_space_2 a b then 2 else if is_space_3 a b c then 3 else 0

-- The same at the end of a text that is read backwards.
unfoldable pub space_len_back : Text → ℕ
space_len_back [] = 0
space_len_back (c ∷ []) = if is_ascii_space c then 1 else 0
space_len_back (c ∷ b ∷ []) = if is_ascii_space c then 1 else if is_space_2 b c then 2 else 0
space_len_back (c ∷ b ∷ a ∷ s) =
    if is_ascii_space c then 1 else if is_space_2 b c then 2 else if is_space_3 a b c then 3 else 0

-- The number counts bytes of a white space that is dropped already.
unfoldable pub drop_spaces : (Text → ℕ) → ℕ → Text → Text
drop_spaces len skip [] = []
drop_spaces len (suc skip) (c ∷ s) = drop_spaces len skip s
drop_spaces len zero (c ∷ s) = elim (len (c ∷ s)) [
  | zero ↦ c ∷ s
  | suc skip ↦ drop_spaces len skip s
]

unfoldable pub trim_space : Text → Text
unfolding drop_spaces space_len space_len_back
trim_space s = reverse (drop_spaces space_len_back 0 (reverse (drop_spaces space_len 0 s)))

-- A field that is complete; its bytes were gathered backwards.
abbrev flush : Text → List Text → List Text
flush field rest = if field == [] then rest else reverse field ∷ rest

unfoldable pub fields_from : ℕ → Text → Text → List Text
unfolding space_len ◌==◌
fields_from skip field [] = flush field []
fields_from (suc skip) field (c ∷ s) = fields_from skip field s
fields_from zero field (c ∷ s) = elim (space_len (c ∷ s)) [
  | zero ↦ fields_from 0 (c ∷ field) s
  | suc skip ↦ flush field (fields_from skip [] s)
]

abbrev pub fields : Text → List Text
fields = fields_from 0 []
