-- ===== src/Go/Strconv.antt =====
-- strconv.Atoi on numbers that are not negative.
use red_engine.Prelude.{
  ℕ, ◌+◌, ◌-◌, ◌*◌, ◌&&◌, Option, none, some, [], ◌∷◌, leb, ltb, eqb, if◌then◌else◌,
}
use red_engine.Text.{Text, ◌==◌}

-- The value of digits alone, behind those that are read already.
unfoldable pub digits_value : ℕ → Text → Option ℕ
digits_value n [] = some n
digits_value n (c ∷ s) =
    let rest = digits_value (10 * n + (c - b'0')) s in
    if leb b'0' c && leb c b'9' then rest else none

abbrev pub without_plus : Text → Text
without_plus [] = []
without_plus (c ∷ s) = if eqb c b'+' then s else c ∷ s

abbrev in_range : Option ℕ → Option ℕ
in_range none = none
in_range (some n) = if ltb n 0x8000000000000000 then some n else none

-- Digits behind an optional plus, below 2 ^ 63.
unfoldable pub atoi : Text → Option ℕ
unfolding digits_value ◌==◌
atoi s =
    let digits = without_plus s in if digits == [] then none else in_range (digits_value 0 digits)
