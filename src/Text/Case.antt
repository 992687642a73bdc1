-- ===== src/Text/Case.antt =====
-- `ToLower` on ASCII letters.
use red_engine.Prelude.{ℕ, ◌+◌, Bool, ◌&&◌, map, leb, if◌then◌else◌}
use red_engine.Text.Bytes.{Text}

abbrev is_upper : ℕ → Bool
is_upper c = leb b'A' c && leb c b'Z'

unfoldable pub to_lower : Text → Text
to_lower = map (λ c. if is_upper c then c + 32 else c)
