-- ===== src/Go/Hex.antt =====
-- `hex.EncodeToString` and `hex.DecodeString`.
use red_engine.Prelude.{
  ℕ, ◌+◌, ◌-◌, ◌*◌, ◌/◌, ◌%◌, ◌<◌, ◌≡◌, refl, ◌&&◌, Option, none, some, [], ◌∷◌, arith, leb, ltb,
  if◌then◌else◌, ◌>>=◌, length, All,
}
use red_engine.Text.{Text}

abbrev digit : ℕ → ℕ
digit n = if ltb n 10 then b'0' + n else b'a' + (n - 10)

unfoldable pub encode : Text → Text
encode [] = []
encode (c ∷ s) = digit (c / 16) ∷ digit (c % 16) ∷ encode s

abbrev value : ℕ → Option ℕ
value c =
    if leb b'0' c && leb c b'9'
    then some (c - b'0')
    else if leb b'a' c && leb c b'f'
    then some (c - b'a' + 10)
    else if leb b'A' c && leb c b'F'
    then some (c - b'A' + 10)
    else none

-- `none` on an odd length and on a byte that is no digit
unfoldable pub decode : Text → Option Text
decode [] = some []
decode (c ∷ []) = none
decode (c ∷ d ∷ s) = do hi ← value c; lo ← value d; rest ← decode s; some ((hi * 16 + lo) ∷ rest)

abbrev pub IsBytes : Text → Type 0
IsBytes s = All (λ c. c < 256) s

byte_decode :
    (c : ℕ) (rest : Text)
    → c < 256
    → (value (digit (c / 16)) >>= λ hi.
        value (digit (c % 16)) >>= λ lo. some ((hi * 16 + lo) ∷ rest))
      ≡ some (c ∷ rest)
byte_decode c rest h = ground arith

pub decode-encode : (s : Text) → IsBytes s → decode (encode s) ≡ some s
unfolding decode encode
decode-encode [] h = refl
decode-encode (c ∷ s) (h, k) = rw (decode-encode s k) (byte_decode c s h)

pub length-encode : (s : Text) → length (encode s) ≡ 2 * length s
unfolding encode
length-encode [] = refl
length-encode (c ∷ s) = omega (arith, length-encode s)
