-- ===== src/Base/Encoding.antt =====
-- The encodings of packages encoding/hex and encoding/base64 that the program calls, over bytes.
use w8nc.Base.Tests.{ltb, ◌==◌, if◌then◌else◌}
use w8nc.Base.Text.{Text}
use Prim.Native.Nat.{ℕ, ◌+◌, ◌-◌, ◌*◌, ◌/◌, ◌%◌}
use mathlib.Core.List.{List, [], ◌∷◌}

abbrev pub hex_digit : ℕ → ℕ
hex_digit n = if ltb n 10 then b'0' + n else b'a' + (n - 10)

-- hex.EncodeToString
unfoldable pub hex : List ℕ → Text
hex [] = []
hex (b ∷ bytes) = hex_digit (b / 16) ∷ hex_digit (b % 16) ∷ hex bytes

-- The alphabet of base64.RawURLEncoding.
abbrev pub url_digit : ℕ → ℕ
url_digit n =
    if ltb n 26
    then b'A' + n
    else if ltb n 52
    then b'a' + (n - 26)
    else if ltb n 62
    then b'0' + (n - 52)
    else if n == 62
    then b'-'
    else b'_'

-- base64.RawURLEncoding.EncodeToString: three bytes are four digits, and there is no padding.
unfoldable pub raw_url_encode : List ℕ → Text
raw_url_encode [] = []
raw_url_encode (a ∷ []) = url_digit (a / 4) ∷ url_digit (a % 4 * 16) ∷ []
raw_url_encode (a ∷ b ∷ []) =
    url_digit (a / 4) ∷ url_digit (a % 4 * 16 + b / 16) ∷ url_digit (b % 16 * 4) ∷ []
raw_url_encode (a ∷ b ∷ c ∷ bytes) =
    url_digit (a / 4)
    ∷ url_digit (a % 4 * 16 + b / 16)
    ∷ url_digit (b % 16 * 4 + c / 64)
    ∷ url_digit (c % 64)
    ∷ raw_url_encode bytes
