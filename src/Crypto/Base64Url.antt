-- ===== src/Crypto/Base64Url.antt =====
-- `toString("base64url")` and `Buffer.from(text, "base64url")`, as secret-box.ts uses them: the second
-- is only called on texts of the alphabet, without padding.
pub mod Laws
use growthmind.Prelude.{
  ℕ, ◌+◌, ◌-◌, ◌*◌, ◌/◌, ◌%◌, Text, Bool, ◌||◌, List, [], ◌∷◌, ltb, ◌==◌, if◌then◌else◌, in_range,
  is_digit, is_upper,
}

abbrev pub Bytes : Type 0
Bytes = List ℕ

-- The unit that stands for six bits.
unfoldable pub base64url_unit : ℕ → ℕ
base64url_unit v =
    if ltb v 26
    then 65 + v
    else if ltb v 52
    then 71 + v
    else if ltb v 62
    then v - 4
    else if v == 62
    then 45
    else 95

-- The six bits that a unit of the alphabet stands for.
unfoldable pub base64url_value : ℕ → ℕ
base64url_value c =
    if is_upper c
    then c - 65
    else if in_range 97 122 c
    then c - 71
    else if is_digit c
    then c + 4
    else if c == 45
    then 62
    else 63

unfoldable pub base64url_encode : Bytes → Text
unfolding base64url_unit
base64url_encode [] = []
base64url_encode (a ∷ []) = base64url_unit (a / 4) ∷ base64url_unit (a % 4 * 16) ∷ []
base64url_encode (a ∷ b ∷ []) =
    base64url_unit (a / 4) ∷ base64url_unit (a % 4 * 16 + b / 16) ∷ base64url_unit (b % 16 * 4) ∷ []
base64url_encode (a ∷ b ∷ c ∷ rest) =
    base64url_unit (a / 4)
    ∷ base64url_unit (a % 4 * 16 + b / 16)
    ∷ base64url_unit (b % 16 * 4 + c / 64)
    ∷ base64url_unit (c % 64)
    ∷ base64url_encode rest

abbrev pub first_byte : ℕ → ℕ → ℕ
first_byte v w = v * 4 + w / 16

abbrev pub second_byte : ℕ → ℕ → ℕ
second_byte w x = w % 16 * 16 + x / 4

abbrev pub third_byte : ℕ → ℕ → ℕ
third_byte x y = x % 4 * 64 + y

-- Four units are three bytes; a last unit alone holds no byte.
unfoldable pub base64url_decode : Text → Bytes
unfolding base64url_value
base64url_decode [] = []
base64url_decode (p ∷ []) = []
base64url_decode (p ∷ q ∷ []) = first_byte (base64url_value p) (base64url_value q) ∷ []
base64url_decode (p ∷ q ∷ r ∷ []) =
    first_byte (base64url_value p) (base64url_value q)
    ∷ second_byte (base64url_value q) (base64url_value r)
    ∷ []
base64url_decode (p ∷ q ∷ r ∷ s ∷ rest) =
    first_byte (base64url_value p) (base64url_value q)
    ∷ second_byte (base64url_value q) (base64url_value r)
    ∷ third_byte (base64url_value r) (base64url_value s)
    ∷ base64url_decode rest

-- `[A-Za-z0-9_-]`
unfoldable pub is_base64url_unit : ℕ → Bool
is_base64url_unit c = is_upper c || (in_range 97 122 c || (is_digit c || (c == 95 || c == 45)))
