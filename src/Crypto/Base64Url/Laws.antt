-- ===== src/Crypto/Base64Url/Laws.antt =====
-- Texts of the base64url alphabet, encoded and decoded.
use growthmind.Prelude.{
  ℕ, ◌+◌, ◌*◌, ◌/◌, ◌%◌, ◌<◌, ◌≡◌, refl, true, List, [], ◌∷◌, All, all, arith, Lacks,
}
use growthmind.Crypto.Base64Url.{
  Bytes, base64url_unit, base64url_value, base64url_encode, base64url_decode, is_base64url_unit,
}

abbrev pub IsByte : ℕ → Type 0
IsByte b = b < 256

base64url_value-unit : (v : ℕ) → v < 64 → base64url_value (base64url_unit v) ≡ v
unfolding base64url_unit base64url_value
base64url_value-unit v h = ground arith

unit_in_alphabet : (v : ℕ) → is_base64url_unit (base64url_unit v) ≡ true
unfolding base64url_unit is_base64url_unit
unit_in_alphabet v = ground arith

pub base64url_decode-encode :
    (bytes : Bytes) → All IsByte bytes → base64url_decode (base64url_encode bytes) ≡ bytes
unfolding base64url_encode base64url_decode
base64url_decode-encode [] h = refl
base64url_decode-encode (a ∷ []) h =
    rw (base64url_value-unit (a / 4) (omega arith), base64url_value-unit (a % 4 * 16) (omega arith))
      (ground arith)
base64url_decode-encode (a ∷ b ∷ []) h =
    rw
      (
        base64url_value-unit (a / 4) (omega arith),
        base64url_value-unit (a % 4 * 16 + b / 16) (omega arith),
        base64url_value-unit (b % 16 * 4) (omega arith),
      )
      (ground arith)
base64url_decode-encode (a ∷ b ∷ c ∷ rest) h =
    rw
      (
        base64url_value-unit (a / 4) (omega arith),
        base64url_value-unit (a % 4 * 16 + b / 16) (omega arith),
        base64url_value-unit (b % 16 * 4 + c / 64) (omega arith),
        base64url_value-unit (c % 64) (omega arith),
        base64url_decode-encode rest h.1.1.1,
      )
      (ground arith)

pub base64url_encode-alphabet :
    (bytes : Bytes) → all (base64url_encode bytes) is_base64url_unit ≡ true
unfolding base64url_encode
base64url_encode-alphabet [] = refl
base64url_encode-alphabet (a ∷ []) = rw (unit_in_alphabet (a / 4), unit_in_alphabet (a % 4 * 16))
base64url_encode-alphabet (a ∷ b ∷ []) = rw (
  unit_in_alphabet (a / 4),
  unit_in_alphabet (a % 4 * 16 + b / 16),
  unit_in_alphabet (b % 16 * 4),
)
base64url_encode-alphabet (a ∷ b ∷ c ∷ rest) = rw (
  unit_in_alphabet (a / 4),
  unit_in_alphabet (a % 4 * 16 + b / 16),
  unit_in_alphabet (b % 16 * 4 + c / 64),
  unit_in_alphabet (c % 64),
  base64url_encode-alphabet rest,
)

-- A text of the alphabet has no full stop.
pub alphabet-Lacks : (s : List ℕ) → all s is_base64url_unit ≡ true → Lacks 46 s
unfolding is_base64url_unit
alphabet-Lacks [] h = tt
alphabet-Lacks (c ∷ s) h = (ground arith, alphabet-Lacks s (ground arith))
