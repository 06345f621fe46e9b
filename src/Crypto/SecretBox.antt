-- ===== src/Crypto/SecretBox.antt =====
-- packages/shared/src/crypto/secret-box.ts: secrets in sealed envelopes. Node's cipher, its digest and
-- its UTF-8 are a parameter; the random bytes of an envelope are an argument.
pub mod Laws
use growthmind.Prelude.{
  true, ℕ, ◌+◌, ◌≡◌, ◌≤◌, Text, text, text_eq, Bool, not, ◌&&◌, ◌||◌, Option, none, some, List, [],
  ◌∷◌, ◌++◌, length, take, all, is_empty, ◌==◌, if◌then◌else◌, All, Returns, join_with, split_on,
}
use growthmind.Crypto.Base64Url.{Bytes, base64url_encode, base64url_decode, is_base64url_unit}
use growthmind.Crypto.Base64Url.Laws.{IsByte}

-- A ciphertext and its authentication tag.
pub record Sealed : Type 0 where
  pub ciphertext : Bytes
  pub tag : Bytes

-- `node:crypto` and `Buffer`: AES-256-GCM with a tag of 16 bytes, SHA-256 in hexadecimal, and UTF-8.
pub record NodeCrypto : Type 0 where
  -- key, iv, additional data and plaintext
  pub seal : Bytes → Bytes → Bytes → Bytes → Sealed
  -- key, iv, additional data and what was sealed; `none` is the Error of `final`
  pub unseal : Bytes → Bytes → Bytes → Sealed → Option Bytes
  pub sha256_hex : Bytes → Text
  pub utf8_bytes : Text → Bytes
  pub utf8_text : Bytes → Text

-- What Node documents of them.
pub record IsNodeCrypto (N : NodeCrypto) : Type 0 where
  pub utf8-IsByte : (t : Text) → All IsByte (N.utf8_bytes t)
  pub unseal-seal :
      (key iv aad plain : Bytes)
      → length key ≡ 32
      → length iv ≡ 12
      → All IsByte plain
      → N.unseal key iv aad (N.seal key iv aad plain) ≡ some plain
  pub ciphertext_bytes :
      (key iv aad plain : Bytes)
      → All IsByte plain
      → All IsByte (N.seal key iv aad plain).ciphertext
  pub tag_bytes : (key iv aad plain : Bytes) → All IsByte (N.seal key iv aad plain).tag
  pub length-tag : (key iv aad plain : Bytes) → length (N.seal key iv aad plain).tag ≡ 16
  pub hex_alphabet : (bytes : Bytes) → all (N.sha256_hex bytes) is_base64url_unit ≡ true

abbrev pub envelope_version : Text
envelope_version = text "v1"

abbrev pub iv_byte_length : ℕ
iv_byte_length = 12

abbrev pub auth_tag_byte_length : ℕ
auth_tag_byte_length = 16

abbrev pub credential_key_byte_length : ℕ
credential_key_byte_length = 32

abbrev pub key_id_hex_length : ℕ
key_id_hex_length = 8

abbrev pub full_stop : ℕ
full_stop = 46

pub record CredentialKey : Type 0 where
  pub bytes : Bytes

pub data DecryptResult : Type 0 where
  decrypted : Text → DecryptResult
  malformed_envelope unsupported_version key_id_mismatch authentication_failed : DecryptResult

abbrev pub credential_aad : Text → Text → Text
credential_aad organization_id project_id = organization_id ++ 58 ∷ project_id

abbrev pub has_length : Option ℕ → Bytes → Bool
has_length none bytes = true
has_length (some n) bytes = length bytes == n

abbrev pub empty_field : Option ℕ → Option Bytes
empty_field none = some []
empty_field (some n) = none

unfoldable pub decode_base64url : Text → Option ℕ → Option Bytes
unfolding base64url_decode is_base64url_unit
decode_base64url field expected_length =
    let decoded = base64url_decode field in
    if is_empty field
    then empty_field expected_length
    else if not (all field is_base64url_unit)
    then none
    else if is_empty decoded
    then none
    else if has_length expected_length decoded
    then some decoded
    else none

module _ (N : NodeCrypto) where
  open N use {seal, unseal, sha256_hex, utf8_bytes, utf8_text}

  abbrev pub key_id_of : CredentialKey → Text
  key_id_of key = take key_id_hex_length (sha256_hex key.bytes)

  -- The five fields of an envelope.
  abbrev pub envelope_fields : CredentialKey → Bytes → Sealed → List Text
  envelope_fields key iv sealed =
      envelope_version
      ∷ key_id_of key
      ∷ base64url_encode iv
      ∷ base64url_encode sealed.tag
      ∷ base64url_encode sealed.ciphertext
      ∷ []

  -- `iv` is what `randomBytes` returned.
  unfoldable pub encrypt_secret : Bytes → Text → CredentialKey → Text → Text
  encrypt_secret iv plaintext key aad =
      join_with full_stop
        (envelope_fields key iv (seal key.bytes iv (utf8_bytes aad) (utf8_bytes plaintext)))

  abbrev pub opened : Option Bytes → DecryptResult
  opened none = authentication_failed
  opened (some plain) = decrypted (utf8_text plain)

  abbrev pub open_decoded :
      CredentialKey → Text → Option Bytes → Option Bytes → Option Bytes → DecryptResult
  open_decoded key aad (some iv) (some tag) (some ciphertext) =
      opened (unseal key.bytes iv (utf8_bytes aad) (record { ciphertext = ciphertext; tag = tag }))
  open_decoded key aad (some iv) (some tag) none = malformed_envelope
  open_decoded key aad (some iv) none _ = malformed_envelope
  open_decoded key aad none _ _ = malformed_envelope

  unfoldable pub open_fields : List Text → CredentialKey → Text → DecryptResult
  open_fields (version ∷ envelope_key_id ∷ iv ∷ tag ∷ ciphertext ∷ []) key aad =
      if not (text_eq version envelope_version)
      then unsupported_version
      else if not (text_eq envelope_key_id (key_id_of key))
      then key_id_mismatch
      else open_decoded key aad (decode_base64url iv (some iv_byte_length))
          (decode_base64url tag (some auth_tag_byte_length)) (decode_base64url ciphertext none)
  open_fields _ key aad = malformed_envelope

  unfoldable pub decrypt_secret : Text → CredentialKey → Text → DecryptResult
  decrypt_secret envelope key aad = open_fields (split_on full_stop envelope) key aad
