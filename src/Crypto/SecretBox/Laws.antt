-- ===== src/Crypto/SecretBox/Laws.antt =====
-- packages/shared/src/crypto/secret-box.ts: secrets that are sealed and opened again, with their own key
-- or another one.
use growthmind.Prelude.{
  zero, suc, ◌≡◌, ◌≢◌, ℕ, refl, ap, ◌∙◌, Text, text_eq, text_eq_iff, text_eq_refl, Bool, true,
  false, none, some, [], ◌∷◌, length, all, take, arith, All, Bool-cases, inl, inr, Lacks, split_on,
  split_on-join_with, join_with, is_empty,
}
use growthmind.Crypto.Base64Url.{Bytes, base64url_encode, is_base64url_unit}
use growthmind.Crypto.Base64Url.Laws.{
  IsByte, base64url_decode-encode, base64url_encode-alphabet, alphabet-Lacks,
}
use growthmind.Crypto.SecretBox.{
  Sealed, NodeCrypto, IsNodeCrypto, CredentialKey, decrypted, key_id_mismatch, full_stop,
  decode_base64url, key_id_of, envelope_fields, envelope_version, encrypt_secret, opened,
  open_fields, decrypt_secret, iv_byte_length, auth_tag_byte_length, key_id_hex_length,
}

encode_filled : (b : ℕ) (bytes : Bytes) → is_empty (base64url_encode (b ∷ bytes)) ≡ false
unfolding base64url_encode
encode_filled b [] = refl
encode_filled b (c ∷ []) = refl
encode_filled b (c ∷ d ∷ rest) = refl

decode_base64url-encode_any :
    (bytes : Bytes) → All IsByte bytes → decode_base64url (base64url_encode bytes) none ≡ some bytes
unfolding decode_base64url
decode_base64url-encode_any [] h = unfold base64url_encode in refl
decode_base64url-encode_any (b ∷ bytes) h = rw (
  encode_filled b bytes,
  base64url_encode-alphabet (b ∷ bytes),
  base64url_decode-encode (b ∷ bytes) h,
)

decode_base64url-encode :
    (b : ℕ) (bytes : Bytes)
    → All IsByte (b ∷ bytes)
    → decode_base64url (base64url_encode (b ∷ bytes)) (some (length (b ∷ bytes))) ≡ some (b ∷ bytes)
unfolding decode_base64url
decode_base64url-encode b bytes h =
    rw
      (
        encode_filled b bytes,
        base64url_encode-alphabet (b ∷ bytes),
        base64url_decode-encode (b ∷ bytes) h,
      )
      (ground arith)

decode_sized :
    (n : ℕ) (bytes : Bytes)
    → All IsByte bytes
    → length bytes ≡ suc n
    → decode_base64url (base64url_encode bytes) (some (suc n)) ≡ some bytes
decode_sized n [] h e = ground arith
decode_sized n (b ∷ bytes) h e = rw (← e) (decode_base64url-encode b bytes h)

take-all : (n : ℕ) (p : ℕ → Bool) (s : Text) → all s p ≡ true → all (take n s) p ≡ true
take-all zero p s h = refl
take-all (suc n) p [] h = refl
take-all (suc n) p (c ∷ s) h = ground (arith, take-all n p s)

module _ (N : NodeCrypto) (is_node : IsNodeCrypto N) where
  key_id-Lacks : (key : CredentialKey) → Lacks full_stop (key_id_of N key)
  key_id-Lacks key = alphabet-Lacks (key_id_of N key) (
      take-all key_id_hex_length is_base64url_unit (N.sha256_hex key.bytes)
        (is_node.hex_alphabet key.bytes))

  encoded-Lacks : (bytes : Bytes) → Lacks full_stop (base64url_encode bytes)
  encoded-Lacks bytes = alphabet-Lacks (base64url_encode bytes) (base64url_encode-alphabet bytes)

  split_on-envelope :
      (key : CredentialKey) (iv : Bytes) (sealed : Sealed)
      → split_on full_stop (join_with full_stop (envelope_fields N key iv sealed))
        ≡ envelope_fields N key iv sealed
  split_on-envelope key iv sealed = split_on-join_with full_stop envelope_version _ (
    (refl, (refl, tt)),
    (
      key_id-Lacks key,
      (encoded-Lacks iv, (encoded-Lacks sealed.tag, (encoded-Lacks sealed.ciphertext, tt))),
    ),
  )

  -- An envelope is opened by its fields.
  decrypt_secret-envelope :
      (key other : CredentialKey) (iv : Bytes) (sealed : Sealed) (aad : Text)
      → decrypt_secret N (join_with full_stop (envelope_fields N key iv sealed)) other aad
        ≡ open_fields N (envelope_fields N key iv sealed) other aad
  unfolding decrypt_secret
  decrypt_secret-envelope key other iv sealed aad =
      ap (λ fields. open_fields N fields other aad) (split_on-envelope key iv sealed)

  open_fields-envelope :
      (key : CredentialKey) (iv : Bytes) (sealed : Sealed) (aad : Text)
      → decode_base64url (base64url_encode iv) (some iv_byte_length) ≡ some iv
      → decode_base64url (base64url_encode sealed.tag) (some auth_tag_byte_length) ≡ some sealed.tag
      → decode_base64url (base64url_encode sealed.ciphertext) none ≡ some sealed.ciphertext
      → open_fields N (envelope_fields N key iv sealed) key aad
        ≡ opened N (N.unseal key.bytes iv (N.utf8_bytes aad) sealed)
  unfolding open_fields
  open_fields-envelope key iv sealed aad h k l =
      rw (text_eq_refl envelope_version, text_eq_refl (key_id_of N key), h, k, l)

  -- A secret that was encrypted under a key, an organisation and a project decrypts to itself under
  -- them, for every iv of twelve bytes, if UTF-8 carries the secret.
  pub decrypt_secret-encrypt_secret :
      (iv : Bytes) (plaintext : Text) (key : CredentialKey) (aad : Text)
      → length key.bytes ≡ 32
      → length iv ≡ 12
      → All IsByte iv
      → N.utf8_text (N.utf8_bytes plaintext) ≡ plaintext
      → decrypt_secret N (encrypt_secret N iv plaintext key aad) key aad ≡ decrypted plaintext
  unfolding encrypt_secret
  decrypt_secret-encrypt_secret iv plaintext key aad k l bytes utf8 =
      let plain = N.utf8_bytes plaintext in
      let sealed = N.seal key.bytes iv (N.utf8_bytes aad) plain in
      let plain_bytes = is_node.utf8-IsByte plaintext in
      decrypt_secret-envelope key key iv sealed aad
      ∙ open_fields-envelope key iv sealed aad (decode_sized 11 iv bytes l)
          (decode_sized 15 sealed.tag (is_node.tag_bytes key.bytes iv (N.utf8_bytes aad) plain)
            (is_node.length-tag key.bytes iv (N.utf8_bytes aad) plain))
          (decode_base64url-encode_any sealed.ciphertext
            (is_node.ciphertext_bytes key.bytes iv (N.utf8_bytes aad) plain plain_bytes))
      ∙ ap (opened N) (is_node.unseal-seal key.bytes iv (N.utf8_bytes aad) plain k l plain_bytes)
      ∙ ap decrypted utf8

  -- An envelope that was sealed under a key whose identifier is another one is refused by name, whatever
  -- it holds and whatever it is opened for.
  pub decrypt_secret_other_key :
      (iv : Bytes) (plaintext : Text) (key other : CredentialKey) (aad aad' : Text)
      → key_id_of N key ≢ key_id_of N other
      → decrypt_secret N (encrypt_secret N iv plaintext key aad) other aad' ≡ key_id_mismatch
  unfolding encrypt_secret open_fields
  decrypt_secret_other_key iv plaintext key other aad aad' differ =
      let sealed = N.seal key.bytes iv (N.utf8_bytes aad) (N.utf8_bytes plaintext) in
      let ids : Bool = text_eq (key_id_of N key) (key_id_of N other) in
      decrypt_secret-envelope key other iv sealed aad' ∙ elim (Bool-cases ids) [
        | inl e ↦ absurd (differ ((text_eq_iff (key_id_of N key) (key_id_of N other)).0 e))
        | inr e ↦ rw (text_eq_refl envelope_version, e)
      ]
