-- ===== src/Examples/AccessRuns.antt =====
-- Secrets in envelopes and the tenant of a request, with a small stand-in for Node's cipher.
use growthmind.Prelude.{
  Bool-cases, ℕ, ap, ◌<◌, ◌%◌, ◌≡◌, ◌≢◌, ◌⊎◌, refl, Text, text, true, false, ◌&&◌, some, List, [],
  ◌∷◌, ◌++◌, map, all, any, All, Any, length, ◌==◌, if◌then◌else◌, arith, inl, inr,
}
use growthmind.Crypto.Base64Url.{Bytes, is_base64url_unit}
use growthmind.Crypto.Base64Url.Laws.{IsByte}
use growthmind.Crypto.SecretBox.{
  NodeCrypto, IsNodeCrypto, CredentialKey, decrypted, key_id_mismatch, key_id_of, encrypt_secret,
  decrypt_secret,
}
use growthmind.Crypto.SecretBox.Laws.{decrypt_secret-encrypt_secret, decrypt_secret_other_key}
use growthmind.Tenancy.Context.{TenantContext, Membership, TenantResolutionInput}
use growthmind.Tenancy.Resolution.{
  is_of, is_live_member, resolve_active_organization, derive_tenant_context,
}
use growthmind.Tenancy.Resolution.Laws.{
  is_oldest, IsOfMembership, resolve_active_organization_lem, derive_tenant_context_member,
}

-- A stand-in: the tag tells the key, and nothing is hidden.
abbrev digit_of : ℕ → ℕ
digit_of b = if b == 0 then 48 else 49

abbrev tag_of : ℕ → Bytes
tag_of n = n % 256 ∷ 0 ∷ 0 ∷ 0 ∷ 0 ∷ 0 ∷ 0 ∷ 0 ∷ 0 ∷ 0 ∷ 0 ∷ 0 ∷ 0 ∷ 0 ∷ 0 ∷ 0 ∷ []

abbrev small_node : NodeCrypto
small_node = record {
  seal = λ key iv aad plain. record { ciphertext = plain; tag = tag_of (length aad) };
  unseal = λ key iv aad sealed. some sealed.ciphertext;
  sha256_hex = λ bytes. map digit_of bytes;
  utf8_bytes = λ t. map (λ c. c % 256) t;
  utf8_text = λ bytes. bytes;
}

rests-IsByte : (t : Text) → All IsByte (map (λ c. c % 256) t)
rests-IsByte [] = tt
rests-IsByte (c ∷ t) = (omega arith, rests-IsByte t)

digits_in_alphabet : (bytes : Bytes) → all (map digit_of bytes) is_base64url_unit ≡ true
unfolding is_base64url_unit
digits_in_alphabet [] = refl
digits_in_alphabet (b ∷ bytes) = elim (Bool-cases (b == 0)) [
  | inl e ↦ rw e (digits_in_alphabet bytes)
  | inr e ↦ rw e (digits_in_alphabet bytes)
]

small_tag-IsByte : (n : ℕ) → All IsByte (tag_of n)
small_tag-IsByte n =
    let zero_byte : 0 < 256 = omega arith in
    (
      omega arith,
      (
        zero_byte,
        (
          zero_byte,
          (
            zero_byte,
            (
              zero_byte,
              (
                zero_byte,
                (
                  zero_byte,
                  (
                    zero_byte,
                    (
                      zero_byte,
                      (
                        zero_byte,
                        (
                          zero_byte,
                          (zero_byte, (zero_byte, (zero_byte, (zero_byte, (zero_byte, tt))))),
                        ),
                      ),
                    ),
                  ),
                ),
              ),
            ),
          ),
        ),
      ),
    )

small_node-IsNodeCrypto : IsNodeCrypto small_node
small_node-IsNodeCrypto = record {
  utf8-IsByte = rests-IsByte;
  unseal-seal = λ key iv aad plain k l h. refl;
  ciphertext_bytes = λ key iv aad plain h. h;
  tag_bytes = λ key iv aad plain. small_tag-IsByte (length aad);
  length-tag = λ key iv aad plain. refl;
  hex_alphabet = digits_in_alphabet;
}

abbrev eight : ℕ → Bytes
eight b = b ∷ b ∷ b ∷ b ∷ b ∷ b ∷ b ∷ b ∷ []

abbrev key_of : ℕ → CredentialKey
key_of b = record { bytes = eight b ++ (eight b ++ (eight b ++ eight b)) }

abbrev small_iv : Bytes
small_iv = eight 7 ++ (1 ∷ 2 ∷ 3 ∷ 250 ∷ [])

small_iv-IsByte : All IsByte small_iv
small_iv-IsByte =
    let seven : 7 < 256 = omega arith in
    (
      seven,
      (
        seven,
        (
          seven,
          (
            seven,
            (
              seven,
              (
                seven,
                (seven, (seven, (omega arith, (omega arith, (omega arith, (omega arith, tt)))))),
              ),
            ),
          ),
        ),
      ),
    )

decrypt_secret-encrypt_secret_example :
    decrypt_secret small_node
      (encrypt_secret small_node small_iv (text "phx_1") (key_of 5) (text "o:p"))
      (key_of 5)
      (text "o:p")
    ≡ decrypted (text "phx_1")
decrypt_secret-encrypt_secret_example =
    decrypt_secret-encrypt_secret small_node small_node-IsNodeCrypto small_iv (text "phx_1")
      (key_of 5) (text "o:p") refl refl small_iv-IsByte refl

abbrev first_unit : Text → ℕ
first_unit [] = 0
first_unit (c ∷ s) = c

key_ids_differ : key_id_of small_node (key_of 5) ≢ key_id_of small_node (key_of 0)
key_ids_differ = λ h. let unit : 49 ≡ 48 = ap first_unit h in omega (arith, unit)

decrypt_secret_other_key_example :
    decrypt_secret small_node
      (encrypt_secret small_node small_iv (text "phx_1") (key_of 5) (text "o:p"))
      (key_of 0)
      (text "o:p")
    ≡ key_id_mismatch
decrypt_secret_other_key_example =
    decrypt_secret_other_key small_node small_node-IsNodeCrypto small_iv (text "phx_1") (key_of 5)
      (key_of 0) (text "o:p") (text "o:p") key_ids_differ

-- Somebody who left the organisation that the session names.
abbrev joined : Text → ℕ → Membership
joined id at = record {
  organization_id = id;
  organization_name = text "Shop";
  role = text "admin";
  created_at = at;
}

abbrev two_memberships : List Membership
two_memberships = joined (text "b") 9 ∷ joined (text "a") 4 ∷ []

abbrev stale_session : TenantResolutionInput
stale_session = record {
  session = record { user_id = text "u"; active_organization_id = some (text "gone") };
  memberships = two_memberships;
}

abbrev acting : TenantContext
acting = record {
  user_id = text "u";
  organization_id = text "a";
  organization_name = text "Shop";
  role = text "admin";
}

stale_resolved : resolve_active_organization two_memberships (some (text "gone")) ≡ some (text "a")
unfolding resolve_active_organization
stale_resolved = refl

resolve_active_organization_lem_example :
    ((is_live_member two_memberships (some (text "gone")) ≡ true)
      × (some (text "gone") ≡ some (text "a")))
    ⊎ ((is_live_member two_memberships (some (text "gone")) ≡ false)
        × (any two_memberships (λ m. is_of (text "a") m && is_oldest two_memberships m) ≡ true))
resolve_active_organization_lem_example =
    resolve_active_organization_lem two_memberships (some (text "gone")) stale_resolved

stale_context : derive_tenant_context stale_session ≡ some acting
unfolding derive_tenant_context
stale_context = refl

derive_tenant_context_member_example :
    (acting.user_id ≡ text "u") × Any (IsOfMembership acting) two_memberships
derive_tenant_context_member_example = derive_tenant_context_member stale_session stale_context
