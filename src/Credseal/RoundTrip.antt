-- ===== src/Credseal/RoundTrip.antt =====
-- What `Open` of src/internal/credseal/credseal.go makes of what `Seal` made.
use lsyl_tunnel.Base.{
  ℕ, ◌≡◌, ◌≢◌, refl, ap, ◌∙◌, String, true, not, inl, inr, some, List, ◌==◌, if_true, if_false,
  Option-cases, length, String_discrete, arith,
}
use lsyl_tunnel.Protocol.{SealedCredential, CredentialPublicKey}
use lsyl_tunnel.Credseal.{
  Crypto, PlainCredential, EncryptedEnvelope, SealEnv, opened, panicked, parse_public_key_pem,
  filled, envelope_of, sealed_with, seal_payload, seal, open_payload, open_content, open_envelope,
  open_sealed,
}

-- What the functions of Go's library promise of a key pair.
pub record Laws {Public Private : Type 0} (crypto : Crypto Public Private) (public : Public)
    (private : Private) : Type 0 where
  pub decode-encode : (bytes : List ℕ) → crypto.decode (crypto.encode bytes) ≡ some bytes
  pub plain-json :
      (v : PlainCredential) (bytes : List ℕ)
      → crypto.plain_json.marshal v ≡ some bytes
      → crypto.plain_json.unmarshal bytes ≡ some v
  pub envelope-json :
      (v : EncryptedEnvelope) (bytes : List ℕ)
      → crypto.envelope_json.marshal v ≡ some bytes
      → crypto.envelope_json.unmarshal bytes ≡ some v
  pub oaep :
      (seed bytes ct : List ℕ) (label : String)
      → crypto.encrypt_oaep seed public bytes label ≡ some ct
      → crypto.decrypt_oaep private ct label ≡ some bytes
  pub gcm :
      (key nonce bytes : List ℕ) (label : String)
      → crypto.gcm_open key nonce (crypto.gcm_seal key nonce bytes label) label ≡ some bytes

module _ {Public Private : Type 0} (crypto : Crypto Public Private) (public : Public)
    (private : Private) (laws : Laws crypto public private) where
  open_envelope_parts :
      (key_id : String) (content_key ek nonce ct : List ℕ)
      → crypto.decrypt_oaep private ek key_id ≡ some content_key
      → open_envelope crypto private key_id (envelope_of crypto ek nonce ct)
        ≡ open_content crypto content_key nonce ct key_id
  unfolding open_envelope envelope_of String_discrete
  open_envelope_parts key_id content_key ek nonce ct e =
      rw (laws.decode-encode ek, laws.decode-encode nonce, laws.decode-encode ct, e) refl

  open_sealed-sealed_with :
      (key : CredentialPublicKey) (env : EncryptedEnvelope) (bytes : List ℕ)
      → crypto.envelope_json.marshal env ≡ some bytes
      → open_sealed crypto (sealed_with crypto key bytes) private
        ≡ open_envelope crypto private key.key_id env
  unfolding open_sealed sealed_with String_discrete
  open_sealed-sealed_with key env bytes e =
      rw (laws.decode-encode bytes, laws.envelope-json env bytes e) refl

  open_content_sized :
      (key nonce ct : List ℕ) (key_id : String)
      → crypto.is_aes_key key ≡ true
      → length nonce ≡ crypto.gcm_size
      → open_content crypto key nonce ct key_id
        ≡ open_payload crypto (crypto.gcm_open key nonce ct key_id)
  unfolding open_content
  open_content_sized key nonce ct key_id a n =
      if_false {b = not (crypto.is_aes_key key)} _ _ (ap not a)
      ∙ if_false {b = not (length nonce == crypto.gcm_size)} _ _ (ground arith)

  open_payload-unmarshal :
      (payload : List ℕ) (plain : PlainCredential)
      → crypto.plain_json.unmarshal payload ≡ some plain
      → open_payload crypto (some payload) ≡ opened plain
  unfolding open_payload
  open_payload-unmarshal payload plain e = rw (e, open_payload) refl

  -- The steps of a call of `Seal` that succeeds.
  record Sealed (env : SealEnv) (key : CredentialPublicKey) (plain : PlainCredential)
      (sealed : SealedCredential) : Type 0 where
    payload : List ℕ
    ek : List ℕ
    bytes : List ℕ
    aes_key : crypto.is_aes_key env.content_key ≡ true
    marshalled : crypto.plain_json.marshal (filled crypto env key plain) ≡ some payload
    encrypted : crypto.encrypt_oaep env.oaep_seed public env.content_key key.key_id ≡ some ek
    enveloped :
        crypto.envelope_json.marshal (
          envelope_of crypto ek env.gcm_nonce
            (crypto.gcm_seal env.content_key env.gcm_nonce payload key.key_id))
        ≡ some bytes
    result : sealed ≡ sealed_with crypto key bytes

  seal_steps :
      (env : SealEnv) (key : CredentialPublicKey) (plain : PlainCredential)
      (sealed : SealedCredential)
      → parse_public_key_pem crypto key.public_key_pem ≡ some public
      → seal crypto env key plain ≡ some sealed
      → Sealed env key plain sealed
  unfolding seal seal_payload
  seal_steps env key plain sealed p h =
      elim (Option-cases (crypto.plain_json.marshal (filled crypto env key plain))) [
        | inl e ↦ absurd (ground arith)
        | inr (payload, m) ↦
            elim (Option-cases
              (crypto.encrypt_oaep env.oaep_seed public env.content_key key.key_id)) [
                | inl e ↦ absurd (ground arith)
                | inr (ek, c) ↦
                    elim (Option-cases (
                      crypto.envelope_json.marshal (
                        envelope_of crypto ek env.gcm_nonce
                          (crypto.gcm_seal env.content_key env.gcm_nonce payload key.key_id)))) [
                            | inl e ↦ absurd (ground arith)
                            | inr (bytes, b) ↦ record {
                              payload = payload;
                              ek = ek;
                              bytes = bytes;
                              aes_key = ground arith;
                              marshalled = m;
                              encrypted = c;
                              enveloped = b;
                              result = ground arith;
                            }
                          ]
              ]
      ]

  -- A credential that `Seal` seals for a key of the server is opened by the server's private key: `Open`
  -- gives the credential back, with the time, the expiry and the nonce that `Seal` filled in. The
  -- library's encodings and ciphers read back what they wrote for this key pair, the random bytes of GCM
  -- are as many as it asks for, and `Seal` has given no error.
  pub open_sealed-seal :
      (env : SealEnv) (key : CredentialPublicKey) (plain : PlainCredential)
      (sealed : SealedCredential)
      → parse_public_key_pem crypto key.public_key_pem ≡ some public
      → length env.gcm_nonce ≡ crypto.gcm_size
      → seal crypto env key plain ≡ some sealed
      → open_sealed crypto sealed private ≡ opened (filled crypto env key plain)
  open_sealed-seal env key plain sealed p n h =
      let s = seal_steps env key plain sealed p h in
      let ct = crypto.gcm_seal env.content_key env.gcm_nonce s.payload key.key_id in
      ap (λ c. open_sealed crypto c private) s.result
      ∙ open_sealed-sealed_with key (envelope_of crypto s.ek env.gcm_nonce ct) s.bytes s.enveloped
      ∙ open_envelope_parts key.key_id env.content_key s.ek env.gcm_nonce ct
          (laws.oaep env.oaep_seed env.content_key s.ek key.key_id s.encrypted)
      ∙ open_content_sized env.content_key env.gcm_nonce ct key.key_id s.aes_key n
      ∙ ap (open_payload crypto) (laws.gcm env.content_key env.gcm_nonce s.payload key.key_id)
      ∙ open_payload-unmarshal s.payload (filled crypto env key plain)
          (laws.plain-json (filled crypto env key plain) s.payload s.marshalled)

  open_content_panics :
      (key nonce ct : List ℕ) (key_id : String)
      → crypto.is_aes_key key ≡ true
      → length nonce ≢ crypto.gcm_size
      → open_content crypto key nonce ct key_id ≡ panicked
  unfolding open_content
  open_content_panics key nonce ct key_id a n =
      if_false {b = not (crypto.is_aes_key key)} _ _ (ap not a)
      ∙ if_true {b = not (length nonce == crypto.gcm_size)} _ _ (ground arith)

  -- `Open` does not test the length of the nonce in an envelope. Who has the public key can make a
  -- credential, with a content key of a length that AES takes and any text as its ciphertext, on which
  -- `Open` gives no error but panics: the nonce need only be of another length than GCM asks for.
  pub open_sealed_panics :
      (key : CredentialPublicKey) (seed content_key ek nonce ct bytes : List ℕ)
      → crypto.encrypt_oaep seed public content_key key.key_id ≡ some ek
      → crypto.is_aes_key content_key ≡ true
      → length nonce ≢ crypto.gcm_size
      → crypto.envelope_json.marshal (envelope_of crypto ek nonce ct) ≡ some bytes
      → open_sealed crypto (sealed_with crypto key bytes) private ≡ panicked
  open_sealed_panics key seed content_key ek nonce ct bytes e a n m =
      open_sealed-sealed_with key (envelope_of crypto ek nonce ct) bytes m
      ∙ open_envelope_parts key.key_id content_key ek nonce ct
          (laws.oaep seed content_key ek key.key_id e)
      ∙ open_content_panics content_key nonce ct key.key_id a n
