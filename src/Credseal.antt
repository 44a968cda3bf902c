-- ===== src/Credseal.antt =====
-- src/internal/credseal/credseal.go: credentials that a client seals with the server's public key and the
-- server opens. The functions of Go's crypto and encoding packages are the interface `Crypto`.
pub mod RoundTrip
use lsyl_tunnel.Base.{
  ℕ, String, Bool, true, false, not, Option, none, some, List, ◌==◌, if◌then◌else◌, length,
}
use lsyl_tunnel.Config.{is_empty, is_text, text_default}
use lsyl_tunnel.Protocol.{Json, SealedCredential, CredentialPublicKey}

abbrev pub type_server_sealed : String
type_server_sealed = "server_sealed"

abbrev pub envelope_alg : String
envelope_alg = "rsa-oaep-sha256+a256gcm"

pub record PlainCredential : Type 0 where
  pub username : String
  pub password : String
  pub client_id : String
  pub issued_at : String
  pub expires_at : String
  pub nonce : String

pub record EncryptedEnvelope : Type 0 where
  pub alg : String
  pub ek : String
  pub nonce : String
  pub ct : String

-- `encode` and `decode` are `base64.RawStdEncoding`, `parse_pkix` is `x509.ParsePKIXPublicKey` for an RSA
-- key, `is_aes_key` is whether `aes.NewCipher` takes a key, and `gcm_size` is `NonceSize`. The first
-- argument of `encrypt_oaep` is what it reads of `rand.Reader`; its last one is the label, as the last
-- one of the functions of GCM is the additional data.
pub record Crypto (Public Private : Type 0) : Type 0 where
  pub plain_json : Json PlainCredential
  pub envelope_json : Json EncryptedEnvelope
  pub encode : List ℕ → String
  pub decode : String → Option (List ℕ)
  pub pem_decode : String → Option (List ℕ)
  pub parse_pkix : List ℕ → Option Public
  pub encrypt_oaep : List ℕ → Public → List ℕ → String → Option (List ℕ)
  pub decrypt_oaep : Private → List ℕ → String → Option (List ℕ)
  pub is_aes_key : List ℕ → Bool
  pub gcm_size : ℕ
  pub gcm_seal : List ℕ → List ℕ → List ℕ → String → List ℕ
  pub gcm_open : List ℕ → List ℕ → List ℕ → String → Option (List ℕ)

-- The random bytes and the clock of one call of `Seal`.
pub record SealEnv : Type 0 where
  pub now : String
  pub plain_nonce : List ℕ
  pub content_key : List ℕ
  pub gcm_nonce : List ℕ
  pub oaep_seed : List ℕ

-- `gcm.Open` panics on a nonce of another size.
pub data Opened : Type 0 where
  opened : PlainCredential → Opened
  refused panicked : Opened

module _ {Public Private : Type 0} (crypto : Crypto Public Private) where
  -- `ParsePublicKeyPEM`
  unfoldable pub parse_public_key_pem : String → Option Public
  parse_public_key_pem pem = elim (crypto.pem_decode pem) [
    | none ↦ none
    | some bytes ↦ crypto.parse_pkix bytes
  ]

  -- The credential with its missing fields filled in.
  unfoldable pub filled : SealEnv → CredentialPublicKey → PlainCredential → PlainCredential
  filled env key plain = record plain {
    issued_at = text_default (is_empty plain.issued_at) env.now plain.issued_at;
    expires_at = text_default (is_empty plain.expires_at) key.expires_at plain.expires_at;
    nonce = text_default (is_empty plain.nonce) (crypto.encode env.plain_nonce) plain.nonce;
  }

  unfoldable pub envelope_of : List ℕ → List ℕ → List ℕ → EncryptedEnvelope
  envelope_of ek nonce ct = record {
    alg = envelope_alg;
    ek = crypto.encode ek;
    nonce = crypto.encode nonce;
    ct = crypto.encode ct;
  }

  unfoldable pub sealed_with : CredentialPublicKey → List ℕ → SealedCredential
  sealed_with key bytes = record {
    kind = type_server_sealed;
    key_id = key.key_id;
    expires_at = key.expires_at;
    ciphertext = crypto.encode bytes;
  }

  unfoldable pub seal_payload :
      SealEnv → CredentialPublicKey → Public → List ℕ → Option SealedCredential
  seal_payload env key public payload =
      elim (crypto.encrypt_oaep env.oaep_seed public env.content_key key.key_id) [
        | none ↦ none
        | some ek ↦
            elim (crypto.envelope_json.marshal (
              envelope_of ek env.gcm_nonce
                (crypto.gcm_seal env.content_key env.gcm_nonce payload key.key_id))) [
                  | none ↦ none
                  | some bytes ↦ some (sealed_with key bytes)
                ]
      ]

  -- `Seal`
  unfoldable pub seal : SealEnv → CredentialPublicKey → PlainCredential → Option SealedCredential
  seal env key plain = elim (parse_public_key_pem key.public_key_pem) [
    | none ↦ none
    | some public ↦ elim (crypto.plain_json.marshal (filled env key plain)) [
      | none ↦ none
      | some payload ↦
          if crypto.is_aes_key env.content_key then seal_payload env key public payload else none
    ]
  ]

  unfoldable pub open_payload : Option (List ℕ) → Opened
  open_payload none = refused
  open_payload (some payload) = elim (crypto.plain_json.unmarshal payload) [
    | none ↦ refused
    | some plain ↦ opened plain
  ]

  unfoldable pub open_content : List ℕ → List ℕ → List ℕ → String → Opened
  open_content content_key nonce ct key_id =
      if not (crypto.is_aes_key content_key)
      then refused
      else if not (length nonce == crypto.gcm_size)
      then panicked
      else open_payload (crypto.gcm_open content_key nonce ct key_id)

  unfoldable pub open_envelope : Private → String → EncryptedEnvelope → Opened
  open_envelope private key_id env =
      if not (is_text env.alg envelope_alg) then refused else elim (crypto.decode env.ek) [
        | none ↦ refused
        | some ek ↦ elim (crypto.decode env.nonce) [
          | none ↦ refused
          | some nonce ↦ elim (crypto.decode env.ct) [
            | none ↦ refused
            | some ct ↦ elim (crypto.decrypt_oaep private ek key_id) [
              | none ↦ refused
              | some content_key ↦ open_content content_key nonce ct key_id
            ]
          ]
        ]
      ]

  -- `Open`
  unfoldable pub open_sealed : SealedCredential → Private → Opened
  open_sealed sealed private =
      if not (is_text sealed.kind type_server_sealed)
      then refused
      else elim (crypto.decode sealed.ciphertext) [
        | none ↦ refused
        | some bytes ↦ elim (crypto.envelope_json.unmarshal bytes) [
          | none ↦ refused
          | some env ↦ open_envelope private sealed.key_id env
        ]
      ]
