-- ===== src/Scenarios/Requests/Sealing.antt =====
-- Sealed credentials on small inputs.
use lsyl_tunnel.Base.{
  ℕ, zero, suc, ◌+◌, ◌≡◌, refl, sym, ap, ◌∙◌, String, true, Option, some, none, List, [], ◌∷◌, ◌==◌,
  if◌then◌else◌, String_discrete, arith,
}
use Prim.Native.Char.{code}
use lsyl_tunnel.Config.{text_default}
use lsyl_tunnel.Protocol.{Json, SealedCredential, CredentialPublicKey}
use lsyl_tunnel.Credseal.{
  Crypto, PlainCredential, EncryptedEnvelope, envelope_alg, SealEnv, opened, panicked,
  parse_public_key_pem, filled, envelope_of, sealed_with, seal_payload, seal, open_sealed,
}
use lsyl_tunnel.Credseal.RoundTrip.{Laws, open_sealed-seal, open_sealed_panics}

-- A number as so many "a", then "b".
marks : ℕ → String → String
marks zero s = String.◌∷◌ "b" s
marks (suc n) s = String.◌∷◌ "a" (marks n s)

encode : List ℕ → String
unfolding marks
encode [] = ""
encode (n ∷ ns) = marks n (encode ns)

after_number : ℕ → Option (List ℕ) → Option (List ℕ)
after_number n none = none
after_number n (some ns) = some (n ∷ ns)

decode_from : ℕ → String → Option (List ℕ)
unfolding after_number
decode_from n String.[] = some []
decode_from n (String.◌∷◌ c s) =
    let more = decode_from (suc n) s in
    let next = after_number n (decode_from 0 s) in if code c == 97 then more else next

decode_from-marks :
    (k n : ℕ) (s : String) → decode_from k (marks n s) ≡ after_number (k + n) (decode_from 0 s)
unfolding decode_from marks
decode_from-marks k zero s = ap (λ m. after_number m (decode_from 0 s)) (omega arith)
decode_from-marks k (suc n) s =
    decode_from-marks (suc k) n s ∙ ap (λ m. after_number m (decode_from 0 s)) (omega arith)

decode_from-encode : (ns : List ℕ) → decode_from 0 (encode ns) ≡ some ns
unfolding encode decode_from
decode_from-encode [] = refl
decode_from-encode (n ∷ ns) =
    decode_from-marks 0 n (encode ns)
    ∙ ap (λ m. after_number m (decode_from 0 (encode ns))) (omega arith)
    ∙ ap (after_number n) (decode_from-encode ns)

-- A codec that knows one credential, and one that knows one envelope.
abbrev one_plain : PlainCredential → Json PlainCredential
one_plain p = record {
  marshal = λ v. elim (String_discrete v.username p.username) [
    | no _ ↦ none
    | yes _ ↦ elim (String_discrete v.password p.password) [
      | no _ ↦ none
      | yes _ ↦ elim (String_discrete v.client_id p.client_id) [
        | no _ ↦ none
        | yes _ ↦ elim (String_discrete v.issued_at p.issued_at) [
          | no _ ↦ none
          | yes _ ↦ elim (String_discrete v.expires_at p.expires_at) [
            | no _ ↦ none
            | yes _ ↦ elim (String_discrete v.nonce p.nonce) [ no _ ↦ none | yes _ ↦ some (1 ∷ []) ]
          ]
        ]
      ]
    ]
  ];
  unmarshal = λ bytes. some p;
}

one_plain_reads :
    (p v : PlainCredential) (bytes : List ℕ)
    → (one_plain p).marshal v ≡ some bytes
    → (one_plain p).unmarshal bytes ≡ some v
one_plain_reads p v bytes h = ground arith

abbrev one_envelope : EncryptedEnvelope → Json EncryptedEnvelope
one_envelope e = record {
  marshal = λ v. elim (String_discrete v.alg e.alg) [
    | no _ ↦ none
    | yes _ ↦ elim (String_discrete v.ek e.ek) [
      | no _ ↦ none
      | yes _ ↦ elim (String_discrete v.nonce e.nonce) [
        | no _ ↦ none
        | yes _ ↦ elim (String_discrete v.ct e.ct) [ no _ ↦ none | yes _ ↦ some (2 ∷ []) ]
      ]
    ]
  ];
  unmarshal = λ bytes. some e;
}

one_envelope_reads :
    (e v : EncryptedEnvelope) (bytes : List ℕ)
    → (one_envelope e).marshal v ≡ some bytes
    → (one_envelope e).unmarshal bytes ≡ some v
one_envelope_reads e v bytes h = ground arith

abbrev ann_plain : PlainCredential
ann_plain = record {
  username = "ann";
  password = "p";
  client_id = "";
  issued_at = "t";
  expires_at = "u";
  nonce = "n";
}

-- An envelope with the content key 5, the ciphertext 1 and a nonce.
unfoldable envelope_with : List ℕ → EncryptedEnvelope
unfolding encode
envelope_with nonce = record {
  alg = envelope_alg;
  ek = encode (5 ∷ []);
  nonce = encode nonce;
  ct = encode (1 ∷ []);
}

-- Ciphers that change nothing, for envelopes with one nonce. GCM asks for a nonce of one byte.
abbrev crypto_with : List ℕ → Crypto (Unit {0}) (Unit {0})
crypto_with nonce = record {
  plain_json = one_plain ann_plain;
  envelope_json = one_envelope (envelope_with nonce);
  encode = encode;
  decode = decode_from 0;
  pem_decode = λ pem. some [];
  parse_pkix = λ bytes. some tt;
  encrypt_oaep = λ seed key bytes label. some bytes;
  decrypt_oaep = λ key bytes label. some bytes;
  is_aes_key = λ key. true;
  gcm_size = 1;
  gcm_seal = λ key nonce bytes label. bytes;
  gcm_open = λ key nonce bytes label. some bytes;
}

pub small_crypto : Crypto (Unit {0}) (Unit {0})
small_crypto = crypto_with (9 ∷ [])

crypto-Laws : (nonce : List ℕ) → Laws (crypto_with nonce) tt tt
crypto-Laws nonce = record {
  decode-encode = decode_from-encode;
  plain-json = one_plain_reads ann_plain;
  envelope-json = one_envelope_reads (envelope_with nonce);
  oaep = λ seed bytes ct label h. sym h;
  gcm = λ key nonce bytes label. refl;
}

abbrev public_key : CredentialPublicKey
public_key = record { kind = "server_sealed"; key_id = "k"; expires_at = "u"; public_key_pem = "" }

abbrev seal_env : SealEnv
seal_env = record {
  now = "";
  plain_nonce = [];
  content_key = 5 ∷ [];
  gcm_nonce = 9 ∷ [];
  oaep_seed = [];
}

abbrev ann_sealed : SealedCredential
ann_sealed = record { kind = "server_sealed"; key_id = "k"; expires_at = "u"; ciphertext = "aab" }

sealed_now : seal (crypto_with (9 ∷ [])) seal_env public_key ann_plain ≡ some ann_sealed
unfolding seal seal_payload filled parse_public_key_pem envelope_of envelope_with sealed_with encode
    marks text_default String_discrete
sealed_now = refl

open_sealed-seal_example :
    open_sealed (crypto_with (9 ∷ [])) ann_sealed tt
    ≡ opened (filled (crypto_with (9 ∷ [])) seal_env public_key ann_plain)
unfolding parse_public_key_pem
open_sealed-seal_example =
    open_sealed-seal (crypto_with (9 ∷ [])) tt tt (crypto-Laws (9 ∷ [])) seal_env public_key
      ann_plain ann_sealed refl refl sealed_now

short_marshal :
    (one_envelope (envelope_with [])).marshal (envelope_of (crypto_with []) (5 ∷ []) [] (1 ∷ []))
    ≡ some (2 ∷ [])
unfolding envelope_of envelope_with encode marks String_discrete
short_marshal = refl

open_sealed_panics_example :
    open_sealed (crypto_with []) (sealed_with (crypto_with []) public_key (2 ∷ [])) tt ≡ panicked
open_sealed_panics_example =
    open_sealed_panics (crypto_with []) tt tt (crypto-Laws []) public_key [] (5 ∷ []) (5 ∷ []) []
      (1 ∷ []) (2 ∷ []) refl refl (λ e. omega (arith, e)) short_marshal
