-- ===== src/Server/Passwords.antt =====
-- src/internal/passutil/passutil.go, and `passwordFromRequest` and `activeCredentialPublicKey` of
-- src/server/tunnel/credential_seal.go after the rotation of the keys: what proves a user's identity.
use lsyl_tunnel.Base.{
  ℕ, String, Bool, true, false, not, ◌&&◌, ◌||◌, Option, none, some, List, [], ◌∷◌, ltb, ◌==◌,
  if◌then◌else◌, String_discrete, length, Map, find, trim_space,
}
use lsyl_tunnel.Config.{ℤ, pos, negsuc, GoLibrary, is_empty, is_blank_text, is_text}
use lsyl_tunnel.Protocol.{OpenRequest, SealedCredential, CredentialPublicKey}
use lsyl_tunnel.Credseal.{
  Crypto, Opened, opened, refused, panicked, type_server_sealed, open_sealed,
}

-- The functions of Go's library that check a password. `bytes` are the bytes of a text, and `pbkdf2` has
-- the password, the salt, the number of rounds and the length of the key.
pub record PassLibrary : Type 0 where
  pub bytes : String → List ℕ
  pub has_prefix : String → String → Bool
  pub hex_decode : String → Option (List ℕ)
  pub base64_decode : String → Option (List ℕ)
  pub sha256 : List ℕ → List ℕ
  pub pbkdf2 : List ℕ → List ℕ → ℕ → ℕ → Option (List ℕ)

-- `subtle.ConstantTimeCompare(a, b) == 1`
abbrev pub same_bytes : List ℕ → List ℕ → Bool
same_bytes [] [] = true
same_bytes (x ∷ xs) (y ∷ ys) = x == y && same_bytes xs ys
same_bytes [] (y ∷ ys) = false
same_bytes (x ∷ xs) [] = false

-- A number of rounds that `VerifyPassword` takes.
unfoldable pub rounds_of : Option ℤ → Option ℕ
rounds_of none = none
rounds_of (some (negsuc n)) = none
rounds_of (some (pos n)) = if ltb n 10000 || ltb 2000000 n then none else some n

module _ (go : GoLibrary) (pass : PassLibrary) where
  -- `VerifyPassword` on the key that a hash has.
  same_key : List ℕ → Option (List ℕ) → Bool
  same_key want none = false
  same_key want (some got) = same_bytes got want

  unfoldable pub verify_derived : String → ℕ → List ℕ → Option (List ℕ) → Bool
  unfolding same_key
  verify_derived password rounds salt none = false
  verify_derived password rounds salt (some want) =
      if length want == 0 || ltb 128 (length want)
      then false
      else same_key want (pass.pbkdf2 (pass.bytes password) salt rounds (length want))

  unfoldable pub verify_salted : String → ℕ → Option (List ℕ) → String → Bool
  verify_salted password rounds none key = false
  verify_salted password rounds (some salt) key =
      if ltb (length salt) 8
      then false
      else verify_derived password rounds salt (pass.base64_decode key)

  unfoldable pub verify_parts : String → List String → Bool
  verify_parts password (kind ∷ rounds ∷ salt ∷ key ∷ []) =
      if not (is_text kind "pbkdf2-sha256") then false else elim (rounds_of (go.atoi rounds)) [
        | none ↦ false
        | some n ↦ verify_salted password n (pass.base64_decode salt) key
      ]
  verify_parts password _ = false

  same_hash : String → Option (List ℕ) → Bool
  same_hash password none = false
  same_hash password (some want) = same_bytes (pass.sha256 (pass.bytes password)) want

  -- `VerifyPassword`
  unfoldable pub verify_password : String → String → Bool
  unfolding same_hash
  verify_password password hash =
      let encoded = trim_space hash in
      if pass.has_prefix encoded "plain:"
      then same_bytes (pass.bytes password) (pass.bytes (go.trim_prefix encoded "plain:"))
      else if pass.has_prefix encoded "sha256:"
      then same_hash password (pass.hex_decode (go.trim_prefix encoded "sha256:"))
      else verify_parts password (go.split encoded ":")

-- `credentialSealKey`
pub record CredentialSealKey (Private : Type 0) : Type 0 where
  pub id : String
  pub expires_at : ℕ
  pub private_key : Private
  pub public_pem : String

-- The result of `passwordFromRequest`: a password, or the code of a refusal.
pub data PasswordAnswer : Type 0 where
  password_is refused_with : String → PasswordAnswer
  password_panicked : PasswordAnswer

module _ {Public Private : Type 0} (crypto : Crypto Public Private)
    (parse_time : String → Option ℕ) where
  runs_at : ℕ → Option ℕ → Bool
  runs_at now none = false
  runs_at now (some t) = ltb now t

  -- The tests of an opened credential.
  unfoldable pub password_of : ℕ → String → Opened → PasswordAnswer
  unfolding runs_at
  password_of now username panicked = password_panicked
  password_of now username refused = refused_with "auth_failed"
  password_of now username (opened plain) =
      if not (is_text plain.username username)
      then refused_with "auth_failed"
      else if is_empty plain.expires_at
      then refused_with "credential_expired"
      else if not (runs_at now (parse_time plain.expires_at))
      then refused_with "credential_expired"
      else password_is plain.password

  unfoldable pub password_of_key :
      ℕ → String → SealedCredential → Option (CredentialSealKey Private) → PasswordAnswer
  password_of_key now username sealed none = refused_with "credential_expired"
  password_of_key now username sealed (some key) =
      if not (ltb now key.expires_at)
      then refused_with "credential_expired"
      else password_of now username (open_sealed crypto sealed key.private_key)

  unfoldable pub password_of_credential :
      ℕ → Map String (CredentialSealKey Private) → String → Option SealedCredential → PasswordAnswer
  password_of_credential now keys username none = refused_with "auth_failed"
  password_of_credential now keys username (some sealed) =
      if is_blank_text sealed.ciphertext
      then refused_with "auth_failed"
      else if not (is_text sealed.kind type_server_sealed)
      then refused_with "auth_failed"
      else password_of_key now username sealed
          (find String_discrete (trim_space sealed.key_id) keys)

  -- `passwordFromRequest`
  unfoldable pub password_from_request :
      ℕ → Map String (CredentialSealKey Private) → OpenRequest → PasswordAnswer
  password_from_request now keys req =
      if not (is_empty req.password)
      then password_is req.password
      else password_of_credential now keys req.username req.credential

-- `activeCredentialPublicKey`
unfoldable pub active_credential_public_key :
    {Private : Type 0}
    → (ℕ → String)
    → ℕ
    → Option (CredentialSealKey Private)
    → Option CredentialPublicKey
active_credential_public_key format_time now none = none
active_credential_public_key format_time now (some key) =
    if not (ltb now key.expires_at)
    then none
    else some (record {
      kind = type_server_sealed;
      key_id = key.id;
      expires_at = format_time key.expires_at;
      public_key_pem = key.public_pem;
    })
