-- ===== src/Server/KeyRotation.antt =====
-- `rotateExpiredCredentialSealKeyLocked` of src/server/tunnel/credential_seal.go with
-- `nextCredentialSealKeyConfigLocked`: the next key once the active one has expired. The write of the
-- configuration file that follows is left out, and so is the field `active` of a key in memory, which
-- nothing reads.
pub mod NextId
pub mod OneActive
use lsyl_tunnel.Base.{
  ℕ, zero, suc, ◌+◌, String, Bool, true, false, not, ◌||◌, Option, none, some, List, [], ◌∷◌, ◌++◌,
  map, ltb, ◌==◌, if◌then◌else◌, String_discrete, length, Map, find, put, trim_space,
}
use lsyl_tunnel.Config.{CredentialSealKeyConfig, is_empty, is_blank_text, is_text}
use lsyl_tunnel.Config.Validation.{Names, known, with_name}
use lsyl_tunnel.Server.Passwords.{CredentialSealKey}

-- `parse_time` and `format_time` are for RFC 3339, `three_months_after` is `AddDate(0, 3, 0)`, `base_id`
-- is "login-key-" with the month, `numbered` is the `Sprintf` of an identifier and a number, `dir` is
-- `filepath.Dir`, `key_file` joins a directory, an identifier and an ending, and `ensure_key_files` is
-- `credseal.EnsureKeyFiles` with the text of the public key.
pub record RotationLibrary (Private : Type 0) : Type 0 where
  pub parse_time : String → Option ℕ
  pub format_time : ℕ → String
  pub three_months_after : ℕ → ℕ
  pub base_id : ℕ → String
  pub numbered : String → ℕ → String
  pub dir : String → String
  pub key_file : String → String → String → String
  pub ensure_key_files : String → String → Option (Private × String)

pub record KeyStore (Private : Type 0) : Type 0 where
  pub configured : List CredentialSealKeyConfig
  pub keys : Map String (CredentialSealKey Private)
  pub active : Option (CredentialSealKey Private)

-- The set of the configured identifiers.
unfoldable pub existing_ids : List CredentialSealKeyConfig → Names
existing_ids [] = []
existing_ids (key ∷ keys) = with_name (trim_space key.key_id) (existing_ids keys)

-- The loop that looks for an identifier that is free, with fuel; `none` is out of fuel.
unfoldable pub free_id : (ℕ → String) → Names → ℕ → ℕ → String → Option String
free_id numbered existing zero i id = none
free_id numbered existing (suc fuel) i id =
    let rest = free_id numbered existing fuel (suc i) (numbered i) in
    if known id existing then rest else some id

unfoldable pub set_active : Bool → CredentialSealKeyConfig → CredentialSealKeyConfig
set_active active key = record key { active = active }

-- `Keys[i].Active = true`
unfoldable pub activate : ℕ → List CredentialSealKeyConfig → List CredentialSealKeyConfig
activate i [] = []
activate zero (key ∷ keys) = set_active true key ∷ keys
activate (suc i) (key ∷ keys) = key ∷ activate i keys

abbrev pub or_dir : String → String → String
or_dir fallback path = if is_empty path || is_text path "." then fallback else path

module _ {Private : Type 0} (lib : RotationLibrary Private) where
  unfoldable pub after_now : ℕ → Option ℕ → Option ℕ
  after_now now none = none
  after_now now (some t) = if ltb now t then some t else none

  -- The expiry of a configured key that may come next.
  unfoldable pub usable : ℕ → String → CredentialSealKeyConfig → Option ℕ
  unfolding after_now
  usable now current key =
      if is_blank_text key.key_id || is_text (trim_space key.key_id) current
      then none
      else after_now now (lib.parse_time (trim_space key.expires_at))

  -- The choice that is left after one key: its place, the key and its expiry.
  abbrev pub Best : Type 0
  Best = Option (ℕ × CredentialSealKeyConfig × ℕ)

  unfoldable pub better : ℕ → CredentialSealKeyConfig → Option ℕ → Best → Best
  better i key none best = best
  better i key (some t) none = some (i, key, t)
  better i key (some t) (some (j, old, u)) = if ltb t u then some (i, key, t) else some (j, old, u)

  -- The loop over the configured keys.
  unfoldable pub best_key : ℕ → String → ℕ → List CredentialSealKeyConfig → Best → Best
  best_key now current i [] best = best
  best_key now current i (key ∷ keys) best =
      best_key now current (suc i) keys (better i key (usable now current key) best)

  -- The directories of the current key's files.
  unfoldable pub dirs_of : String → List CredentialSealKeyConfig → String × String
  dirs_of current [] = ("", "")
  dirs_of current (key ∷ keys) =
      let rest = dirs_of current keys in
      if is_text (trim_space key.key_id) current
      then (lib.dir key.private_key_file, lib.dir key.public_key_file)
      else rest

  -- A key that is made anew under the identifier `id`.
  unfoldable pub new_config :
      ℕ → String → List CredentialSealKeyConfig → String → CredentialSealKeyConfig
  new_config now current keys id =
      let private_dir = or_dir "certs" (dirs_of current keys).0 in
      let public_dir = or_dir private_dir (dirs_of current keys).1 in
      record {
        key_id = id;
        private_key_file = lib.key_file private_dir id ".key";
        public_key_file = lib.key_file public_dir id ".pub";
        expires_at = lib.format_time (lib.three_months_after now);
        active = true;
      }

  -- The new key under the identifier that was found.
  unfoldable pub made_key :
      ℕ
      → String
      → List CredentialSealKeyConfig
      → Option String
      → Option (CredentialSealKeyConfig × Option ℕ)
  made_key now current keys none = none
  made_key now current keys (some id) = some (new_config now current keys id, none)

  -- The best of the configured keys, or a new one. The search for a free identifier has as much fuel
  -- as there are keys, and one more.
  unfoldable pub chosen_or_made :
      ℕ → String → List CredentialSealKeyConfig → Best → Option (CredentialSealKeyConfig × Option ℕ)
  chosen_or_made now current keys (some (i, key, t)) = some (key, some i)
  chosen_or_made now current keys none = made_key now current keys (
      free_id (lib.numbered (lib.base_id now)) (existing_ids keys) (suc (length keys)) 2
        (lib.base_id now))

  -- `nextCredentialSealKeyConfigLocked`, with the place of a configured key.
  unfoldable pub next_key_config :
      ℕ → String → List CredentialSealKeyConfig → Option (CredentialSealKeyConfig × Option ℕ)
  next_key_config now current keys =
      chosen_or_made now current keys (best_key now current 0 keys none)

  parsed_or_zero : Option ℕ → ℕ
  parsed_or_zero none = 0
  parsed_or_zero (some t) = t

  -- The configured keys after the rotation.
  unfoldable pub configured_after :
      CredentialSealKeyConfig
      → Option ℕ
      → List CredentialSealKeyConfig
      → List CredentialSealKeyConfig
  configured_after key (some i) keys = activate i (map (set_active false) keys)
  configured_after key none keys = map (set_active false) keys ++ key ∷ []

  unfoldable pub install :
      CredentialSealKeyConfig × Option ℕ
      → Option (Private × String)
      → KeyStore Private
      → KeyStore Private
  unfolding parsed_or_zero
  install (config, place) none s = s
  install (config, place) (some (private_key, public_pem)) s =
      let key : CredentialSealKey Private = record {
        id = config.key_id;
        expires_at = parsed_or_zero (lib.parse_time config.expires_at);
        private_key = private_key;
        public_pem = public_pem;
      } in
      record {
        configured = configured_after config place s.configured;
        keys = put String_discrete config.key_id key s.keys;
        active = some key;
      }

  unfoldable pub rotate_from :
      ℕ → String → KeyStore Private → Option (CredentialSealKeyConfig × Option ℕ) → KeyStore Private
  rotate_from now current s none = s
  rotate_from now current s (some (config, place)) =
      install (config, place) (lib.ensure_key_files config.private_key_file config.public_key_file)
        s

  unfoldable pub rotate_active :
      ℕ → KeyStore Private → Option (CredentialSealKey Private) → KeyStore Private
  rotate_active now s none = s
  rotate_active now s (some key) =
      if ltb now key.expires_at
      then s
      else rotate_from now key.id s (next_key_config now key.id s.configured)

  -- `rotateExpiredCredentialSealKeyLocked`
  unfoldable pub rotate : ℕ → KeyStore Private → KeyStore Private
  rotate now s = rotate_active now s s.active
