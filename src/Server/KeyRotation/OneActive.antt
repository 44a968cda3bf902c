-- ===== src/Server/KeyRotation/OneActive.antt =====
-- The flags of the configured keys after `rotateExpiredCredentialSealKeyLocked` of
-- src/server/tunnel/credential_seal.go.
use lsyl_tunnel.Base.{
  ℕ, zero, suc, ◌+◌, ◌≤◌, ◌≡◌, refl, String, false, Option, none, some, List, [], ◌∷◌, ◌++◌, map,
  ltb, Bool-cases, arith,
}
use lsyl_tunnel.Config.{CredentialSealKeyConfig}
use lsyl_tunnel.Config.Validation.{count_active}
use lsyl_tunnel.Server.Passwords.{CredentialSealKey}
use lsyl_tunnel.Server.KeyRotation.{
  RotationLibrary, KeyStore, set_active, activate, configured_after, next_key_config, install,
  rotate_from, rotate_active, rotate,
}

count_active-map :
    (keys : List CredentialSealKeyConfig) → count_active (map (set_active false) keys) ≡ 0
unfolding set_active
count_active-map [] = refl
count_active-map (key ∷ keys) = count_active-map keys

count_active-activate :
    (i : ℕ) (keys : List CredentialSealKeyConfig)
    → count_active (activate i keys) ≤ 1 + count_active keys
unfolding activate set_active
count_active-activate i [] = omega arith
count_active-activate zero (key ∷ keys) = ground arith
count_active-activate (suc i) (key ∷ keys) = ground (arith, count_active-activate i keys)

count_active-append :
    (keys : List CredentialSealKeyConfig) (key : CredentialSealKeyConfig)
    → count_active (keys ++ key ∷ []) ≤ 1 + count_active keys
count_active-append [] key = ground arith
count_active-append (first ∷ keys) key = ground (arith, count_active-append keys key)

module _ {Private : Type 0} (lib : RotationLibrary Private) where
  configured_after-count_active :
      (key : CredentialSealKeyConfig) (place : Option ℕ) (keys : List CredentialSealKeyConfig)
      → count_active (configured_after lib key place keys) ≤ 1
  unfolding configured_after
  configured_after-count_active key (some i) keys =
      omega (arith, count_active-activate i (map (set_active false) keys), count_active-map keys)
  configured_after-count_active key none keys =
      omega (arith, count_active-append (map (set_active false) keys) key, count_active-map keys)

  install-count_active :
      (key : CredentialSealKeyConfig) (place : Option ℕ) (files : Option (Private × String))
      (s : KeyStore Private)
      → count_active s.configured ≤ 1
      → count_active (install lib (key, place) files s).configured ≤ 1
  unfolding install
  install-count_active key place none s h = h
  install-count_active key place (some (private_key, public_pem)) s h =
      configured_after-count_active key place s.configured

  rotate_from-count_active :
      (now : ℕ) (current : String) (s : KeyStore Private)
      (next : Option (CredentialSealKeyConfig × Option ℕ))
      → count_active s.configured ≤ 1
      → count_active (rotate_from lib now current s next).configured ≤ 1
  unfolding rotate_from
  rotate_from-count_active now current s none h = h
  rotate_from-count_active now current s (some (key, place)) h =
      install-count_active key place (lib.ensure_key_files key.private_key_file key.public_key_file)
        s h

  rotate_active-count_active :
      (now : ℕ) (s : KeyStore Private) (active : Option (CredentialSealKey Private))
      → count_active s.configured ≤ 1
      → count_active (rotate_active lib now s active).configured ≤ 1
  unfolding rotate_active
  rotate_active-count_active now s none h = h
  rotate_active-count_active now s (some key) h = ground (
    arith,
    Bool-cases (ltb now key.expires_at),
    rotate_from-count_active now key.id s (next_key_config lib now key.id s.configured) h,
  )

-- A rotation keeps what `ValidateConfig` demands of the flags: when at most one configured key is
-- active before it, at most one is after it, whether a configured key is taken, a new one is appended,
-- or the files of the key cannot be made.
pub rotate-count_active :
    {Private : Type 0} (lib : RotationLibrary Private) (now : ℕ) (s : KeyStore Private)
    → count_active s.configured ≤ 1
    → count_active (rotate lib now s).configured ≤ 1
unfolding rotate
rotate-count_active lib now s h = rotate_active-count_active lib now s s.active h
