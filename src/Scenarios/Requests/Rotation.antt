-- ===== src/Scenarios/Requests/Rotation.antt =====
-- The rotation of a credential key on a small input.
use lsyl_tunnel.Base.{
  find, put, ◌≡◌, ◌≤◌, arith, refl, true, false, some, none, [], ◌∷◌, String_discrete, trim_space,
}
use lsyl_tunnel.Config.{CredentialSealKeyConfig}
use lsyl_tunnel.Config.Validation.{known, count_active}
use lsyl_tunnel.Server.KeyRotation.{
  rotate, rotate_active, rotate_from, chosen_or_made, after_now, made_key, free_id, install,
  configured_after, set_active, new_config, dirs_of, KeyStore, RotationLibrary, existing_ids,
  best_key, better, usable, next_key_config,
}
use lsyl_tunnel.Server.KeyRotation.OneActive.{rotate-count_active}
use lsyl_tunnel.Server.KeyRotation.NextId.{next_key_fresh}

-- Every text is the time 5, and a number of an identifier is a "2".
abbrev small_rotation : RotationLibrary Unit
small_rotation = record {
  parse_time = λ text. some 5;
  format_time = λ t. "later";
  three_months_after = λ t. t;
  base_id = λ t. "a";
  numbered = λ id n. "a2";
  dir = λ path. ".";
  key_file = λ dir id ending. id;
  ensure_key_files = λ private public. some (tt, public);
}

abbrev old_key : CredentialSealKeyConfig
old_key = record {
  key_id = "a";
  private_key_file = "a.key";
  public_key_file = "a.pub";
  expires_at = "then";
  active = true;
}

none_usable : best_key small_rotation 9 "a" 0 (old_key ∷ []) none ≡ none
unfolding best_key better usable String_discrete trim_space
none_usable = refl

next_key_fresh_example :
    (config : CredentialSealKeyConfig) × (next_key_config small_rotation 9 "a" (old_key ∷ [])
      ≡ some (config, none))
    × (known config.key_id (existing_ids (old_key ∷ [])) ≡ false)
    × (config.expires_at ≡ "later")
next_key_fresh_example =
    next_key_fresh small_rotation 9 "a" (old_key ∷ []) none_usable (((λ e. cc), tt), (tt, tt))

abbrev old_keys : KeyStore Unit
old_keys = record {
  configured = old_key ∷ [];
  keys = [];
  active = some (record { id = "a"; expires_at = 5; private_key = tt; public_pem = "" });
}

rotate-count_active_example : count_active (rotate small_rotation 9 old_keys).configured ≤ 1
rotate-count_active_example = rotate-count_active small_rotation 9 old_keys (omega arith)

-- The old key is left without its flag, and a new one stands behind it.
rotated :
    (rotate small_rotation 9 old_keys).configured
    ≡ (record old_key { active = false })
      ∷ (record {
        key_id = "a2";
        private_key_file = "a2";
        public_key_file = "a2";
        expires_at = "later";
        active = true;
      })
      ∷ []
unfolding rotate rotate_active rotate_from next_key_config chosen_or_made best_key better usable
    after_now String_discrete trim_space made_key free_id find existing_ids put install
    configured_after set_active new_config dirs_of
rotated = refl
