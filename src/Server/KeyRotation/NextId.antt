-- ===== src/Server/KeyRotation/NextId.antt =====
-- The search for a free identifier in `nextCredentialSealKeyConfigLocked` of
-- src/server/tunnel/credential_seal.go.
use lsyl_tunnel.Base.{
  ℕ, zero, suc, ◌≤◌, ◌≡◌, ◌≢◌, refl, sym, ap, ◌∙◌, inl, inr, String, true, false, none, some, List,
  [], ◌∷◌, All, if_true, if_false, Bool-cases, Option-cases, some-none, String_discrete, length,
  find, delete, find-delete, length-put-le, length-delete_found, trim_space, arith,
}
use lsyl_tunnel.Config.{CredentialSealKeyConfig}
use lsyl_tunnel.Config.Accepted.Accounts.{Distinct}
use lsyl_tunnel.Config.Validation.{Names, known}
use lsyl_tunnel.Server.KeyRotation.{
  RotationLibrary, existing_ids, free_id, best_key, new_config, made_key, chosen_or_made,
  next_key_config,
}

length-existing_ids-le :
    (keys : List CredentialSealKeyConfig) → length (existing_ids keys) ≤ length keys
unfolding existing_ids
length-existing_ids-le [] = omega arith
length-existing_ids-le (key ∷ keys) = omega (
  arith,
  length-put-le String_discrete (trim_space key.key_id) tt (existing_ids keys),
  length-existing_ids-le keys,
)

known-delete :
    (x : String) (names : Names) (ys : List String)
    → All (λ y. y ≢ x) ys
    → All (λ y. known y names ≡ true) ys
    → All (λ y. known y (delete String_discrete x names) ≡ true) ys
known-delete x names [] d k = tt
known-delete x names (y ∷ ys) d k = (
  ground (arith, find-delete String_discrete x y names, d.0, k.0),
  known-delete x names ys d.1 k.1,
)

-- Different names that are all in a set are no more than it has.
distinct_known :
    (xs : List String) (names : Names)
    → Distinct xs
    → All (λ x. known x names ≡ true) xs
    → length xs ≤ length names
distinct_known [] names d k = omega arith
distinct_known (x ∷ xs) names d k = elim (Option-cases (find String_discrete x names)) [
  | inl e ↦ absurd (ground (arith, k.0))
  | inr (v, e) ↦ omega (
    arith,
    length-delete_found String_discrete x v names e,
    distinct_known xs (delete String_discrete x names) d.1 (known-delete x names xs d.0 k.1),
  )
]

-- The identifiers that the search tries.
abbrev pub candidates : (ℕ → String) → ℕ → ℕ → String → List String
candidates numbered zero i id = []
candidates numbered (suc n) i id = id ∷ candidates numbered n (suc i) (numbered i)

-- A search that runs out of fuel has met known names alone.
free_id-none :
    (numbered : ℕ → String) (names : Names) (n i : ℕ) (id : String)
    → free_id numbered names n i id ≡ none
    → All (λ x. known x names ≡ true) (candidates numbered n i id)
unfolding free_id
free_id-none numbered names zero i id e = tt
free_id-none numbered names (suc n) i id e = elim (Bool-cases (known id names)) [
  | inl k ↦ (
    k,
    free_id-none numbered names n (suc i) (numbered i)
        (sym (if_true (free_id numbered names n (suc i) (numbered i)) (some id) k) ∙ e),
  )
  | inr k ↦ absurd (
      some-none id (sym (if_false (free_id numbered names n (suc i) (numbered i)) (some id) k) ∙ e))
]

-- What the search gives is not known.
free_id-some :
    (numbered : ℕ → String) (names : Names) (n i : ℕ) (id found : String)
    → free_id numbered names n i id ≡ some found
    → known found names ≡ false
unfolding free_id
free_id-some numbered names zero i id found e = absurd (some-none found (sym e))
free_id-some numbered names (suc n) i id found e = elim (Bool-cases (known id names)) [
  | inl k ↦
      free_id-some numbered names n (suc i) (numbered i) found
        (sym (if_true (free_id numbered names n (suc i) (numbered i)) (some id) k) ∙ e)
  | inr k ↦ cc
]

length-candidates :
    (numbered : ℕ → String) (n i : ℕ) (id : String) → length (candidates numbered n i id) ≡ n
length-candidates numbered zero i id = refl
length-candidates numbered (suc n) i id = ap suc (length-candidates numbered n (suc i) (numbered i))

-- With one step more than there are keys, and when the identifiers that it tries are different, the
-- search for the identifier of a new key ends, with one that no configured key has.
free_id_found :
    (numbered : ℕ → String) (keys : List CredentialSealKeyConfig) (i : ℕ) (id : String)
    → Distinct (candidates numbered (suc (length keys)) i id)
    → (found : String) × (free_id numbered (existing_ids keys) (suc (length keys)) i id
        ≡ some found)
      × (known found (existing_ids keys) ≡ false)
free_id_found numbered keys i id d =
    elim (Option-cases (free_id numbered (existing_ids keys) (suc (length keys)) i id)) [
      | inl e ↦ absurd (
          omega (
            arith,
            distinct_known (candidates numbered (suc (length keys)) i id) (existing_ids keys) d
                (free_id-none numbered (existing_ids keys) (suc (length keys)) i id e),
            length-candidates numbered (suc (length keys)) i id,
            length-existing_ids-le keys,
          ))
      | inr (found, e) ↦
          (found, e, free_id-some numbered (existing_ids keys) (suc (length keys)) i id found e)
    ]

-- When no other configured key can still be used, and the identifiers that the search tries are
-- different, the search ends within one step more than there are keys, and `next_key_config` gives a
-- new key, with the expiry three months on, under an identifier that no configured key has.
pub next_key_fresh :
    {Private : Type 0} (lib : RotationLibrary Private) (now : ℕ) (current : String)
    (keys : List CredentialSealKeyConfig)
    → best_key lib now current 0 keys none ≡ none
    → Distinct (candidates (lib.numbered (lib.base_id now)) (suc (length keys)) 2 (lib.base_id now))
    → (config : CredentialSealKeyConfig) × (next_key_config lib now current keys
        ≡ some (config, none))
      × (known config.key_id (existing_ids keys) ≡ false)
      × (config.expires_at ≡ lib.format_time (lib.three_months_after now))
unfolding next_key_config chosen_or_made made_key new_config
next_key_fresh lib now current keys b d =
    let (found, e, unknown) =
      free_id_found (lib.numbered (lib.base_id now)) keys 2 (lib.base_id now) d in
    (
      new_config lib now current keys found,
      ap (chosen_or_made lib now current keys) b ∙ ap (made_key lib now current keys) e,
      unknown,
      refl,
    )
