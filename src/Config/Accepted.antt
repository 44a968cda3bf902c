-- ===== src/Config/Accepted.antt =====
-- What a configuration that `ValidateConfig` of src/server/tunnel/config.go takes is like.
pub mod Accounts
pub mod Ports
use lsyl_tunnel.Base.{
  ◌≤◌, ◌≡◌, ◌≢◌, refl, sym, ap, ◌∙◌, ◌⊎◌, inl, inr, String, Bool, true, false, ◌||◌, Option, none,
  some, List, [], ◌∷◌, All, map, ltb, if◌then◌else◌, if_true, if_false, String_discrete, Bool-cases,
  find, find-put, trim_space, arith,
}
use lsyl_tunnel.Config.{ℤ, pos, negsuc, GoLibrary, ForwardConfig, UserConfig, Config, is_blank_text}
use lsyl_tunnel.Config.Forwards.{eq_int}
use lsyl_tunnel.Config.Validation.{
  ConfigError, ◌orelse◌, fails, Names, known, with_name, check_users, check_allowed, taken,
  count_active, is_reverse, check_direction, check_forward_users, check_forwards, check_keys,
  check_accounts, validate_config, validate_config_version, validate_loopback_addresses,
  check_monitor, several_active_keys, tls_identity_missing,
}
use lsyl_tunnel.Config.Accepted.Accounts.{
  Distinct, Listed, user_name, Fresh, orelse_none, fails-none, check_users-none, check_users-known,
  unknown_empty, All-map,
}
use lsyl_tunnel.Config.Accepted.Ports.{reverse_ports, AllowedKnown, forwards_known, forwards_ports}

module _ (go : GoLibrary) where
  -- The steps of `ValidateConfig` that the theorems use.
  pub valid_accounts :
      (cfg : Config)
      → validate_config go cfg ≡ none
      → ((check_users cfg.users []).0 ≡ none)
        × (check_forwards go (check_users cfg.users []).1 cfg.forwards [] ≡ none)
        × (ltb 1 (count_active cfg.seal_keys) ≡ false)
  unfolding validate_config check_accounts
  valid_accounts cfg h =
      let one_active = fails (ltb 1 (count_active cfg.seal_keys)) several_active_keys in
      let keys = check_keys go cfg.seal_keys [] orelse one_active in
      let users = check_users cfg.users [] in
      let accounts = users.0 orelse check_forwards go users.1 cfg.forwards [] in
      let monitor = check_monitor go cfg.monitor_addr orelse accounts orelse keys in
      let no_identity =
        fails (is_blank_text cfg.tls.cert_file || is_blank_text cfg.tls.key_file)
          tls_identity_missing in
      let (v, h1) =
        orelse_none (validate_config_version go cfg)
          (validate_loopback_addresses go cfg orelse no_identity orelse monitor) h in
      let (l, h2) =
        orelse_none (validate_loopback_addresses go cfg) (no_identity orelse monitor) h1 in
      let (t, h3) = orelse_none no_identity monitor h2 in
      let (m, h4) = orelse_none (check_monitor go cfg.monitor_addr) (accounts orelse keys) h3 in
      let (a, h5) = orelse_none accounts keys h4 in
      let (k, c) = orelse_none (check_keys go cfg.seal_keys []) one_active h5 in
      let (u, f) = orelse_none users.0 (check_forwards go users.1 cfg.forwards []) a in
      (u, f, fails-none (ltb 1 (count_active cfg.seal_keys)) several_active_keys c)

  -- A configuration that `ValidateConfig` takes: no user's name is blank and no two are the same, no
  -- two reverse forwards have the same port, every user that a forward allows is a user of the
  -- configuration, and at most one credential key is active.
  pub accepted :
      (cfg : Config)
      → validate_config go cfg ≡ none
      → All (λ user. user_name user ≢ "") cfg.users
        × Distinct (map user_name cfg.users)
        × Distinct (reverse_ports go cfg.forwards)
        × All (AllowedKnown go cfg.users) cfg.forwards
        × (count_active cfg.seal_keys ≤ 1)
  accepted cfg h =
      let (u, f, c) = valid_accounts cfg h in
      let (fresh, distinct) = check_users-none cfg.users [] u in
      (
        names_set cfg.users fresh,
        distinct,
        (forwards_ports go (check_users cfg.users []).1 cfg.forwards [] f).1,
        allowed_set cfg.users u cfg.forwards
            (forwards_known go (check_users cfg.users []).1 cfg.forwards [] f),
        at_most_one c,
      )
    where
      names_set :
          (users : List UserConfig) → Fresh [] users → All (λ user. user_name user ≢ "") users
      names_set [] h = tt
      names_set (user ∷ users) h = (h.0.0, names_set users h.1)

      allowed_set :
          (users : List UserConfig)
          → (check_users users []).0 ≡ none
          → (fwds : List ForwardConfig)
          → All
              (λ fwd.
                All
                  (λ user. known (trim_space user) (check_users users []).1 ≡ true)
                  fwd.allowed_users)
              fwds
          → All (AllowedKnown go users) fwds
      allowed_set users u [] h = tt
      allowed_set users u (fwd ∷ fwds) h = (
        All-map
            (λ user k. elim (check_users-known users [] (trim_space user) u k) [
              | inl l ↦ l
              | inr e ↦ absurd (unknown_empty (trim_space user) e)
            ])
            fwd.allowed_users h.0,
        allowed_set users u fwds h.1,
      )

      at_most_one : ltb 1 (count_active cfg.seal_keys) ≡ false → count_active cfg.seal_keys ≤ 1
      at_most_one e = ground arith
