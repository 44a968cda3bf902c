-- ===== src/Config/Validation.antt =====
-- `ValidateConfig` of src/server/tunnel/config.go with `validateLoopbackAddresses` of
-- config_addresses.go, and src/internal/netaddr. The answer is the first error, or `none`.
use lsyl_tunnel.Base.{
  ℕ, ◌+◌, String, Bool, true, false, not, ◌&&◌, ◌||◌, Option, none, some, List, [], ◌∷◌, ltb, ◌==◌,
  if◌then◌else◌, String_discrete, length, Map, find, put, trim_space,
}
use lsyl_tunnel.Config.{
  ℤ, pos, negsuc, GoLibrary, CredentialSealKeyConfig, ForwardConfig, UserConfig, Config,
  client_to_server, server_to_client, is_empty, is_blank_text, is_text, is_positive,
}
use lsyl_tunnel.Config.Forwards.{
  loopback, port_in_range, eq_int, split_host_port, reverse_listen_fields_ok,
}
use lsyl_tunnel.Config.Version.{Ordering, greater, parse, compare, check_min}

pub data ConfigError : Type 0 where
  config_version_negative config_version_newer server_version_too_old : ConfigError
  protocol_version_negative protocol_version_unsupported : ConfigError
  min_client_version_invalid max_client_version_invalid client_version_range : ConfigError
  loopback_alias tls_identity_missing monitor_addr_invalid : ConfigError
  username_missing user_duplicate password_missing : ConfigError
  server_target_invalid server_target_forbidden : ConfigError
  listen_fields_invalid listen_port_missing listen_port_out_of_range listen_addr_invalid :
      ConfigError
  direction_unsupported : ConfigError
  allowed_user_missing allowed_user_duplicate allowed_user_unknown no_allowed_users : ConfigError
  reverse_users_not_one reverse_port_duplicate : ConfigError
  key_id_missing key_duplicate key_files_missing expires_missing expires_invalid : ConfigError
  several_active_keys : ConfigError

-- `if err := …; err != nil { return err }` before the rest.
infixr 2 ◌orelse◌
abbrev pub ◌orelse◌ : Option ConfigError → Option ConfigError → Option ConfigError
none orelse rest = rest
some e orelse rest = some e

-- `if test { return e }`
abbrev pub fails : Bool → ConfigError → Option ConfigError
fails true e = some e
fails false e = none

abbrev pub Names : Type 0
Names = Map String (Unit {0})

abbrev pub known : String → Names → Bool
known name names = elim (find String_discrete name names) [ none ↦ false | some _ ↦ true ]

abbrev pub with_name : String → Names → Names
with_name name names = put String_discrete name tt names

-- The loop over the users; the result has their names.
unfoldable pub check_users : List UserConfig → Names → Option ConfigError × Names
check_users [] names = (none, names)
check_users (user ∷ users) names =
    let name = trim_space user.username in
    let rest = check_users users (with_name name names) in
    if is_empty name
    then (some username_missing, names)
    else if known name names
    then (some user_duplicate, names)
    else if not user.disabled && is_blank_text user.password_hash
    then (some password_missing, with_name name names)
    else rest

-- The loop over one forward's users.
unfoldable pub check_allowed : Names → List String → Names → Option ConfigError × Names
check_allowed users [] allowed = (none, allowed)
check_allowed users (user ∷ rest) allowed =
    let name = trim_space user in
    let next = check_allowed users rest (with_name name allowed) in
    if is_empty name
    then (some allowed_user_missing, allowed)
    else if known name allowed
    then (some allowed_user_duplicate, allowed)
    else if not (known name users)
    then (some allowed_user_unknown, allowed)
    else next

abbrev pub taken : ℤ → List ℤ → Bool
taken port [] = false
taken port (p ∷ ports) = eq_int p port || taken port ports

abbrev pub count_active : List CredentialSealKeyConfig → ℕ
count_active [] = 0
count_active (key ∷ keys) = if key.active then 1 + count_active keys else count_active keys

-- The direction of a forward, "" being the default.
abbrev pub direction_of : ForwardConfig → String
direction_of fwd =
    let direction = trim_space fwd.direction in
    if is_empty direction then client_to_server else direction

abbrev pub is_reverse : ForwardConfig → Bool
is_reverse fwd = is_text (direction_of fwd) server_to_client

module _ (go : GoLibrary) where
  -- `CheckLoopbackHost`; `true` where there is no error.
  unfoldable pub check_loopback_host : String → Bool
  check_loopback_host text =
      let host = trim_space text in
      let name = go.trim_suffix (go.to_lower host) "." in
      if is_text host loopback
      then true
      else not (
          is_text name "localhost"
          || go.has_suffix name ".localhost"
          || go.is_loopback_ip (go.trim_brackets host))

  -- `CheckLoopbackEndpoint`
  unfoldable pub check_loopback_endpoint : String → Bool
  check_loopback_endpoint addr = elim (go.split_host_port (trim_space addr)) [
    | none ↦ check_loopback_host addr
    | some (host, port) ↦ check_loopback_host host
  ]

  -- `IsForwardTargetHost`
  unfoldable pub is_forward_target_host : String → Bool
  is_forward_target_host host = is_text host loopback || go.is_private_ip host

  unfoldable pub check_forward_addresses : List ForwardConfig → Option ConfigError
  check_forward_addresses [] = none
  check_forward_addresses (fwd ∷ rest) =
      fails (not (check_loopback_endpoint fwd.listen_addr)) loopback_alias
      orelse fails (not (check_loopback_endpoint fwd.server_target)) loopback_alias
      orelse check_forward_addresses rest

  -- `validateLoopbackAddresses`
  unfoldable pub validate_loopback_addresses : Config → Option ConfigError
  validate_loopback_addresses cfg =
      fails (not (check_loopback_endpoint cfg.listen_addr)) loopback_alias
      orelse fails (not (check_loopback_endpoint cfg.monitor_addr)) loopback_alias
      orelse check_forward_addresses cfg.forwards

  unparsed : String → Bool
  unparsed v = elim (parse go v) [ none ↦ true | some _ ↦ false ]

  not_in_order : Option Ordering → Bool
  not_in_order none = true
  not_in_order (some greater) = true
  not_in_order (some _) = false

  unfoldable pub check_config_version : ℤ → Option ConfigError
  check_config_version (negsuc n) = some config_version_negative
  check_config_version (pos n) = fails (ltb 1 n) config_version_newer

  unfoldable pub check_protocol_version : ℤ → Option ConfigError
  check_protocol_version (negsuc n) = some protocol_version_negative
  check_protocol_version (pos n) = fails (not (n == 0 || n == 3)) protocol_version_unsupported

  -- `ValidateConfigVersion`
  unfoldable pub validate_config_version : Config → Option ConfigError
  unfolding unparsed not_in_order
  validate_config_version cfg =
      let minimum = cfg.compatibility.min_client_version in
      let maximum = cfg.compatibility.max_client_version in
      check_config_version cfg.config_version
      orelse fails (not (check_min go "3.1.1" cfg.min_server_version)) server_version_too_old
      orelse check_protocol_version cfg.compatibility.protocol_version
      orelse fails (not (is_blank_text minimum) && unparsed minimum) min_client_version_invalid
      orelse fails (not (is_blank_text maximum) && unparsed maximum) max_client_version_invalid
      orelse fails
          (not (is_blank_text minimum)
            && not (is_blank_text maximum)
            && not_in_order (compare go minimum maximum))
          client_version_range

  is_at_loopback : Option (String × ℤ) → Bool
  is_at_loopback none = false
  is_at_loopback (some (host, port)) = is_text host loopback

  unfoldable pub check_monitor : String → Option ConfigError
  unfolding is_at_loopback
  check_monitor addr =
      fails
        (not (is_blank_text addr) && not (is_at_loopback (split_host_port go (trim_space addr))))
        monitor_addr_invalid

  check_target : Option (String × ℤ) → Option ConfigError
  check_target none = some server_target_invalid
  check_target (some (host, port)) =
      fails (not (is_forward_target_host host)) server_target_forbidden

  legacy_port : Option (String × ℤ) → Option ℤ
  legacy_port none = none
  legacy_port (some (host, port)) = if is_text host loopback then some port else none

  -- The port of a reverse forward.
  unfoldable pub reverse_port : ForwardConfig → Option ℤ
  unfolding legacy_port
  reverse_port fwd =
      if is_positive fwd.listen_port
      then some fwd.listen_port
      else legacy_port (split_host_port go fwd.listen_addr)

  check_reverse_port : ForwardConfig → Option ℤ → Option ConfigError × ℤ
  unfolding is_at_loopback
  check_reverse_port fwd none = (some listen_port_missing, pos 0)
  check_reverse_port fwd (some port) = (
    fails (not (port_in_range port)) listen_port_out_of_range
        orelse fails
            (not (is_blank_text fwd.listen_addr)
              && not (is_at_loopback (split_host_port go fwd.listen_addr)))
            listen_addr_invalid,
    port,
  )

  -- The switch on the direction, with `reversePort`.
  unfoldable pub check_direction : ForwardConfig → Option ConfigError × ℤ
  unfolding check_target check_reverse_port
  check_direction fwd =
      if is_text (direction_of fwd) client_to_server
      then (check_target (split_host_port go fwd.server_target), pos 0)
      else if is_text (direction_of fwd) server_to_client
      then if reverse_listen_fields_ok go fwd
        then check_reverse_port fwd (reverse_port fwd)
        else (some listen_fields_invalid, pos 0)
      else (some direction_unsupported, pos 0)

  -- The users of one forward, with the set of them.
  unfoldable pub check_forward_users : Names → ForwardConfig → Option ConfigError
  check_forward_users users fwd =
      let (error, allowed) = check_allowed users fwd.allowed_users [] in
      error
      orelse fails (length allowed == 0) no_allowed_users
      orelse fails (is_reverse fwd && not (length allowed == 1)) reverse_users_not_one

  -- The loop over the forwards; `ports` are the keys of `seenReversePorts`.
  unfoldable pub check_forwards : Names → List ForwardConfig → List ℤ → Option ConfigError
  check_forwards users [] ports = none
  check_forwards users (fwd ∷ rest) ports =
      let (error, port) = check_direction fwd in
      let after_reverse = check_forwards users rest (port ∷ ports) in
      let after = check_forwards users rest ports in
      error
      orelse check_forward_users users fwd
      orelse (if is_reverse fwd
          then fails (taken port ports) reverse_port_duplicate orelse after_reverse
          else after)

  -- The loop over the keys.
  unfoldable pub check_keys : List CredentialSealKeyConfig → Names → Option ConfigError
  check_keys [] ids = none
  check_keys (key ∷ keys) ids =
      let id = trim_space key.key_id in
      let rest = check_keys keys (with_name id ids) in
      fails (is_empty id) key_id_missing
      orelse fails (known id ids) key_duplicate
      orelse fails (is_blank_text key.private_key_file || is_blank_text key.public_key_file)
          key_files_missing
      orelse fails (is_blank_text key.expires_at) expires_missing
      orelse fails (not (go.is_rfc3339 (trim_space key.expires_at))) expires_invalid
      orelse rest

  -- The part of `ValidateConfig` that reads the users.
  unfoldable pub check_accounts : Config → Option ConfigError
  check_accounts cfg =
      let (error, users) = check_users cfg.users [] in
      error orelse check_forwards users cfg.forwards []

  -- `ValidateConfig`
  unfoldable pub validate_config : Config → Option ConfigError
  unfolding check_monitor
  validate_config cfg =
      validate_config_version cfg
      orelse validate_loopback_addresses cfg
      orelse fails (is_blank_text cfg.tls.cert_file || is_blank_text cfg.tls.key_file)
          tls_identity_missing
      orelse check_monitor cfg.monitor_addr
      orelse check_accounts cfg
      orelse check_keys cfg.seal_keys []
      orelse fails (ltb 1 (count_active cfg.seal_keys)) several_active_keys
