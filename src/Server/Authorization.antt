-- ===== src/Server/Authorization.antt =====
-- src/server/tunnel/authorization.go: whether a user may open a target or activate a reverse listener,
-- with `normalizeTarget` of address.go and the set of configured reverse listeners of
-- configured_forwards.go. `none` is Go's `nil` error.
pub mod Targets
pub mod Reverse
use lsyl_tunnel.Base.{
  String, Bool, true, false, not, ◌&&◌, ◌||◌, Option, none, some, List, [], ◌∷◌, if◌then◌else◌,
  trim_space,
}
use lsyl_tunnel.Config.{
  ℤ, GoLibrary, ForwardConfig, UserConfig, client_to_server, server_to_client, is_empty,
  is_blank_text, is_text,
}
use lsyl_tunnel.Config.Forwards.{loopback, port_in_range, split_host_port}
use lsyl_tunnel.Config.Validation.{Names, known, with_name, direction_of, is_forward_target_host}
use lsyl_tunnel.Protocol.{OpenRequest}

pub data AuthorizeError : Type 0 where
  direction_invalid target_invalid target_forbidden user_denied : AuthorizeError
  listen_addr_missing listen_not_configured listen_denied : AuthorizeError

-- `allowedUser`
unfoldable pub allowed_user : List String → String → Bool
allowed_user [] username = false
allowed_user (user ∷ users) username =
    if is_text (trim_space user) username then true else allowed_user users username

module _ (go : GoLibrary) where
  -- `normalizeTarget`
  unfoldable pub normalize_target : String → String
  normalize_target target = elim (go.split_host_port (trim_space target)) [
    | none ↦ go.to_lower (trim_space target)
    | some (host, port) ↦ go.join_host_port (go.to_lower (go.trim_brackets host)) port
  ]

  -- The loop of `allowedConfiguredForward`, for a trimmed user name and a normalized target.
  unfoldable pub find_forward : String → String → List ForwardConfig → Option ForwardConfig
  find_forward username target [] = none
  find_forward username target (fwd ∷ fwds) =
      let rest = find_forward username target fwds in
      let forward_target = trim_space fwd.server_target in
      if not (is_text (direction_of fwd) client_to_server)
      then rest
      else if not (allowed_user fwd.allowed_users username)
      then rest
      else if not (is_empty forward_target) && is_text (normalize_target forward_target) target
      then some fwd
      else rest

  -- `allowedConfiguredForward`
  unfoldable pub allowed_configured_forward :
      List ForwardConfig → String → String → Option ForwardConfig
  allowed_configured_forward fwds username target =
      let name = trim_space username in
      if is_empty name then none else find_forward name (normalize_target target) fwds

  unfoldable pub check_forward : String → Option ForwardConfig → Option AuthorizeError
  check_forward host none = some user_denied
  check_forward host (some fwd) =
      if is_forward_target_host go host then none else some target_forbidden

  -- `authorizeTarget`
  unfoldable pub authorize_target : List ForwardConfig → UserConfig → String → Option AuthorizeError
  unfolding check_forward
  authorize_target fwds user target = elim (split_host_port go target) [
    | none ↦ some target_invalid
    | some (host, port) ↦ check_forward host (allowed_configured_forward fwds user.username target)
  ]

  -- `authorizeOpen`
  unfoldable pub authorize_open :
      List ForwardConfig → UserConfig → OpenRequest → Option AuthorizeError
  authorize_open fwds user req =
      let direction = trim_space req.direction in
      if not (is_empty direction) && not (is_text direction client_to_server)
      then some direction_invalid
      else authorize_target fwds user req.target

  -- `configuredReverseListenAddr`
  unfoldable pub configured_reverse_listen_addr : ForwardConfig → String
  configured_reverse_listen_addr fwd =
      let addr = trim_space fwd.listen_addr in
      if not (is_empty addr)
      then addr
      else if port_in_range fwd.listen_port
      then go.join_host_port loopback (go.itoa fwd.listen_port)
      else ""

  -- Whether the loop of `authorizeReverse` stops at `fwd`.
  unfoldable pub listens_on : String → ForwardConfig → Bool
  listens_on listen_addr fwd =
      let configured = configured_reverse_listen_addr fwd in
      is_text (trim_space fwd.direction) server_to_client
      && not (is_empty configured)
      && is_text (normalize_target configured) listen_addr

  -- The loop of `authorizeReverse`: the first forward that listens on the address decides.
  unfoldable pub reverse_allowed : String → String → List ForwardConfig → Bool
  reverse_allowed username listen_addr [] = false
  reverse_allowed username listen_addr (fwd ∷ fwds) =
      let rest = reverse_allowed username listen_addr fwds in
      if listens_on listen_addr fwd then allowed_user fwd.allowed_users username else rest

  -- `authorizeReverse`
  unfoldable pub authorize_reverse :
      List ForwardConfig → UserConfig → String → Option AuthorizeError
  authorize_reverse fwds user listen_addr =
      if reverse_allowed (trim_space user.username) (normalize_target listen_addr) fwds
      then none
      else some listen_denied

  -- `markConfiguredReverseListener` and `isConfiguredReverseListener`; the set is
  -- `configuredReverse`.
  unfoldable pub mark_configured : String → Names → Names
  mark_configured addr configured = with_name (normalize_target addr) configured

  unfoldable pub is_configured : String → Names → Bool
  is_configured addr configured = known (normalize_target addr) configured

  mark_at : String → Option (String × ℤ) → Names → Names
  mark_at addr none configured = configured
  mark_at addr (some (host, port)) configured =
      if is_text host loopback then mark_configured addr configured else configured

  -- `prepareConfiguredForwards`, less its log lines.
  unfoldable pub prepare_configured_forwards : List ForwardConfig → Names → Names
  unfolding mark_at
  prepare_configured_forwards [] configured = configured
  prepare_configured_forwards (fwd ∷ fwds) configured =
      let listen_addr = trim_space fwd.listen_addr in
      let marked = mark_at listen_addr (split_host_port go listen_addr) configured in
      prepare_configured_forwards fwds (
        if not (is_text (trim_space fwd.direction) server_to_client)
        then configured
        else if is_empty listen_addr
        then configured
        else marked)

  -- `authorizeForwardCheck`
  unfoldable pub authorize_forward_check :
      List ForwardConfig → Names → UserConfig → OpenRequest → Option AuthorizeError
  authorize_forward_check fwds configured user req =
      let direction = trim_space req.direction in
      let listen_addr = trim_space req.listen_addr in
      if is_empty direction || is_text direction client_to_server
      then authorize_target fwds user req.target
      else if not (is_text direction server_to_client)
      then some direction_invalid
      else if is_empty listen_addr
      then some listen_addr_missing
      else if not (is_configured listen_addr configured)
      then some listen_not_configured
      else authorize_reverse fwds user listen_addr
