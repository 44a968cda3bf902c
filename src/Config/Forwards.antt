-- ===== src/Config/Forwards.antt =====
-- The listen port of a reverse forward: `validateReverseListenFields` of
-- src/server/tunnel/config_addresses.go, `normalizeReverseListenPort` and `configForSave` of
-- src/server/tunnel/config.go, and `splitHostPort` of src/server/tunnel/address.go.
use lsyl_tunnel.Base.{
  String, Bool, true, false, not, ◌&&◌, ◌||◌, Option, none, some, map, ltb, leb, ◌==◌,
  if◌then◌else◌, trim_space,
}
use lsyl_tunnel.Config.{
  ℤ, pos, negsuc, GoLibrary, is_text, ForwardConfig, Config, client_to_server, server_to_client,
  is_empty, is_blank_text, is_zero, is_positive,
}

abbrev pub loopback : String
loopback = "127.0.0.1"

unfoldable pub port_in_range : ℤ → Bool
port_in_range (negsuc n) = false
port_in_range (pos n) = ltb 0 n && leb n 65535

abbrev pub eq_int : ℤ → ℤ → Bool
eq_int (pos a) (pos b) = a == b
eq_int (negsuc a) (negsuc b) = a == b
eq_int (pos a) (negsuc b) = false
eq_int (negsuc a) (pos b) = false

module _ (go : GoLibrary) where
  checked_port : String → Option ℤ → Option (String × ℤ)
  checked_port host none = none
  checked_port host (some port) =
      if port_in_range port then some (go.trim_brackets host, port) else none

  -- `splitHostPort`
  unfoldable pub split_host_port : String → Option (String × ℤ)
  unfolding checked_port
  split_host_port target = elim (go.split_host_port (trim_space target)) [
    | none ↦ none
    | some (host, port) ↦ checked_port host (go.atoi port)
  ]

  -- `true` where the function returns no error.
  listen_addr_agrees : ℤ → Option (String × ℤ) → Bool
  listen_addr_agrees listen_port none = false
  listen_addr_agrees listen_port (some (host, port)) =
      is_text host loopback && (is_zero listen_port || eq_int listen_port port)

  unfoldable pub reverse_listen_fields_ok : ForwardConfig → Bool
  unfolding listen_addr_agrees
  reverse_listen_fields_ok fwd =
      if not (is_text (trim_space fwd.direction) server_to_client)
      then true
      else if not (is_zero fwd.listen_port || port_in_range fwd.listen_port)
      then false
      else if is_blank_text fwd.listen_addr
      then true
      else listen_addr_agrees fwd.listen_port (split_host_port fwd.listen_addr)

  port_or_zero : Option (String × ℤ) → ℤ
  port_or_zero none = pos 0
  port_or_zero (some (host, port)) = port

  -- The port that a forward listens on once the older field is read.
  unfoldable pub effective_port : ForwardConfig → ℤ
  unfolding port_or_zero
  effective_port fwd =
      if is_zero fwd.listen_port && not (is_blank_text fwd.listen_addr)
      then port_or_zero (split_host_port fwd.listen_addr)
      else fwd.listen_port

  unfoldable pub set_listen : ℤ → ForwardConfig → ForwardConfig
  set_listen port fwd =
      if port_in_range port
      then record fwd {
        listen_port = port;
        listen_addr = go.join_host_port loopback (go.itoa port);
      }
      else record fwd { listen_port = port }

  -- `normalizeReverseListenPort`
  unfoldable pub normalize_reverse_listen_port : ForwardConfig → ForwardConfig
  normalize_reverse_listen_port fwd =
      if not (is_text fwd.direction server_to_client)
      then fwd
      else if not (reverse_listen_fields_ok fwd)
      then fwd
      else set_listen (effective_port fwd) fwd

  -- The body of the loop of `ApplyDefaults` over the forwards.
  unfoldable pub normalize_forward : ForwardConfig → ForwardConfig
  normalize_forward fwd =
      let direction = trim_space fwd.direction in
      normalize_reverse_listen_port
        (record fwd { direction = if is_empty direction then client_to_server else direction })

  unfoldable pub forward_for_save : ForwardConfig → ForwardConfig
  forward_for_save fwd =
      if is_text fwd.direction server_to_client && is_positive fwd.listen_port
      then record fwd { listen_addr = "" }
      else fwd

  -- `configForSave`
  unfoldable pub config_for_save : Config → Config
  config_for_save cfg = record cfg { forwards = map forward_for_save cfg.forwards }
