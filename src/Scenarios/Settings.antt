-- ===== src/Scenarios/Settings.antt =====
-- Configurations, versions and counters on small inputs.
use lsyl_tunnel.Base.{
  ◌≤◌, ◌≡◌, ◌≢◌, refl, String, Bool, true, false, some, none, [], ◌∷◌, All, map, if◌then◌else◌,
  find, put, String_discrete, arith, trim_space,
}
use lsyl_tunnel.Config.{pos, negsuc, GoLibrary, Config, SecurityConfig, apply_defaults, is_positive}
use lsyl_tunnel.Config.Forwards.{split_host_port, port_in_range, reverse_listen_fields_ok}
use lsyl_tunnel.Config.Validation.{
  validate_config, validate_config_version, validate_loopback_addresses, check_accounts,
  check_users, check_allowed, check_forwards, check_forward_users, check_direction, check_keys,
  check_monitor, check_loopback_endpoint, check_loopback_host, check_forward_addresses,
  check_config_version, check_protocol_version, reverse_port, count_active,
}
use lsyl_tunnel.Config.Accepted.Accounts.{Distinct, user_name}
use lsyl_tunnel.Config.Accepted.Ports.{AllowedKnown, reverse_ports}
use lsyl_tunnel.Config.Accepted.{accepted}
use lsyl_tunnel.Config.Defaults.{defaults_positive}
use lsyl_tunnel.Config.Version.{Version, compare, parse, check_min}
use lsyl_tunnel.Counters.{ConnectionCounters, EntryCounters, http_probe, oversized_handshake}
use lsyl_tunnel.Counters.Classify.{
  classify_entry_read_error, classify_tls_text, has_http_method, oversized_probe,
}

abbrev no_rejections : ConnectionCounters
no_rejections = record {
  rejected = 0;
  rejected_global = 0;
  rejected_per_ip_active = 0;
  rejected_per_ip_new_rate = 0;
  rejected_ip_capacity = 0;
}

abbrev pub no_probes : EntryCounters
no_probes = record {
  protocol_rejected = 0;
  http_probe_rejected = 0;
  non_tls_rejected = 0;
  unsupported_tls_rejected = 0;
  slow_handshake_rejected = 0;
  closed_handshake_rejected = 0;
  oversized_handshake_rejected = 0;
  unsupported_request_rejected = 0;
  invalid_handshake_rejected = 0;
}

abbrev version_3_0 : Version
version_3_0 = record { major = 3; minor = 0; patch = 0 }

abbrev version_3_1 : Version
version_3_1 = record { major = 3; minor = 1; patch = 1 }

abbrev pub unset_security : SecurityConfig
unset_security = record {
  handshake_timeout_sec = pos 0;
  dial_timeout_sec = pos 0;
  max_handshake_bytes = pos 0;
  max_concurrent_connections = negsuc 4;
  max_concurrent_connections_per_ip = pos 7;
  connection_rate_window_sec = pos 0;
  max_new_connections_per_ip_window = pos 0;
  max_connections_per_ip_per_window = pos 9;
  max_tracked_connection_ips = pos 0;
  connection_limiter_cleanup_sec = pos 0;
  max_tracked_failure_ips = pos 0;
  failure_tracker_cleanup_sec = pos 0;
  entry_traffic_log_queue_size = pos 0;
  max_concurrent_streams_per_user = pos 0;
  stream_rate_limit_bytes_per_sec = pos 0;
  auth_fail_window_sec = pos 0;
  auth_fail_threshold = pos 0;
  auth_fail_block_sec = pos 0;
}

-- The library on the texts that `small_config` has.
abbrev pub small_go : GoLibrary
small_go = record {
  split_host_port = λ addr. none;
  join_host_port = λ host port. host;
  atoi = λ text. some (pos 80);
  itoa = λ n. "80";
  trim_brackets = λ text. text;
  to_lower = λ text. text;
  trim_prefix = λ text prefix. text;
  trim_suffix = λ text suffix. text;
  has_suffix = λ text suffix. false;
  split = λ text separator. "3" ∷ "0" ∷ "0" ∷ [];
  is_loopback_ip = λ text. false;
  is_private_ip = λ text. false;
  is_rfc3339 = λ text. true;
}

abbrev pub small_config : Config
small_config = record {
  config_version = pos 1;
  min_server_version = "";
  compatibility = record {
    min_client_version = "";
    max_client_version = "";
    protocol_version = pos 3;
  };
  listen_addr = "0.0.0.0";
  monitor_addr = "";
  tls = record { cert_file = "a"; key_file = "b"; min_version = "1.3" };
  users = record { username = "ann"; password_hash = "h"; disabled = false } ∷ [];
  forwards =
      record {
        name = "web";
        direction = "server_to_client";
        listen_port = pos 8080;
        listen_addr = "";
        server_target = "";
        allowed_users = "ann" ∷ [];
      }
      ∷ [];
  security = unset_security;
  seal_keys = [];
  recent_events = pos 0;
}

pub small_accepted : validate_config small_go small_config ≡ none
unfolding validate_config validate_config_version validate_loopback_addresses check_accounts
    check_users check_allowed check_forwards check_forward_users check_direction check_keys
    check_monitor check_loopback_endpoint check_loopback_host check_forward_addresses
    check_config_version check_protocol_version check_min compare parse reverse_listen_fields_ok
    port_in_range reverse_port split_host_port find put String_discrete trim_space
small_accepted = refl

accepted_example :
    All (λ user. user_name user ≢ "") small_config.users
    × Distinct (map user_name small_config.users)
    × Distinct (reverse_ports small_go small_config.forwards)
    × All (AllowedKnown small_go small_config.users) small_config.forwards
    × (count_active small_config.seal_keys ≤ 1)
accepted_example = accepted small_go small_config small_accepted

defaults_positive_example :
    let s = (apply_defaults (λ fwd. fwd) small_config).security in
    (is_positive s.handshake_timeout_sec ≡ true)
    × (is_positive s.dial_timeout_sec ≡ true)
    × (is_positive s.max_handshake_bytes ≡ true)
    × (is_positive s.max_concurrent_connections ≡ true)
    × (is_positive s.max_concurrent_connections_per_ip ≡ true)
    × (is_positive s.connection_rate_window_sec ≡ true)
    × (is_positive s.max_new_connections_per_ip_window ≡ true)
    × (is_positive s.max_tracked_connection_ips ≡ true)
    × (is_positive s.connection_limiter_cleanup_sec ≡ true)
    × (is_positive s.max_tracked_failure_ips ≡ true)
    × (is_positive s.failure_tracker_cleanup_sec ≡ true)
    × (is_positive s.entry_traffic_log_queue_size ≡ true)
    × (is_positive s.auth_fail_window_sec ≡ true)
    × (is_positive s.auth_fail_threshold ≡ true)
    × (is_positive s.auth_fail_block_sec ≡ true)
defaults_positive_example = defaults_positive (λ fwd. fwd) small_config

abbrev mentions_size : String → String → Bool
mentions_size text part = elim (String_discrete part "handshake too large:") [
  | yes _ ↦ true
  | no _ ↦ false
]

-- "POST" read as a length.
oversized_probe_example :
    classify_entry_read_error mentions_size
      (λ bytes. bytes)
      (some "handshake too large: 1347375956 bytes")
    ≡ (if has_http_method mentions_size (λ bytes. bytes) (80 ∷ 79 ∷ 83 ∷ 84 ∷ [])
        then http_probe
        else oversized_handshake)
unfolding classify_tls_text String_discrete
oversized_probe_example =
    oversized_probe mentions_size (λ bytes. bytes) "1" "347375956" 80 79 83 84 (omega arith)
      (omega arith) (omega arith) (omega arith)
      (refl, (refl, (refl, (refl, (refl, (refl, (refl, (refl, (refl, (refl, tt)))))))))) refl refl
      refl refl
