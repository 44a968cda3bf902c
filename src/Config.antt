-- ===== src/Config.antt =====
-- src/server/tunnel/config.go and config_addresses.go: the server's configuration, its defaults and
-- its validation. A Go int is a `ℤ`: `pos n` is n, and
-- `negsuc n` is -(n + 1).
pub mod Accepted
pub mod Defaults
pub mod Forwards
pub mod Validation
pub mod Version
use lsyl_tunnel.Base.{
  ℕ, ◌+◌, ◌-◌, ◌*◌, ◌≤◌, ◌<◌, ◌≡◌, ◌≢◌, refl, ap, ◌∙◌, String, Bool, true, false, not, ◌&&◌, ◌||◌,
  Option, none, some, List, [], ◌∷◌, map, ite, ltb, leb, ◌==◌, if◌then◌else◌, String_discrete,
  trim_space, arith,
}

pub data ℤ : Type 0 where
  pos : ℕ → ℤ
  negsuc : ℕ → ℤ

-- The functions of Go's library that the validation calls. `split_host_port` is `net.SplitHostPort`,
-- `is_loopback_ip` is `netip.ParseAddr` followed by `Unmap` and `IsLoopback`, `is_private_ip` is
-- `net.ParseIP` followed by `IsPrivate` (both `false` for what is no address), and `is_rfc3339` is
-- whether `time.Parse` takes the text. The others have their Go names.
pub record GoLibrary : Type 0 where
  pub split_host_port : String → Option (String × String)
  pub join_host_port : String → String → String
  pub atoi : String → Option ℤ
  pub itoa : ℤ → String
  pub trim_brackets : String → String
  pub to_lower : String → String
  pub trim_prefix : String → String → String
  pub trim_suffix : String → String → String
  pub has_suffix : String → String → Bool
  pub split : String → String → List String
  pub is_loopback_ip : String → Bool
  pub is_private_ip : String → Bool
  pub is_rfc3339 : String → Bool

pub record CompatibilityConfig : Type 0 where
  pub min_client_version : String
  pub max_client_version : String
  pub protocol_version : ℤ

pub record TlsConfig : Type 0 where
  pub cert_file : String
  pub key_file : String
  pub min_version : String

pub record SecurityConfig : Type 0 where
  pub handshake_timeout_sec : ℤ
  pub dial_timeout_sec : ℤ
  pub max_handshake_bytes : ℤ
  pub max_concurrent_connections : ℤ
  pub max_concurrent_connections_per_ip : ℤ
  pub connection_rate_window_sec : ℤ
  pub max_new_connections_per_ip_window : ℤ
  pub max_connections_per_ip_per_window : ℤ
  pub max_tracked_connection_ips : ℤ
  pub connection_limiter_cleanup_sec : ℤ
  pub max_tracked_failure_ips : ℤ
  pub failure_tracker_cleanup_sec : ℤ
  pub entry_traffic_log_queue_size : ℤ
  pub max_concurrent_streams_per_user : ℤ
  pub stream_rate_limit_bytes_per_sec : ℤ
  pub auth_fail_window_sec : ℤ
  pub auth_fail_threshold : ℤ
  pub auth_fail_block_sec : ℤ

pub record CredentialSealKeyConfig : Type 0 where
  pub key_id : String
  pub private_key_file : String
  pub public_key_file : String
  pub expires_at : String
  pub active : Bool

pub record ForwardConfig : Type 0 where
  pub name : String
  pub direction : String
  pub listen_port : ℤ
  pub listen_addr : String
  pub server_target : String
  pub allowed_users : List String

pub record UserConfig : Type 0 where
  pub username : String
  pub password_hash : String
  pub disabled : Bool

-- `Config` with the paths of `RuntimeConfig` left out; `recent_events` and `min_server_version`
-- stand in it directly.
pub record Config : Type 0 where
  pub config_version : ℤ
  pub min_server_version : String
  pub compatibility : CompatibilityConfig
  pub listen_addr : String
  pub monitor_addr : String
  pub tls : TlsConfig
  pub users : List UserConfig
  pub forwards : List ForwardConfig
  pub security : SecurityConfig
  pub seal_keys : List CredentialSealKeyConfig
  pub recent_events : ℤ

abbrev pub client_to_server : String
client_to_server = "client_to_server"

abbrev pub server_to_client : String
server_to_client = "server_to_client"

-- `x == ""` and `strings.TrimSpace(x) == ""`
abbrev pub is_empty : String → Bool
is_empty x = ite (String_discrete x "") true false

abbrev pub is_blank_text : String → Bool
is_blank_text x = ite (String_discrete (trim_space x) "") true false

abbrev pub is_zero : ℤ → Bool
is_zero (pos n) = n == 0
is_zero (negsuc n) = false

abbrev pub is_positive : ℤ → Bool
is_positive (pos n) = ltb 0 n
is_positive (negsuc n) = false

abbrev pub is_text : String → String → Bool
is_text a b = ite (String_discrete a b) true false

-- `if x <= 0 { x = d }`
unfoldable pub or_default : ℕ → ℤ → ℤ
or_default d x = if is_positive x then x else pos d

-- The new name of `max_connections_per_ip_per_window` takes its value where only the old one is set.
unfoldable pub new_connections_limit : SecurityConfig → ℤ
new_connections_limit s = or_default 120 (
    if not (is_positive s.max_new_connections_per_ip_window)
      && is_positive s.max_connections_per_ip_per_window
    then s.max_connections_per_ip_per_window
    else s.max_new_connections_per_ip_window)

unfoldable pub security_defaults : SecurityConfig → SecurityConfig
security_defaults s = record {
  handshake_timeout_sec = or_default 8 s.handshake_timeout_sec;
  dial_timeout_sec = or_default 5 s.dial_timeout_sec;
  max_handshake_bytes = or_default 32768 s.max_handshake_bytes;
  max_concurrent_connections = or_default 2048 s.max_concurrent_connections;
  max_concurrent_connections_per_ip = or_default 128 s.max_concurrent_connections_per_ip;
  connection_rate_window_sec = or_default 1 s.connection_rate_window_sec;
  max_new_connections_per_ip_window = new_connections_limit s;
  max_connections_per_ip_per_window = pos 0;
  max_tracked_connection_ips = or_default 8192 s.max_tracked_connection_ips;
  connection_limiter_cleanup_sec = or_default 60 s.connection_limiter_cleanup_sec;
  max_tracked_failure_ips = or_default 8192 s.max_tracked_failure_ips;
  failure_tracker_cleanup_sec = or_default 60 s.failure_tracker_cleanup_sec;
  entry_traffic_log_queue_size = or_default 2048 s.entry_traffic_log_queue_size;
  max_concurrent_streams_per_user = s.max_concurrent_streams_per_user;
  stream_rate_limit_bytes_per_sec = s.stream_rate_limit_bytes_per_sec;
  auth_fail_window_sec = or_default 300 s.auth_fail_window_sec;
  auth_fail_threshold = or_default 8 s.auth_fail_threshold;
  auth_fail_block_sec = or_default 1800 s.auth_fail_block_sec;
}

unfoldable pub text_default : Bool → String → String → String
text_default missing d x = if missing then d else x

-- `ApplyDefaults`; `normalize` is its loop's body on one forward.
unfoldable pub apply_defaults : (ForwardConfig → ForwardConfig) → Config → Config
apply_defaults normalize cfg = record cfg {
  config_version = if is_zero cfg.config_version then pos 1 else cfg.config_version;
  min_server_version =
      text_default (is_blank_text cfg.min_server_version) "2.0.0" cfg.min_server_version;
  compatibility = record cfg.compatibility {
    protocol_version =
        if is_zero cfg.compatibility.protocol_version
        then pos 3
        else cfg.compatibility.protocol_version;
    min_client_version =
        text_default (is_blank_text cfg.compatibility.min_client_version) "3.0.0"
          cfg.compatibility.min_client_version;
  };
  listen_addr = text_default (is_empty cfg.listen_addr) "0.0.0.0:3443" cfg.listen_addr;
  tls = record cfg.tls {
    min_version = text_default (is_empty cfg.tls.min_version) "1.3" cfg.tls.min_version;
  };
  forwards = map normalize cfg.forwards;
  security = security_defaults cfg.security;
  recent_events = or_default 500 cfg.recent_events;
}
