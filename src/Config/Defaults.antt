-- ===== src/Config/Defaults.antt =====
-- What `ApplyDefaults` of src/server/tunnel/config.go makes of the limits.
use lsyl_tunnel.Base.{
  ◌≡◌, refl, ap, ◌∙◌, inl, inr, ℕ, Bool, true, false, not, ◌&&◌, if◌then◌else◌, if_true, if_false,
  Bool-cases, arith, ◌<◌,
}
use lsyl_tunnel.Config.{
  ℤ, pos, ForwardConfig, Config, SecurityConfig, is_positive, or_default, new_connections_limit,
  security_defaults, apply_defaults,
}

or_default-positive : (d : ℕ) (x : ℤ) → 0 < d → is_positive (or_default d x) ≡ true
unfolding or_default
or_default-positive d x h = elim (Bool-cases (is_positive x)) [
  | inl e ↦ ap is_positive (if_true x (pos d) e) ∙ e
  | inr e ↦ ap is_positive (if_false x (pos d) e) ∙ ground arith
]

or_default_kept : (d : ℕ) (x : ℤ) → is_positive x ≡ true → or_default d x ≡ x
unfolding or_default
or_default_kept d x e = if_true x (pos d) e

limit-positive : (s : SecurityConfig) → is_positive (new_connections_limit s) ≡ true
unfolding new_connections_limit
limit-positive s = or_default-positive 120 _ (omega arith)

-- After `ApplyDefaults` every number of the security settings that the connection limiter, the failure
-- tracker, the traffic writer, the handshakes and the dialing read is positive, whatever the file had
-- for it. The limits of streams and rates, where 0 means no limit, are not among them.
pub defaults_positive :
    (normalize : ForwardConfig → ForwardConfig) (cfg : Config)
    → let s = (apply_defaults normalize cfg).security in
      (is_positive s.handshake_timeout_sec ≡ true)
      × (is_positive s.dial_timeout_sec ≡ true)
      × (is_positive s.max_handshake_bytes ≡ true)
      × (is_positive s.max_concurrent_connections ≡ true)
      × (is_positive s.max_concurrent_connections_per_ip ≡ true)
      × (is_positive s.connection_rate_window_sec ≡ true)
      × (is_positive s.max_new_connections_per_ip_window ≡ true)
      × (is_positive s.max_tracked_connection_ips ≡ true)
      × (is_positive s.connection_limiter_cleanup_sec ≡ true)
      × (is_positive s.max_tracked_failure_ips ≡ true)
      × (is_positive s.failure_tracker_cleanup_sec ≡ true)
      × (is_positive s.entry_traffic_log_queue_size ≡ true)
      × (is_positive s.auth_fail_window_sec ≡ true)
      × (is_positive s.auth_fail_threshold ≡ true)
      × (is_positive s.auth_fail_block_sec ≡ true)
unfolding apply_defaults security_defaults
defaults_positive normalize cfg = (
  or_default-positive 8 cfg.security.handshake_timeout_sec (omega arith),
  or_default-positive 5 cfg.security.dial_timeout_sec (omega arith),
  or_default-positive 32768 cfg.security.max_handshake_bytes (omega arith),
  or_default-positive 2048 cfg.security.max_concurrent_connections (omega arith),
  or_default-positive 128 cfg.security.max_concurrent_connections_per_ip (omega arith),
  or_default-positive 1 cfg.security.connection_rate_window_sec (omega arith),
  limit-positive cfg.security,
  or_default-positive 8192 cfg.security.max_tracked_connection_ips (omega arith),
  or_default-positive 60 cfg.security.connection_limiter_cleanup_sec (omega arith),
  or_default-positive 8192 cfg.security.max_tracked_failure_ips (omega arith),
  or_default-positive 60 cfg.security.failure_tracker_cleanup_sec (omega arith),
  or_default-positive 2048 cfg.security.entry_traffic_log_queue_size (omega arith),
  or_default-positive 300 cfg.security.auth_fail_window_sec (omega arith),
  or_default-positive 8 cfg.security.auth_fail_threshold (omega arith),
  or_default-positive 1800 cfg.security.auth_fail_block_sec (omega arith),
)

or_default_twice : (d : ℕ) (x : ℤ) → 0 < d → or_default d (or_default d x) ≡ or_default d x
or_default_twice d x h = or_default_kept d (or_default d x) (or_default-positive d x h)

new_limit_twice :
    (s : SecurityConfig) → new_connections_limit (security_defaults s) ≡ new_connections_limit s
unfolding security_defaults new_connections_limit
new_limit_twice s =
    ap (or_default 120)
      (no_old (not (is_positive (new_connections_limit s))) (new_connections_limit s))
    ∙ or_default_kept 120 (new_connections_limit s) (limit-positive s)
  where
    no_old : (b : Bool) (x : ℤ) → (if b && is_positive (pos 0) then pos 0 else x) ≡ x
    no_old true x = refl
    no_old false x = refl

-- Setting the defaults of the limits a second time changes nothing, so that a configuration that was
-- saved and read again has the limits that were saved.
pub defaults_settle :
    (s : SecurityConfig) → security_defaults (security_defaults s) ≡ security_defaults s
unfolding security_defaults
defaults_settle s = cc (
  or_default_twice 8 s.handshake_timeout_sec (omega arith),
  or_default_twice 5 s.dial_timeout_sec (omega arith),
  or_default_twice 32768 s.max_handshake_bytes (omega arith),
  or_default_twice 2048 s.max_concurrent_connections (omega arith),
  or_default_twice 128 s.max_concurrent_connections_per_ip (omega arith),
  or_default_twice 1 s.connection_rate_window_sec (omega arith),
  new_limit_twice s,
  or_default_twice 8192 s.max_tracked_connection_ips (omega arith),
  or_default_twice 60 s.connection_limiter_cleanup_sec (omega arith),
  or_default_twice 8192 s.max_tracked_failure_ips (omega arith),
  or_default_twice 60 s.failure_tracker_cleanup_sec (omega arith),
  or_default_twice 2048 s.entry_traffic_log_queue_size (omega arith),
  or_default_twice 300 s.auth_fail_window_sec (omega arith),
  or_default_twice 8 s.auth_fail_threshold (omega arith),
  or_default_twice 1800 s.auth_fail_block_sec (omega arith),
)
