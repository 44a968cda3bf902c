-- ===== src/Counters.antt =====
-- The counters of what the server turns away: `recordConnectionRejected` and `connectionRejectLimit`
-- of src/server/tunnel/maintenance.go, and `countEntryProtocolRejected` of
-- src/server/tunnel/entry_security.go. The atomic counters are numbers without a bound. The texts
-- that stand for reasons and codes are the constructors of `Reason` and `EntryCode`.
pub mod Announced
pub mod Classify
pub mod Peek
use lsyl_tunnel.Base.{ℕ, ◌+◌, ◌≡◌, refl, ◌∙◌, List, [], ◌∷◌, arith, length}
use lsyl_tunnel.ConnectionLimiter.{
  Reason, LimitConfig, global_concurrent_connections, tracked_remote_ip_capacity,
  per_ip_concurrent_connections, per_ip_new_connection_rate,
}

pub record ConnectionCounters : Type 0 where
  pub rejected : ℕ
  pub rejected_global : ℕ
  pub rejected_per_ip_active : ℕ
  pub rejected_per_ip_new_rate : ℕ
  pub rejected_ip_capacity : ℕ

unfoldable pub record_connection_rejected : Reason → ConnectionCounters → ConnectionCounters
record_connection_rejected global_concurrent_connections c = record c {
  rejected = c.rejected + 1;
  rejected_global = c.rejected_global + 1;
}
record_connection_rejected per_ip_concurrent_connections c = record c {
  rejected = c.rejected + 1;
  rejected_per_ip_active = c.rejected_per_ip_active + 1;
}
record_connection_rejected per_ip_new_connection_rate c = record c {
  rejected = c.rejected + 1;
  rejected_per_ip_new_rate = c.rejected_per_ip_new_rate + 1;
}
record_connection_rejected tracked_remote_ip_capacity c = record c {
  rejected = c.rejected + 1;
  rejected_ip_capacity = c.rejected_ip_capacity + 1;
}

-- The limit that a log entry names, and the length of its window in seconds.
unfoldable pub connection_reject_limit : LimitConfig → Reason → ℕ × ℕ
connection_reject_limit cfg global_concurrent_connections = (cfg.max_concurrent_connections, 0)
connection_reject_limit cfg per_ip_concurrent_connections =
    (cfg.max_concurrent_connections_per_ip, 0)
connection_reject_limit cfg per_ip_new_connection_rate =
    (cfg.max_new_connections_per_ip_window, cfg.connection_rate_window_sec)
connection_reject_limit cfg tracked_remote_ip_capacity = (cfg.max_tracked_connection_ips, 0)

pub data EntryCode : Type 0 where
  http_probe non_tls_probe unsupported_tls slow_handshake : EntryCode
  closed_handshake oversized_handshake unsupported_request invalid_handshake : EntryCode

pub record EntryCounters : Type 0 where
  pub protocol_rejected : ℕ
  pub http_probe_rejected : ℕ
  pub non_tls_rejected : ℕ
  pub unsupported_tls_rejected : ℕ
  pub slow_handshake_rejected : ℕ
  pub closed_handshake_rejected : ℕ
  pub oversized_handshake_rejected : ℕ
  pub unsupported_request_rejected : ℕ
  pub invalid_handshake_rejected : ℕ

count_code : EntryCode → EntryCounters → EntryCounters
count_code http_probe c = record c { http_probe_rejected = c.http_probe_rejected + 1 }
count_code non_tls_probe c = record c { non_tls_rejected = c.non_tls_rejected + 1 }
count_code unsupported_tls c = record c {
  unsupported_tls_rejected = c.unsupported_tls_rejected + 1;
}
count_code slow_handshake c = record c { slow_handshake_rejected = c.slow_handshake_rejected + 1 }
count_code closed_handshake c = record c {
  closed_handshake_rejected = c.closed_handshake_rejected + 1;
}
count_code oversized_handshake c = record c {
  oversized_handshake_rejected = c.oversized_handshake_rejected + 1;
}
count_code unsupported_request c = record c {
  unsupported_request_rejected = c.unsupported_request_rejected + 1;
}
count_code invalid_handshake c = record c {
  invalid_handshake_rejected = c.invalid_handshake_rejected + 1;
}

unfoldable pub count_entry_protocol_rejected : EntryCode → EntryCounters → EntryCounters
unfolding count_code
count_entry_protocol_rejected code c =
    count_code code (record c { protocol_rejected = c.protocol_rejected + 1 })

abbrev pub reject_all : List Reason → ConnectionCounters → ConnectionCounters
reject_all [] c = c
reject_all (reason ∷ reasons) c = reject_all reasons (record_connection_rejected reason c)

abbrev pub count_codes : List EntryCode → EntryCounters → EntryCounters
count_codes [] c = c
count_codes (code ∷ codes) c = count_codes codes (count_entry_protocol_rejected code c)

abbrev pub by_reason : ConnectionCounters → ℕ
by_reason c =
    c.rejected_global + c.rejected_per_ip_active + c.rejected_per_ip_new_rate
    + c.rejected_ip_capacity

abbrev pub by_code : EntryCounters → ℕ
by_code c =
    c.http_probe_rejected + c.non_tls_rejected + c.unsupported_tls_rejected
    + c.slow_handshake_rejected + c.closed_handshake_rejected + c.oversized_handshake_rejected
    + c.unsupported_request_rejected + c.invalid_handshake_rejected

reject_counts :
    (reason : Reason) (c : ConnectionCounters)
    → ((record_connection_rejected reason c).rejected ≡ c.rejected + 1)
      × (by_reason (record_connection_rejected reason c) ≡ by_reason c + 1)
unfolding record_connection_rejected
reject_counts global_concurrent_connections c = (refl, omega arith)
reject_counts per_ip_concurrent_connections c = (refl, omega arith)
reject_counts per_ip_new_connection_rate c = (refl, omega arith)
reject_counts tracked_remote_ip_capacity c = (refl, omega arith)

-- After any refusals of the connection limiter, the counter of all refusals and the sum of the four
-- counters by reason have both grown by their number.
pub rejections_add_up :
    (reasons : List Reason) (c : ConnectionCounters)
    → ((reject_all reasons c).rejected ≡ c.rejected + length reasons)
      × (by_reason (reject_all reasons c) ≡ by_reason c + length reasons)
rejections_add_up [] c = (omega arith, omega arith)
rejections_add_up (reason ∷ reasons) c =
    let (total, sum) = rejections_add_up reasons (record_connection_rejected reason c) in
    let (one, more) = reject_counts reason c in
    (omega (arith, total, one), omega (arith, sum, more))

code_counts :
    (code : EntryCode) (c : EntryCounters)
    → ((count_entry_protocol_rejected code c).protocol_rejected ≡ c.protocol_rejected + 1)
      × (by_code (count_entry_protocol_rejected code c) ≡ by_code c + 1)
unfolding count_entry_protocol_rejected count_code
code_counts http_probe c = (refl, omega arith)
code_counts non_tls_probe c = (refl, omega arith)
code_counts unsupported_tls c = (refl, omega arith)
code_counts slow_handshake c = (refl, omega arith)
code_counts closed_handshake c = (refl, omega arith)
code_counts oversized_handshake c = (refl, omega arith)
code_counts unsupported_request c = (refl, omega arith)
code_counts invalid_handshake c = (refl, omega arith)

-- After any protocol rejections, the counter of all of them and the sum of the eight counters by code
-- have both grown by their number.
pub protocol_rejections_add_up :
    (codes : List EntryCode) (c : EntryCounters)
    → ((count_codes codes c).protocol_rejected ≡ c.protocol_rejected + length codes)
      × (by_code (count_codes codes c) ≡ by_code c + length codes)
protocol_rejections_add_up [] c = (omega arith, omega arith)
protocol_rejections_add_up (code ∷ codes) c =
    let (total, sum) = protocol_rejections_add_up codes (count_entry_protocol_rejected code c) in
    let (one, more) = code_counts code c in (omega (arith, total, one), omega (arith, sum, more))
