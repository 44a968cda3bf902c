-- ===== src/Scenarios/Serving.antt =====
-- The wire protocol, the authorization, the compatibility of clients and the lifecycle on small inputs.
use lsyl_tunnel.Base.{
  ℕ, ◌+◌, ◌-◌, ◌≡◌, ◌≢◌, ◌↔◌, ◌⊎◌, ◌≤◌, refl, String, true, false, some, none, List, [], ◌∷◌, ◌++◌,
  length, find, put, delete, replicate, keep, refine, older, oldest_from, oldest_idle,
  String_discrete, trim_space, arith,
}
use lsyl_tunnel.Config.{ℤ, pos, GoLibrary, ForwardConfig, UserConfig, CompatibilityConfig}
use lsyl_tunnel.Config.Forwards.{split_host_port, port_in_range}
use lsyl_tunnel.Config.Validation.{is_forward_target_host}
use lsyl_tunnel.Config.Version.{Version, Before, parse}
use lsyl_tunnel.ConnectionLimiter.{
  acquire, new_connection_limiter, is_full, refresh, admit_tracked, admit, track_state,
  insert_fresh, evict, clean_if_full, cleanup_all, prune, store_or_drop, is_spent, is_full_per_ip,
  is_over_rate, open_connection, refuse, ip_or_unknown,
}
use lsyl_tunnel.ConnectionLimiter.Leases.{record_reply, start as new_ledger}
use lsyl_tunnel.Scenarios.{small_limits}
use lsyl_tunnel.Protocol.{
  Json, OpenRequest, done, failed, unexpected_eof, write_json, frame, read_json, effective_max,
}
use lsyl_tunnel.Protocol.Framing.{read_json-write_json, read_json_truncated}
use lsyl_tunnel.Counters.Classify.{put_uint32}
use lsyl_tunnel.Scenarios.Settings.{small_go, small_config, small_accepted}
use lsyl_tunnel.Server.Authorization.{
  allowed_user, normalize_target, configured_reverse_listen_addr, listens_on, reverse_allowed,
  authorize_target, authorize_reverse,
}
use lsyl_tunnel.Server.Authorization.Targets.{Any, Serves, authorize_target_lem}
use lsyl_tunnel.Server.Authorization.Reverse.{reverse_listener_owner}
use lsyl_tunnel.Server.Compatibility.{
  Bound, client_version_of, request_protocol, server_protocol, check_request_compatibility,
  check_request_compatibility_lem,
}
use lsyl_tunnel.Server.Lifecycle.{
  remove_id, map_keys, forgets, Event, accepts, closes_conn, worker_starts, worker_ends,
  closes_next, new_lifecycle, run, step, accept_step, accept, after_acquire, track_entry_conn,
  start_handler, handed_over, begin_worker, shut,
}
use lsyl_tunnel.Server.Lifecycle.Tracking.{in_flight, leases_tracked}
use lsyl_tunnel.Server.Lifecycle.Drain.{shut_after, workers_end, connections_drain}
use lsyl_tunnel.Server.ReverseListener.{
  Event as ReverseEvent, adds_control, arrives, becomes_pending, goes_on, answer_failed, picked,
  make_pending, hands_over, closes, new_reverse, conns_of, run as run_reverse, step as step_reverse,
  handle_inbound, pick_control, first, pending_or_dropped, add_pending, add_control, hand_over,
  hand_over_taken, take_pending,
}
use lsyl_tunnel.Server.ReverseListener.Inbound.{Fresh, inbound_once}
use lsyl_tunnel.Server.ReverseListener.Keeping.{occurs}
use lsyl_tunnel.CertificateGate.{challenge_of, client_gate, server_gate}
use lsyl_tunnel.CertificateGate.Admission.{answer_to, gate_passed}

-- A number as one byte.
abbrev byte_json : Json ℕ
byte_json = record {
  marshal = λ n. some (n ∷ []);
  unmarshal = λ bytes. elim bytes [ [] ↦ none | n ∷ rest ↦ some n ];
}

written : write_json byte_json 7 ≡ done (0 ∷ 0 ∷ 0 ∷ 1 ∷ 7 ∷ [])
unfolding write_json frame put_uint32
written = refl

read_json-write_json_example :
    read_json byte_json 16 ((0 ∷ 0 ∷ 0 ∷ 1 ∷ 7 ∷ []) ++ 9 ∷ []) ≡ done (7, 9 ∷ [])
unfolding effective_max
read_json-write_json_example =
    read_json-write_json byte_json 7 (7 ∷ []) (0 ∷ 0 ∷ 0 ∷ 1 ∷ 7 ∷ []) (9 ∷ []) 16 refl refl
      (omega arith) (omega arith) written

read_json_truncated_example : read_json byte_json 16 (0 ∷ 0 ∷ 0 ∷ []) ≡ failed unexpected_eof
unfolding effective_max
read_json_truncated_example =
    read_json_truncated byte_json 7 (7 ∷ []) (0 ∷ 0 ∷ 0 ∷ 1 ∷ 7 ∷ []) (0 ∷ 0 ∷ 0 ∷ []) (7 ∷ []) 1 16
      refl (omega arith) (omega arith) written refl

abbrev ann : UserConfig
ann = record { username = "ann"; password_hash = "h"; disabled = false }

abbrev web_forward : ForwardConfig
web_forward = record {
  name = "web";
  direction = "";
  listen_port = pos 0;
  listen_addr = "";
  server_target = "host";
  allowed_users = "ann" ∷ [];
}

-- The library for addresses of port 80 of this host.
abbrev pub web_go : GoLibrary
web_go = record small_go { split_host_port = λ addr. some ("127.0.0.1", "80") }

authorize_target_lem_example :
    (authorize_target web_go (web_forward ∷ []) ann "127.0.0.1:80" ≡ none) ↔ (
      (host : String) × (port : ℤ) × (split_host_port web_go "127.0.0.1:80" ≡ some (host, port))
      × (is_forward_target_host web_go host ≡ true)
      × (trim_space "ann" ≢ "")
      × Any
          (Serves web_go (trim_space "ann") (normalize_target web_go "127.0.0.1:80"))
          (web_forward ∷ []))
authorize_target_lem_example = authorize_target_lem web_go (web_forward ∷ []) ann "127.0.0.1:80"

reverse_allowed_ann : authorize_reverse small_go small_config.forwards ann "127.0.0.1" ≡ none
unfolding authorize_reverse reverse_allowed listens_on configured_reverse_listen_addr
    normalize_target allowed_user port_in_range trim_space String_discrete
reverse_allowed_ann = refl

reverse_listener_owner_example : trim_space "ann" ≡ trim_space "ann"
reverse_listener_owner_example =
    reverse_listener_owner small_go small_config ann ann "127.0.0.1" "127.0.0.1" small_accepted refl
      reverse_allowed_ann reverse_allowed_ann

abbrev from_3_0 : CompatibilityConfig
from_3_0 = record {
  min_client_version = "3.0.0";
  max_client_version = "";
  protocol_version = pos 3;
}

abbrev pub health_request : OpenRequest
health_request = record {
  kind = "health";
  username = "ann";
  password = "p";
  credential = none;
  client_id = "";
  client_version = "3.0.0";
  protocol_version = pos 3;
  forward_name = "";
  direction = "";
  listen_addr = "";
  stream_id = "";
  target = "";
}

check_request_compatibility_lem_example :
    (check_request_compatibility small_go from_3_0 health_request ≡ none) ↔ (
      (request_protocol health_request ≡ server_protocol from_3_0)
      × ((v : Version) × (parse small_go (client_version_of health_request) ≡ some v)
          × Bound small_go (trim_space from_3_0.min_client_version) (λ w. Before v w → ⊥)
          × Bound small_go (trim_space from_3_0.max_client_version) (λ w. Before w v → ⊥)))
check_request_compatibility_lem_example =
    check_request_compatibility_lem small_go from_3_0 health_request

abbrev two_arrive : List Event
two_arrive =
    accepts "10.0.0.1" 1
    ∷ accepts "10.0.0.1" 1
    ∷ accepts "10.0.0.1" 1
    ∷ accepts "10.0.0.2" 2
    ∷ accepts "10.0.0.2" 2
    ∷ []

leases_tracked_example :
    let s = run (new_lifecycle small_limits) two_arrive in
    s.ledger.limiter.active_total + length s.leaving
    ≡ length (in_flight s.accepting) + length (map_keys s)
leases_tracked_example = leases_tracked small_limits two_arrive

still_open : (run (new_lifecycle small_limits) two_arrive).closing ≡ false
unfolding step accept_step accept after_acquire track_entry_conn start_handler handed_over
    begin_worker shut new_lifecycle new_ledger record_reply acquire new_connection_limiter is_full
    refresh find put delete keep refine older oldest_from oldest_idle admit_tracked admit
    track_state insert_fresh evict clean_if_full cleanup_all prune store_or_drop is_spent
    is_full_per_ip is_over_rate open_connection refuse ip_or_unknown String_discrete
still_open = refl

two_snapshot : (shut_after small_limits two_arrive).snapshot ≡ 1 ∷ 0 ∷ []
unfolding step accept_step accept after_acquire track_entry_conn start_handler handed_over
    begin_worker shut new_lifecycle new_ledger record_reply acquire new_connection_limiter is_full
    refresh find put delete keep refine older oldest_from oldest_idle admit_tracked admit
    track_state insert_fresh evict clean_if_full cleanup_all prune store_or_drop is_spent
    is_full_per_ip is_over_rate open_connection refuse ip_or_unknown String_discrete
two_snapshot = refl

abbrev closing_down : List Event
closing_down =
    closes_next 3
    ∷ worker_starts
    ∷ worker_ends
    ∷ closes_conn 0 3
    ∷ closes_next 4
    ∷ closes_next 4
    ∷ forgets 0
    ∷ closes_next 5
    ∷ []

workers_end_example :
    (run (shut_after small_limits two_arrive) closing_down).workers
    ≡ (shut_after small_limits two_arrive).workers - 1
workers_end_example = workers_end small_limits two_arrive closing_down still_open

connections_drain_example :
    let s = shut_after small_limits two_arrive in
    (map_keys (run s closing_down) ≡ [])
    × ((run s closing_down).ledger.limiter.active_total
        ≡ length (in_flight (run s closing_down).accepting))
connections_drain_example =
    connections_drain small_limits two_arrive closing_down still_open
      (rw two_snapshot (omega arith))

abbrev one_inbound : List ReverseEvent
one_inbound =
    adds_control 1
    ∷ arrives 7
    ∷ arrives 8
    ∷ becomes_pending "s" 7
    ∷ becomes_pending "t" 8
    ∷ hands_over "s"
    ∷ goes_on answer_failed 7
    ∷ closes
    ∷ []

one_inbound-Fresh : Fresh new_reverse one_inbound
unfolding step_reverse handle_inbound picked pick_control first make_pending pending_or_dropped
    add_pending add_control hand_over hand_over_taken take_pending remove_id find put delete
    String_discrete
one_inbound-Fresh = (tt, (tt, (tt, (refl, (refl, (tt, (tt, (tt, tt))))))))

inbound_once_example :
    let s = run_reverse new_reverse one_inbound in
    (length s.listener.controls ≤ 1)
    × ((s.listener.closed ≡ false) ⊎ ((s.listener.controls ≡ []) × (s.listener.pending ≡ [])))
    × (occurs 8 s.arrived
        ≡ occurs 8 s.waiting
          + occurs 8 (conns_of s.listener.pending)
          + occurs 8 s.taken
          + occurs 8 s.relayed
          + occurs 8 s.dropped)
inbound_once_example = inbound_once one_inbound 8 one_inbound-Fresh

abbrev bytes_32 : ℕ → List ℕ
bytes_32 n = replicate 32 n

-- A proof of 32 bytes that all are the key.
abbrev key_mac : ℕ → List ℕ → List ℕ → List ℕ
key_mac key challenge header = bytes_32 key

gate_passed_example :
    let answer = answer_to key_mac 6 (challenge_of (bytes_32 4)) (bytes_32 5) in
    (client_gate key_mac 6 (challenge_of (bytes_32 4) ++ []) (bytes_32 5) ≡ some answer)
    × (server_gate key_mac 6 (bytes_32 4) (answer ++ 22 ∷ []) ≡ none)
unfolding replicate
gate_passed_example = gate_passed key_mac 6 (bytes_32 4) (bytes_32 5) [] (22 ∷ []) refl refl refl
