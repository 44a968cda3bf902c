-- ===== src/Scenarios.antt =====
-- Runs of the limiters, the ring, the writer and the hit log on small inputs.
pub mod Blocking
pub mod Settings
pub mod Serving
pub mod Requests
use lsyl_tunnel.Base.{
  suc, ℕ, ◌+◌, ◌≤◌, ◌<◌, ◌≡◌, ◌≢◌, refl, String, Bool, true, false, Option, some, List, [], ◌∷◌,
  ◌++◌, ltb, length, drop, find, String_discrete, refine, delete, put, oldest_idle, oldest_from,
  older, keep, arith,
}
use lsyl_tunnel.ConnectionLimiter.{
  ConnectionLimiter, LimitState, LimitConfig, granted, track_state, insert_fresh, evict,
  clean_if_full, cleanup_all, prune, store_or_drop, is_spent, refresh, admit_tracked, admit,
  is_full, is_full_per_ip, is_over_rate, open_connection, refuse, acquire, ip_or_unknown,
}
use lsyl_tunnel.ConnectionLimiter.Leases.{
  Event, connects, closes, sweeps, run, start, step, lease_count, lease_counters_exact,
}
use lsyl_tunnel.ConnectionLimiter.Counting.{active_at}
use lsyl_tunnel.ConnectionLimiter.Tracking.{tracked}
use lsyl_tunnel.ConnectionLimiter.Bounds.{limits_hold}
use lsyl_tunnel.ConnectionLimiter.Granting.{AtMost, Below, acquire_granted-Below}
use lsyl_tunnel.ConnectionLimiter.Refusals.{acquire-verdict, verdict, track_state_capacity}
use lsyl_tunnel.ConnectionLimiter.Eviction.{evict_oldest, without}
use lsyl_tunnel.UserStreamLimiter as Users
use lsyl_tunnel.UserStreamLimiter.Leases as Streams
use lsyl_tunnel.EventRing.{EventRing, append, snapshot, new_event_ring}
use lsyl_tunnel.EventRing.Queue.{
  append_all, keep_last, push, IsRing, snapshot_recent, snapshot-append,
}
use lsyl_tunnel.EntryTrafficWriter as Log
use lsyl_tunnel.EntryTrafficWriter.Delivery.{
  Inv, accepted_calls, rounds, writer_counters_exact, close_drains,
}
use lsyl_tunnel.HitLog as Hits

abbrev pub small_limits : LimitConfig
small_limits = record {
  max_concurrent_connections = 2;
  max_concurrent_connections_per_ip = 1;
  max_new_connections_per_ip_window = 3;
  connection_rate_window_sec = 1;
  max_tracked_connection_ips = 2;
  connection_limiter_cleanup_sec = 60;
}

abbrev calls : List Event
calls =
    connects "10.0.0.1" 5
    ∷ connects "10.0.0.1" 6
    ∷ closes 0 7
    ∷ closes 0 8
    ∷ connects "10.0.0.2" 9
    ∷ []

limits_hold_example :
    let l = (run (start small_limits) calls).limiter in
    AtMost l.active_total 2 × AtMost (active_at "10.0.0.2" l) 1 × (tracked l ≤ 2)
limits_hold_example = limits_hold small_limits calls "10.0.0.2" (omega arith)

lease_counters_exact_example :
    let g = run (start small_limits) calls in
    (g.limiter.active_total ≡ length g.leases)
    × (active_at "10.0.0.1" g.limiter ≡ lease_count "10.0.0.1" g.leases)
lease_counters_exact_example = lease_counters_exact small_limits calls "10.0.0.1"

abbrev busy_state : LimitState
busy_state = record { active = 1; attempts = 5 ∷ []; last_seen = 5 }

abbrev idle_state : LimitState
idle_state = record { active = 0; attempts = 4 ∷ []; last_seen = 4 }

abbrev two_entries : ConnectionLimiter
two_entries = record {
  max_active = 4;
  max_per_ip = 2;
  max_rate = 3;
  rate_window = 100;
  max_items = 2;
  cleanup_every = 60;
  active_total = 1;
  items = ("10.0.0.1", busy_state) ∷ ("10.0.0.2", idle_state) ∷ [];
  evicted_ips = 0;
  capacity_rejected = 0;
}

abbrev one_busy : ConnectionLimiter
one_busy = record two_entries { max_items = 1; items = ("10.0.0.1", busy_state) ∷ [] }

acquire-verdict_example : (acquire "10.0.0.1" 6 two_entries).1 ≡ verdict two_entries 6 busy_state
unfolding find ip_or_unknown String_discrete
acquire-verdict_example =
    acquire-verdict "10.0.0.1" 6 two_entries busy_state refl (omega arith) (omega arith)

one_busy_refuses : (track_state "10.0.0.9" 6 one_busy).1 ≡ false
unfolding track_state insert_fresh evict clean_if_full cleanup_all refine delete find put
    String_discrete oldest_idle oldest_from older prune store_or_drop is_spent keep refresh
    admit_tracked admit is_full is_full_per_ip is_over_rate open_connection refuse acquire
    ip_or_unknown
one_busy_refuses = refl

track_state_capacity_example :
    (one_busy.max_items ≤ tracked (track_state "10.0.0.9" 6 one_busy).0) × (0 < busy_state.active)
unfolding track_state insert_fresh evict clean_if_full cleanup_all refine delete find put
    String_discrete oldest_idle oldest_from older prune store_or_drop is_spent keep refresh
    admit_tracked admit is_full is_full_per_ip is_over_rate open_connection refuse acquire
    ip_or_unknown
track_state_capacity_example =
    track_state_capacity "10.0.0.9" "10.0.0.1" 6 one_busy busy_state one_busy_refuses refl

evict_oldest_example :
    (ip : String) × (st : LimitState) × (find String_discrete ip two_entries.items ≡ some st)
    × (st.active ≡ 0)
    × (st.last_seen ≤ 4)
    × ((evict two_entries).0 ≡ without ip two_entries)
unfolding track_state insert_fresh evict clean_if_full cleanup_all refine delete find put
    String_discrete oldest_idle oldest_from older prune store_or_drop is_spent keep refresh
    admit_tracked admit is_full is_full_per_ip is_over_rate open_connection refuse acquire
    ip_or_unknown
evict_oldest_example = evict_oldest two_entries "10.0.0.2" idle_state (omega arith) refl refl refl

streams_exact_example :
    let g =
      Streams.run
        (Streams.start 2)
        (Streams.opens "ann" ∷ Streams.opens "ann" ∷ Streams.opens "ann" ∷ []) in
    (Users.active_at "ann" g.limiter ≡ Streams.streams "ann" g.open_streams)
    × (Streams.streams "ann" g.open_streams ≤ 2)
streams_exact_example =
    Streams.streams_exact 2 (Streams.opens "ann" ∷ Streams.opens "ann" ∷ Streams.opens "ann" ∷ [])
      "ann" (omega arith)

snapshot_recent_example :
    snapshot {E = ℕ} 0 (append_all (new_event_ring 0 2) (7 ∷ 8 ∷ 9 ∷ []))
    ≡ keep_last 2 (7 ∷ 8 ∷ 9 ∷ [])
snapshot_recent_example = snapshot_recent 0 2 (7 ∷ 8 ∷ 9 ∷ []) (omega arith)

writer_counters_exact_example : Inv (
    Log.run
      (Log.new_async_entry_traffic_log {E = ℕ} 1)
      (Log.enqueues 3 ∷ Log.enqueues 4 ∷ Log.runs ∷ []))
writer_counters_exact_example =
    writer_counters_exact 1 (Log.enqueues 3 ∷ Log.enqueues 4 ∷ Log.runs ∷ [])

abbrev log_calls : List (Log.Event ℕ)
log_calls = Log.enqueues 4 ∷ Log.enqueues 5 ∷ Log.runs ∷ Log.enqueues 6 ∷ Log.enqueues 7 ∷ []

still_open : (Log.run (Log.new_async_entry_traffic_log 2) log_calls).done ≡ false
unfolding Log.run Log.step Log.new_async_entry_traffic_log Log.enqueue Log.run_step
still_open = refl

close_drains_example :
    let w = Log.run (Log.new_async_entry_traffic_log 2) log_calls in
    let u = rounds (suc (length w.queue)) (Log.close w) in
    (u.done ≡ true) × (u.output ≡ accepted_calls (Log.new_async_entry_traffic_log 2) log_calls)
close_drains_example = close_drains 2 log_calls still_open

-- The fourth call finds the queue full.
three_accepted : accepted_calls (Log.new_async_entry_traffic_log 2) log_calls ≡ 4 ∷ 5 ∷ 6 ∷ []
unfolding Log.new_async_entry_traffic_log Log.enqueue Log.run_step
three_accepted = refl

hits_conserved_example :
    let es = Hits.hit "10.0.0.1" ∷ Hits.tick ∷ Hits.hit "10.0.0.1" ∷ Hits.hit "10.0.0.2" ∷ [] in
    let (a, logs) = Hits.handle_all es (Hits.new_permanent_block_hit_aggregator 0, []) in
    Hits.logged_hits "10.0.0.1" logs + Hits.hits_of "10.0.0.1" a.hits ≡ Hits.hits_in "10.0.0.1" es
hits_conserved_example =
    Hits.hits_conserved "10.0.0.1" 0
      (Hits.hit "10.0.0.1" ∷ Hits.tick ∷ Hits.hit "10.0.0.1" ∷ Hits.hit "10.0.0.2" ∷ []) (λ e. cc)
