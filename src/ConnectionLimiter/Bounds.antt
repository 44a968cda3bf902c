-- ===== src/ConnectionLimiter/Bounds.antt =====
-- The limits hold after any history.
use lsyl_tunnel.Base.{
  ℕ, ◌≤◌, ◌<◌, String, ◌≡◌, refl, List, [], ◌∷◌, inl, inr, Option-cases, find, arith,
}
use lsyl_tunnel.ConnectionLimiter.{
  LimitConfig, ConnectionLimiter, Reply, granted, refused, ip_or_unknown, new_connection_limiter,
  cleanup_all, acquire, release,
}
use lsyl_tunnel.ConnectionLimiter.Counting.{
  active_at, Counts, acquire-Counts, active-release-le, active-cleanup_all,
}
use lsyl_tunnel.ConnectionLimiter.Tracking.{
  tracked, tracked-acquire-le, tracked-release-le, tracked-cleanup_all-le,
}
use lsyl_tunnel.ConnectionLimiter.Leases.{
  Event, connects, closes, sweeps, Ledger, take_lease, record_reply, step, run, start,
}
use lsyl_tunnel.ConnectionLimiter.Granting.{
  acquire-SameLimits, acquire_granted-Below, SameLimits, Below, AtMost,
}

release-SameLimits :
    (addr : String) (now : ℕ) (l : ConnectionLimiter) → SameLimits l (release addr now l)
unfolding release
release-SameLimits addr now l = ground arith

-- What holds of the limiter of a ledger between two calls.
pub record IsWithin (l : ConnectionLimiter) : Type 0 where
  pub total : AtMost l.active_total l.max_active
  pub per_ip : (ip : String) → AtMost (active_at ip l) l.max_per_ip
  pub entries : tracked l ≤ l.max_items

IsWithin-drop :
    (l m : ConnectionLimiter)
    → SameLimits l m
    → m.active_total ≤ l.active_total
    → ((j : String) → active_at j m ≤ active_at j l)
    → tracked m ≤ l.max_items
    → IsWithin l
    → IsWithin m
IsWithin-drop l m s t a e v = record {
  total = ground (arith, v.total);
  per_ip = λ j. ground (arith, a j, v.per_ip j);
  entries = omega arith;
}

reply-IsWithin :
    (ip : String) (l : ConnectionLimiter) (r : ConnectionLimiter × Reply)
    → SameLimits l r.0
    → ((m : ConnectionLimiter)
        → r ≡ (m, granted)
        → Below l.active_total l.max_active × Below (active_at ip l) l.max_per_ip)
    → ((j : String) → Counts ip j l r)
    → tracked r.0 ≤ l.max_items
    → IsWithin l
    → IsWithin r.0
reply-IsWithin ip l (m, refused x) s b c e v =
    IsWithin-drop l m s (ground (arith, c ip)) (λ j. ground (arith, c j)) e v
reply-IsWithin ip l (m, granted) s b c e v = record {
  total = ground (arith, b m refl, c ip, v.total);
  per_ip = λ j. ground (arith, b m refl, c j, v.per_ip j);
  entries = omega arith;
}

acquire-IsWithin :
    (addr : String) (now : ℕ) (l : ConnectionLimiter) → IsWithin l → IsWithin (acquire addr now l).0
acquire-IsWithin addr now l v =
    reply-IsWithin (ip_or_unknown addr) l (acquire addr now l) (acquire-SameLimits addr now l)
      (λ m h. acquire_granted-Below addr now l m h) (λ j. acquire-Counts addr j now l)
      (tracked-acquire-le addr now l v.entries) v

step-IsWithin : (g : Ledger) (e : Event) → IsWithin g.limiter → IsWithin (step g e).limiter
unfolding step
step-IsWithin g (connects addr now) v =
    go (acquire addr now g.limiter) (acquire-IsWithin addr now g.limiter v)
  where
    go : (r : ConnectionLimiter × Reply) → IsWithin r.0 → IsWithin (record_reply addr g r).limiter
    go (l, granted) w = unfold record_reply in w
    go (l, refused x) w = unfold record_reply in w
step-IsWithin g (closes id now) v = elim (Option-cases (take_lease id g.leases)) [
  | inl e ↦ rw (e, step) v
  | inr ((ip, rest), e) ↦
      let less = λ (j : String). active-release-le ip j now g.limiter in
      rw (e, step)
        (IsWithin-drop g.limiter (release ip now g.limiter) (release-SameLimits ip now g.limiter)
          (less "").1 (λ j. (less j).0)
          (omega (arith, tracked-release-le ip now g.limiter, v.entries)) v)
]
step-IsWithin g (sweeps now) v =
    IsWithin-drop g.limiter (cleanup_all now g.limiter) (unfold cleanup_all in (refl, refl, refl))
      (unfold cleanup_all in omega arith) (λ j. omega (arith, active-cleanup_all j now g.limiter))
      (omega (arith, tracked-cleanup_all-le now g.limiter, v.entries)) v

step-SameLimits : (g : Ledger) (e : Event) → SameLimits g.limiter (step g e).limiter
unfolding step
step-SameLimits g (connects addr now) =
    go (acquire addr now g.limiter) (acquire-SameLimits addr now g.limiter)
  where
    go :
        (r : ConnectionLimiter × Reply)
        → SameLimits g.limiter r.0
        → SameLimits g.limiter (record_reply addr g r).limiter
    go (l, granted) w = unfold record_reply in w
    go (l, refused x) w = unfold record_reply in w
step-SameLimits g (closes id now) = elim (Option-cases (take_lease id g.leases)) [
  | inl e ↦ rw (e, step) (refl, refl, refl)
  | inr ((ip, rest), e) ↦ rw (e, step) (release-SameLimits ip now g.limiter)
]
step-SameLimits g (sweeps now) = unfold cleanup_all in (refl, refl, refl)

run-IsWithin :
    (g : Ledger) (es : List Event)
    → IsWithin g.limiter
    → IsWithin (run g es).limiter × SameLimits g.limiter (run g es).limiter
unfolding run
run-IsWithin g [] v = (v, (refl, refl, refl))
run-IsWithin g (e ∷ es) v =
    ground (arith, run-IsWithin (step g e) es (step-IsWithin g e v), step-SameLimits g e)

start-IsWithin : (cfg : LimitConfig) → IsWithin (start cfg).limiter
unfolding start new_connection_limiter find
start-IsWithin cfg = record {
  total = ground arith;
  per_ip = λ ip. ground arith;
  entries = omega arith;
}

start_limits :
    (cfg : LimitConfig)
    → ((start cfg).limiter.max_active ≡ cfg.max_concurrent_connections)
      × ((start cfg).limiter.max_per_ip ≡ cfg.max_concurrent_connections_per_ip)
      × ((0 < cfg.max_tracked_connection_ips)
          → (start cfg).limiter.max_items ≡ cfg.max_tracked_connection_ips)
unfolding start new_connection_limiter
start_limits cfg = (refl, refl, λ h. ground arith)

-- From a new limiter on, after any calls in any order, the open connections are at most
-- `max_concurrent_connections`, those of each address at most `max_concurrent_connections_per_ip`
-- (0 switches a limit off), and the map has at most `max_tracked_connection_ips` entries, where
-- that is positive.
pub limits_hold :
    (cfg : LimitConfig) (es : List Event) (ip : String)
    → 0 < cfg.max_tracked_connection_ips
    → let l = (run (start cfg) es).limiter in
      AtMost l.active_total cfg.max_concurrent_connections
      × AtMost (active_at ip l) cfg.max_concurrent_connections_per_ip
      × (tracked l ≤ cfg.max_tracked_connection_ips)
limits_hold cfg es ip h =
    let (v, s) = run-IsWithin (start cfg) es (start-IsWithin cfg) in
    let (a, b, c) = start_limits cfg in
    (ground (arith, v.total), ground (arith, v.per_ip ip), omega (arith, c h, v.entries))
