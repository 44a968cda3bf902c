-- ===== src/ConnectionLimiter/Granting.antt =====
-- What a granted connection found: the limits that `acquire` of
-- src/server/tunnel/connection_limiter.go tests, and leaves as they are.
use lsyl_tunnel.Base.{
  ℕ, ◌≤◌, ◌<◌, String, ◌≡◌, refl, ap, subst, ◌∙◌, ◌⊎◌, Bool, true, false, some, inl, inr,
  if◌then◌else◌, String_discrete, Option-cases, Bool-cases, find, arith,
}
use lsyl_tunnel.ConnectionLimiter.{
  LimitConfig, LimitState, ConnectionLimiter, Reply, granted, refused, Reason, ip_or_unknown,
  new_connection_limiter, cleanup_all, acquire, release, store_or_drop, has_active, seen_at, evict,
  clean_if_full, insert_fresh, track_state, is_full, is_full_per_ip, is_over_rate, open_connection,
  refuse, admit, refresh, admit_tracked,
}
use lsyl_tunnel.ConnectionLimiter.Counting.{
  active_at, active-refresh, active-track_state, refresh_total,
}
use lsyl_tunnel.ConnectionLimiter.Tracking.{}
use lsyl_tunnel.ConnectionLimiter.Leases.{}

-- `m` has the limits of `l`.
abbrev pub SameLimits : ConnectionLimiter → ConnectionLimiter → Type 0
SameLimits l m =
    (m.max_active ≡ l.max_active) × (m.max_per_ip ≡ l.max_per_ip) × (m.max_items ≡ l.max_items)

refresh-SameLimits :
    (ip : String) (now : ℕ) (l : ConnectionLimiter) → SameLimits l (refresh ip now l)
unfolding refresh
refresh-SameLimits ip now l = ground arith

evict-SameLimits : (now : ℕ) (l : ConnectionLimiter) → SameLimits l (evict (clean_if_full now l)).0
unfolding evict clean_if_full cleanup_all
evict-SameLimits now l = ground arith

track_state-SameLimits :
    (ip : String) (now : ℕ) (l : ConnectionLimiter) → SameLimits l (track_state ip now l).0
unfolding track_state insert_fresh
track_state-SameLimits ip now l = ground (arith, evict-SameLimits now l)

admit_tracked-SameLimits :
    (ip : String) (now : ℕ) (r : ConnectionLimiter × Bool)
    → SameLimits r.0 (admit_tracked ip now r).0
unfolding admit_tracked admit refuse open_connection
admit_tracked-SameLimits ip now (l, false) = (refl, refl, refl)
admit_tracked-SameLimits ip now (l, true) = ground arith

pub acquire-SameLimits :
    (addr : String) (now : ℕ) (l : ConnectionLimiter) → SameLimits l (acquire addr now l).0
unfolding acquire
acquire-SameLimits addr now l = ground (
  arith,
  refresh-SameLimits (ip_or_unknown addr) now l,
  track_state-SameLimits (ip_or_unknown addr) now (refresh (ip_or_unknown addr) now l),
  admit_tracked-SameLimits (ip_or_unknown addr) now
      (track_state (ip_or_unknown addr) now (refresh (ip_or_unknown addr) now l)),
)

-- Room under a limit that 0 switches off.
abbrev pub Below : ℕ → ℕ → Type 0
Below n limit = (limit ≡ 0) ⊎ (n < limit)

abbrev pub AtMost : ℕ → ℕ → Type 0
AtMost n limit = (limit ≡ 0) ⊎ (n ≤ limit)

is_full-false : (l : ConnectionLimiter) → is_full l ≡ false → Below l.active_total l.max_active
unfolding is_full
is_full-false l h = ground arith

abbrev WhenGranted : String → ConnectionLimiter → ConnectionLimiter × Reply → Type 0
WhenGranted ip l (m, granted) = Below (active_at ip l) l.max_per_ip
WhenGranted ip l (m, refused r) = Unit

admit-WhenGranted :
    (ip : String) (now : ℕ) (st : LimitState) (l : ConnectionLimiter)
    → find String_discrete ip l.items ≡ some st
    → WhenGranted ip l (admit ip now st l)
unfolding admit is_full_per_ip
admit-WhenGranted ip now st l e = ground arith

admit_tracked-WhenGranted :
    (ip : String) (now : ℕ) (r : ConnectionLimiter × Bool)
    → WhenGranted ip r.0 (admit_tracked ip now r)
unfolding admit_tracked
admit_tracked-WhenGranted ip now (l, false) = tt
admit_tracked-WhenGranted ip now (l, true) = elim (Option-cases (find String_discrete ip l.items)) [
  | inl e ↦ rw (e, admit_tracked) tt
  | inr (st, e) ↦ rw (e, admit_tracked) (admit-WhenGranted ip now st l e)
]

WhenGranted-trans :
    (ip : String) (l m : ConnectionLimiter) (r : ConnectionLimiter × Reply)
    → active_at ip m ≡ active_at ip l
    → m.max_per_ip ≡ l.max_per_ip
    → WhenGranted ip m r
    → WhenGranted ip l r
WhenGranted-trans ip l m (n, granted) a t h = ground arith
WhenGranted-trans ip l m (n, refused r) a t h = tt

acquire-WhenGranted :
    (addr : String) (now : ℕ) (l : ConnectionLimiter)
    → WhenGranted (ip_or_unknown addr) l (acquire addr now l)
unfolding acquire
acquire-WhenGranted addr now l₀ = elim (Bool-cases (is_full l)) [
  | inl f ↦ rw f tt
  | inr f ↦ rw f (
      WhenGranted-trans ip l₀ (track_state ip now l).0 (admit_tracked ip now (track_state ip now l))
        (active-track_state ip ip now l ∙ active-refresh ip ip now l₀)
        (ground (arith, track_state-SameLimits ip now l, refresh-SameLimits ip now l₀))
        (admit_tracked-WhenGranted ip now (track_state ip now l)))
]
  where
    ip : String
    ip = ip_or_unknown addr

    l : ConnectionLimiter
    l = refresh ip now l₀

acquire_granted_total :
    (addr : String) (now : ℕ) (l m : ConnectionLimiter)
    → acquire addr now l ≡ (m, granted)
    → Below l.active_total l.max_active
unfolding acquire
acquire_granted_total addr now l₀ m h =
    elim (Bool-cases (is_full (refresh (ip_or_unknown addr) now l₀))) [
      | inl f ↦ cc (
        h,
        ap
            (λ (b : Bool).
              if b
              then (
                refresh (ip_or_unknown addr) now l₀,
                refused lsyl_tunnel.ConnectionLimiter.global_concurrent_connections,
              )
              else admit_tracked (ip_or_unknown addr) now
                  (track_state (ip_or_unknown addr) now (refresh (ip_or_unknown addr) now l₀)))
            f,
      )
      | inr f ↦ ground (
        arith,
        is_full-false _ f,
        refresh_total (ip_or_unknown addr) now l₀,
        refresh-SameLimits (ip_or_unknown addr) now l₀,
      )
    ]

-- A connection is granted only below the global limit and below the limit of its address.
pub acquire_granted-Below :
    (addr : String) (now : ℕ) (l m : ConnectionLimiter)
    → acquire addr now l ≡ (m, granted)
    → Below l.active_total l.max_active × Below (active_at (ip_or_unknown addr) l) l.max_per_ip
acquire_granted-Below addr now l m h = (
  acquire_granted_total addr now l m h,
  subst (WhenGranted (ip_or_unknown addr) l) h (acquire-WhenGranted addr now l),
)
