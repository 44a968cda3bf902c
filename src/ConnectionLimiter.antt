-- ===== src/ConnectionLimiter.antt =====
-- src/server/tunnel/connection_limiter.go: how many connections an address may hold and open.
-- Times are nanoseconds. The methods hold the limiter's mutex throughout, so each is one step, and
-- what it changes through `l` and through the entry `st` of the map is the limiter it returns.
pub mod Counting
pub mod Bounds
pub mod Granting
pub mod Eviction
pub mod Tracking
pub mod Refusals
pub mod Leases
use lsyl_tunnel.Base.{
  ℕ, zero, suc, ◌+◌, ◌-◌, ◌*◌, String, Bool, true, false, ◌&&◌, ◌||◌, Option, none, some, List, [],
  ◌∷◌, ◌++◌, ite, ltb, leb, ◌==◌, if◌then◌else◌, String_discrete, length, keep, Map, find, put,
  delete, refine, oldest_idle,
}

pub record LimitState : Type 0 where
  pub active : ℕ
  pub attempts : List ℕ
  pub last_seen : ℕ

pub record ConnectionLimiter : Type 0 where
  pub max_active : ℕ
  pub max_per_ip : ℕ
  pub max_rate : ℕ
  pub rate_window : ℕ
  pub max_items : ℕ
  pub cleanup_every : ℕ
  pub active_total : ℕ
  pub items : Map String LimitState
  pub evicted_ips : ℕ
  pub capacity_rejected : ℕ

-- The limits of `SecurityConfig` that the limiter reads.
pub record LimitConfig : Type 0 where
  pub max_concurrent_connections : ℕ
  pub max_concurrent_connections_per_ip : ℕ
  pub max_new_connections_per_ip_window : ℕ
  pub connection_rate_window_sec : ℕ
  pub max_tracked_connection_ips : ℕ
  pub connection_limiter_cleanup_sec : ℕ

pub data Reason : Type 0 where
  global_concurrent_connections tracked_remote_ip_capacity : Reason
  per_ip_concurrent_connections per_ip_new_connection_rate : Reason

pub data Reply : Type 0 where
  granted : Reply
  refused : Reason → Reply

abbrev pub second : ℕ
second = 1000000000

or_default : ℕ → ℕ → ℕ
or_default n d = if n == 0 then d else n

unfoldable pub new_connection_limiter : LimitConfig → ConnectionLimiter
unfolding or_default
new_connection_limiter cfg = record {
  max_active = cfg.max_concurrent_connections;
  max_per_ip = cfg.max_concurrent_connections_per_ip;
  max_rate = cfg.max_new_connections_per_ip_window;
  rate_window = or_default (cfg.connection_rate_window_sec * second) second;
  max_items = or_default cfg.max_tracked_connection_ips 8192;
  cleanup_every = or_default (cfg.connection_limiter_cleanup_sec * second) (60 * second);
  active_total = 0;
  items = [];
  evicted_ips = 0;
  capacity_rejected = 0;
}

-- `if ip == "" { ip = "unknown" }`
unfoldable pub ip_or_unknown : String → String
ip_or_unknown ip = ite (String_discrete ip "") "unknown" ip

-- `pruneLocked`: `ts.After(now.Add(-rateWindow))` is `now < ts + rate_window`.
unfoldable pub prune : ConnectionLimiter → ℕ → LimitState → LimitState
prune l now st =
    if l.max_rate == 0 || length st.attempts == 0
    then record st { attempts = [] }
    else record st { attempts = keep (λ ts. ltb now (ts + l.rate_window)) st.attempts }

-- The test of `cleanupLocked`.
unfoldable pub is_spent : LimitState → Bool
is_spent st = st.active == 0 && length st.attempts == 0

-- An entry written back under its key, after `cleanupLocked` has had its say.
unfoldable pub store_or_drop : String → LimitState → Map String LimitState → Map String LimitState
unfolding is_spent
store_or_drop ip st items =
    if is_spent st then delete String_discrete ip items else put String_discrete ip st items

-- `cleanupAllLocked`
unfoldable pub cleanup_all : ℕ → ConnectionLimiter → ConnectionLimiter
unfolding is_spent
cleanup_all now l = record l {
  items =
      refine String_discrete
        (λ st. let st' = prune l now st in if is_spent st' then none else some st') l.items;
}

-- An entry with an open connection is never evicted.
abbrev pub has_active : LimitState → Bool
has_active st = ltb 0 st.active

abbrev pub seen_at : LimitState → ℕ
seen_at st = st.last_seen

fresh_state : ℕ → LimitState
fresh_state now = record { active = 0; attempts = []; last_seen = now }

-- Make room by evicting the least recently seen entry without an open connection, if the map is
-- still full.
unfoldable pub evict : ConnectionLimiter → ConnectionLimiter × Bool
evict l =
    if leb l.max_items (length l.items)
    then elim (oldest_idle has_active seen_at l.items) [
      | none ↦ (record l { capacity_rejected = l.capacity_rejected + 1 }, false)
      | some (ip, seen) ↦ (
        record l { items = delete String_discrete ip l.items; evicted_ips = l.evicted_ips + 1 },
        true,
      )
    ]
    else (l, true)

unfoldable pub clean_if_full : ℕ → ConnectionLimiter → ConnectionLimiter
clean_if_full now l = if leb l.max_items (length l.items) then cleanup_all now l else l

unfoldable pub insert_fresh : String → ℕ → ConnectionLimiter × Bool → ConnectionLimiter × Bool
unfolding fresh_state
insert_fresh ip now (l, false) = (l, false)
insert_fresh ip now (l, true) =
    (record l { items = put String_discrete ip (fresh_state now) l.items }, true)

-- `trackStateLocked`; the Boolean is its `ok`, and the entry is the one then found in the map.
unfoldable pub track_state : String → ℕ → ConnectionLimiter → ConnectionLimiter × Bool
track_state ip now l = elim (find String_discrete ip l.items) [
  | some st ↦ (l, true)
  | none ↦ insert_fresh ip now (evict (clean_if_full now l))
]

-- The three limits that `acquire` tests; 0 means no limit.
unfoldable pub is_full : ConnectionLimiter → Bool
is_full l = ltb 0 l.max_active && leb l.max_active l.active_total

unfoldable pub is_full_per_ip : ConnectionLimiter → LimitState → Bool
is_full_per_ip l st = ltb 0 l.max_per_ip && leb l.max_per_ip st.active

unfoldable pub is_over_rate : ConnectionLimiter → LimitState → Bool
is_over_rate l st = ltb 0 l.max_rate && leb l.max_rate (length st.attempts)

-- One more connection of `ip`, whose entry is `st`.
unfoldable pub open_connection : String → ℕ → LimitState → ConnectionLimiter → ConnectionLimiter
open_connection ip now st l = record l {
  active_total = l.active_total + 1;
  items =
      put String_discrete ip
        (record {
          active = st.active + 1;
          attempts = if ltb 0 l.max_rate then st.attempts ++ now ∷ [] else st.attempts;
          last_seen = now;
        })
        l.items;
}

unfoldable pub refuse : String → ℕ → LimitState → ConnectionLimiter → ConnectionLimiter
refuse ip now st l = record l { items = store_or_drop ip (record st { last_seen = now }) l.items }

-- `acquire` from `st.lastSeen = now` on, with the entry `st` of `ip`.
unfoldable pub admit : String → ℕ → LimitState → ConnectionLimiter → ConnectionLimiter × Reply
admit ip now st l =
    if is_full_per_ip l st
    then (refuse ip now st l, refused per_ip_concurrent_connections)
    else if is_over_rate l st
    then (refuse ip now st l, refused per_ip_new_connection_rate)
    else (open_connection ip now st l, granted)

-- The first lines of `acquire`: an entry that is there is pruned, and dropped if it is spent.
unfoldable pub refresh : String → ℕ → ConnectionLimiter → ConnectionLimiter
refresh ip now l = elim (find String_discrete ip l.items) [
  | none ↦ l
  | some st ↦ record l { items = store_or_drop ip (prune l now st) l.items }
]

-- With `ok`, the entry is in the map: the case `none` does not arise.
unfoldable pub admit_tracked : String → ℕ → ConnectionLimiter × Bool → ConnectionLimiter × Reply
admit_tracked ip now (l, false) = (l, refused tracked_remote_ip_capacity)
admit_tracked ip now (l, true) = elim (find String_discrete ip l.items) [
  | none ↦ (l, refused tracked_remote_ip_capacity)
  | some st ↦ admit ip now st l
]

-- `acquire`, with the function that it returns left to the ledger of Leases.
unfoldable pub acquire : String → ℕ → ConnectionLimiter → ConnectionLimiter × Reply
acquire addr now l₀ =
    let ip = ip_or_unknown addr in
    let l = refresh ip now l₀ in
    if is_full l
    then (l, refused global_concurrent_connections)
    else admit_tracked ip now (track_state ip now l)

unfoldable pub release : String → ℕ → ConnectionLimiter → ConnectionLimiter
release addr now l =
    let ip = ip_or_unknown addr in
    elim (find String_discrete ip l.items) [
      | none ↦ l
      | some st ↦
          let left = prune l now (record st { active = st.active - 1 }) in
          record l {
            active_total = l.active_total - 1;
            items = store_or_drop ip (record left { last_seen = now }) l.items;
          }
    ]

pub record Snapshot : Type 0 where
  pub active : ℕ
  pub tracked_ips : ℕ
  pub max_tracked_ips : ℕ
  pub evicted : ℕ
  pub rejected : ℕ

unfoldable pub snapshot : ConnectionLimiter → Snapshot
snapshot l = record {
  active = l.active_total;
  tracked_ips = length l.items;
  max_tracked_ips = l.max_items;
  evicted = l.evicted_ips;
  rejected = l.capacity_rejected;
}
