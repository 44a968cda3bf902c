-- ===== src/FailTracker.antt =====
-- src/server/tunnel/fail_tracker.go and the tracker's methods of fail_persistence.go and
-- successful_ip_history.go. Times are nanoseconds since Go's zero time, which is 0: `IsZero` is a
-- test for 0. `now.Add(-window)` before `t` is written `now < t + window`. Each method holds the
-- tracker's mutex throughout, but for `blockKind`, whose two parts are two functions.
pub mod Failures
pub mod Bans
pub mod Burst
pub mod Cleaning
pub mod Lasting
pub mod Lockout
pub mod PermanentFile
pub mod Persistence
pub mod Size
pub mod Success
pub mod Unblock
pub mod Views
use lsyl_tunnel.Base.{
  ℕ, zero, suc, ◌+◌, ◌-◌, ◌*◌, String, Bool, true, false, not, ◌&&◌, ◌||◌, Option, none, some, List,
  [], ◌∷◌, ◌++◌, ite, ltb, leb, ◌==◌, if◌then◌else◌, String_discrete, length, keep, Map, find, put,
  delete, refine, oldest_idle, trim_space,
}

pub data BlockKind : Type 0 where
  blocked_none blocked_temporary blocked_permanent : BlockKind

pub record FailState : Type 0 where
  pub auth_failures : List ℕ
  pub protocol_failures : List ℕ
  pub blocked_until : ℕ
  pub last_seen : ℕ

-- `state_saved` is what the state file holds, and `permanent_lines` are the lines of the permanent
-- block file. A file name that is "" is `has_…_file = false`.
pub record FailTracker : Type 0 where
  pub window : ℕ
  pub limit : ℕ
  pub block_for : ℕ
  pub max_items : ℕ
  pub cleanup_every : ℕ
  pub successful_date : String
  pub successful_ips : Map String (Unit {0})
  pub items : Map String FailState
  pub permanent : Map String (Unit {0})
  pub has_state_file : Bool
  pub has_permanent_file : Bool
  pub state_saved : Map String ℕ
  pub permanent_lines : List String
  pub evicted : ℕ
  pub capacity_drop : ℕ

-- The limits of `SecurityConfig` that the tracker reads.
pub record FailConfig : Type 0 where
  pub max_tracked_failure_ips : ℕ
  pub failure_tracker_cleanup_sec : ℕ
  pub auth_fail_window_sec : ℕ
  pub auth_fail_threshold : ℕ
  pub auth_fail_block_sec : ℕ

-- What the surroundings give to one call: the clock when it starts and when it saves, the local
-- date, and whether the two files can be written.
pub record Env : Type 0 where
  pub now : ℕ
  pub date : String
  pub save_time : ℕ
  pub can_save : Bool
  pub can_append : Bool

abbrev pub second : ℕ
second = 1000000000

is_set : String → Bool
is_set path = ite (String_discrete (trim_space path) "") false true

unfoldable pub new_fail_tracker : FailConfig → String → String → FailTracker
unfolding is_set
new_fail_tracker cfg state_file permanent_file = record {
  window = cfg.auth_fail_window_sec * second;
  limit = cfg.auth_fail_threshold;
  block_for = cfg.auth_fail_block_sec * second;
  max_items = if cfg.max_tracked_failure_ips == 0 then 8192 else cfg.max_tracked_failure_ips;
  cleanup_every =
      if cfg.failure_tracker_cleanup_sec == 0
      then 60 * second
      else cfg.failure_tracker_cleanup_sec * second;
  successful_date = "";
  successful_ips = [];
  items = [];
  permanent = [];
  has_state_file = is_set state_file;
  has_permanent_file = is_set permanent_file;
  state_saved = [];
  permanent_lines = [];
  evicted = 0;
  capacity_drop = 0;
}

abbrev pub is_some {ℓ} : {A : Type ℓ} → Option A → Bool
is_some none = false
is_some (some _) = true

unfoldable pub has_permanent : String → FailTracker → Bool
has_permanent key f = is_some (find String_discrete key f.permanent)

-- `saveLocked`: the blocks that still run, where there is a file and it can be written.
unfoldable pub running_until : ℕ → FailState → Option ℕ
running_until t st = if ltb t st.blocked_until then some st.blocked_until else none

unfoldable pub blocks_at : ℕ → Map String FailState → Map String ℕ
blocks_at t items = refine String_discrete (running_until t) items

unfoldable pub save : Env → FailTracker → FailTracker
save env f =
    if f.has_state_file && env.can_save
    then record f { state_saved = blocks_at env.save_time f.items }
    else f

-- `appendRecentFailures`
unfoldable pub recent_failures : ℕ → ℕ → List ℕ → List ℕ
recent_failures window now = keep (λ t. ltb now (t + window))

-- The entry that `cleanupLocked` leaves of `st`, if it leaves one.
unfoldable pub clean_state : ℕ → ℕ → FailState → Option FailState
clean_state window now st =
    let auth = recent_failures window now st.auth_failures in
    let protocol = recent_failures window now st.protocol_failures in
    let until = if ltb now st.blocked_until then st.blocked_until else 0 in
    if until == 0 && length auth == 0 && length protocol == 0
    then none
    else some
        (record st { auth_failures = auth; protocol_failures = protocol; blocked_until = until })

-- Whether `cleanupLocked` reports a change for `st`.
unfoldable pub state_changes : ℕ → ℕ → FailState → Bool
state_changes window now st =
    not (length (recent_failures window now st.auth_failures) == length st.auth_failures)
    || not (length (recent_failures window now st.protocol_failures) == length st.protocol_failures)
    || (not (st.blocked_until == 0) && leb st.blocked_until now)
    || not (is_some (clean_state window now st))

any_changes : ℕ → ℕ → Map String FailState → Bool
any_changes window now [] = false
any_changes window now ((key, st) ∷ items) =
    state_changes window now st || any_changes window now items

-- `cleanupLocked`, without and with its result.
unfoldable pub cleanup_locked : ℕ → FailTracker → FailTracker
cleanup_locked now f = record f {
  items = refine String_discrete (clean_state f.window now) f.items;
}

unfoldable pub cleanup : Env → FailTracker → FailTracker
unfolding any_changes
cleanup env f =
    let cleaned = cleanup_locked env.now f in
    if any_changes f.window env.now f.items then save env cleaned else cleaned

-- A block that still runs keeps its entry from eviction.
abbrev pub is_blocked_at : ℕ → FailState → Bool
is_blocked_at now st = not (st.blocked_until == 0) && ltb now st.blocked_until

abbrev pub seen_at : FailState → ℕ
seen_at st = st.last_seen

unfoldable pub evict : ℕ → FailTracker → FailTracker × Bool
evict now f =
    if leb f.max_items (length f.items)
    then elim (oldest_idle (is_blocked_at now) seen_at f.items) [
      | none ↦ (record f { capacity_drop = f.capacity_drop + 1 }, false)
      | some (key, seen) ↦
          (record f { items = delete String_discrete key f.items; evicted = f.evicted + 1 }, true)
    ]
    else (f, true)

unfoldable pub clean_if_full : ℕ → FailTracker → FailTracker
clean_if_full now f = if leb f.max_items (length f.items) then cleanup_locked now f else f

unfoldable pub insert_fresh : String → ℕ → FailTracker × Bool → FailTracker × Bool
insert_fresh key now (f, false) = (f, false)
insert_fresh key now (f, true) = (
  record f {
    items =
        put String_discrete key
          (record {
            auth_failures = [];
            protocol_failures = [];
            blocked_until = 0;
            last_seen = now;
          })
          f.items;
  },
  true,
)

-- No entry is kept for "", nor for a banned address.
unfoldable pub is_untracked : String → FailTracker → Bool
is_untracked key f = ite (String_discrete key "") true (has_permanent key f)

-- `trackStateLocked` once the key is trimmed; the Boolean is its `ok`.
unfoldable pub track_key : String → ℕ → FailTracker → FailTracker × Bool
track_key key now f =
    if is_untracked key f then (f, false) else elim (find String_discrete key f.items) [
      | some st ↦ (
        record f { items = put String_discrete key (record st { last_seen = now }) f.items },
        true,
      )
      | none ↦ insert_fresh key now (evict now (clean_if_full now f))
    ]

-- `trackStateLocked`; the entry that it returns stands under the trimmed key.
unfoldable pub track_state : String → ℕ → FailTracker → FailTracker × Bool
track_state addr now f = track_key (trim_space addr) now f
