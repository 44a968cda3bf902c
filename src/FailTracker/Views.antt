-- ===== src/FailTracker/Views.antt =====
-- What the server shows of the failure tracker: `isBlocked` and `stats` of
-- src/server/tunnel/fail_tracker.go and `snapshotBlocked` of fail_persistence.go. A time that is
-- formatted stays a number.
use lsyl_tunnel.Base.{
  ℕ, ◌-◌, ◌/◌, String, Bool, true, false, not, ◌||◌, List, [], ◌∷◌, All, ltb, ◌==◌, if◌then◌else◌,
  length, Map, Bool-cases, inl, inr, arith, ◌<◌,
}
use lsyl_tunnel.FailTracker.{
  FailState, FailTracker, Env, BlockKind, blocked_none, blocked_temporary, blocked_permanent,
  second,
}
use lsyl_tunnel.FailTracker.Failures.{block_kind}
use lsyl_tunnel.FailTracker.Persistence.{BlockedIpState}

differs_from_none : BlockKind → Bool
differs_from_none blocked_none = false
differs_from_none blocked_temporary = true
differs_from_none blocked_permanent = true

unfoldable pub is_blocked : Env → String → FailTracker → FailTracker × Bool
unfolding differs_from_none
is_blocked env key f = let (g, kind) = block_kind env key f in (g, differs_from_none kind)

pub record FailTrackerStats : Type 0 where
  pub tracked_ips : ℕ
  pub max_tracked_ips : ℕ
  pub evicted_ips : ℕ
  pub capacity_drops : ℕ

unfoldable pub stats : FailTracker → FailTrackerStats
stats f = record {
  tracked_ips = length f.items;
  max_tracked_ips = f.max_items;
  evicted_ips = f.evicted;
  capacity_drops = f.capacity_drop;
}

-- The loop of `snapshotBlocked`.
unfoldable pub blocked_entries : ℕ → Map String FailState → List BlockedIpState
blocked_entries now [] = []
blocked_entries now ((ip, st) ∷ items) =
    let rest = blocked_entries now items in
    if st.blocked_until == 0 || not (ltb now st.blocked_until)
    then rest
    else record {
      ip = ip;
      blocked_until = st.blocked_until;
      remaining_sec = (st.blocked_until - now) / second;
    }
      ∷ rest

unfoldable pub snapshot_blocked : ℕ → FailTracker → List BlockedIpState
snapshot_blocked now f = blocked_entries now f.items

blocked_entries_run :
    (now : ℕ) (items : Map String FailState)
    → All (λ (b : BlockedIpState). now < b.blocked_until) (blocked_entries now items)
unfolding blocked_entries
blocked_entries_run now [] = tt
blocked_entries_run now ((ip, st) ∷ items) =
    elim (Bool-cases (st.blocked_until == 0 || not (ltb now st.blocked_until))) [
      | inl h ↦ rw h (blocked_entries_run now items)
      | inr h ↦ rw h (ground arith, blocked_entries_run now items)
    ]
