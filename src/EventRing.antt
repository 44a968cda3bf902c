-- ===== src/EventRing.antt =====
-- src/server/tunnel/runtime_event_ring.go: the ring buffer of the recent events.
pub mod Queue
use lsyl_tunnel.Base.{
  ℕ, zero, suc, ◌+◌, ◌%◌, List, [], ◌∷◌, ltb, ◌==◌, if◌then◌else◌, length, get_or, set, replicate,
  tabulate,
}

pub record EventRing (E : Type 0) : Type 0 where
  pub items : List E
  pub start : ℕ
  pub used : ℕ

abbrev pub default_recent_events : ℕ
default_recent_events = 500

-- `zero_event` is Go's zero value of `RuntimeEvent`, which `make` fills the slots with.
module _ {E : Type 0} (zero_event : E) where
  unfoldable pub new_event_ring : ℕ → EventRing E
  new_event_ring capacity = record {
    items = replicate (if capacity == 0 then default_recent_events else capacity) zero_event;
    start = 0;
    used = 0;
  }

  -- `Snapshot`: the slot `(start + i) % len(items)` for each `i < length`.
  unfoldable pub snapshot : EventRing E → List E
  snapshot r = tabulate (λ i. get_or r.items ((r.start + i) % length r.items) zero_event) 0 r.used

unfoldable pub append : {E : Type 0} → E → EventRing E → EventRing E
append event r =
    if length r.items == 0
    then r
    else if ltb r.used (length r.items)
    then record r {
      items = set r.items ((r.start + r.used) % length r.items) event;
      used = r.used + 1;
    }
    else record r { items = set r.items r.start event; start = (r.start + 1) % length r.items }
