-- ===== src/Server/Lifecycle.antt =====
-- src/server/tunnel/lifecycle.go and the accept loop of server.go: the workers and the connections of a
-- running server, and its shutdown. The calls of all goroutines are one sequence of events. A call that
-- holds the lock is one event, so that any call of another goroutine may come between two events.
pub mod Tracking
pub mod Rounds
pub mod Shutdown
pub mod Drain
use lsyl_tunnel.Base.{
  ℕ, ◌+◌, ◌-◌, String, Bool, true, false, ◌||◌, List, [], ◌∷◌, ◌++◌, ◌==◌, if◌then◌else◌,
}
use lsyl_tunnel.ConnectionLimiter.{LimitConfig, Reply, granted, refused, acquire}
use lsyl_tunnel.ConnectionLimiter.Leases.{
  Ledger, record_reply, connects, closes, sweeps, start as start_ledger, step as ledger_step,
}

-- Where the accept loop stands: before `Accept`, with the lease of a connection that is not tracked
-- yet, with a tracked connection that has no worker yet, or at its end.
pub data Accepting : Type 0 where
  waiting stopped : Accepting
  leased tracked : ℕ → Accepting

-- A connection is named by its lease. The keys of `lifecycle.conns` are in two parts: those in `conns`
-- are open, and those in `leaving` have run the first half of `entryConn.Close`, which gives the lease
-- back, and not yet the second, which deletes the key. `snapshot` is what the loop of `Close` has left to
-- close, `head_closed` says that it is between the two halves for the first of them, and `workers` is the
-- count of the wait group.
pub record Lifecycle : Type 0 where
  pub ledger : Ledger
  pub closing : Bool
  pub conns : List ℕ
  pub leaving : List ℕ
  pub workers : ℕ
  pub accepting : Accepting
  pub snapshot : List ℕ
  pub head_closed : Bool

unfoldable pub new_lifecycle : LimitConfig → Lifecycle
new_lifecycle cfg = record {
  ledger = start_ledger cfg;
  closing = false;
  conns = [];
  leaving = [];
  workers = 0;
  accepting = waiting;
  snapshot = [];
  head_closed = false;
}

abbrev pub has_id : ℕ → List ℕ → Bool
has_id id [] = false
has_id id (x ∷ xs) = x == id || has_id id xs

unfoldable pub remove_id : ℕ → List ℕ → List ℕ
remove_id id [] = []
remove_id id (x ∷ xs) = let rest = remove_id id xs in if x == id then xs else x ∷ rest

-- `beginWorker`; the Boolean is its result.
unfoldable pub begin_worker : Lifecycle → Lifecycle × Bool
begin_worker s = if s.closing then (s, false) else (record s { workers = s.workers + 1 }, true)

-- `workers.Done()`
unfoldable pub worker_done : Lifecycle → Lifecycle
worker_done s = record s { workers = s.workers - 1 }

unfoldable pub remove_all : ℕ → List ℕ → List ℕ
remove_all id [] = []
remove_all id (x ∷ xs) = let rest = remove_all id xs in if x == id then rest else x ∷ rest

-- The keys of `lifecycle.conns`.
abbrev pub map_keys : Lifecycle → List ℕ
map_keys s = s.conns ++ s.leaving

-- The first half of what `entryConn.Close` does the first time: the connection is closed and its lease
-- given back.
unfoldable pub close_body : ℕ → ℕ → Lifecycle → Lifecycle
close_body id now s = record s {
  ledger = ledger_step s.ledger (closes id now);
  conns = remove_id id s.conns;
  leaving = id ∷ s.leaving;
}

-- `entryConn.Close` on a connection that was tracked, up to the end of the first half: where the
-- connection is not open any more, `closeOnce` has begun, and the call does nothing but wait.
unfoldable pub close_conn : ℕ → ℕ → Lifecycle → Lifecycle
close_conn id now s = if has_id id s.conns then close_body id now s else s

-- The second half of `entryConn.Close`, under the lock.
unfoldable pub forget_conn : ℕ → Lifecycle → Lifecycle
forget_conn id s = record s { leaving = remove_all id s.leaving }

unfoldable pub after_acquire : ℕ → Reply → Accepting
after_acquire id granted = leased id
after_acquire id (refused _) = waiting

-- `connLimiter.acquire` in the accept loop.
unfoldable pub accept : String → ℕ → Lifecycle → Lifecycle
unfolding after_acquire
accept addr now s =
    let answer = acquire addr now s.ledger.limiter in
    record s {
      ledger = record_reply addr s.ledger answer;
      accepting = after_acquire s.ledger.next_id answer.1;
    }

-- `trackEntryConn`; the accept loop ends where it gives none. The connection that it then closes is not
-- in the map, so that the second half of the closing deletes nothing.
unfoldable pub track_entry_conn : ℕ → ℕ → Lifecycle → Lifecycle
track_entry_conn id now s =
    if s.closing
    then record s { ledger = ledger_step s.ledger (closes id now); accepting = stopped }
    else record s { conns = id ∷ s.conns; accepting = tracked id }

unfoldable pub handed_over : ℕ → ℕ → Lifecycle × Bool → Lifecycle
handed_over id now (s, true) = record s { accepting = waiting }
handed_over id now (s, false) = record (close_conn id now s) { accepting = stopped }

-- `startWorker` for a tracked connection, and the end of the accept loop where it gives `false`.
unfoldable pub start_handler : ℕ → ℕ → Lifecycle → Lifecycle
unfolding handed_over
start_handler id now s = handed_over id now (begin_worker s)

-- The part of `Close` that holds the lock.
unfoldable pub shut : Lifecycle → Lifecycle
shut s = record s { closing = true; snapshot = map_keys s; head_closed = false }

unfoldable pub close_first : ℕ → List ℕ → Lifecycle → Lifecycle
close_first now [] s = s
close_first now (id ∷ ids) s =
    if s.head_closed
    then record (forget_conn id s) { snapshot = ids; head_closed = false }
    else record (close_conn id now s) { head_closed = true }

-- Half a round of the loop of `Close` over its snapshot: one half of the closing of the first connection.
-- Where a handler has begun to close it, the loop waits until the handler's second half, which the model
-- then takes in this step.
unfoldable pub close_next : ℕ → Lifecycle → Lifecycle
unfolding close_first
close_next now s = close_first now s.snapshot s

unfoldable pub accept_step : String → ℕ → Accepting → Lifecycle → Lifecycle
accept_step addr now waiting s = accept addr now s
accept_step addr now (leased id) s = track_entry_conn id now s
accept_step addr now (tracked id) s = start_handler id now s
accept_step addr now stopped s = s

-- What happens next: the accept loop goes on, a handler closes a connection that was tracked (once
-- more, perhaps) or deletes its key, a worker starts or ends, the cleanup loop has its turn, `Close` takes its snapshot,
-- once, or goes half a round on in it.
pub data Event : Type 0 where
  accepts : String → ℕ → Event
  closes_conn : ℕ → ℕ → Event
  forgets : ℕ → Event
  worker_starts worker_ends : Event
  cleans : ℕ → Event
  shuts : Event
  closes_next : ℕ → Event

unfoldable pub step : Lifecycle → Event → Lifecycle
unfolding accept_step
step s (accepts addr now) = accept_step addr now s.accepting s
step s (closes_conn id now) = close_conn id now s
step s (forgets id) = forget_conn id s
step s worker_starts = (begin_worker s).0
step s worker_ends = worker_done s
step s (cleans now) = record s { ledger = ledger_step s.ledger (sweeps now) }
step s shuts = if s.closing then s else shut s
step s (closes_next now) = close_next now s

abbrev pub run : Lifecycle → List Event → Lifecycle
run s [] = s
run s (e ∷ es) = run (step s e) es
