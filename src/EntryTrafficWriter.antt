-- ===== src/EntryTrafficWriter.antt =====
-- src/server/tunnel/entry_traffic_writer.go: the queue between the rejection paths and the log file.
-- `stop` is closed together with `closed`, and the goroutine `run` takes one step at a time.
pub mod Delivery
use lsyl_tunnel.Base.{
  ℕ, zero, suc, ◌+◌, ◌≤◌, ◌≡◌, refl, Bool, true, false, List, [], ◌∷◌, ◌++◌, ltb, ◌==◌,
  if◌then◌else◌, length, length-append, arith, ◌∙◌, sym, ap,
}

-- `output` is what `write` was called with; `done` says that `run` returned.
pub record Writer (E : Type 0) : Type 0 where
  pub capacity : ℕ
  pub queue : List E
  pub closed : Bool
  pub done : Bool
  pub output : List E
  pub accepted : ℕ
  pub written : ℕ
  pub dropped : ℕ

unfoldable pub new_async_entry_traffic_log : {E : Type 0} → ℕ → Writer E
new_async_entry_traffic_log capacity = record {
  capacity = if capacity == 0 then 2048 else capacity;
  queue = [];
  closed = false;
  done = false;
  output = [];
  accepted = 0;
  written = 0;
  dropped = 0;
}

-- `Enqueue`
unfoldable pub enqueue : {E : Type 0} → E → Writer E → Writer E
enqueue entry w =
    if w.closed
    then w
    else if ltb (length w.queue) w.capacity
    then record w { queue = w.queue ++ entry ∷ []; accepted = w.accepted + 1 }
    else record w { dropped = w.dropped + 1 }

-- `Close` up to its wait for `done`.
unfoldable pub close : {E : Type 0} → Writer E → Writer E
close w = if w.closed then w else record w { closed = true }

unfoldable pub write_entry : {E : Type 0} → E → Writer E → Writer E
write_entry entry w = record w { output = w.output ++ entry ∷ []; written = w.written + 1 }

unfoldable pub drain_step : {E : Type 0} → List E → Writer E → Writer E
unfolding write_entry
drain_step [] w = if w.closed then record w { done = true } else w
drain_step (entry ∷ rest) w = write_entry entry (record w { queue = rest })

-- One round of `run`: an entry is written; with none left it waits, or returns once stopped.
unfoldable pub run_step : {E : Type 0} → Writer E → Writer E
unfolding drain_step
run_step w = if w.done then w else drain_step w.queue w

pub data Event (E : Type 0) : Type 0 where
  enqueues : E → Event E
  closes : Event E
  runs : Event E

unfoldable pub step : {E : Type 0} → Writer E → Event E → Writer E
step w (enqueues entry) = enqueue entry w
step w closes = close w
step w runs = run_step w

unfoldable pub run : {E : Type 0} → Writer E → List (Event E) → Writer E
run w [] = w
run w (e ∷ es) = run (step w e) es
