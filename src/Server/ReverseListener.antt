-- ===== src/Server/ReverseListener.antt =====
-- src/server/tunnel/reverse.go: a reverse listener with its control connection and the inbound connections
-- that wait for their stream. Each method holds the listener's mutex; a control and a connection are numbers.
pub mod Inbound
pub mod Keeping
pub mod Moving
use lsyl_tunnel.Base.{
  ℕ, String, Bool, true, false, not, ◌&&◌, ◌||◌, Option, none, some, List, [], ◌∷◌, ◌++◌, ltb, ◌==◌,
  if◌then◌else◌, String_discrete, length, Map, find, put, delete,
}
use lsyl_tunnel.Server.Lifecycle.{has_id, remove_id}

-- `closed_controls` are the controls whose `close` has run, and `listening` is whether `ln` is open.
pub record ReverseListener : Type 0 where
  pub controls : List ℕ
  pub pending : Map String ℕ
  pub closed : Bool
  pub listening : Bool
  pub closed_controls : List ℕ

abbrev pub new_listener : ReverseListener
new_listener = record {
  controls = [];
  pending = [];
  closed = false;
  listening = true;
  closed_controls = [];
}

-- `reverseControl.close`, which `closeOnce` lets run once.
unfoldable pub close_control : ℕ → ReverseListener → ReverseListener
close_control c l =
    if has_id c l.closed_controls then l else record l { closed_controls = c ∷ l.closed_controls }

-- `addControl`
unfoldable pub add_control : ℕ → ReverseListener → ReverseListener × Bool
add_control c l =
    if l.closed || ltb 0 (length l.controls)
    then (l, false)
    else (record l { controls = c ∷ l.controls }, true)

-- `removeControl`
unfoldable pub remove_control : ℕ → ReverseListener → ReverseListener
remove_control c l =
    if has_id c l.controls
    then close_control c (record l { controls = remove_id c l.controls })
    else l

unfoldable pub first : List ℕ → Option ℕ
first [] = none
first (c ∷ cs) = some c

-- `pickControl`
unfoldable pub pick_control : ReverseListener → Option ℕ
unfolding first
pick_control l = first l.controls

-- `addPending`
unfoldable pub add_pending : String → ℕ → ReverseListener → ReverseListener × Bool
add_pending stream_id conn l =
    if l.closed
    then (l, false)
    else (record l { pending = put String_discrete stream_id conn l.pending }, true)

-- `takePending`
unfoldable pub take_pending : String → ReverseListener → ReverseListener × Option ℕ
take_pending stream_id l = elim (find String_discrete stream_id l.pending) [
  | none ↦ (l, none)
  | some conn ↦ (record l { pending = delete String_discrete stream_id l.pending }, some conn)
]

abbrev pub conns_of : Map String ℕ → List ℕ
conns_of [] = []
conns_of ((stream_id, conn) ∷ m) = conn ∷ conns_of m

-- `closePending`, with the connections that it closes.
unfoldable pub close_pending : ReverseListener → ReverseListener × List ℕ
close_pending l = (record l { pending = [] }, conns_of l.pending)

-- `isIdle`
unfoldable pub is_idle : ReverseListener → Bool
is_idle l = length l.controls == 0 && length l.pending == 0

unfoldable pub close_controls : List ℕ → ReverseListener → ReverseListener
close_controls [] l = l
close_controls (c ∷ cs) l = close_controls cs (close_control c l)

-- `close`, with the connections that it closes; `closeOnce` lets it run once.
unfoldable pub close : ReverseListener → ReverseListener × List ℕ
unfolding close_controls
close l = if l.closed then (l, []) else (
  record (close_controls l.controls l) {
    controls = [];
    pending = [];
    closed = true;
    listening = false;
  },
  conns_of l.pending,
)

-- The listener with the inbound connections that have come: those whose worker has picked a control and
-- has not made them pending yet (`waiting`), those that `registerReverseStream` has taken and that have
-- no stream yet (`taken`), those that a stream relays, and those that were closed.
pub record Reverse : Type 0 where
  pub listener : ReverseListener
  pub arrived : List ℕ
  pub waiting : List ℕ
  pub taken : List ℕ
  pub relayed : List ℕ
  pub dropped : List ℕ

-- How `registerReverseStream` goes on with a connection that it has taken: the account is at its limit,
-- the answer cannot be written, the worker does not start, or it does.
pub data StreamStart : Type 0 where
  limit_reached answer_failed worker_refused worker_started : StreamStart

-- The steps of the workers, of which each holds the listener's mutex at most once, so that those of
-- others may come in between. A control comes or goes; an inbound connection arrives, gets no identifier,
-- or is made pending; a request for a stream takes it over and goes on with it; the stream ends; a pending
-- connection expires or its worker ends; and the pending connections or the whole listener are closed.
pub data Event : Type 0 where
  adds_control removes_control : ℕ → Event
  arrives gets_no_id : ℕ → Event
  becomes_pending : String → ℕ → Event
  hands_over expires : String → Event
  goes_on : StreamStart → ℕ → Event
  stream_ends : ℕ → Event
  closes_pending closes : Event

unfoldable pub picked : ℕ → Reverse → Option ℕ → Reverse
picked conn s none = record s { arrived = conn ∷ s.arrived; dropped = conn ∷ s.dropped }
picked conn s (some c) = record s { arrived = conn ∷ s.arrived; waiting = conn ∷ s.waiting }

-- The first part of `handleReverseInbound`, `pickControl` and the end where there is no control.
unfoldable pub handle_inbound : ℕ → Reverse → Reverse
unfolding picked
handle_inbound conn s = picked conn s (pick_control s.listener)

-- `newReverseStreamID` fails.
unfoldable pub give_up_inbound : ℕ → Reverse → Reverse
give_up_inbound conn s =
    if has_id conn s.waiting
    then record s { waiting = remove_id conn s.waiting; dropped = conn ∷ s.dropped }
    else s

unfoldable pub pending_or_dropped : ℕ → Reverse → ReverseListener × Bool → Reverse
pending_or_dropped conn s (l, true) = record s { listener = l; waiting = remove_id conn s.waiting }
pending_or_dropped conn s (l, false) = record s {
  listener = l;
  waiting = remove_id conn s.waiting;
  dropped = conn ∷ s.dropped;
}

-- `addPending` in `handleReverseInbound`, for a connection whose worker is there.
unfoldable pub make_pending : String → ℕ → Reverse → Reverse
unfolding pending_or_dropped
make_pending stream_id conn s =
    if has_id conn s.waiting
    then pending_or_dropped conn s (add_pending stream_id conn s.listener)
    else s

unfoldable pub hand_over_taken : Reverse → ReverseListener × Option ℕ → Reverse
hand_over_taken s (l, none) = record s { listener = l }
hand_over_taken s (l, some conn) = record s { listener = l; taken = conn ∷ s.taken }

-- `takePending` in `registerReverseStream`.
unfoldable pub hand_over : String → Reverse → Reverse
unfolding hand_over_taken
hand_over stream_id s = hand_over_taken s (take_pending stream_id s.listener)

unfoldable pub after_start : StreamStart → ℕ → Reverse → Reverse
after_start limit_reached conn s = record s { dropped = conn ∷ s.dropped }
after_start answer_failed conn s = record s { dropped = conn ∷ s.dropped }
after_start worker_refused conn s = record s { dropped = conn ∷ s.dropped }
after_start worker_started conn s = record s { relayed = conn ∷ s.relayed }

-- The rest of `registerReverseStream` on a connection that it has taken.
unfoldable pub go_on : StreamStart → ℕ → Reverse → Reverse
unfolding after_start
go_on start conn s =
    if has_id conn s.taken
    then after_start start conn (record s { taken = remove_id conn s.taken })
    else s

-- The deferred `inbound.Close` of the worker of a stream.
unfoldable pub end_relay : ℕ → Reverse → Reverse
end_relay conn s =
    if has_id conn s.relayed
    then record s { relayed = remove_id conn s.relayed; dropped = conn ∷ s.dropped }
    else s

unfoldable pub expire_taken : Reverse → ReverseListener × Option ℕ → Reverse
expire_taken s (l, none) = record s { listener = l }
expire_taken s (l, some conn) = record s { listener = l; dropped = conn ∷ s.dropped }

-- `expireReversePending`, and the deferred part of `handleReverseInbound`.
unfoldable pub expire_pending : String → Reverse → Reverse
unfolding expire_taken
expire_pending stream_id s = expire_taken s (take_pending stream_id s.listener)

unfoldable pub step : Reverse → Event → Reverse
step s (adds_control c) = record s { listener = (add_control c s.listener).0 }
step s (removes_control c) = record s { listener = remove_control c s.listener }
step s (arrives conn) = handle_inbound conn s
step s (gets_no_id conn) = give_up_inbound conn s
step s (becomes_pending stream_id conn) = make_pending stream_id conn s
step s (hands_over stream_id) = hand_over stream_id s
step s (goes_on start conn) = go_on start conn s
step s (stream_ends conn) = end_relay conn s
step s (expires stream_id) = expire_pending stream_id s
step s closes_pending = record s {
  listener = (close_pending s.listener).0;
  dropped = (close_pending s.listener).1 ++ s.dropped;
}
step s closes = record s {
  listener = (close s.listener).0;
  dropped = (close s.listener).1 ++ s.dropped;
}

abbrev pub run : Reverse → List Event → Reverse
run s [] = s
run s (e ∷ es) = run (step s e) es

abbrev pub new_reverse : Reverse
new_reverse = record {
  listener = new_listener;
  arrived = [];
  waiting = [];
  taken = [];
  relayed = [];
  dropped = [];
}
