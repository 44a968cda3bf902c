-- ===== src/Server/ReverseListener/Moving.antt =====
-- The steps of a connection that has come to a reverse listener of src/server/tunnel/reverse.go, from
-- its arrival to its end.
use lsyl_tunnel.Base.{
  ℕ, ◌+◌, ◌≡◌, refl, sym, ap, ◌∙◌, String, Bool, true, none, either_by, either_option, true-false,
  String_discrete, find, arith,
}
use lsyl_tunnel.Server.Lifecycle.{has_id, remove_id}
use lsyl_tunnel.Server.ReverseListener.{
  ReverseListener, Reverse, pick_control, add_pending, conns_of, picked, handle_inbound,
  give_up_inbound, pending_or_dropped, make_pending, StreamStart, limit_reached, answer_failed,
  worker_refused, worker_started, after_start, go_on, end_relay,
}
use lsyl_tunnel.Server.ReverseListener.Keeping.{
  occurs, Kept, occurs-put, put-Once, occurs-remove_id,
}

-- Only the places of the connections change, and each keeps one.
moved-Kept :
    (s t : Reverse)
    → t.listener ≡ s.listener
    → ((c : ℕ)
        → occurs c s.arrived
            + (occurs c t.waiting + occurs c t.taken + occurs c t.relayed + occurs c t.dropped)
          ≡ occurs c t.arrived
            + (occurs c s.waiting + occurs c s.taken + occurs c s.relayed + occurs c s.dropped))
    → Kept s
    → Kept t
moved-Kept s t l b k = record {
  once = rw l k.once;
  one_control = rw l k.one_control;
  empty = rw l k.empty;
  balance = λ c.
      omega
        (arith, k.balance c, b c, ap (λ (x : ReverseListener). occurs c (conns_of x.pending)) l);
}

pub arrives-Kept : (conn : ℕ) (s : Reverse) → Kept s → Kept (handle_inbound conn s)
unfolding handle_inbound picked
arrives-Kept conn s k =
    either_option Kept (pick_control s.listener) _ _ (moved-Kept s _ refl (λ c. ground arith) k)
      (λ x. moved-Kept s _ refl (λ c. ground arith) k)

pub no_id-Kept : (conn : ℕ) (s : Reverse) → Kept s → Kept (give_up_inbound conn s)
unfolding give_up_inbound
no_id-Kept conn s k =
    either_by Kept (has_id conn s.waiting) _ _
      (λ h. moved-Kept s _ refl (λ c. ground (arith, occurs-remove_id c conn s.waiting h)) k)
      (λ h. k)

pub make_pending-Kept :
    (stream_id : String) (conn : ℕ) (s : Reverse)
    → find String_discrete stream_id s.listener.pending ≡ none
    → Kept s
    → Kept (make_pending stream_id conn s)
unfolding make_pending add_pending pending_or_dropped
make_pending-Kept stream_id conn s f k =
    either_by Kept (has_id conn s.waiting) _ _
      (λ w.
        either_by (λ (r : ReverseListener × Bool). Kept (pending_or_dropped conn s r))
          s.listener.closed _ _
          (λ h. moved-Kept s _ refl (λ c. ground (arith, occurs-remove_id c conn s.waiting w)) k)
          (λ h. record {
            once = put-Once stream_id conn s.listener.pending f k.once;
            one_control = k.one_control;
            empty = λ e. absurd (true-false (sym e ∙ h));
            balance = λ c. ground (
              arith,
              k.balance c,
              occurs-put c stream_id conn s.listener.pending f,
              occurs-remove_id c conn s.waiting w,
            );
          }))
      (λ w. k)

pub go_on-Kept : (start : StreamStart) (conn : ℕ) (s : Reverse) → Kept s → Kept (go_on start conn s)
unfolding go_on
go_on-Kept start conn s k = either_by Kept (has_id conn s.taken) _ _ (λ h. started start h) (λ h. k)
  where
    started :
        (start : StreamStart)
        → has_id conn s.taken ≡ true
        → Kept (after_start start conn (record s { taken = remove_id conn s.taken }))
    started limit_reached h =
        unfold after_start in
        moved-Kept s _ refl (λ c. ground (arith, occurs-remove_id c conn s.taken h)) k
    started answer_failed h =
        unfold after_start in
        moved-Kept s _ refl (λ c. ground (arith, occurs-remove_id c conn s.taken h)) k
    started worker_refused h =
        unfold after_start in
        moved-Kept s _ refl (λ c. ground (arith, occurs-remove_id c conn s.taken h)) k
    started worker_started h =
        unfold after_start in
        moved-Kept s _ refl (λ c. ground (arith, occurs-remove_id c conn s.taken h)) k

pub ends-Kept : (conn : ℕ) (s : Reverse) → Kept s → Kept (end_relay conn s)
unfolding end_relay
ends-Kept conn s k =
    either_by Kept (has_id conn s.relayed) _ _
      (λ h. moved-Kept s _ refl (λ c. ground (arith, occurs-remove_id c conn s.relayed h)) k)
      (λ h. k)
