-- ===== src/Server/ReverseListener/Inbound.antt =====
-- The fate of the connections that come to a reverse listener of src/server/tunnel/reverse.go.
use lsyl_tunnel.Base.{
  ℕ, ◌+◌, ◌≤◌, ◌≡◌, refl, sym, ap, subst, ◌∙◌, ◌⊎◌, inl, inr, String, true, false, none, some, List,
  [], ◌∷◌, ◌++◌, either, Bool-cases, Option-cases, String_discrete, length, Map, find, delete,
  delete-Once, arith,
}
use lsyl_tunnel.Server.Lifecycle.{remove_id}
use lsyl_tunnel.Server.ReverseListener.{
  ReverseListener, Reverse, close_control, add_control, remove_control, take_pending, conns_of,
  close_pending, close, Event, adds_control, removes_control, arrives, gets_no_id, becomes_pending,
  goes_on, stream_ends, hands_over, expires, closes_pending, closes, hand_over_taken, hand_over,
  expire_taken, expire_pending, step, run, new_reverse,
}
use lsyl_tunnel.Server.ReverseListener.Keeping.{
  occurs, Kept, occurs-append, occurs-delete, new_reverse-Kept,
}
use lsyl_tunnel.Server.ReverseListener.Moving.{
  arrives-Kept, no_id-Kept, make_pending-Kept, go_on-Kept, ends-Kept,
}

-- The stream of an arriving connection has an identifier that no pending one has.
abbrev pub FreshAt : Reverse → Event → Type 0
FreshAt s (becomes_pending stream_id conn) =
    find String_discrete stream_id s.listener.pending ≡ none
FreshAt s e = Unit

abbrev pub Fresh : Reverse → List Event → Type 0
Fresh s [] = Unit
Fresh s (e ∷ es) = FreshAt s e × Fresh (step s e) es

-- The listener changes no pending connection.
listener-Kept :
    (s : Reverse) (l : ReverseListener)
    → l.pending ≡ s.listener.pending
    → l.closed ≡ s.listener.closed
    → length l.controls ≤ 1
    → (l.closed ≡ true → l.controls ≡ [])
    → Kept s
    → Kept (record s { listener = l })
listener-Kept s l p c o e k = record {
  once = rw p k.once;
  one_control = o;
  empty = λ h. (e h, p ∙ (k.empty (sym c ∙ h)).1);
  balance = λ x. rw p (k.balance x);
}

adds-Kept :
    (c : ℕ) (s : Reverse) → Kept s → Kept (record s { listener = (add_control c s.listener).0 })
unfolding add_control
adds-Kept c s k =
    listener-Kept s (add_control c s.listener).0 (ground arith) (ground arith)
      (ground (arith, k.one_control)) (λ h. ground (arith, k.empty)) k

length-remove_id : (c : ℕ) (xs : List ℕ) → length (remove_id c xs) ≤ length xs
unfolding remove_id
length-remove_id c [] = omega arith
length-remove_id c (x ∷ xs) = ground (arith, length-remove_id c xs)

removes-Kept :
    (c : ℕ) (s : Reverse) → Kept s → Kept (record s { listener = remove_control c s.listener })
unfolding remove_control close_control
removes-Kept c s k =
    listener-Kept s (remove_control c s.listener) (ground arith) (ground arith)
      (ground (arith, k.one_control, length-remove_id c s.listener.controls))
      (λ h. nothing_removed c (k.empty (ground arith)).0) k
  where
    nothing_removed :
        (c : ℕ) → s.listener.controls ≡ [] → (remove_control c s.listener).controls ≡ []
    nothing_removed c e = ground arith

-- A pending connection is taken out, and goes to one of the two lists.
taken_out :
    (stream_id : String) (conn : ℕ) (s : Reverse) (taken dropped : List ℕ)
    → find String_discrete stream_id s.listener.pending ≡ some conn
    → ((c : ℕ)
        → occurs c taken + occurs c dropped
          ≡ occurs c (conn ∷ []) + occurs c s.taken + occurs c s.dropped)
    → Kept s
    → Kept (record s {
      listener = record s.listener {
        pending = delete String_discrete stream_id s.listener.pending;
      };
      taken = taken;
      dropped = dropped;
    })
taken_out stream_id conn s taken dropped f b k = record {
  once = delete-Once String_discrete stream_id s.listener.pending k.once;
  one_control = k.one_control;
  empty = λ e. ((k.empty e).0, rw (k.empty e).1 (nothing_deleted stream_id));
  balance = λ c.
      ground (arith, k.balance c, b c, occurs-delete c stream_id conn s.listener.pending k.once f);
}
  where
    nothing_deleted : (key : String) → delete {V = ℕ} String_discrete key [] ≡ []
    nothing_deleted key = unfold delete in refl

take_pending_missing :
    (stream_id : String) (l : ReverseListener)
    → find String_discrete stream_id l.pending ≡ none
    → take_pending stream_id l ≡ (l, none)
unfolding take_pending
take_pending_missing stream_id l e = rw (e, take_pending) refl

take_pending_found :
    (stream_id : String) (conn : ℕ) (l : ReverseListener)
    → find String_discrete stream_id l.pending ≡ some conn
    → take_pending stream_id l
      ≡ (record l { pending = delete String_discrete stream_id l.pending }, some conn)
unfolding take_pending
take_pending_found stream_id conn l e = rw (e, take_pending) refl

hands_over-Kept : (stream_id : String) (s : Reverse) → Kept s → Kept (hand_over stream_id s)
unfolding hand_over hand_over_taken
hands_over-Kept stream_id s k =
    elim (Option-cases (find String_discrete stream_id s.listener.pending)) [
      | inl e ↦
          subst (λ r. Kept (hand_over_taken s r))
            (sym (take_pending_missing stream_id s.listener e)) k
      | inr (conn, e) ↦
          subst (λ r. Kept (hand_over_taken s r))
            (sym (take_pending_found stream_id conn s.listener e))
            (taken_out stream_id conn s (conn ∷ s.taken) s.dropped e (λ c. ground arith) k)
    ]

expires-Kept : (stream_id : String) (s : Reverse) → Kept s → Kept (expire_pending stream_id s)
unfolding expire_pending expire_taken
expires-Kept stream_id s k =
    elim (Option-cases (find String_discrete stream_id s.listener.pending)) [
      | inl e ↦
          subst (λ r. Kept (expire_taken s r)) (sym (take_pending_missing stream_id s.listener e)) k
      | inr (conn, e) ↦
          subst (λ r. Kept (expire_taken s r))
            (sym (take_pending_found stream_id conn s.listener e))
            (taken_out stream_id conn s s.taken (conn ∷ s.dropped) e (λ c. ground arith) k)
    ]

-- All that is pending is dropped, under controls `cs` or under fewer.
all_dropped :
    (s : Reverse) (l : ReverseListener)
    → l.pending ≡ []
    → length l.controls ≤ 1
    → (l.closed ≡ true → l.controls ≡ [])
    → Kept s
    → Kept (record s { listener = l; dropped = conns_of s.listener.pending ++ s.dropped })
all_dropped s l p o e k = record {
  once = rw p tt;
  one_control = o;
  empty = λ h. (e h, p);
  balance = λ c.
      k.balance c
      ∙ omega (
        arith,
        occurs-append c (conns_of s.listener.pending) s.dropped,
        ap (λ (m : Map String ℕ). occurs c (conns_of m)) p,
      );
}

step-Kept : (s : Reverse) (e : Event) → FreshAt s e → Kept s → Kept (step s e)
unfolding step close_pending close
step-Kept s (adds_control c) f k = adds-Kept c s k
step-Kept s (removes_control c) f k = removes-Kept c s k
step-Kept s (arrives conn) f k = arrives-Kept conn s k
step-Kept s (gets_no_id conn) f k = no_id-Kept conn s k
step-Kept s (becomes_pending stream_id conn) f k = make_pending-Kept stream_id conn s f k
step-Kept s (goes_on start conn) f k = go_on-Kept start conn s k
step-Kept s (stream_ends conn) f k = ends-Kept conn s k
step-Kept s (hands_over stream_id) f k = hands_over-Kept stream_id s k
step-Kept s (expires stream_id) f k = expires-Kept stream_id s k
step-Kept s closes_pending f k =
    all_dropped s (close_pending s.listener).0 refl k.one_control (λ h. (k.empty h).0) k
step-Kept s closes f k =
    either
      (λ (r : ReverseListener × List ℕ).
        Kept (record s { listener = r.0; dropped = r.1 ++ s.dropped }))
      s.listener.closed _ _ k (all_dropped s _ refl (omega arith) (λ h. refl) k)

run-Kept : (s : Reverse) (es : List Event) → Fresh s es → Kept s → Kept (run s es)
run-Kept s [] f k = k
run-Kept s (e ∷ es) f k = run-Kept (step s e) es f.1 (step-Kept s e f.0 k)

-- Whatever happens to a reverse listener, in whatever order: at most one control connection is
-- active, and a closed listener has neither a control nor a pending connection. Each inbound
-- connection that has arrived is, as often as it came, in one place and no other: its worker is about to
-- make it pending, it is pending, a request for a stream has taken it and goes on with it, a stream relays
-- it, or it is closed, and each is lost on no path. The identifier of a connection that becomes pending is
-- none that is.
pub inbound_once :
    (es : List Event) (conn : ℕ)
    → Fresh new_reverse es
    → let s = run new_reverse es in
      (length s.listener.controls ≤ 1)
      × ((s.listener.closed ≡ false) ⊎ ((s.listener.controls ≡ []) × (s.listener.pending ≡ [])))
      × (occurs conn s.arrived
          ≡ occurs conn s.waiting
            + occurs conn (conns_of s.listener.pending)
            + occurs conn s.taken
            + occurs conn s.relayed
            + occurs conn s.dropped)
inbound_once es conn f =
    let k = run-Kept new_reverse es f new_reverse-Kept in
    (
      k.one_control,
      elim (Bool-cases (run new_reverse es).listener.closed) [
        | inl e ↦ inr (k.empty e)
        | inr e ↦ inl e
      ],
      k.balance conn,
    )
