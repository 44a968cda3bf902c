-- ===== src/Server/Lifecycle/Tracking.antt =====
-- The connections that src/server/tunnel/lifecycle.go tracks and that are open are those that hold a
-- lease of the connection limiter, but for the one that the accept loop is about to track.
use lsyl_tunnel.Base.{
  ℕ, suc, ◌+◌, ◌<◌, ◌≡◌, refl, sym, ap, ◌∙◌, inl, inr, Bool, true, false, none, some, List, [], ◌∷◌,
  ◌++◌, ◌==◌, if_true, if_false, either, Bool-cases, Option-cases, length, length-append, arith,
}
use lsyl_tunnel.ConnectionLimiter.{LimitConfig, acquire, granted, refused}
use lsyl_tunnel.ConnectionLimiter.Leases.{
  Lease, Ledger, Inv, Falling, take_lease, record_reply, closes, connects, sweeps, start, start-Inv,
  step-Inv, step as ledger_step,
}
use lsyl_tunnel.Server.Lifecycle.{
  Accepting, waiting, stopped, leased, tracked, Lifecycle, new_lifecycle, has_id, remove_id,
  begin_worker, worker_done, close_body, close_conn, forget_conn, map_keys, accept, after_acquire,
  track_entry_conn, handed_over, start_handler, shut, close_first, close_next, accept_step, Event,
  accepts, closes_conn, forgets, worker_starts, worker_ends, cleans, shuts, closes_next, step, run,
}

abbrev pub ids : List Lease → List ℕ
ids [] = []
ids (x ∷ xs) = x.id ∷ ids xs

abbrev pub in_flight : Accepting → List ℕ
in_flight waiting = []
in_flight stopped = []
in_flight (leased id) = id ∷ []
in_flight (tracked id) = []

length-ids : (xs : List Lease) → length xs ≡ length (ids xs)
length-ids [] = refl
length-ids (x ∷ xs) = ap suc (length-ids xs)

remove_id-absent : (id : ℕ) (xs : List ℕ) → has_id id xs ≡ false → remove_id id xs ≡ xs
unfolding remove_id
remove_id-absent id [] h = refl
remove_id-absent id (x ∷ xs) h = ground (arith, remove_id-absent id xs)

take_lease_absent :
    (id : ℕ) (xs : List Lease) → take_lease id xs ≡ none → has_id id (ids xs) ≡ false
unfolding take_lease
take_lease_absent id [] h = refl
take_lease_absent id (x ∷ xs) h = elim (Option-cases (take_lease id xs)) [
  | inl e ↦ ground (arith, take_lease_absent id xs e)
  | inr (r, e) ↦ ground arith
]

take_lease_ids :
    (id : ℕ) (xs rest : List Lease) (ip : _)
    → take_lease id xs ≡ some (ip, rest)
    → ids rest ≡ remove_id id (ids xs)
unfolding take_lease remove_id
take_lease_ids id [] rest ip h = ground arith
take_lease_ids id (x ∷ xs) rest ip h = elim (Option-cases (take_lease id xs)) [
  | inl e ↦ ground arith
  | inr ((ip', rest'), e) ↦ ground (arith, take_lease_ids id xs rest' ip' e)
]

-- What a release function does to the leases.
closes_ids :
    (g : Ledger) (id now : ℕ)
    → ids (ledger_step g (closes id now)).leases ≡ remove_id id (ids g.leases)
unfolding ledger_step
closes_ids g id now = elim (Option-cases (take_lease id g.leases)) [
  | inl e ↦
      rw (e, ledger_step)
        (sym (remove_id-absent id (ids g.leases) (take_lease_absent id g.leases e)))
  | inr ((ip, rest), e) ↦ rw (e, ledger_step) (take_lease_ids id g.leases rest ip e)
]

sweeps_ids : (g : Ledger) (now : ℕ) → ids (ledger_step g (sweeps now)).leases ≡ ids g.leases
unfolding ledger_step
sweeps_ids g now = refl

Falling-has : (n id : ℕ) (xs : List Lease) → Falling n xs → has_id id (ids xs) ≡ true → id < n
Falling-has n id [] f h = ground arith
Falling-has n id (x ∷ xs) f h = ground (arith, Falling-has x.id id xs f.1)

-- The leases are those of the tracked connections, after the one that the accept loop holds.
pub record Tracks (s : Lifecycle) : Type 0 where
  pub counted : Inv s.ledger
  pub held : ids s.ledger.leases ≡ in_flight s.accepting ++ s.conns

pub new_lifecycle-Tracks : (cfg : LimitConfig) → Tracks (new_lifecycle cfg)
unfolding new_lifecycle start
new_lifecycle-Tracks cfg = record { counted = start-Inv cfg; held = refl }

-- A tracked connection is closed: the lease that the accept loop holds is another.
remove_tracked :
    (a : Accepting) (id n : ℕ) (xs : List Lease) (conns : List ℕ)
    → Falling n xs
    → ids xs ≡ in_flight a ++ conns
    → has_id id conns ≡ true
    → remove_id id (ids xs) ≡ in_flight a ++ remove_id id conns
unfolding remove_id
remove_tracked waiting id n xs conns f h p = ap (remove_id id) h
remove_tracked stopped id n xs conns f h p = ap (remove_id id) h
remove_tracked (tracked k) id n xs conns f h p = ap (remove_id id) h
remove_tracked (leased k) id n [] conns f h p = ground arith
remove_tracked (leased k) id n (x ∷ xs) conns f h p =
    let heads : x.id ≡ k = cc in
    let tails : ids xs ≡ conns = cc in
    let before = Falling-has x.id id xs f.1 (ap (has_id id) tails ∙ p) in
    ap (remove_id id) h ∙ if_false {b = k == id} conns (k ∷ remove_id id conns) (ground arith)

accept-Tracks :
    (addr : _) (now : ℕ) (s : Lifecycle)
    → s.accepting ≡ waiting
    → Tracks s
    → Tracks (accept addr now s)
unfolding accept ledger_step record_reply after_acquire
accept-Tracks addr now s w v = record {
  counted = step-Inv s.ledger (connects addr now) v.counted;
  held = answered (acquire addr now s.ledger.limiter);
}
  where
    answered :
        (answer : _)
        → ids (record_reply addr s.ledger answer).leases
          ≡ in_flight (after_acquire s.ledger.next_id answer.1) ++ s.conns
    answered (l, granted) =
        ap (λ xs. s.ledger.next_id ∷ xs) (v.held ∙ ap (λ a. in_flight a ++ s.conns) w)
    answered (l, refused r) = v.held ∙ ap (λ a. in_flight a ++ s.conns) w

held_at :
    (s : Lifecycle) (a : Accepting)
    → s.accepting ≡ a
    → Tracks s
    → ids s.ledger.leases ≡ in_flight a ++ s.conns
held_at s a e v = v.held ∙ ap (λ b. in_flight b ++ s.conns) e

first_removed :
    (id : ℕ) (s : Lifecycle)
    → s.accepting ≡ leased id
    → Tracks s
    → remove_id id (ids s.ledger.leases) ≡ s.conns
unfolding remove_id
first_removed id s a v =
    let all = held_at s (leased id) a v in
    ap (remove_id id) all
    ∙ if_true {b = id == id} s.conns (id ∷ remove_id id s.conns) (ground arith)

track_entry_conn-Tracks :
    (id now : ℕ) (s : Lifecycle)
    → s.accepting ≡ leased id
    → Tracks s
    → Tracks (track_entry_conn id now s)
unfolding track_entry_conn
track_entry_conn-Tracks id now s a v = elim (Bool-cases s.closing) [
  | inl e ↦
      rw (e, track_entry_conn)
        (record {
          counted = step-Inv s.ledger (closes id now) v.counted;
          held = closes_ids s.ledger id now ∙ first_removed id s a v;
        })
  | inr e ↦
      rw (e, track_entry_conn) (record { counted = v.counted; held = held_at s (leased id) a v })
]

close_body-Tracks :
    (id now : ℕ) (s : Lifecycle)
    → has_id id s.conns ≡ true
    → Tracks s
    → Tracks (close_body id now s)
unfolding close_body
close_body-Tracks id now s h v = record {
  counted = step-Inv s.ledger (closes id now) v.counted;
  held =
      closes_ids s.ledger id now
      ∙ remove_tracked s.accepting id s.ledger.next_id s.ledger.leases s.conns v.counted.ids v.held
          h;
}

close_conn-Tracks : (id now : ℕ) (s : Lifecycle) → Tracks s → Tracks (close_conn id now s)
unfolding close_conn
close_conn-Tracks id now s v = elim (Bool-cases (has_id id s.conns)) [
  | inl e ↦ rw (e, close_conn) (close_body-Tracks id now s e v)
  | inr e ↦ rw (e, close_conn) v
]

close_conn_accepting : (id now : ℕ) (s : Lifecycle) → (close_conn id now s).accepting ≡ s.accepting
unfolding close_conn close_body
close_conn_accepting id now s = ground arith

start_handler-Tracks :
    (id now : ℕ) (s : Lifecycle)
    → s.accepting ≡ tracked id
    → Tracks s
    → Tracks (start_handler id now s)
unfolding start_handler begin_worker handed_over
start_handler-Tracks id now s a v =
    either (λ r. Tracks (handed_over id now r)) s.closing (s, false) _
      (let c = close_conn-Tracks id now s v in
        record {
          counted = c.counted;
          held = held_at (close_conn id now s) (tracked id) (close_conn_accepting id now s ∙ a) c;
        })
      (record { counted = v.counted; held = held_at s (tracked id) a v })

close_first-Tracks :
    (now : ℕ) (xs : List ℕ) (s : Lifecycle) → Tracks s → Tracks (close_first now xs s)
unfolding close_first forget_conn
close_first-Tracks now [] s v = v
close_first-Tracks now (id ∷ xs) s v =
    let c = close_conn-Tracks id now s v in
    either Tracks s.head_closed _ _ (record { counted = v.counted; held = v.held })
      (record { counted = c.counted; held = c.held })

accept_step-Tracks :
    (addr : _) (now : ℕ) (a : Accepting) (s : Lifecycle)
    → s.accepting ≡ a
    → Tracks s
    → Tracks (accept_step addr now a s)
unfolding accept_step
accept_step-Tracks addr now waiting s e v = accept-Tracks addr now s e v
accept_step-Tracks addr now (leased id) s e v = track_entry_conn-Tracks id now s e v
accept_step-Tracks addr now (tracked id) s e v = start_handler-Tracks id now s e v
accept_step-Tracks addr now stopped s e v = v

pub step-Tracks : (s : Lifecycle) (e : Event) → Tracks s → Tracks (step s e)
unfolding step begin_worker worker_done shut close_next forget_conn
step-Tracks s (accepts addr now) v = accept_step-Tracks addr now s.accepting s refl v
step-Tracks s (closes_conn id now) v = close_conn-Tracks id now s v
step-Tracks s (forgets id) v = record { counted = v.counted; held = v.held }
step-Tracks s worker_starts v =
    either (λ (r : Lifecycle × Bool). Tracks r.0) s.closing (s, false) _ v
      (record { counted = v.counted; held = v.held })
step-Tracks s worker_ends v = record { counted = v.counted; held = v.held }
step-Tracks s (cleans now) v = record {
  counted = step-Inv s.ledger (sweeps now) v.counted;
  held = sweeps_ids s.ledger now ∙ v.held;
}
step-Tracks s shuts v =
    either Tracks s.closing s _ v (record { counted = v.counted; held = v.held })
step-Tracks s (closes_next now) v = close_first-Tracks now s.snapshot s v

pub run-Tracks : (s : Lifecycle) (es : List Event) → Tracks s → Tracks (run s es)
run-Tracks s [] v = v
run-Tracks s (e ∷ es) v = run-Tracks (step s e) es (step-Tracks s e v)

pub Tracks-total :
    (s : Lifecycle)
    → Tracks s
    → s.ledger.limiter.active_total ≡ length (in_flight s.accepting) + length s.conns
Tracks-total s v =
    v.counted.total
    ∙ length-ids s.ledger.leases
    ∙ ap (λ (xs : List ℕ). length xs) v.held
    ∙ length-append (in_flight s.accepting) s.conns

-- From a new server on, whatever happens in whatever order, the limiter's count of active connections
-- and the connections whose `Close` has given the lease back and is about to delete the key, are together
-- as many as the keys of the server's map of connections, and one more while the accept loop holds a
-- lease that it has not tracked yet: no connection that has ended keeps its place in the limiter.
pub leases_tracked :
    (cfg : LimitConfig) (es : List Event)
    → let s = run (new_lifecycle cfg) es in
      s.ledger.limiter.active_total + length s.leaving
      ≡ length (in_flight s.accepting) + length (map_keys s)
leases_tracked cfg es =
    let s = run (new_lifecycle cfg) es in
    omega (
      arith,
      Tracks-total s (run-Tracks (new_lifecycle cfg) es (new_lifecycle-Tracks cfg)),
      length-append s.conns s.leaving,
    )
