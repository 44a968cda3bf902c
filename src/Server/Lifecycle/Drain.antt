-- ===== src/Server/Lifecycle/Drain.antt =====
-- A server that shuts down, src/server/tunnel/lifecycle.go: its workers end, and its connections give
-- their places in the limiter back.
use lsyl_tunnel.Base.{
  ℕ, suc, ◌+◌, ◌-◌, ◌*◌, ap₂, ◌++◌, ◌||◌, true-false, length-append, ◌≤◌, ◌≡◌, refl, sym, ap, subst,
  ◌∙◌, Bool, true, false, List, [], ◌∷◌, if_true, if_false, length, arith,
}
use lsyl_tunnel.ConnectionLimiter.{LimitConfig}
use lsyl_tunnel.Server.Lifecycle.{
  Lifecycle, new_lifecycle, has_id, begin_worker, worker_done, map_keys, shut, close_next, Event,
  accepts, closes_conn, forgets, worker_starts, worker_ends, cleans, shuts, closes_next, step, run,
}
use lsyl_tunnel.Server.Lifecycle.Tracking.{
  in_flight, Tracks, step-Tracks, run-Tracks, new_lifecycle-Tracks, Tracks-total,
}
use lsyl_tunnel.Server.Lifecycle.Shutdown.{
  in_map, forget_conn-Keeps, Keeps, Keeps-refl, close_conn-Keeps, accept_step-Keeps,
}
use lsyl_tunnel.Server.Lifecycle.Rounds.{Within, to_do, Keeps-Within, close_first-Round}

-- How often a worker ends, and how many half rounds the loop of `Close` makes.
abbrev pub ends_in : List Event → ℕ
ends_in [] = 0
ends_in (worker_ends ∷ es) = suc (ends_in es)
ends_in (accepts addr now ∷ es) = ends_in es
ends_in (closes_conn id now ∷ es) = ends_in es
ends_in (forgets id ∷ es) = ends_in es
ends_in (worker_starts ∷ es) = ends_in es
ends_in (cleans now ∷ es) = ends_in es
ends_in (shuts ∷ es) = ends_in es
ends_in (closes_next now ∷ es) = ends_in es

abbrev pub rounds_in : List Event → ℕ
rounds_in [] = 0
rounds_in (closes_next now ∷ es) = suc (rounds_in es)
rounds_in (accepts addr now ∷ es) = rounds_in es
rounds_in (closes_conn id now ∷ es) = rounds_in es
rounds_in (forgets id ∷ es) = rounds_in es
rounds_in (worker_starts ∷ es) = rounds_in es
rounds_in (worker_ends ∷ es) = rounds_in es
rounds_in (cleans now ∷ es) = rounds_in es
rounds_in (shuts ∷ es) = rounds_in es

-- What one event does once `closing` is set.
record Closing (s : Lifecycle) (e : Event) : Type 0 where
  closing : (step s e).closing ≡ true
  within : Within (step s e)
  rounds :
      to_do (step s e).snapshot (step s e).head_closed
      ≡ to_do s.snapshot s.head_closed - rounds_in (e ∷ [])
  workers : (step s e).workers ≡ s.workers - ends_in (e ∷ [])

Keeps-Closing :
    (s : Lifecycle) (e : Event)
    → s.closing ≡ true
    → Within s
    → rounds_in (e ∷ []) ≡ 0
    → ends_in (e ∷ []) ≡ 0
    → Keeps s (step s e)
    → Closing s e
Keeps-Closing s e c w r d k = record {
  closing = k.closing ∙ c;
  within = Keeps-Within s (step s e) k w;
  rounds = ap₂ to_do k.snapshot k.head_closed ∙ omega (arith, r);
  workers = k.workers ∙ omega (arith, d);
}

step-Closing : (s : Lifecycle) (e : Event) → s.closing ≡ true → Tracks s → Within s → Closing s e
unfolding step begin_worker worker_done shut close_next
step-Closing s (accepts addr now) c v w =
    Keeps-Closing s (accepts addr now) c w refl refl (accept_step-Keeps addr now s.accepting s c)
step-Closing s (closes_conn id now) c v w =
    Keeps-Closing s (closes_conn id now) c w refl refl (close_conn-Keeps id now s)
step-Closing s (forgets id) c v w =
    Keeps-Closing s (forgets id) c w refl refl (forget_conn-Keeps id s)
step-Closing s worker_starts c v w =
    Keeps-Closing s worker_starts c w refl refl
      (subst (λ (r : Lifecycle × Bool). Keeps s r.0) (sym (if_true _ _ c)) (Keeps-refl s))
step-Closing s worker_ends c v w = record {
  closing = c;
  within = record { listed = w.listed; gone = w.gone };
  rounds = omega arith;
  workers = refl;
}
step-Closing s (cleans now) c v w = Keeps-Closing s (cleans now) c w refl refl (record {
  closing = refl;
  snapshot = refl;
  workers = refl;
  head_closed = refl;
  conns = λ id h. h;
  mapped = λ id h. h;
})
step-Closing s shuts c v w =
    Keeps-Closing s shuts c w refl refl (subst (Keeps s) (sym (if_true _ _ c)) (Keeps-refl s))
step-Closing s (closes_next now) c v w =
    let r = close_first-Round now s.snapshot s refl v w in
    record {
      closing = r.closing ∙ c;
      within = r.within;
      rounds = r.rounds;
      workers = r.workers ∙ omega arith;
    }

-- What events do once `closing` is set.
record Drained (s : Lifecycle) (es : List Event) : Type 0 where
  within : Within (run s es)
  rounds :
      to_do (run s es).snapshot (run s es).head_closed
      ≡ to_do s.snapshot s.head_closed - rounds_in es
  workers : (run s es).workers ≡ s.workers - ends_in es

rounds_in-cons :
    (e : Event) (es : List Event) → rounds_in (e ∷ es) ≡ rounds_in (e ∷ []) + rounds_in es
rounds_in-cons (accepts addr now) es = omega arith
rounds_in-cons (closes_conn id now) es = omega arith
rounds_in-cons (forgets id) es = omega arith
rounds_in-cons worker_starts es = omega arith
rounds_in-cons worker_ends es = omega arith
rounds_in-cons (cleans now) es = omega arith
rounds_in-cons shuts es = omega arith
rounds_in-cons (closes_next now) es = omega arith

ends_in-cons : (e : Event) (es : List Event) → ends_in (e ∷ es) ≡ ends_in (e ∷ []) + ends_in es
ends_in-cons (accepts addr now) es = omega arith
ends_in-cons (closes_conn id now) es = omega arith
ends_in-cons (forgets id) es = omega arith
ends_in-cons worker_starts es = omega arith
ends_in-cons worker_ends es = omega arith
ends_in-cons (cleans now) es = omega arith
ends_in-cons shuts es = omega arith
ends_in-cons (closes_next now) es = omega arith

run-Drained :
    (s : Lifecycle) (es : List Event) → s.closing ≡ true → Tracks s → Within s → Drained s es
run-Drained s [] c v w = record { within = w; rounds = omega arith; workers = omega arith }
run-Drained s (e ∷ es) c v w =
    let one = step-Closing s e c v w in
    let rest = run-Drained (step s e) es one.closing (step-Tracks s e v) one.within in
    record {
      within = rest.within;
      rounds = omega (arith, rest.rounds, one.rounds, rounds_in-cons e es);
      workers = omega (arith, rest.workers, one.workers, ends_in-cons e es);
    }

has_id-append : (id : ℕ) (xs ys : List ℕ) → has_id id (xs ++ ys) ≡ (has_id id xs || has_id id ys)
has_id-append id [] ys = refl
has_id-append id (x ∷ xs) ys = ground (arith, has_id-append id xs ys)

shut_state :
    (cfg : LimitConfig) (before : List Event)
    → (run (new_lifecycle cfg) before).closing ≡ false
    → let s = step (run (new_lifecycle cfg) before) shuts in
      (s.closing ≡ true) × Tracks s × Within s
unfolding step shut
shut_state cfg before c =
    let v = run-Tracks (new_lifecycle cfg) before (new_lifecycle-Tracks cfg) in
    subst (λ s. (s.closing ≡ true) × Tracks s × Within s) (sym (if_false _ _ c))
      (
        refl,
        record { counted = v.counted; held = v.held },
        record {
          listed = λ id h. has_id-append id _ _ ∙ h;
          gone = λ h. absurd (true-false (sym h));
        },
      )

empty_conns : (conns : List ℕ) → ((id : ℕ) → has_id id conns ≡ true → false ≡ true) → conns ≡ []
empty_conns [] h = refl
empty_conns (x ∷ xs) h = ground (arith, h x)

-- The state in which the first call of `Close` leaves its critical section.
abbrev pub shut_after : LimitConfig → List Event → Lifecycle
shut_after cfg before = step (run (new_lifecycle cfg) before) shuts

-- Once `Close` has set `closing`, no call starts a worker: the wait group's count is what it was less
-- the workers that have ended since, whatever else happens, so that `Wait` returns when as many have
-- ended as there were.
pub workers_end :
    (cfg : LimitConfig) (before after : List Event)
    → (run (new_lifecycle cfg) before).closing ≡ false
    → (run (shut_after cfg before) after).workers ≡ (shut_after cfg before).workers - ends_in after
workers_end cfg before after c =
    let (closing, tracks, within) = shut_state cfg before c in
    (run-Drained (shut_after cfg before) after closing tracks within).workers

-- Once the loop of `Close` has made two steps for each connection that it found (a step is one half of
-- `entryConn.Close`), with handlers, workers, new connections and sweeps between its steps in any order,
-- the map of connections has no key, and the limiter counts none but the one connection, if any, whose
-- lease the accept loop holds and is about to give back.
pub connections_drain :
    (cfg : LimitConfig) (before after : List Event)
    → (run (new_lifecycle cfg) before).closing ≡ false
    → 2 * length (shut_after cfg before).snapshot ≤ rounds_in after
    → let s = shut_after cfg before in
      (map_keys (run s after) ≡ [])
      × ((run s after).ledger.limiter.active_total ≡ length (in_flight (run s after).accepting))
connections_drain cfg before after c h =
    let s = shut_after cfg before in
    let (closing, tracks, within) = shut_state cfg before c in
    let drained = run-Drained s after closing tracks within in
    let none_left =
      no_ids (run s after).snapshot (run s after).head_closed
        (drained.rounds ∙ nothing_to_do s.snapshot s.head_closed h) in
    let listed : (id : ℕ) → in_map id (run s after) ≡ true → has_id id [] ≡ true =
      λ id k. ap (has_id id) (sym none_left) ∙ drained.within.listed id k in
    let keys =
      empty_conns (map_keys (run s after)) (λ id k.
        listed id (sym (has_id-append id (run s after).conns (run s after).leaving) ∙ k)) in
    let open_keys : length (run s after).conns ≡ 0 = omega (
      arith,
      length-append (run s after).conns (run s after).leaving,
      ap (λ (xs : List ℕ). length xs) keys,
    ) in
    (
      keys,
      Tracks-total (run s after) (run-Tracks s after tracks)
          ∙ ap (λ n. length (in_flight (run s after).accepting) + n) open_keys
          ∙ omega arith,
    )
  where
    no_ids : (xs : List ℕ) (b : Bool) → to_do xs b ≡ 0 → xs ≡ []
    no_ids [] b e = refl
    no_ids (x ∷ xs) true e = absurd (omega (arith, e))
    no_ids (x ∷ xs) false e = absurd (omega (arith, e))

    nothing_to_do :
        (xs : List ℕ) (b : Bool)
        → 2 * length xs ≤ rounds_in after
        → to_do xs b - rounds_in after ≡ 0
    nothing_to_do xs b h = omega (arith, h)
