-- ===== src/Server/Lifecycle/Shutdown.antt =====
-- The shutdown of src/server/tunnel/lifecycle.go: what is left once `Close` has set `closing`.
use lsyl_tunnel.Base.{
  ℕ, ◌≤◌, ◌<◌, ◌≡◌, refl, sym, subst, String, Bool, true, false, ◌||◌, ◌==◌, either_by, List, [],
  ◌∷◌, ◌++◌, if_true, arith,
}
use lsyl_tunnel.ConnectionLimiter.Leases.{Lease, Falling}
use lsyl_tunnel.Server.Lifecycle.{
  Accepting, waiting, stopped, leased, tracked, Lifecycle, has_id, remove_id, begin_worker,
  close_body, close_conn, forget_conn, remove_all, accept, track_entry_conn, handed_over,
  start_handler, accept_step,
}
use lsyl_tunnel.Server.Lifecycle.Tracking.{ids, in_flight, Tracks}

pub has_id-remove_id :
    (x id : ℕ) (xs : List ℕ) → has_id x (remove_id id xs) ≡ true → has_id x xs ≡ true
unfolding remove_id
has_id-remove_id x id [] h = h
has_id-remove_id x id (y ∷ ys) h = ground (arith, has_id-remove_id x id ys)

abbrev pub FallingIds : ℕ → List ℕ → Type 0
FallingIds n [] = Unit
FallingIds n (x ∷ xs) = (x < n) × FallingIds x xs

ids-FallingIds : (n : ℕ) (xs : List Lease) → Falling n xs → FallingIds n (ids xs)
ids-FallingIds n [] f = tt
ids-FallingIds n (x ∷ xs) f = (f.0, ids-FallingIds x.id xs f.1)

FallingIds-mono : (m n : ℕ) (xs : List ℕ) → m ≤ n → FallingIds m xs → FallingIds n xs
FallingIds-mono m n [] h f = tt
FallingIds-mono m n (x ∷ xs) h f = (omega arith, f.1)

FallingIds-tail :
    (a : Accepting) (n : ℕ) (xs : List ℕ) → FallingIds n (in_flight a ++ xs) → FallingIds n xs
FallingIds-tail waiting n xs f = f
FallingIds-tail stopped n xs f = f
FallingIds-tail (tracked id) n xs f = f
FallingIds-tail (leased id) n xs f = FallingIds-mono id n xs (omega arith) f.1

pub conns-FallingIds : (s : Lifecycle) → Tracks s → FallingIds s.ledger.next_id s.conns
conns-FallingIds s v = FallingIds-tail s.accepting s.ledger.next_id s.conns (
    subst (FallingIds s.ledger.next_id) v.held
      (ids-FallingIds s.ledger.next_id s.ledger.leases v.counted.ids))

has_id_above : (id n : ℕ) (xs : List ℕ) → FallingIds n xs → n ≤ id → has_id id xs ≡ false
has_id_above id n [] f h = refl
has_id_above id n (x ∷ xs) f h = ground (arith, has_id_above id x xs f.1)

pub has_id_removed :
    (id n : ℕ) (xs : List ℕ) → FallingIds n xs → has_id id (remove_id id xs) ≡ false
unfolding remove_id
has_id_removed id n [] f = refl
has_id_removed id n (x ∷ xs) f =
    ground (arith, has_id_removed id x xs f.1, has_id_above id x xs f.1)

-- Whether the map of connections has the key `id`.
abbrev pub in_map : ℕ → Lifecycle → Bool
in_map id s = has_id id s.conns || has_id id s.leaving

pub has_id-remove_all :
    (x id : ℕ) (xs : List ℕ) → has_id x (remove_all id xs) ≡ true → has_id x xs ≡ true
unfolding remove_all
has_id-remove_all x id [] h = h
has_id-remove_all x id (y ∷ ys) h = ground (arith, has_id-remove_all x id ys)

pub has_id_all_removed : (id : ℕ) (xs : List ℕ) → has_id id (remove_all id xs) ≡ false
unfolding remove_all
has_id_all_removed id [] = refl
has_id_all_removed id (x ∷ xs) = ground (arith, has_id_all_removed id xs)

-- A step that neither opens a connection nor starts or ends a worker.
pub record Keeps (s t : Lifecycle) : Type 0 where
  pub closing : t.closing ≡ s.closing
  pub snapshot : t.snapshot ≡ s.snapshot
  pub workers : t.workers ≡ s.workers
  pub head_closed : t.head_closed ≡ s.head_closed
  pub conns : (id : ℕ) → has_id id t.conns ≡ true → has_id id s.conns ≡ true
  pub mapped : (id : ℕ) → in_map id t ≡ true → in_map id s ≡ true

has_id_same : (x id : ℕ) (xs : List ℕ) → (id == x) ≡ true → has_id id xs ≡ true → has_id x xs ≡ true
has_id_same x id [] e h = h
has_id_same x id (y ∷ ys) e h = ground (arith, has_id_same x id ys e)

close_body-Keeps :
    (id now : ℕ) (s : Lifecycle) → has_id id s.conns ≡ true → Keeps s (close_body id now s)
unfolding close_body
close_body-Keeps id now s here = record {
  head_closed = refl;
  mapped = λ x h. ground (arith, has_id_same x id s.conns, here, has_id-remove_id x id s.conns, h);
  closing = refl;
  snapshot = refl;
  workers = refl;
  conns = λ x. has_id-remove_id x id s.conns;
}

pub Keeps-refl : (s : Lifecycle) → Keeps s s
Keeps-refl s = record {
  closing = refl;
  snapshot = refl;
  workers = refl;
  head_closed = refl;
  conns = λ id h. h;
  mapped = λ id h. h;
}

pub forget_conn-Keeps : (id : ℕ) (s : Lifecycle) → Keeps s (forget_conn id s)
unfolding forget_conn
forget_conn-Keeps id s = record {
  closing = refl;
  snapshot = refl;
  workers = refl;
  head_closed = refl;
  conns = λ x h. h;
  mapped = λ x h. ground (arith, has_id-remove_all x id s.leaving, h);
}

pub close_conn-Keeps : (id now : ℕ) (s : Lifecycle) → Keeps s (close_conn id now s)
unfolding close_conn
close_conn-Keeps id now s =
    either_by (Keeps s) (has_id id s.conns) _ _ (close_body-Keeps id now s) (λ h. Keeps-refl s)

track_entry_conn-Keeps :
    (id now : ℕ) (s : Lifecycle) → s.closing ≡ true → Keeps s (track_entry_conn id now s)
unfolding track_entry_conn
track_entry_conn-Keeps id now s e =
    let k = Keeps-refl s in
    subst (Keeps s) (sym (if_true _ _ e)) (record {
      closing = k.closing;
      snapshot = k.snapshot;
      workers = k.workers;
      head_closed = k.head_closed;
      conns = k.conns;
      mapped = k.mapped;
    })

start_handler-Keeps :
    (id now : ℕ) (s : Lifecycle) → s.closing ≡ true → Keeps s (start_handler id now s)
unfolding start_handler begin_worker handed_over
start_handler-Keeps id now s e =
    let k = close_conn-Keeps id now s in
    subst (λ r. Keeps s (handed_over id now r)) (sym (if_true _ _ e))
      (record {
        closing = k.closing;
        snapshot = k.snapshot;
        workers = k.workers;
        head_closed = k.head_closed;
        conns = k.conns;
        mapped = k.mapped;
      })

accept-Keeps : (addr : String) (now : ℕ) (s : Lifecycle) → Keeps s (accept addr now s)
unfolding accept
accept-Keeps addr now s = record {
  closing = refl;
  snapshot = refl;
  workers = refl;
  head_closed = refl;
  conns = λ id h. h;
  mapped = λ id h. h;
}

pub accept_step-Keeps :
    (addr : String) (now : ℕ) (a : Accepting) (s : Lifecycle)
    → s.closing ≡ true
    → Keeps s (accept_step addr now a s)
unfolding accept_step
accept_step-Keeps addr now waiting s e = accept-Keeps addr now s
accept_step-Keeps addr now (leased id) s e = track_entry_conn-Keeps id now s e
accept_step-Keeps addr now (tracked id) s e = start_handler-Keeps id now s e
accept_step-Keeps addr now stopped s e = Keeps-refl s
