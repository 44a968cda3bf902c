-- ===== src/ConnectionLimiter/Leases.antt =====
-- Every `acquire` that grants returns a function that releases the connection once (`sync.Once`).
-- The ledger below keeps those functions, newest first, as long as they have not run.
use lsyl_tunnel.Base.{
  ℕ, suc, ◌≤◌, ◌<◌, String, ◌≡◌, refl, ap, subst, ◌∙◌, Option, none, some, List, [], ◌∷◌, inl, inr,
  ite, String_discrete, ℕ_discrete, Option-cases, length, find, arith,
}
use lsyl_tunnel.ConnectionLimiter.{
  LimitConfig, ConnectionLimiter, Reply, granted, refused, ip_or_unknown, new_connection_limiter,
  cleanup_all, acquire, release,
}
use lsyl_tunnel.ConnectionLimiter.Counting.{
  active_at, Counts, acquire-Counts, active-release, active-cleanup_all,
}

-- A release function that has not run: a number of its own, and the address that it captured.
pub record Lease : Type 0 where
  pub id : ℕ
  pub ip : String

pub record Ledger : Type 0 where
  pub limiter : ConnectionLimiter
  pub leases : List Lease
  pub next_id : ℕ

pub data Event : Type 0 where
  connects : String → ℕ → Event
  closes : ℕ → ℕ → Event
  sweeps : ℕ → Event

unfoldable pub take_lease : ℕ → List Lease → Option (String × List Lease)
take_lease id [] = none
take_lease id (x ∷ xs) = elim (ℕ_discrete x.id id) [
  | yes _ ↦ some (x.ip, xs)
  | no _ ↦ elim (take_lease id xs) [ none ↦ none | some (ip, rest) ↦ some (ip, x ∷ rest) ]
]

unfoldable pub record_reply : String → Ledger → ConnectionLimiter × Reply → Ledger
record_reply addr g (l, refused _) = record g { limiter = l }
record_reply addr g (l, granted) = record {
  limiter = l;
  leases = record { id = g.next_id; ip = ip_or_unknown addr } ∷ g.leases;
  next_id = suc g.next_id;
}

-- One call from outside: a connection comes in, the release function `id` runs, or the cleanup
-- loop has its turn. A release function that ran before does nothing.
unfoldable pub step : Ledger → Event → Ledger
unfolding record_reply
step g (connects addr now) = record_reply addr g (acquire addr now g.limiter)
step g (closes id now) = elim (take_lease id g.leases) [
  | none ↦ g
  | some (ip, rest) ↦ record g { limiter = release ip now g.limiter; leases = rest }
]
step g (sweeps now) = record g { limiter = cleanup_all now g.limiter }

unfoldable pub run : Ledger → List Event → Ledger
run g [] = g
run g (e ∷ es) = run (step g e) es

unfoldable pub start : LimitConfig → Ledger
start cfg = record { limiter = new_connection_limiter cfg; leases = []; next_id = 0 }

abbrev pub lease_count : String → List Lease → ℕ
lease_count ip [] = 0
lease_count ip (x ∷ xs) =
    let rest = lease_count ip xs in ite (String_discrete (ip_or_unknown x.ip) ip) (suc rest) rest

-- The numbers of the leases fall along the list, and stay below `n`.
abbrev pub Falling : ℕ → List Lease → Type 0
Falling n [] = Unit {0}
Falling n (x ∷ xs) = (x.id < n) × Falling x.id xs

-- The counters of the limiter are those of the leases.
pub record Inv (g : Ledger) : Type 0 where
  pub total : g.limiter.active_total ≡ length g.leases
  pub per_ip : (ip : String) → active_at ip g.limiter ≡ lease_count ip g.leases
  pub ids : Falling g.next_id g.leases

ip_or_unknown_idem : (ip : String) → ip_or_unknown (ip_or_unknown ip) ≡ ip_or_unknown ip
unfolding ip_or_unknown
ip_or_unknown_idem ip = ground arith

Falling-mono : {m n : ℕ} (xs : List Lease) → m ≤ n → Falling m xs → Falling n xs
Falling-mono [] h f = tt
Falling-mono (x ∷ xs) h f = (omega arith, f.1)

-- What is left of the leases `xs`, if `take_lease` found one.
abbrev Taken : List Lease → Option (String × List Lease) → Type 0
Taken xs none = Unit
Taken xs (some (ip, rest)) =
    (length xs ≡ suc (length rest))
    × ((j : String)
        → lease_count j xs
          ≡ ite (String_discrete (ip_or_unknown ip) j) (suc (lease_count j rest))
              (lease_count j rest))
    × ((n : ℕ) → Falling n xs → Falling n rest)

Taken-cons :
    (x : Lease) (xs rest : List Lease) (ip : String)
    → Taken xs (some (ip, rest))
    → Taken (x ∷ xs) (some (ip, x ∷ rest))
Taken-cons x xs rest ip (l, c, f) =
    (omega arith, λ j. ground (arith, c j), λ n h. (h.0, f x.id h.1))

take_lease-Taken : (id : ℕ) (xs : List Lease) → Taken xs (take_lease id xs)
unfolding take_lease
take_lease-Taken id [] = tt
take_lease-Taken id (x ∷ xs) =
    elim (ℕ_discrete x.id id)
      as (λ d. Taken (x ∷ xs) (elim d [
        | yes _ ↦ some (x.ip, xs)
        | no _ ↦ elim (take_lease id xs) [ none ↦ none | some (ip, rest) ↦ some (ip, x ∷ rest) ]
      ])) [
        | yes _ ↦
            (refl, λ j. ground arith, λ n h. Falling-mono {m = x.id} {n = n} xs (omega arith) h.1)
        | no _ ↦ go (take_lease id xs) (take_lease-Taken id xs)
      ]
  where
    go :
        (r : Option (String × List Lease))
        → Taken xs r
        → Taken (x ∷ xs) (elim r [ none ↦ none | some (ip, rest) ↦ some (ip, x ∷ rest) ])
    go none h = tt
    go (some (ip, rest)) h = Taken-cons x xs rest ip h

pub start-Inv : (cfg : LimitConfig) → Inv (start cfg)
unfolding start new_connection_limiter find
start-Inv cfg = record { total = refl; per_ip = λ ip. refl; ids = tt }

record_reply-Inv :
    (addr : String) (g : Ledger) (r : ConnectionLimiter × Reply)
    → Inv g
    → ((j : String) → Counts (ip_or_unknown addr) j g.limiter r)
    → Inv (record_reply addr g r)
unfolding record_reply
record_reply-Inv addr g (l, refused _) v c = record {
  total = (c "").1 ∙ v.total;
  per_ip = λ j. (c j).0 ∙ v.per_ip j;
  ids = v.ids;
}
record_reply-Inv addr g (l, granted) v c = record {
  total = (c "").1 ∙ ap suc v.total;
  per_ip = λ j. (c j).0 ∙ rw (ip_or_unknown_idem addr, v.per_ip j) refl;
  ids = (omega arith, v.ids);
}

closes-Inv :
    (g : Ledger) (now : ℕ) (ip : String) (rest : List Lease)
    → Inv g
    → Taken g.leases (some (ip, rest))
    → Inv (record g { limiter = release ip now g.limiter; leases = rest })
closes-Inv g now ip rest v (l, c, f) = record {
  total = (active-release ip ip now g.limiter held).1 ∙ omega (arith, v.total);
  per_ip = λ j. (active-release ip j now g.limiter held).0 ∙ ground (arith, v.per_ip j, c j);
  ids = f g.next_id v.ids;
}
  where
    held : 0 < active_at (ip_or_unknown ip) g.limiter
    held = ground (arith, v.per_ip (ip_or_unknown ip), c (ip_or_unknown ip))

pub step-Inv : (g : Ledger) (e : Event) → Inv g → Inv (step g e)
unfolding step
step-Inv g (connects addr now) v =
    record_reply-Inv addr g _ v (λ j. acquire-Counts addr j now g.limiter)
step-Inv g (closes id now) v = elim (Option-cases (take_lease id g.leases)) [
  | inl e ↦ rw (e, step) v
  | inr ((ip, rest), e) ↦
      rw (e, step)
        (closes-Inv g now ip rest v (subst (Taken g.leases) e (take_lease-Taken id g.leases)))
]
step-Inv g (sweeps now) v = record {
  total = cleanup_total ∙ v.total;
  per_ip = λ j. active-cleanup_all j now g.limiter ∙ v.per_ip j;
  ids = v.ids;
}
  where
    cleanup_total : (cleanup_all now g.limiter).active_total ≡ g.limiter.active_total
    cleanup_total = unfold cleanup_all in refl

run-Inv : (g : Ledger) (es : List Event) → Inv g → Inv (run g es)
unfolding run
run-Inv g [] v = v
run-Inv g (e ∷ es) v = run-Inv (step g e) es (step-Inv g e v)

-- From a new limiter on, whatever connections come, end (also twice) or are swept in between, the
-- total and the count of every address are the numbers of leases that have not been released.
pub lease_counters_exact :
    (cfg : LimitConfig) (es : List Event) (ip : String)
    → let g = run (start cfg) es in
      (g.limiter.active_total ≡ length g.leases)
      × (active_at ip g.limiter ≡ lease_count ip g.leases)
lease_counters_exact cfg es ip =
    let v = run-Inv (start cfg) es (start-Inv cfg) in (v.total, v.per_ip ip)

take_lease_missing : (id n : ℕ) (xs : List Lease) → Falling n xs → n ≤ id → take_lease id xs ≡ none
unfolding take_lease
take_lease_missing id n [] f h = refl
take_lease_missing id n (x ∷ xs) f h = ground (arith, take_lease_missing id x.id xs f.1)

take_lease_again :
    (id n : ℕ) (xs : List Lease) (ip : String) (rest : List Lease)
    → Falling n xs
    → take_lease id xs ≡ some (ip, rest)
    → take_lease id rest ≡ none
unfolding take_lease
take_lease_again id n [] ip rest f h = cc
take_lease_again id n (x ∷ xs) ip rest f h = elim (Option-cases (take_lease id xs)) [
  | inl e ↦ ground (arith, take_lease_missing id x.id xs f.1)
  | inr ((ip', rest'), e) ↦
      ground (arith, take_lease_again id x.id xs ip' rest' f.1 e, take_lease_missing id x.id xs f.1)
]

-- Running a release function again, at any later time, changes nothing.
pub closes_once :
    (cfg : LimitConfig) (es : List Event) (id now later : ℕ)
    → let g = step (run (start cfg) es) (closes id now) in step g (closes id later) ≡ g
unfolding step
closes_once cfg es id now later = elim (Option-cases (take_lease id (run (start cfg) es).leases)) [
  | inl e ↦ ground arith
  | inr ((ip, rest), e) ↦
      ground (arith, take_lease_again id _ _ ip rest (run-Inv (start cfg) es (start-Inv cfg)).ids e)
]
