-- ===== src/HitLog.antt =====
-- `permanentBlockHitAggregator` of src/server/tunnel/permanent_block_hit_logs.go: hits of banned
-- addresses are counted, and reported together from time to time.
use lsyl_tunnel.Base.{
  ℕ, ◌+◌, ◌*◌, ◌≡◌, ◌≢◌, ap, ◌∙◌, String, none, some, List, [], ◌∷◌, ite, ◌==◌, if◌then◌else◌,
  String_discrete, Map, find, put, find-put, arith,
}

pub record PermanentBlockHitAggregator : Type 0 where
  pub interval : ℕ
  pub hits : Map String ℕ

unfoldable pub new_permanent_block_hit_aggregator : ℕ → PermanentBlockHitAggregator
new_permanent_block_hit_aggregator interval = record {
  interval = if interval == 0 then 10 * 1000000000 else interval;
  hits = [];
}

-- `hits[ip]`, which is 0 for an address that is not there.
abbrev pub hits_of : String → Map String ℕ → ℕ
hits_of ip hits = elim (find String_discrete ip hits) [ none ↦ 0 | some n ↦ n ]

-- `Observe`
unfoldable pub observe : String → PermanentBlockHitAggregator → PermanentBlockHitAggregator
observe ip a =
    ite (String_discrete ip "") a
      (record a { hits = put String_discrete ip (hits_of ip a.hits + 1) a.hits })

-- `Flush`, with the map that it returns; no map is the empty one.
unfoldable pub flush : PermanentBlockHitAggregator → PermanentBlockHitAggregator × Map String ℕ
flush a = (record a { hits = [] }, a.hits)

-- What reaches the aggregator: a hit, or a tick of the log loop.
pub data Event : Type 0 where
  hit : String → Event
  tick : Event

-- The aggregator with the maps that its flushes have returned.
abbrev pub Logged : Type 0
Logged = PermanentBlockHitAggregator × List (Map String ℕ)

unfoldable pub handle : Event → Logged → Logged
handle (hit ip) (a, logs) = (observe ip a, logs)
handle tick (a, logs) = ((flush a).0, (flush a).1 ∷ logs)

abbrev pub handle_all : List Event → Logged → Logged
handle_all [] s = s
handle_all (e ∷ es) s = handle_all es (handle e s)

abbrev pub logged_hits : String → List (Map String ℕ) → ℕ
logged_hits ip [] = 0
logged_hits ip (hits ∷ logs) = hits_of ip hits + logged_hits ip logs

-- How often `ip` is hit.
abbrev pub hits_in : String → List Event → ℕ
hits_in ip [] = 0
hits_in ip (tick ∷ es) = hits_in ip es
hits_in ip (hit j ∷ es) = let rest = hits_in ip es in ite (String_discrete j ip) (rest + 1) rest

-- The hits of `ip` that are logged or wait to be.
abbrev accounted : String → Logged → ℕ
accounted ip (a, logs) = logged_hits ip logs + hits_of ip a.hits

hit_counts :
    (ip j : String) (s : Logged)
    → ip ≢ ""
    → accounted ip (handle (hit j) s)
      ≡ ite (String_discrete j ip) (accounted ip s + 1) (accounted ip s)
unfolding handle observe
hit_counts ip j (a, logs) n =
    ground (arith, find-put String_discrete j ip (hits_of j a.hits + 1) a.hits)

tick_keeps : (ip : String) (s : Logged) → accounted ip (handle tick s) ≡ accounted ip s
unfolding handle flush find
tick_keeps ip (a, logs) = omega arith

handle_all_counts :
    (ip : String) (es : List Event) (s : Logged)
    → ip ≢ ""
    → accounted ip (handle_all es s) ≡ hits_in ip es + accounted ip s
handle_all_counts ip [] s n = omega arith
handle_all_counts ip (tick ∷ es) s n =
    handle_all_counts ip es (handle tick s) n ∙ ap (λ k. hits_in ip es + k) (tick_keeps ip s)
handle_all_counts ip (hit j ∷ es) s n =
    ground (arith, handle_all_counts ip es (handle (hit j) s) n, hit_counts ip j s n)

-- No hit of an address is lost or counted twice: whatever hits and ticks have happened, the counts
-- that the flushes returned for the address and the count that waits for the next flush add up to
-- the number of its hits. The address is not "".
pub hits_conserved :
    (ip : String) (interval : ℕ) (es : List Event)
    → ip ≢ ""
    → let (a, logs) = handle_all es (new_permanent_block_hit_aggregator interval, []) in
      logged_hits ip logs + hits_of ip a.hits ≡ hits_in ip es
unfolding new_permanent_block_hit_aggregator find
hits_conserved ip interval es n =
    handle_all_counts ip es (new_permanent_block_hit_aggregator interval, []) n ∙ omega arith
