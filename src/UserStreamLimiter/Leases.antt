-- ===== src/UserStreamLimiter/Leases.antt =====
-- The release functions of the streams that are open, as in ConnectionLimiter/Leases.antt.
use lsyl_tunnel.Base.{
  ℕ, suc, ◌+◌, ◌-◌, ◌≤◌, ◌<◌, ◌≡◌, refl, ◌∙◌, String, Bool, true, false, Option, none, some, List,
  [], ◌∷◌, ite, ltb, if◌then◌else◌, String_discrete, count, find, find-put, find-delete, arith,
  Option-cases, inl, inr,
}
use lsyl_tunnel.UserStreamLimiter.{
  UserStreamLimiter, new_user_stream_limiter, user_or_unknown, active_at, acquire, release,
}

pub data Event : Type 0 where
  opens : String → Event
  closes : String → Event

pub record Ledger : Type 0 where
  pub limiter : UserStreamLimiter
  pub open_streams : List String

unfoldable pub close_stream : String → List String → Option (List String)
close_stream user [] = none
close_stream user (u ∷ us) = elim (String_discrete u user) [
  | yes _ ↦ some us
  | no _ ↦ elim (close_stream user us) [ none ↦ none | some rest ↦ some (u ∷ rest) ]
]

unfoldable pub add_stream : String → Ledger → UserStreamLimiter × Bool → Ledger
add_stream username g (l, false) = record g { limiter = l }
add_stream username g (l, true) = record {
  limiter = l;
  open_streams = user_or_unknown username ∷ g.open_streams;
}

-- An account opens a stream, or one of its open streams ends and runs its release function.
unfoldable pub step : Ledger → Event → Ledger
unfolding add_stream
step g (opens username) = add_stream username g (acquire username g.limiter)
step g (closes username) = elim (close_stream (user_or_unknown username) g.open_streams) [
  | none ↦ g
  | some rest ↦ record { limiter = release username g.limiter; open_streams = rest }
]

unfoldable pub run : Ledger → List Event → Ledger
run g [] = g
run g (e ∷ es) = run (step g e) es

unfoldable pub start : ℕ → Ledger
start limit = record { limiter = new_user_stream_limiter limit; open_streams = [] }

abbrev pub streams : String → List String → ℕ
streams user xs = count String_discrete user xs

-- With a limit set, the map counts the open streams of every account, and none has more than that.
pub record Inv (limit : ℕ) (g : Ledger) : Type 0 where
  pub same_limit : g.limiter.max_per_user ≡ limit
  pub exact : (user : String) → active_at user g.limiter ≡ streams user g.open_streams
  pub bounded : (user : String) → streams user g.open_streams ≤ limit

pub acquire-eq :
    (username j : String) (l : UserStreamLimiter)
    → 0 < l.max_per_user
    → ((acquire username l).1 ≡ ltb (active_at (user_or_unknown username) l) l.max_per_user)
      × ((acquire username l).0.max_per_user ≡ l.max_per_user)
      × (active_at j (acquire username l).0 ≡ (
          if ltb (active_at (user_or_unknown username) l) l.max_per_user
          then ite
              (String_discrete (user_or_unknown username) j)
              (suc (active_at j l))
              (active_at j l)
          else active_at j l))
unfolding acquire
acquire-eq username j l h = ground (
  arith,
  find-put String_discrete (user_or_unknown username) j (active_at (user_or_unknown username) l + 1)
      l.active,
)

pub release-eq :
    (username j : String) (l : UserStreamLimiter)
    → 0 < l.max_per_user
    → ((release username l).max_per_user ≡ l.max_per_user)
      × (active_at j (release username l)
          ≡ ite (String_discrete (user_or_unknown username) j) (active_at j l - 1) (active_at j l))
unfolding release
release-eq username j l h = ground (
  arith,
  find-put String_discrete (user_or_unknown username) j (active_at (user_or_unknown username) l - 1)
      l.active,
  find-delete String_discrete (user_or_unknown username) j l.active,
)

close_stream_count :
    (user j : String) (us rest : List String)
    → close_stream user us ≡ some rest
    → streams j us ≡ ite (String_discrete user j) (suc (streams j rest)) (streams j rest)
unfolding close_stream
close_stream_count user j [] rest h = cc
close_stream_count user j (u ∷ us) rest h = elim (Option-cases (close_stream user us)) [
  | inl e ↦ ground arith
  | inr (rest', e) ↦ ground (arith, close_stream_count user j us rest' e)
]

opens-Inv :
    (limit : ℕ) (g : Ledger) (username : String)
    → 0 < limit
    → Inv limit g
    → Inv limit (step g (opens username))
unfolding step
opens-Inv limit g username h v =
    go (acquire username g.limiter)
      (λ j. acquire-eq username j g.limiter (omega (arith, v.same_limit)))
  where
    user : String
    user = user_or_unknown username

    go :
        (r : UserStreamLimiter × Bool)
        → ((j : String)
            → (r.1 ≡ ltb (active_at user g.limiter) g.limiter.max_per_user)
              × (r.0.max_per_user ≡ g.limiter.max_per_user)
              × (active_at j r.0 ≡ (
                  if ltb (active_at user g.limiter) g.limiter.max_per_user
                  then ite
                      (String_discrete user j)
                      (suc (active_at j g.limiter))
                      (active_at j g.limiter)
                  else active_at j g.limiter)))
        → Inv limit (add_stream username g r)
    go (l, false) q = record {
      same_limit = (q "").1 ∙ v.same_limit;
      exact = λ j. ground (arith, q j, v.exact j);
      bounded = v.bounded;
    }
    go (l, true) q = record {
      same_limit = (q "").1 ∙ v.same_limit;
      exact = λ j. ground (arith, q j, v.exact j);
      bounded = λ j. ground (arith, q j, v.exact j, v.bounded j, v.same_limit);
    }

closes-Inv :
    (limit : ℕ) (g : Ledger) (username : String)
    → 0 < limit
    → Inv limit g
    → Inv limit (step g (closes username))
unfolding step
closes-Inv limit g username h v =
    elim (Option-cases (close_stream (user_or_unknown username) g.open_streams)) [
      | inl e ↦ rw (e, step) v
      | inr (rest, e) ↦
          let gone =
            λ (j : String). close_stream_count (user_or_unknown username) j g.open_streams rest e in
          let q = λ (j : String). release-eq username j g.limiter (omega (arith, v.same_limit)) in
          rw (e, step)
            (record {
              same_limit = (q "").0 ∙ v.same_limit;
              exact = λ j. ground (arith, q j, gone j, v.exact j);
              bounded = λ j. ground (arith, gone j, v.bounded j);
            })
    ]

run-Inv :
    (limit : ℕ) (g : Ledger) (es : List Event) → 0 < limit → Inv limit g → Inv limit (run g es)
unfolding run
run-Inv limit g [] h v = v
run-Inv limit g (opens u ∷ es) h v = run-Inv limit (step g (opens u)) es h (opens-Inv limit g u h v)
run-Inv limit g (closes u ∷ es) h v =
    run-Inv limit (step g (closes u)) es h (closes-Inv limit g u h v)

start-Inv : (limit : ℕ) → Inv limit (start limit)
unfolding start new_user_stream_limiter find
start-Inv limit = record { same_limit = refl; exact = λ user. refl; bounded = λ user. omega arith }

-- With a positive limit, after any streams opened and closed, the count of every account is the
-- number of its open streams, and that is at most the limit.
pub streams_exact :
    (limit : ℕ) (es : List Event) (user : String)
    → 0 < limit
    → let g = run (start limit) es in
      (active_at user g.limiter ≡ streams user g.open_streams)
      × (streams user g.open_streams ≤ limit)
streams_exact limit es user h =
    let v = run-Inv limit (start limit) es h (start-Inv limit) in (v.exact user, v.bounded user)

-- A stream is refused only to an account whose open streams have reached the limit.
pub acquire_refused :
    (limit : ℕ) (es : List Event) (username : String)
    → 0 < limit
    → let g = run (start limit) es in
      (acquire username g.limiter).1 ≡ ltb (streams (user_or_unknown username) g.open_streams) limit
acquire_refused limit es username h =
    let v = run-Inv limit (start limit) es h (start-Inv limit) in
    (acquire-eq username username _ (omega (arith, v.same_limit))).0
    ∙ rw (v.exact (user_or_unknown username), v.same_limit) refl
