-- ===== src/FailTracker/Size.antt =====
-- The number of addresses that the failure tracker keeps an entry for: `trackStateLocked` and
-- `addFailure` of src/server/tunnel/fail_tracker.go.
use lsyl_tunnel.Base.{
  oldest_idle, oldest_idle_idle, ◌++◌, ℕ, ◌+◌, ◌≤◌, ◌<◌, String, ◌≡◌, ap, subst, Bool, true, false,
  some, List, [], ◌∷◌, inl, inr, leb, String_discrete, Option-cases, Bool-cases, length, Map, find,
  put, trim_space, length-put-le, length-put_found, length-delete_found, length-refine-le, arith,
}
use lsyl_tunnel.FailTracker.{
  FailState, FailTracker, Env, has_permanent, recent_failures, save, cleanup_locked, clean_state,
  is_blocked_at, seen_at, evict, clean_if_full, insert_fresh, is_untracked, track_key, track_state,
}
use lsyl_tunnel.FailTracker.Failures.{count_failure, add_tracked_failure, add_failure}
use lsyl_tunnel.FailTracker.Lockout.{save_items}

abbrev pub size : FailTracker → ℕ
size f = length f.items

size-clean_if_full-le : (now : ℕ) (f : FailTracker) → size (clean_if_full now f) ≤ size f
unfolding clean_if_full cleanup_locked
size-clean_if_full-le now f =
    ground (arith, length-refine-le String_discrete (clean_state f.window now) f.items)

abbrev HasRoom : ℕ → FailTracker × Bool → Type 0
HasRoom limit (f, true) = size f < limit
HasRoom limit (f, false) = size f ≤ limit

evict-HasRoom :
    (now : ℕ) (f : FailTracker) → size f ≤ f.max_items → HasRoom f.max_items (evict now f)
unfolding evict
evict-HasRoom now f h = elim (Option-cases (oldest_idle (is_blocked_at now) seen_at f.items)) [
  | inl e ↦ rw (e, evict) (ground arith)
  | inr ((ip, seen), e) ↦
      let idle = oldest_idle_idle (is_blocked_at now) seen_at f.items e in
      rw (e, evict) (ground (arith, length-delete_found String_discrete ip idle.0 f.items idle.1))
]

insert_fresh-le :
    (key : String) (now limit : ℕ) (r : FailTracker × Bool)
    → HasRoom limit r
    → size (insert_fresh key now r).0 ≤ limit
unfolding insert_fresh
insert_fresh-le key now limit (f, false) h = h
insert_fresh-le key now limit (f, true) h = omega (
  arith,
  length-put-le String_discrete key
      (record { auth_failures = []; protocol_failures = []; blocked_until = 0; last_seen = now })
      f.items,
)

clean_limit : (now : ℕ) (f : FailTracker) → (clean_if_full now f).max_items ≡ f.max_items
unfolding clean_if_full cleanup_locked
clean_limit now f = ground arith

size-track_key-le :
    (key : String) (now : ℕ) (f : FailTracker)
    → size f ≤ f.max_items
    → size (track_key key now f).0 ≤ f.max_items
unfolding track_key
size-track_key-le key now f h = elim (Bool-cases (is_untracked key f)) [
  | inl u ↦ rw (u, track_key) h
  | inr u ↦ elim (Option-cases (find String_discrete key f.items)) [
    | inl e ↦
        rw (u, e, track_key)
          (insert_fresh-le key now f.max_items _ (
            subst (λ n. HasRoom n (evict now (clean_if_full now f))) same
              (evict-HasRoom now (clean_if_full now f) room)))
    | inr (st, e) ↦
        rw (u, e, track_key)
          (omega (
            arith,
            h,
            length-put_found String_discrete key (record st { last_seen = now }) st f.items e,
          ))
  ]
]
  where
    same : (clean_if_full now f).max_items ≡ f.max_items
    same = clean_limit now f

    room : size (clean_if_full now f) ≤ (clean_if_full now f).max_items
    room = omega (arith, same, size-clean_if_full-le now f)

size-save : (env : Env) (f : FailTracker) → size (save env f) ≡ size f
size-save env f = ap (λ (m : Map String FailState). length m) (save_items env f).0

size-count_failure :
    (env : Env) (key : String) (st : FailState) (f : FailTracker)
    → find String_discrete key f.items ≡ some st
    → size (count_failure env key st f) ≡ size f
unfolding count_failure
size-count_failure env key st f e = elim (Bool-cases (leb f.limit (length failures))) [
  | inl h ↦
      rw (h, count_failure)
        (omega (
          arith,
          size-save env (record f { items = put String_discrete key blocked f.items }),
          length-put_found String_discrete key blocked st f.items e,
        ))
  | inr h ↦
      rw (h, count_failure)
        (length-put_found String_discrete key
          (record st { auth_failures = failures; last_seen = env.now }) st f.items e)
]
  where
    failures : List ℕ
    failures = recent_failures f.window env.now st.auth_failures ++ env.now ∷ []

    blocked : FailState
    blocked = record st {
      auth_failures = [];
      blocked_until = env.now + f.block_for;
      last_seen = env.now;
    }

size-add_tracked_failure-le :
    (env : Env) (addr key : String) (limit : ℕ) (r : FailTracker × Bool)
    → size r.0 ≤ limit
    → size (add_tracked_failure env addr key r) ≤ limit
unfolding add_tracked_failure
size-add_tracked_failure-le env addr key limit (f, false) h = h
size-add_tracked_failure-le env addr key limit (f, true) h =
    elim (Bool-cases (has_permanent addr f)) [
      | inl p ↦ rw (p, add_tracked_failure) h
      | inr p ↦ elim (Option-cases (find String_discrete key f.items)) [
        | inl e ↦ rw (p, e, add_tracked_failure) h
        | inr (st, e) ↦
            rw (p, e, add_tracked_failure) (omega (arith, h, size-count_failure env key st f e))
      ]
    ]

-- A login failure of any address keeps the map of failures within `max_items`, also where the map is
-- full and an entry has to go, or every entry is blocked and none can.
pub add_failure_bounded :
    (env : Env) (addr : String) (f : FailTracker)
    → length f.items ≤ f.max_items
    → length (add_failure env addr f).items ≤ f.max_items
unfolding add_failure track_state
add_failure_bounded env addr f h =
    size-add_tracked_failure-le env addr (trim_space addr) f.max_items
      (track_key (trim_space addr) env.now f) (size-track_key-le (trim_space addr) env.now f h)
