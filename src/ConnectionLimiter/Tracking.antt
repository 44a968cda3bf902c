-- ===== src/ConnectionLimiter/Tracking.antt =====
-- The number of addresses that the limiter keeps an entry for.
use lsyl_tunnel.Base.{
  oldest_idle, oldest_idle_idle, ◌++◌, ℕ, ◌+◌, ◌≤◌, ◌<◌, String, ◌≡◌, subst, Bool, true, false,
  some, [], ◌∷◌, inl, inr, ltb, if◌then◌else◌, String_discrete, Option-cases, length, Map, find,
  length-put-le, length-put_found, length-delete-le, length-delete_found, length-refine-le, arith,
}
use lsyl_tunnel.ConnectionLimiter.{
  LimitState, ConnectionLimiter, ip_or_unknown, prune, cleanup_all, acquire, release, store_or_drop,
  has_active, seen_at, evict, clean_if_full, insert_fresh, track_state, open_connection, refuse,
  admit, refresh, admit_tracked,
}

-- The number of addresses with an entry.
abbrev pub tracked : ConnectionLimiter → ℕ
tracked l = length l.items

length-store_or_drop-le :
    (ip : String) (st w : LimitState) (items : Map String LimitState)
    → find String_discrete ip items ≡ some w
    → length (store_or_drop ip st items) ≤ length items
unfolding store_or_drop
length-store_or_drop-le ip st w items e = ground (
  arith,
  length-delete-le String_discrete ip items,
  length-put_found String_discrete ip st w items e,
)

tracked-refresh-le :
    (ip : String) (now : ℕ) (l : ConnectionLimiter) → tracked (refresh ip now l) ≤ tracked l
unfolding refresh
tracked-refresh-le ip now l = elim (Option-cases (find String_discrete ip l.items)) [
  | inl e ↦ rw (e, refresh) (omega arith)
  | inr (st, e) ↦ rw (e, refresh) (length-store_or_drop-le ip (prune l now st) st l.items e)
]

pub tracked-cleanup_all-le :
    (now : ℕ) (l : ConnectionLimiter) → tracked (cleanup_all now l) ≤ tracked l
unfolding cleanup_all
tracked-cleanup_all-le now l = length-refine-le String_discrete _ l.items

tracked-clean_if_full-le :
    (now : ℕ) (l : ConnectionLimiter) → tracked (clean_if_full now l) ≤ tracked l
unfolding clean_if_full
tracked-clean_if_full-le now l = ground (arith, tracked-cleanup_all-le now l)

-- After `evict` says that there is room, there is.
abbrev HasRoom : ℕ → ConnectionLimiter × Bool → Type 0
HasRoom limit (l, true) = tracked l < limit
HasRoom limit (l, false) = tracked l ≤ limit

evict-HasRoom : (l : ConnectionLimiter) → tracked l ≤ l.max_items → HasRoom l.max_items (evict l)
unfolding evict
evict-HasRoom l h = elim (Option-cases (oldest_idle has_active seen_at l.items)) [
  | inl e ↦ rw (e, evict) (ground arith)
  | inr ((ip, seen), e) ↦
      let idle = oldest_idle_idle has_active seen_at l.items e in
      rw (e, evict) (ground (arith, length-delete_found String_discrete ip idle.0 l.items idle.1))
]

insert_fresh-le :
    (ip : String) (now limit : ℕ) (r : ConnectionLimiter × Bool)
    → HasRoom limit r
    → tracked (insert_fresh ip now r).0 ≤ limit
unfolding insert_fresh
insert_fresh-le ip now limit (l, false) h = h
insert_fresh-le ip now limit (l, true) h = omega (
  arith,
  length-put-le String_discrete ip (record { active = 0; attempts = []; last_seen = now }) l.items,
)

clean_if_full_items :
    (now : ℕ) (l : ConnectionLimiter) → (clean_if_full now l).max_items ≡ l.max_items
unfolding clean_if_full cleanup_all
clean_if_full_items now l = ground arith

tracked-track_state-le :
    (ip : String) (now : ℕ) (l : ConnectionLimiter)
    → tracked l ≤ l.max_items
    → tracked (track_state ip now l).0 ≤ l.max_items
unfolding track_state
tracked-track_state-le ip now l h = elim (Option-cases (find String_discrete ip l.items)) [
  | inl e ↦
      rw (e, track_state)
        (insert_fresh-le ip now l.max_items _ (
          subst (λ n. HasRoom n (evict (clean_if_full now l))) same
            (evict-HasRoom (clean_if_full now l) room)))
  | inr (st, e) ↦ rw (e, track_state) h
]
  where
    same : (clean_if_full now l).max_items ≡ l.max_items
    same = clean_if_full_items now l

    room : tracked (clean_if_full now l) ≤ (clean_if_full now l).max_items
    room = omega (arith, same, tracked-clean_if_full-le now l)

tracked-admit_tracked-le :
    (ip : String) (now : ℕ) (r : ConnectionLimiter × Bool)
    → tracked (admit_tracked ip now r).0 ≤ tracked r.0
unfolding admit_tracked admit refuse open_connection
tracked-admit_tracked-le ip now (l, false) = omega arith
tracked-admit_tracked-le ip now (l, true) = elim (Option-cases (find String_discrete ip l.items)) [
  | inl e ↦ rw (e, admit_tracked) (omega arith)
  | inr (st, e) ↦
      rw (e, admit_tracked)
        (ground (
          arith,
          length-store_or_drop-le ip (record st { last_seen = now }) st l.items e,
          length-put_found String_discrete ip
              (record {
                active = st.active + 1;
                attempts = if ltb 0 l.max_rate then st.attempts ++ now ∷ [] else st.attempts;
                last_seen = now;
              })
              st l.items e,
        ))
]

refresh_items :
    (ip : String) (now : ℕ) (l : ConnectionLimiter) → (refresh ip now l).max_items ≡ l.max_items
unfolding refresh
refresh_items ip now l = ground arith

-- `acquire` keeps the map within `max_items`.
pub tracked-acquire-le :
    (addr : String) (now : ℕ) (l : ConnectionLimiter)
    → tracked l ≤ l.max_items
    → tracked (acquire addr now l).0 ≤ l.max_items
unfolding acquire
tracked-acquire-le addr now l h = ground (
  arith,
  tracked-refresh-le ip now l,
  refresh_items ip now l,
  tracked-track_state-le ip now (refresh ip now l),
  tracked-admit_tracked-le ip now (track_state ip now (refresh ip now l)),
)
  where
    ip : String
    ip = ip_or_unknown addr

pub tracked-release-le :
    (addr : String) (now : ℕ) (l : ConnectionLimiter) → tracked (release addr now l) ≤ tracked l
unfolding release
tracked-release-le addr now l =
    elim (Option-cases (find String_discrete (ip_or_unknown addr) l.items)) [
      | inl e ↦ rw (e, release) (omega arith)
      | inr (st, e) ↦ rw (e, release) (length-store_or_drop-le (ip_or_unknown addr) _ st l.items e)
    ]
