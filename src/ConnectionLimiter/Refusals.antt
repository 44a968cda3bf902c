-- ===== src/ConnectionLimiter/Refusals.antt =====
-- Which reply `acquire` gives.
use lsyl_tunnel.Base.{
  oldest_idle, oldest_idle-none, ℕ, ◌+◌, ◌≤◌, ◌<◌, String, ◌≡◌, refl, ap, sym, subst, ◌∙◌, ◌⊎◌,
  ◌&&◌, Bool, true, false, none, some, List, [], inl, inr, if_false, ltb, leb, if◌then◌else◌,
  String_discrete, Option-cases, Bool-cases, length, keep, length-keep-le, Map, find, put, delete,
  find-put_self, find-delete_self, length-delete_found, length-delete_found, arith,
}
use lsyl_tunnel.ConnectionLimiter.{
  LimitState, ConnectionLimiter, Reply, granted, refused, global_concurrent_connections,
  per_ip_concurrent_connections, per_ip_new_connection_rate, ip_or_unknown, prune, is_spent,
  cleanup_all, acquire, store_or_drop, has_active, seen_at, evict, clean_if_full, insert_fresh,
  track_state, is_full, is_full_per_ip, is_over_rate, admit, refresh, admit_tracked,
}
use lsyl_tunnel.ConnectionLimiter.Tracking.{tracked}

-- The attempts of an entry that fall into the rate window that ends now.
abbrev pub recent : ConnectionLimiter → ℕ → LimitState → List ℕ
recent l now st = keep (λ ts. ltb now (ts + l.rate_window)) st.attempts

-- The decision for an address with the entry `st`.
abbrev pub verdict : ConnectionLimiter → ℕ → LimitState → Reply
verdict l now st =
    if is_full l
    then refused global_concurrent_connections
    else if is_full_per_ip l st
    then refused per_ip_concurrent_connections
    else if ltb 0 l.max_rate && leb l.max_rate (length (recent l now st))
    then refused per_ip_new_connection_rate
    else granted

prune_facts :
    (l : ConnectionLimiter) (now : ℕ) (st : LimitState)
    → 0 < l.max_rate
    → ((prune l now st).active ≡ st.active)
      × (length (prune l now st).attempts ≡ length (recent l now st))
unfolding prune
prune_facts l now st h =
    ground (arith, length-keep-le (λ ts. ltb now (ts + l.rate_window)) st.attempts)

admit-verdict :
    (ip : String) (now : ℕ) (l : ConnectionLimiter) (st kept : LimitState)
    → is_full l ≡ false
    → 0 < l.max_rate
    → kept.active ≡ st.active
    → length kept.attempts ≡ length (recent l now st)
    → (admit ip now kept l).1 ≡ verdict l now st
unfolding admit is_full_per_ip is_over_rate
admit-verdict ip now l st kept f h a n = rw f (ground arith)

track_state_room :
    (ip : String) (now : ℕ) (l : ConnectionLimiter)
    → find String_discrete ip l.items ≡ none
    → tracked l < l.max_items
    → track_state ip now l ≡ insert_fresh ip now (l, true)
unfolding track_state evict clean_if_full
track_state_room ip now l e h = rw (e, track_state) (ground arith)

-- The entry was spent: it is dropped, and made anew.
anew_verdict :
    (ip : String) (now : ℕ) (l : ConnectionLimiter) (st : LimitState)
    (items : Map String LimitState)
    → find String_discrete ip items ≡ none
    → length items < l.max_items
    → is_full l ≡ false
    → 0 < l.max_rate
    → st.active ≡ 0
    → length (recent l now st) ≡ 0
    → let m = record l { items = items } in
      (admit_tracked ip now (track_state ip now m)).1 ≡ verdict l now st
unfolding admit_tracked insert_fresh is_full is_full_per_ip
anew_verdict ip now l st items e h f r a n =
    let m = record l { items = items } in
    let fresh : LimitState = record { active = 0; attempts = []; last_seen = now } in
    let there : find String_discrete ip (put String_discrete ip fresh items) ≡ some fresh =
      find-put_self String_discrete ip fresh items in
    rw (track_state_room ip now m e h) (
      rw (there, admit_tracked)
        (admit-verdict ip now (record m { items = put String_discrete ip fresh items }) st fresh f r
          (sym a) (sym n)))

there_verdict :
    (ip : String) (now : ℕ) (l : ConnectionLimiter) (st kept : LimitState)
    (items : Map String LimitState)
    → find String_discrete ip items ≡ some kept
    → is_full l ≡ false
    → 0 < l.max_rate
    → kept.active ≡ st.active
    → length kept.attempts ≡ length (recent l now st)
    → let m = record l { items = items } in
      (admit_tracked ip now (track_state ip now m)).1 ≡ verdict l now st
unfolding admit_tracked track_state is_full is_full_per_ip
there_verdict ip now l st kept items e f r a n =
    rw (e, track_state)
      (rw (e, admit_tracked) (admit-verdict ip now (record l { items = items }) st kept f r a n))

spent_or_not :
    (l : ConnectionLimiter) (now : ℕ) (st : LimitState)
    → 0 < l.max_rate
    → ((is_spent (prune l now st) ≡ true) × (st.active ≡ 0) × (length (recent l now st) ≡ 0))
      ⊎ (is_spent (prune l now st) ≡ false)
unfolding is_spent
spent_or_not l now st h = ground (arith, prune_facts l now st h)

refreshed_verdict :
    (ip : String) (now : ℕ) (l : ConnectionLimiter) (st : LimitState)
    → find String_discrete ip l.items ≡ some st
    → tracked l ≤ l.max_items
    → 0 < l.max_rate
    → is_full l ≡ false
    → let m = record l { items = store_or_drop ip (prune l now st) l.items } in
      (admit_tracked ip now (track_state ip now m)).1 ≡ verdict l now st
unfolding store_or_drop
refreshed_verdict ip now l st e h r f = elim (spent_or_not l now st r) [
  | inl (s, a, n) ↦ rw s (
      anew_verdict ip now l st (delete String_discrete ip l.items)
        (find-delete_self String_discrete ip l.items)
        (omega (arith, length-delete_found String_discrete ip st l.items e)) f r a n)
  | inr s ↦ rw s (
      there_verdict ip now l st (prune l now st) (put String_discrete ip (prune l now st) l.items)
        (find-put_self String_discrete ip (prune l now st) l.items) f r (prune_facts l now st r).0
        (prune_facts l now st r).1)
]

-- The reply to an address that has an entry, on every branch: the global limit, the limit of the
-- address on its open connections, and that on the connections it opened within the window, in
-- this order, where the map is within its bound and a rate limit is set. No such address is refused
-- for want of an entry.
pub acquire-verdict :
    (addr : String) (now : ℕ) (l : ConnectionLimiter) (st : LimitState)
    → find String_discrete (ip_or_unknown addr) l.items ≡ some st
    → tracked l ≤ l.max_items
    → 0 < l.max_rate
    → (acquire addr now l).1 ≡ verdict l now st
unfolding acquire refresh is_full
acquire-verdict addr now l st e h r = elim (Bool-cases (is_full l)) [
  | inl f ↦ rw (e, acquire, refresh) (rw f refl)
  | inr f ↦
      rw (e, acquire, refresh)
        (ap (λ (p : ConnectionLimiter × Reply). p.1) (if_false _ _ f)
          ∙ refreshed_verdict (ip_or_unknown addr) now l st e h r f)
]

-- The map is full, and every address in it has a connection open.
abbrev AllBusy : ℕ → ConnectionLimiter → Type 0
AllBusy limit l =
    (limit ≤ tracked l)
    × ((j : String) (st : LimitState) → find String_discrete j l.items ≡ some st → 0 < st.active)

evict-false :
    (l : ConnectionLimiter)
    → (evict l).1 ≡ false
    → (oldest_idle has_active seen_at l.items ≡ none)
      × (l.max_items ≤ tracked l)
      × ((evict l).0.items ≡ l.items)
unfolding evict
evict-false l h = ground arith

has_active→pos : (st : LimitState) → has_active st ≡ true → 0 < st.active
has_active→pos st h = ground arith

evict-AllBusy : (l : ConnectionLimiter) → (evict l).1 ≡ false → AllBusy l.max_items (evict l).0
evict-AllBusy l h =
    let (o, f, same) = evict-false l h in
    (
      subst (λ items. l.max_items ≤ length items) (sym same) f,
      λ j st e. has_active→pos st (
          oldest_idle-none has_active seen_at l.items j st o
            (subst (λ items. find String_discrete j items ≡ some st) same e)),
    )

insert_fresh-false :
    (ip : String) (now : ℕ) (r : ConnectionLimiter × Bool)
    → (insert_fresh ip now r).1 ≡ false
    → (r.1 ≡ false) × ((insert_fresh ip now r).0 ≡ r.0)
unfolding insert_fresh
insert_fresh-false ip now (l, false) h = (refl, refl)
insert_fresh-false ip now (l, true) h = cc

clean_max_items : (now : ℕ) (l : ConnectionLimiter) → (clean_if_full now l).max_items ≡ l.max_items
unfolding clean_if_full cleanup_all
clean_max_items now l = ground arith

track_state-AllBusy :
    (ip : String) (now : ℕ) (l : ConnectionLimiter)
    → (track_state ip now l).1 ≡ false
    → AllBusy l.max_items (track_state ip now l).0
unfolding track_state
track_state-AllBusy ip now l h = elim (Option-cases (find String_discrete ip l.items)) [
  | inl e ↦
      rw (e, track_state)
        (go (insert_fresh-false ip now (evict (clean_if_full now l)) (rw (e, track_state) at h)))
  | inr (st, e) ↦ cc (h, e)
]
  where
    go :
        ((evict (clean_if_full now l)).1 ≡ false)
          × ((insert_fresh ip now (evict (clean_if_full now l))).0
              ≡ (evict (clean_if_full now l)).0)
        → AllBusy l.max_items (insert_fresh ip now (evict (clean_if_full now l))).0
    go (f, same) = rw same (
        subst (λ n. AllBusy n (evict (clean_if_full now l)).0) (clean_max_items now l)
          (evict-AllBusy (clean_if_full now l) f))

-- A new address is turned away for want of an entry only where the map is full, also after the
-- cleanup, and every address `j` in it has a connection open.
pub track_state_capacity :
    (ip j : String) (now : ℕ) (l : ConnectionLimiter) (st : LimitState)
    → (track_state ip now l).1 ≡ false
    → find String_discrete j (track_state ip now l).0.items ≡ some st
    → (l.max_items ≤ tracked (track_state ip now l).0) × (0 < st.active)
track_state_capacity ip j now l st h e =
    let (full, busy) = track_state-AllBusy ip now l h in (full, busy j st e)
