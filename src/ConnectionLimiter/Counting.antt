-- ===== src/ConnectionLimiter/Counting.antt =====
-- What each operation does to the count of open connections of every address.
use lsyl_tunnel.Base.{
  oldest_idle, oldest_idle_idle, ℕ, suc, ◌-◌, ◌≤◌, ◌<◌, String, ◌≡◌, refl, ap, ◌∙◌, Bool, true,
  false, Option, none, some, [], inl, inr, ite, String_discrete, Option-cases, Bool-cases, Map,
  find, find-put, find-delete, find-refine, arith,
}
use lsyl_tunnel.ConnectionLimiter.{
  LimitState, ConnectionLimiter, Reply, granted, refused, Reason, per_ip_concurrent_connections,
  per_ip_new_connection_rate, ip_or_unknown, prune, store_or_drop, cleanup_all, has_active, seen_at,
  evict, track_state, clean_if_full, insert_fresh, is_full, is_full_per_ip, is_over_rate,
  open_connection, refuse, admit, refresh, admit_tracked, acquire, release,
}

abbrev pub active_of : Option LimitState → ℕ
active_of none = 0
active_of (some st) = st.active

-- The open connections that the map records for `ip`.
abbrev pub active_at : String → ConnectionLimiter → ℕ
active_at ip l = active_of (find String_discrete ip l.items)

active-prune :
    (l : ConnectionLimiter) (now : ℕ) (st : LimitState) → (prune l now st).active ≡ st.active
unfolding prune
active-prune l now st = ground arith

active-store_or_drop :
    (ip j : String) (st : LimitState) (items : Map String LimitState)
    → active_of (find String_discrete j (store_or_drop ip st items))
      ≡ ite (String_discrete ip j) st.active (active_of (find String_discrete j items))
unfolding store_or_drop
active-store_or_drop ip j st items =
    ground (arith, find-put String_discrete ip j st items, find-delete String_discrete ip j items)

pub active-cleanup_all :
    (j : String) (now : ℕ) (l : ConnectionLimiter) → active_at j (cleanup_all now l) ≡ active_at j l
unfolding cleanup_all prune
active-cleanup_all j now l = rw (find-refine String_discrete _ j l.items) (ground arith)

pub active-refresh :
    (ip j : String) (now : ℕ) (l : ConnectionLimiter)
    → active_at j (refresh ip now l) ≡ active_at j l
unfolding refresh
active-refresh ip j now l = elim (Option-cases (find String_discrete ip l.items)) [
  | inl e ↦ rw (e, refresh) refl
  | inr (st, e) ↦
      rw (e, refresh)
        (ground (arith, active-store_or_drop ip j (prune l now st) l.items, active-prune l now st))
]

active-evict : (j : String) (l : ConnectionLimiter) → active_at j (evict l).0 ≡ active_at j l
unfolding evict
active-evict j l = elim (Option-cases (oldest_idle has_active seen_at l.items)) [
  | inl e ↦ rw (e, evict) (ground arith)
  | inr ((ip, seen), e) ↦
      rw (e, evict)
        (ground (
          arith,
          find-delete String_discrete ip j l.items,
          oldest_idle_idle has_active seen_at l.items e,
        ))
]

evict_total : (l : ConnectionLimiter) → (evict l).0.active_total ≡ l.active_total
unfolding evict
evict_total l = ground arith

active-clean_if_full :
    (j : String) (now : ℕ) (l : ConnectionLimiter)
    → active_at j (clean_if_full now l) ≡ active_at j l
unfolding clean_if_full
active-clean_if_full j now l = ground (arith, active-cleanup_all j now l)

active-insert_fresh :
    (ip j : String) (now : ℕ) (r : ConnectionLimiter × Bool)
    → active_at ip r.0 ≡ 0
    → active_at j (insert_fresh ip now r).0 ≡ active_at j r.0
unfolding insert_fresh
active-insert_fresh ip j now (l, false) h = refl
active-insert_fresh ip j now (l, true) h = ground (
  arith,
  find-put String_discrete ip j (record { active = 0; attempts = []; last_seen = now }) l.items,
)

active-evict_clean :
    (j : String) (now : ℕ) (l : ConnectionLimiter)
    → active_at j (evict (clean_if_full now l)).0 ≡ active_at j l
active-evict_clean j now l = active-evict j (clean_if_full now l) ∙ active-clean_if_full j now l

pub active-track_state :
    (ip j : String) (now : ℕ) (l : ConnectionLimiter)
    → active_at j (track_state ip now l).0 ≡ active_at j l
unfolding track_state
active-track_state ip j now l = elim (Option-cases (find String_discrete ip l.items)) [
  | inl e ↦
      rw (e, track_state)
        (active-insert_fresh ip j now _ (active-evict_clean ip now l ∙ ap active_of e)
          ∙ active-evict_clean j now l)
  | inr (st, e) ↦ rw (e, track_state) refl
]

pub track_state_total :
    (ip : String) (now : ℕ) (l : ConnectionLimiter)
    → (track_state ip now l).0.active_total ≡ l.active_total
unfolding track_state clean_if_full cleanup_all insert_fresh
track_state_total ip now l = elim (Option-cases (find String_discrete ip l.items)) [
  | inl e ↦
      rw (e, track_state)
        (insert_fresh_total (evict (clean_if_full now l))
          ∙ evict_total (clean_if_full now l)
          ∙ ground arith)
  | inr (st, e) ↦ rw (e, track_state) refl
]
  where
    insert_fresh_total :
        (r : ConnectionLimiter × Bool) → (insert_fresh ip now r).0.active_total ≡ r.0.active_total
    insert_fresh_total (m, false) = refl
    insert_fresh_total (m, true) = refl

-- What the reply of `acquire` says of the count of `j`, and of the total.
abbrev pub Counts : String → String → ConnectionLimiter → ConnectionLimiter × Reply → Type 0
Counts ip j l (m, granted) =
    (active_at j m ≡ ite (String_discrete ip j) (suc (active_at j l)) (active_at j l))
    × (m.active_total ≡ suc l.active_total)
Counts ip j l (m, refused _) = (active_at j m ≡ active_at j l) × (m.active_total ≡ l.active_total)

refuse-Counts :
    (ip j : String) (now : ℕ) (st : LimitState) (l : ConnectionLimiter) (r : Reason)
    → find String_discrete ip l.items ≡ some st
    → Counts ip j l (refuse ip now st l, refused r)
unfolding refuse
refuse-Counts ip j now st l r e =
    (ground (arith, active-store_or_drop ip j (record st { last_seen = now }) l.items), refl)

open_connection-Counts :
    (ip j : String) (now : ℕ) (st : LimitState) (l : ConnectionLimiter)
    → find String_discrete ip l.items ≡ some st
    → Counts ip j l (open_connection ip now st l, granted)
unfolding open_connection
open_connection-Counts ip j now st l e =
    (rw (find-put String_discrete ip j _ l.items) (ground arith), omega arith)

admit-Counts :
    (ip j : String) (now : ℕ) (st : LimitState) (l : ConnectionLimiter)
    → find String_discrete ip l.items ≡ some st
    → Counts ip j l (admit ip now st l)
unfolding admit
admit-Counts ip j now st l e = elim (Bool-cases (is_full_per_ip l st)) [
  | inl f ↦ rw (f, admit) (refuse-Counts ip j now st l per_ip_concurrent_connections e)
  | inr f ↦ elim (Bool-cases (is_over_rate l st)) [
    | inl o ↦ rw (f, admit) (rw o (refuse-Counts ip j now st l per_ip_new_connection_rate e))
    | inr o ↦ rw (f, admit) (rw o (open_connection-Counts ip j now st l e))
  ]
]

Counts-trans :
    (ip j : String) (l m : ConnectionLimiter) (r : ConnectionLimiter × Reply)
    → active_at j m ≡ active_at j l
    → m.active_total ≡ l.active_total
    → Counts ip j m r
    → Counts ip j l r
Counts-trans ip j l m (n, granted) a t c = (ground arith, ground arith)
Counts-trans ip j l m (n, refused r) a t c = (ground arith, ground arith)

admit_tracked-Counts :
    (ip j : String) (now : ℕ) (r : ConnectionLimiter × Bool)
    → Counts ip j r.0 (admit_tracked ip now r)
unfolding admit_tracked
admit_tracked-Counts ip j now (l, false) = (refl, refl)
admit_tracked-Counts ip j now (l, true) = elim (Option-cases (find String_discrete ip l.items)) [
  | inl e ↦ rw (e, admit_tracked) (refl, refl)
  | inr (st, e) ↦ rw (e, admit_tracked) (admit-Counts ip j now st l e)
]

pub refresh_total :
    (ip : String) (now : ℕ) (l : ConnectionLimiter)
    → (refresh ip now l).active_total ≡ l.active_total
unfolding refresh
refresh_total ip now l = ground arith

-- `acquire` counts the connection that it grants, at the caller's address only, and else nothing.
pub acquire-Counts :
    (addr j : String) (now : ℕ) (l : ConnectionLimiter)
    → Counts (ip_or_unknown addr) j l (acquire addr now l)
unfolding acquire
acquire-Counts addr j now l₀ = elim (Bool-cases (is_full l)) [
  | inl f ↦ rw f (a, t)
  | inr f ↦ rw f (
      Counts-trans ip j l₀ (track_state ip now l).0 (admit_tracked ip now (track_state ip now l))
        (active-track_state ip j now l ∙ a) (track_state_total ip now l ∙ t)
        (admit_tracked-Counts ip j now (track_state ip now l)))
]
  where
    ip : String
    ip = ip_or_unknown addr

    l : ConnectionLimiter
    l = refresh ip now l₀

    a : active_at j l ≡ active_at j l₀
    a = active-refresh ip j now l₀

    t : l.active_total ≡ l₀.active_total
    t = refresh_total ip now l₀

-- `release` takes one off the count of an address that has a connection open, and off the total.
pub active-release :
    (addr j : String) (now : ℕ) (l : ConnectionLimiter)
    → 0 < active_at (ip_or_unknown addr) l
    → (active_at j (release addr now l)
        ≡ ite (String_discrete (ip_or_unknown addr) j) (active_at j l - 1) (active_at j l))
      × ((release addr now l).active_total ≡ l.active_total - 1)
unfolding release
active-release addr j now l h =
    elim (Option-cases (find String_discrete (ip_or_unknown addr) l.items)) [
      | inl e ↦ absurd (omega (arith, ap active_of e))
      | inr (st, e) ↦
          rw (e, release)
            (rw (active-store_or_drop _ j _ l.items) (rw active-prune (ground arith)), refl)
    ]

-- In no case does `release` raise a count.
pub active-release-le :
    (addr j : String) (now : ℕ) (l : ConnectionLimiter)
    → (active_at j (release addr now l) ≤ active_at j l)
      × ((release addr now l).active_total ≤ l.active_total)
unfolding release
active-release-le addr j now l =
    elim (Option-cases (find String_discrete (ip_or_unknown addr) l.items)) [
      | inl e ↦ rw (e, release) (omega arith, omega arith)
      | inr (st, e) ↦
          rw (e, release)
            (rw (active-store_or_drop _ j _ l.items) (rw active-prune (ground arith)), omega arith)
    ]
