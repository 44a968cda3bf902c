-- ===== src/ConnectionLimiter/Eviction.antt =====
-- Which entry makes room.
use lsyl_tunnel.Base.{
  oldest_idle, oldest_idle_idle, oldest_idle-none, oldest_idle-le, ◌+◌, ◌≤◌, String, ◌≡◌, true,
  some, inl, inr, String_discrete, Option-cases, length, find, delete, arith,
}
use lsyl_tunnel.ConnectionLimiter.{LimitState, ConnectionLimiter, has_active, seen_at, evict}

-- `l` without the entry of `ip`, counted as evicted.
abbrev pub without : String → ConnectionLimiter → ConnectionLimiter
without ip l = record l {
  items = delete String_discrete ip l.items;
  evicted_ips = l.evicted_ips + 1;
}

-- A full map that makes room loses one entry, which has no open connection, and was seen no later
-- than any other entry `j` without one.
pub evict_oldest :
    (l : ConnectionLimiter) (j : String) (other : LimitState)
    → l.max_items ≤ length l.items
    → (evict l).1 ≡ true
    → find String_discrete j l.items ≡ some other
    → other.active ≡ 0
    → (ip : String) × (st : LimitState) × (find String_discrete ip l.items ≡ some st)
      × (st.active ≡ 0)
      × (st.last_seen ≤ other.last_seen)
      × ((evict l).0 ≡ without ip l)
unfolding evict
evict_oldest l j other full room e z =
    elim (Option-cases (oldest_idle has_active seen_at l.items)) [
      | inl h ↦ absurd (ground (arith, oldest_idle-none has_active seen_at l.items j other h e))
      | inr ((ip, seen), h) ↦
          let (st, found, idle, at) = oldest_idle_idle has_active seen_at l.items h in
          (
            ip,
            st,
            found,
            ground arith,
            ground (arith, oldest_idle-le has_active seen_at l.items j other h e),
            rw (h, evict) (ground arith),
          )
    ]
