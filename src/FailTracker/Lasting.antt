-- ===== src/FailTracker/Lasting.antt =====
-- What the operations of src/server/tunnel/fail_tracker.go, successful_ip_history.go and
-- fail_persistence.go leave of the set of banned addresses.
use lsyl_tunnel.Base.{
  ℕ, ◌≡◌, refl, ap, subst, ◌∙◌, inl, inr, String, Bool, true, false, Option, none, List, [], ◌∷◌,
  ◌++◌, leb, either, either_option, String_discrete, Option-cases, length, find, put, find-put,
  trim_space, arith,
}
use lsyl_tunnel.FailTracker.{
  FailTracker, FailState, Env, blocked_permanent, has_permanent, is_some, recent_failures, save,
  cleanup_locked, cleanup, evict, clean_if_full, insert_fresh, track_key, track_state,
}
use lsyl_tunnel.FailTracker.Failures.{
  block_kind_read, block_kind_locked, block_kind, end_block, count_failure, add_tracked_failure,
  add_failure, ban, block_key, block_permanent, count_protocol_failure,
  add_tracked_protocol_failure, protect_or_count, add_protocol_failure, or_else,
}
use lsyl_tunnel.FailTracker.Success.{
  rotate_successful_ips, successful_today, canonical_successful_ip, mark_successful, mark_key,
  forget_protocol_failures,
}
use lsyl_tunnel.FailTracker.Persistence.{unblock, unblock_key}
use lsyl_tunnel.FailTracker.Bans.{
  Banned, protocol_key, add_protocol_failure-Banned, block_kind_banned,
}

-- The bans of `f` and no others.
abbrev Same : FailTracker → FailTracker → Type 0
Same f g = g.permanent ≡ f.permanent

save-Same : (env : Env) (f : FailTracker) → Same f (save env f)
unfolding save
save-Same env f = ground arith

cleanup-Same : (env : Env) (f : FailTracker) → Same f (cleanup env f)
unfolding cleanup cleanup_locked
cleanup-Same env f = ground (arith, save-Same env (cleanup_locked env.now f))

end_block-Same :
    (env : Env) (key : String) (st : FailState) (f : FailTracker) → Same f (end_block env key st f)
unfolding end_block save
end_block-Same env key st f = ground arith

block_kind-Same : (env : Env) (key : String) (f : FailTracker) → Same f (block_kind env key f).0
unfolding block_kind block_kind_read block_kind_locked
block_kind-Same env key f = elim (Option-cases (find String_discrete key f.items)) [
  | inl e ↦ ground (arith, e)
  | inr (st, e) ↦ ground (arith, e, end_block-Same env key st f)
]

unblock-Same : (env : Env) (addr : String) (f : FailTracker) → Same f (unblock env addr f).0
unfolding unblock unblock_key save
unblock-Same env addr f = ground arith

evict-Same : (now : ℕ) (f : FailTracker) → Same f (evict now (clean_if_full now f)).0
unfolding evict clean_if_full cleanup_locked
evict-Same now f = ground arith

insert_fresh-Same :
    (key : String) (now : ℕ) (r : FailTracker × Bool) → Same r.0 (insert_fresh key now r).0
unfolding insert_fresh
insert_fresh-Same key now (f, true) = refl
insert_fresh-Same key now (f, false) = refl

track_state-Same : (addr : String) (now : ℕ) (f : FailTracker) → Same f (track_state addr now f).0
unfolding track_state track_key
track_state-Same addr now f = ground (
  arith,
  insert_fresh-Same (trim_space addr) now (evict now (clean_if_full now f)),
  evict-Same now f,
)

count_failure-Same :
    (env : Env) (key : String) (st : FailState) (f : FailTracker)
    → Same f (count_failure env key st f)
unfolding count_failure save
count_failure-Same env key st f = ground arith

add_tracked-Same :
    (env : Env) (addr key : String) (r : FailTracker × Bool)
    → Same r.0 (add_tracked_failure env addr key r)
unfolding add_tracked_failure
add_tracked-Same env addr key (f, false) = refl
add_tracked-Same env addr key (f, true) = elim (Option-cases (find String_discrete key f.items)) [
  | inl e ↦ ground (arith, e)
  | inr (st, e) ↦ ground (arith, e, count_failure-Same env key st f)
]

add_failure-Same : (env : Env) (addr : String) (f : FailTracker) → Same f (add_failure env addr f)
unfolding add_failure
add_failure-Same env addr f =
    add_tracked-Same env addr (trim_space addr) (track_state addr env.now f)
    ∙ track_state-Same addr env.now f

-- The ban of `key` in `f` is one of `g`.
abbrev Keeps : String → FailTracker → FailTracker → Type 0
Keeps key f g = has_permanent key f ≡ true → has_permanent key g ≡ true

Same-Keeps : (key : String) (f g : FailTracker) → Same f g → Keeps key f g
unfolding has_permanent
Same-Keeps key f g s h = ap (λ m. is_some (find String_discrete key m)) s ∙ h

block_key-Keeps :
    (env : Env) (other key : String) (f : FailTracker) → Keeps key f (block_key env other f).0
unfolding block_key ban save has_permanent
block_key-Keeps env other key f h =
    ground (arith, h, find-put String_discrete other key tt f.permanent)

count-Keeps :
    (env : Env) (addr other key : String) (st : FailState) (f : FailTracker)
    → Keeps key f (count_protocol_failure env addr other st f).0
unfolding count_protocol_failure block_permanent has_permanent
count-Keeps env addr other key st f h =
    either (λ (r : FailTracker × Bool). has_permanent key r.0 ≡ true)
      (leb f.limit (length (recent_failures f.window env.now st.protocol_failures ++ env.now ∷ [])))
      _ _ (block_key-Keeps env (trim_space addr) key _ h) h

tracked-Keeps :
    (env : Env) (addr other key : String) (r : FailTracker × Bool)
    → Keeps key r.0 (add_tracked_protocol_failure env addr other r).0
unfolding add_tracked_protocol_failure
tracked-Keeps env addr other key (f, false) h = h
tracked-Keeps env addr other key (f, true) h =
    either (λ (r : FailTracker × Bool). has_permanent key r.0 ≡ true) (has_permanent addr f) _ _ h
      (either_option (λ (r : FailTracker × Bool). has_permanent key r.0 ≡ true)
        (find String_discrete other f.items) _ _ h (λ st. count-Keeps env addr other key st f h))

protect-Keeps :
    (env : Env) (addr key : String) (r : FailTracker × Bool)
    → Keeps key r.0 (protect_or_count env addr r).0
unfolding protect_or_count
protect-Keeps env addr key (f, true) h = h
protect-Keeps env addr key (f, false) h =
    tracked-Keeps env addr (trim_space addr) key (track_state addr env.now f)
      (Same-Keeps key f (track_state addr env.now f).0 (track_state-Same addr env.now f) h)

rotate-Same : (date : String) (f : FailTracker) → Same f (rotate_successful_ips date f)
unfolding rotate_successful_ips
rotate-Same date f = ground arith

forget-Same : (key : String) (f : FailTracker) → Same f (forget_protocol_failures key f)
unfolding forget_protocol_failures
forget-Same key f = ground arith

-- A call that the server makes, for any address: a login that fails or succeeds, a protocol failure,
-- a question for a block, an operator's lifting of a block that is none for good, or the cleanup.
pub data Call : Type 0 where
  fails protocol_fails succeeds asks unblocks : Env → String → Call
  cleans : Env → Call

module _ (parse_ip : String → Option String) where
  protocol-Keeps :
      (env : Env) (addr key : String) (f : FailTracker)
      → Keeps key f (add_protocol_failure parse_ip env addr f).0
  unfolding add_protocol_failure successful_today
  protocol-Keeps env addr key f h =
      let k = or_else (canonical_successful_ip parse_ip addr) addr in
      protect-Keeps env k key (successful_today k env.date f)
        (Same-Keeps key f (rotate_successful_ips env.date f) (rotate-Same env.date f) h)

  mark_key-Same : (key : String) (f : FailTracker) → Same f (mark_key parse_ip key f).0
  unfolding mark_key
  mark_key-Same key f = ground (
    arith,
    forget-Same key f,
    forget-Same key (record f { successful_ips = put String_discrete key tt f.successful_ips }),
  )

  mark-Same :
      (env : Env) (addr : String) (f : FailTracker) → Same f (mark_successful parse_ip env addr f).0
  unfolding mark_successful
  mark-Same env addr f =
      either_option (λ (r : FailTracker × Bool). Same f r.0) (canonical_successful_ip parse_ip addr)
        _ _ refl
        (λ key. mark_key-Same key (rotate_successful_ips env.date f) ∙ rotate-Same env.date f)

  unfoldable pub called : FailTracker → Call → FailTracker
  called f (fails env addr) = add_failure env addr f
  called f (protocol_fails env addr) = (add_protocol_failure parse_ip env addr f).0
  called f (succeeds env addr) = (mark_successful parse_ip env addr f).0
  called f (asks env addr) = (block_kind env addr f).0
  called f (unblocks env addr) = (unblock env addr f).0
  called f (cleans env) = cleanup env f

  abbrev pub calls : FailTracker → List Call → FailTracker
  calls f [] = f
  calls f (c ∷ cs) = calls (called f c) cs

  called-Keeps : (key : String) (f : FailTracker) (c : Call) → Keeps key f (called f c)
  unfolding called
  called-Keeps key f (fails env addr) = Same-Keeps key f _ (add_failure-Same env addr f)
  called-Keeps key f (protocol_fails env addr) = protocol-Keeps env addr key f
  called-Keeps key f (succeeds env addr) = Same-Keeps key f _ (mark-Same env addr f)
  called-Keeps key f (asks env addr) = Same-Keeps key f _ (block_kind-Same env addr f)
  called-Keeps key f (unblocks env addr) = Same-Keeps key f _ (unblock-Same env addr f)
  called-Keeps key f (cleans env) = Same-Keeps key f _ (cleanup-Same env f)

  calls-Keeps : (key : String) (f : FailTracker) (cs : List Call) → Keeps key f (calls f cs)
  calls-Keeps key f [] h = h
  calls-Keeps key f (c ∷ cs) h = calls-Keeps key (called f c) cs (called-Keeps key f c h)

  -- Where `addProtocolFailure` reports that it banned an address, it keeps no entry for it, and after any
  -- further logins, failures, questions, cleanups and liftings of other blocks (all but
  -- `unblockPermanent`), for any addresses and at any times, `blockKind` answers that the address is
  -- permanently blocked, and changes nothing. The address is one that the counting leaves as it is:
  -- trimmed, and in the spelling of `net.ParseIP` if it is an IP address.
  pub ban_lasts :
      (env check : Env) (addr : String) (later : List Call) (f : FailTracker)
      → protocol_key parse_ip addr ≡ addr
      → (add_protocol_failure parse_ip env addr f).1 ≡ true
      → let g = (add_protocol_failure parse_ip env addr f).0 in
        (find String_discrete addr g.items ≡ none)
        × (block_kind check addr (calls g later) ≡ (calls g later, blocked_permanent))
  ban_lasts env check addr later f same h =
      let g = (add_protocol_failure parse_ip env addr f).0 in
      let (banned, forgotten) =
        subst (λ key. Banned key g) same (add_protocol_failure-Banned parse_ip env addr f h) in
      (forgotten, block_kind_banned check addr (calls g later) (calls-Keeps addr g later banned))
