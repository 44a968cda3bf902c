-- ===== src/FailTracker/Burst.antt =====
-- A burst of login failures of one address: src/server/tunnel/fail_tracker.go, `addFailure` called
-- again and again, and then `blockKind`.
use mathlib.Core.List.{append_assoc, append-nil}
use lsyl_tunnel.Base.{
  ℕ, suc, ◌+◌, ◌<◌, ◌≡◌, refl, ap, sym, subst, ◌∙◌, inl, inr, String, false, none, List, [], ◌∷◌,
  ◌++◌, All, if_false, ltb, if◌then◌else◌, length, length-append, arith,
}
use lsyl_tunnel.FailTracker.{
  FailTracker, FailState, Env, blocked_none, blocked_temporary, has_permanent,
}
use lsyl_tunnel.FailTracker.Failures.{block_kind, block_kind_read, add_failure}
use lsyl_tunnel.FailTracker.Lockout.{
  entry, IsKey, Tracks, SameSettings, after_failure, add_failures, Burst, block_kind-entry,
  add_failure-entry, recent_failures_all,
}

abbrev pub times : List Env → List ℕ
times [] = []
times (env ∷ envs) = env.now ∷ times envs

pub IsKey-same : (key : String) (f g : FailTracker) → IsKey key f → SameSettings f g → IsKey key g
unfolding has_permanent
IsKey-same key f g k same = record {
  trimmed = k.trimmed;
  nonempty = k.nonempty;
  not_banned = ground (arith, k.not_banned, same);
}

-- One failure that does not reach the limit is added to the entry's.
pub failure_below :
    (env : Env) (f : FailTracker) (st : FailState)
    → All (λ t. env.now < t + f.window) st.auth_failures
    → length st.auth_failures + 1 < f.limit
    → (after_failure env.now f st).auth_failures ≡ st.auth_failures ++ env.now ∷ []
failure_below env f st w h = ground (
  arith,
  recent_failures_all f.window env.now st.auth_failures w,
  length-append st.auth_failures (env.now ∷ []),
)

pub failure_below_until :
    (env : Env) (f : FailTracker) (st : FailState)
    → All (λ t. env.now < t + f.window) st.auth_failures
    → length st.auth_failures + 1 < f.limit
    → (after_failure env.now f st).blocked_until ≡ st.blocked_until
failure_below_until env f st w h = ground (
  arith,
  recent_failures_all f.window env.now st.auth_failures w,
  length-append st.auth_failures (env.now ∷ []),
)

failure_at_limit :
    (env : Env) (f : FailTracker) (st : FailState)
    → All (λ t. env.now < t + f.window) st.auth_failures
    → length st.auth_failures + 1 ≡ f.limit
    → (after_failure env.now f st).blocked_until ≡ env.now + f.block_for
failure_at_limit env f st w h = ground (
  arith,
  recent_failures_all f.window env.now st.auth_failures w,
  length-append st.auth_failures (env.now ∷ []),
)

pub Tracks_below :
    (env : Env) (key : String) (f : FailTracker) (st : FailState)
    → IsKey key f
    → Tracks key f st
    → Tracks key (add_failure env key f) (after_failure env.now f st)
Tracks_below env key f st k t = inl (add_failure-entry env key f st k t).0

-- The settings carry over to the rest of the burst.
record Kept (key : String) (envs : List Env) (f : FailTracker) (st : FailState) : Type 0 where
  after : FailState
  tracked : Tracks key (add_failures key envs f) after
  failures : after.auth_failures ≡ st.auth_failures ++ times envs
  until : after.blocked_until ≡ st.blocked_until
  settings : SameSettings f (add_failures key envs f)

failures_below :
    (key : String) (envs : List Env) (f : FailTracker) (st : FailState)
    → IsKey key f
    → Tracks key f st
    → Burst f.window st.auth_failures envs
    → length st.auth_failures + length envs < f.limit
    → Kept key envs f st
failures_below key [] f st k t b h = record {
  after = st;
  tracked = t;
  failures = sym (append-nil st.auth_failures);
  until = refl;
  settings = (refl, refl, refl, refl, refl);
}
failures_below key (env ∷ envs) f st k t b h =
    let s = after_failure env.now f st in
    let g = add_failure env key f in
    let same = (add_failure-entry env key f st k t).1 in
    let fails = failure_below env f st b.0 (omega arith) in
    let rest =
      failures_below key envs g s (IsKey-same key f g k same) (Tracks_below env key f st k t)
        (subst (λ w. Burst w s.auth_failures envs) (sym same.0)
          (subst (λ ts. Burst f.window ts envs) (sym fails) b.1))
        (subst (λ l. length s.auth_failures + length envs < l) (sym same.1)
          (subst (λ ts. length ts + length envs < f.limit) (sym fails)
            (omega (arith, length-append st.auth_failures (env.now ∷ []))))) in
    record {
      after = rest.after;
      tracked = rest.tracked;
      failures =
          rest.failures
          ∙ ap (λ ts. ts ++ times envs) fails
          ∙ append_assoc st.auth_failures (env.now ∷ []) (times envs);
      until = rest.until ∙ failure_below_until env f st b.0 (omega arith);
      settings = (
        rest.settings.0 ∙ same.0,
        rest.settings.1 ∙ same.1,
        rest.settings.2 ∙ same.2,
        rest.settings.3 ∙ same.3,
        rest.settings.4 ∙ same.4,
      );
    }

block_kind_fresh :
    (env : Env) (key : String) (f : FailTracker)
    → has_permanent key f ≡ false
    → entry key f ≡ none
    → (block_kind env key f).1 ≡ blocked_none
unfolding block_kind block_kind_read
block_kind_fresh env key f p e = ground arith

block_kind_tracked :
    (env : Env) (key : String) (f : FailTracker) (st : FailState)
    → has_permanent key f ≡ false
    → Tracks key f st
    → st.blocked_until ≡ 0
    → (block_kind env key f).1 ≡ blocked_none
block_kind_tracked env key f st p (inl e) z =
    block_kind-entry env key f st p e
    ∙ ap (λ u. if ltb env.now u then blocked_temporary else blocked_none) z
    ∙ if_false blocked_temporary blocked_none (ground arith)
block_kind_tracked env key f st p (inr (e, room, s)) z = block_kind_fresh env key f p e

-- The front of a burst is one.
Burst-append :
    (window : ℕ) (seen : List ℕ) (front back : List Env)
    → Burst window seen (front ++ back)
    → Burst window seen front
Burst-append window seen [] back b = tt
Burst-append window seen (env ∷ front) back b =
    (b.0, Burst-append window (seen ++ env.now ∷ []) front back b.1)

length-times : (envs : List Env) → length (times envs) ≡ length envs
length-times [] = refl
length-times (env ∷ envs) = ap suc (length-times envs)

below_unblocked :
    (key : String) (envs : List Env) (check : Env) (st : FailState) (f : FailTracker)
    → IsKey key f
    → Tracks key f st
    → st.blocked_until ≡ 0
    → Kept key envs f st
    → (block_kind check key (add_failures key envs f)).1 ≡ blocked_none
below_unblocked key envs check st f k t z before =
    block_kind_tracked check key (add_failures key envs f) before.after
      (IsKey-same key f (add_failures key envs f) k before.settings).not_banned before.tracked
      (before.until ∙ z)

-- The last failure of a burst, which reaches the limit.
limit_reached :
    (key : String) (failures : List Env) (last check : Env) (st : FailState) (f : FailTracker)
    → IsKey key f
    → All (λ t. last.now < t + f.window) (st.auth_failures ++ times failures)
    → length st.auth_failures + length failures + 1 ≡ f.limit
    → Kept key failures f st
    → (block_kind check key (add_failure last key (add_failures key failures f))).1
      ≡ (if ltb check.now (last.now + f.block_for) then blocked_temporary else blocked_none)
limit_reached key failures last check st f k w h before =
    let g = add_failures key failures f in
    let known = IsKey-same key f g k before.settings in
    let (stored, same) = add_failure-entry last key g before.after known before.tracked in
    let unbanned = (IsKey-same key g (add_failure last key g) known same).not_banned in
    let within =
      subst (λ x. All (λ t. last.now < t + x) before.after.auth_failures) (sym before.settings.0)
        (subst (λ ts. All (λ t. last.now < t + f.window) ts) (sym before.failures) w) in
    let count =
      subst (λ ts. length ts + 1 ≡ g.limit) (sym before.failures)
        (ap (λ n. n + 1)
            (length-append st.auth_failures (times failures)
              ∙ ap (λ n. length st.auth_failures + n) (length-times failures))
          ∙ h
          ∙ sym before.settings.1) in
    block_kind-entry check key (add_failure last key g) (after_failure last.now g before.after)
      unbanned stored
    ∙ ap (λ u. if ltb check.now u then blocked_temporary else blocked_none)
        (failure_at_limit last g before.after within count
          ∙ ap (λ d. last.now + d) before.settings.2)

-- An address fails until, with the failures that its entry `st` has already, the limit is reached: each
-- failure comes within the window of all those before it. After any number of failures before the last
-- (`front`), it is not blocked. From the last failure on it is blocked for a time while the clock is
-- before that failure's time plus `block_for`, and not blocked from then on. The address is as the map
-- keeps it, is not banned, and either has the entry `st`, without a block, or has none, with
-- `st` empty, and finds room.
pub lockout :
    (key : String) (front back : List Env) (last check : Env) (st : FailState) (f : FailTracker)
    → IsKey key f
    → Tracks key f st
    → st.blocked_until ≡ 0
    → Burst f.window st.auth_failures (front ++ back)
    → All (λ t. last.now < t + f.window) (st.auth_failures ++ times (front ++ back))
    → length st.auth_failures + length (front ++ back) + 1 ≡ f.limit
    → ((block_kind check key (add_failures key front f)).1 ≡ blocked_none)
      × ((block_kind check key (add_failure last key (add_failures key (front ++ back) f))).1
          ≡ (if ltb check.now (last.now + f.block_for) then blocked_temporary else blocked_none))
lockout key front back last check st f k t z b w h = (
  below_unblocked key front check st f k t z (
      failures_below key front f st k t (Burst-append f.window st.auth_failures front back b)
        (omega (arith, h, length-append front back))),
  limit_reached key (front ++ back) last check st f k w h
      (failures_below key (front ++ back) f st k t b (omega (arith, h))),
)
