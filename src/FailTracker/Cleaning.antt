-- ===== src/FailTracker/Cleaning.antt =====
-- `cleanup` of src/server/tunnel/fail_tracker.go, and what `blockKind` answers after it.
use lsyl_tunnel.Base.{
  ℕ, ◌≤◌, ◌≡◌, refl, sym, ap, ◌∙◌, String, false, Option, none, some, String_discrete, find,
  and_then, find-refine, arith,
}
use lsyl_tunnel.FailTracker.{
  FailState, FailTracker, Env, has_permanent, is_some, clean_state, cleanup_locked, cleanup, save,
}
use lsyl_tunnel.FailTracker.Failures.{block_kind}
use lsyl_tunnel.FailTracker.Persistence.{answer, block_kind-answer}

cleanup_facts :
    (env : Env) (f : FailTracker)
    → ((cleanup env f).items ≡ (cleanup_locked env.now f).items)
      × ((cleanup env f).permanent ≡ f.permanent)
unfolding cleanup cleanup_locked save
cleanup_facts env f = (ground arith, ground arith)

answer-clean :
    (window now check : ℕ) (o : Option FailState)
    → now ≤ check
    → answer check (and_then String_discrete o (clean_state window now)) ≡ answer check o
unfolding clean_state
answer-clean window now check none h = refl
answer-clean window now check (some st) h = ground arith

-- The cleanup, at any time, does not change whether an address that is not permanently blocked is
-- blocked from that time on.
pub cleanup_keeps_blocks :
    (env check : Env) (key : String) (f : FailTracker)
    → has_permanent key f ≡ false
    → env.now ≤ check.now
    → (block_kind check key (cleanup env f)).1 ≡ (block_kind check key f).1
unfolding cleanup_locked has_permanent
cleanup_keeps_blocks env check key f p h =
    let (items, permanent) = cleanup_facts env f in
    block_kind-answer check key (cleanup env f)
      (ap (λ m. is_some (find String_discrete key m)) permanent ∙ p)
    ∙ ap (λ m. answer check.now (find String_discrete key m)) items
    ∙ ap (answer check.now) (find-refine String_discrete (clean_state f.window env.now) key f.items)
    ∙ answer-clean f.window env.now check.now (find String_discrete key f.items) h
    ∙ sym (block_kind-answer check key f p)
