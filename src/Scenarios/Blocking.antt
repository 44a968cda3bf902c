-- ===== src/Scenarios/Blocking.antt =====
-- Runs of the failure tracker on small inputs.
use lsyl_tunnel.Base.{
  inl, ℕ, ◌≡◌, ◌≢◌, refl, String, Bool, true, false, Option, some, none, [], ◌∷◌, find,
  String_discrete, arith, trim_space, Map, keep, put, delete,
}
use lsyl_tunnel.FailTracker.{
  FailState, FailTracker, Env, blocked_none, blocked_temporary, blocked_permanent, has_permanent,
  is_some, save, track_state, track_key, is_untracked, insert_fresh, evict, clean_if_full,
  recent_failures,
}
use lsyl_tunnel.FailTracker.Failures.{
  block_kind, add_failure, add_protocol_failure, protect_or_count, add_tracked_protocol_failure,
  count_protocol_failure, block_permanent, block_key, ban,
}
use lsyl_tunnel.FailTracker.Success.{
  canonical_successful_ip, mark_successful, mark_key, forget_protocol_failures, successful_today,
  rotate_successful_ips,
}
use lsyl_tunnel.FailTracker.Lockout.{add_failures, IsKey}
use lsyl_tunnel.FailTracker.Burst.{lockout}
use lsyl_tunnel.FailTracker.Bans.{protocol_key, success_protects}
use lsyl_tunnel.FailTracker.Lasting.{succeeds, unblocks, cleans, calls, ban_lasts}
use lsyl_tunnel.FailTracker.Persistence.{load_state, unblock, unblock_blocked_ip, restart}
use lsyl_tunnel.FailTracker.PermanentFile.{
  unblock_permanent, forget_permanent, remove_permanent_blocked_ip, remove_lines, is_key_of,
  permanent_block_ip_key, NoLine, unblock_permanent_lasts,
}
use lsyl_tunnel.FailTracker.Size.{add_failure_bounded}
use lsyl_tunnel.FailTracker.Cleaning.{cleanup_keeps_blocks}
use lsyl_tunnel.Base.{length, ◌≤◌, Once, if◌then◌else◌}
use lsyl_tunnel.FailTracker.{cleanup}
use lsyl_tunnel.FailTracker.Unblock.{unblock_lem, still_running, unblock_blocked_ip_lem}

abbrev pub empty_tracker : FailTracker
empty_tracker = record {
  window = 300;
  limit = 2;
  block_for = 1800;
  max_items = 8;
  cleanup_every = 60;
  successful_date = "";
  successful_ips = [];
  items = [];
  permanent = [];
  has_state_file = true;
  has_permanent_file = true;
  state_saved = [];
  permanent_lines = [];
  evicted = 0;
  capacity_drop = 0;
}

abbrev pub at : ℕ → Env
at t = record { now = t; date = "2026-01-05"; save_time = t; can_save = true; can_append = true }

is_key : IsKey "10.0.0.1" empty_tracker
unfolding trim_space has_permanent find String_discrete
is_key = record { trimmed = refl; nonempty = λ e. cc; not_banned = refl }

-- An address that has an entry from an earlier time, and one failure in it.
abbrev seen_state : FailState
seen_state = record {
  auth_failures = 90 ∷ [];
  protocol_failures = [];
  blocked_until = 0;
  last_seen = 95;
}

abbrev seen_tracker : FailTracker
seen_tracker = record empty_tracker { limit = 3; items = ("10.0.0.1", seen_state) ∷ [] }

seen_key : IsKey "10.0.0.1" seen_tracker
unfolding trim_space has_permanent find String_discrete
seen_key = record { trimmed = refl; nonempty = λ e. cc; not_banned = refl }

lockout_example :
    ((block_kind (at 500) "10.0.0.1" (add_failures "10.0.0.1" [] seen_tracker)).1 ≡ blocked_none)
    × ((block_kind
          (at 500)
          "10.0.0.1"
          (add_failure (at 200) "10.0.0.1" (add_failures "10.0.0.1" (at 100 ∷ []) seen_tracker))).1
        ≡ blocked_temporary)
unfolding find String_discrete
lockout_example =
    lockout "10.0.0.1" [] (at 100 ∷ []) (at 200) (at 500) seen_state seen_tracker seen_key
      (inl refl) refl ((omega arith, tt), tt) (omega arith, (omega arith, tt)) refl

abbrev no_parse : String → Option String
no_parse addr = some addr

abbrev strict_tracker : FailTracker
strict_tracker = record empty_tracker { limit = 1 }

banned_at_once : (add_protocol_failure no_parse (at 100) "10.0.0.1" strict_tracker).1 ≡ true
unfolding add_protocol_failure canonical_successful_ip successful_today rotate_successful_ips
    protect_or_count add_tracked_protocol_failure track_state track_key is_untracked insert_fresh
    evict clean_if_full has_permanent count_protocol_failure recent_failures keep block_permanent
    block_key ban save find put delete String_discrete trim_space
banned_at_once = refl

own_spelling : protocol_key no_parse "10.0.0.1" ≡ "10.0.0.1"
unfolding canonical_successful_ip trim_space
own_spelling = refl

ban_lasts_example :
    let g = (add_protocol_failure no_parse (at 100) "10.0.0.1" strict_tracker).0 in
    let later =
      succeeds (at 200) "10.0.0.1" ∷ unblocks (at 300) "10.0.0.1" ∷ cleans (at 400) ∷ [] in
    (find String_discrete "10.0.0.1" g.items ≡ none)
    × (block_kind (at 900) "10.0.0.1" (calls no_parse g later)
        ≡ (calls no_parse g later, blocked_permanent))
ban_lasts_example =
    ban_lasts no_parse (at 100) (at 900) "10.0.0.1"
      (succeeds (at 200) "10.0.0.1" ∷ unblocks (at 300) "10.0.0.1" ∷ cleans (at 400) ∷ [])
      strict_tracker own_spelling banned_at_once

marked_first : (mark_successful no_parse (at 100) "10.0.0.1" empty_tracker).1 ≡ true
unfolding mark_successful mark_key forget_protocol_failures canonical_successful_ip
    rotate_successful_ips find put String_discrete trim_space
marked_first = refl

success_protects_example :
    let g = (mark_successful no_parse (at 100) "10.0.0.1" empty_tracker).0 in
    add_protocol_failure no_parse (at 200) "10.0.0.1 " g ≡ (g, false)
unfolding canonical_successful_ip trim_space
success_protects_example =
    success_protects no_parse (at 100) (at 200) "10.0.0.1" "10.0.0.1 " "10.0.0.1" empty_tracker refl
      refl refl marked_first

abbrev blocking_tracker : FailTracker
blocking_tracker = record empty_tracker {
  items =
      (
        "10.0.0.1",
        record { auth_failures = []; protocol_failures = []; blocked_until = 900; last_seen = 100 },
      )
      ∷ [];
}

restart_example :
    let started = record empty_tracker {
      items = [];
      state_saved = (save (at 100) blocking_tracker).state_saved;
    } in
    (block_kind (at 300) "10.0.0.1" (load_state 200 started)).1
    ≡ (block_kind (at 300) "10.0.0.1" blocking_tracker).1
unfolding has_permanent find
restart_example =
    restart (at 100) (at 300) "10.0.0.1" 200 blocking_tracker empty_tracker refl refl (omega arith)
      (omega arith) (λ e. cc) refl refl

unblock_lem_example :
    let r = unblock (at 200) " 10.0.0.1" blocking_tracker in
    (r.1 ≡ is_some (find String_discrete "10.0.0.1" blocking_tracker.items))
    × ((block_kind (at 300) "10.0.0.1" r.0).1 ≡ blocked_none)
    × (find String_discrete "10.0.0.2" r.0.items
        ≡ find String_discrete "10.0.0.2" blocking_tracker.items)
unfolding trim_space has_permanent find
unblock_lem_example =
    unblock_lem (at 200) (at 300) " 10.0.0.1" "10.0.0.2" blocking_tracker (λ e. cc) (λ e. cc) refl

two_addresses : ◌≢◌ {A = String} "aa" "a"
two_addresses e = cc

abbrev saved_blocks : Map String ℕ
saved_blocks = ("a", 900) ∷ ("aa", 800) ∷ []

saved_blocks-Once : Once String_discrete saved_blocks
unfolding find String_discrete
saved_blocks-Once = (refl, (refl, tt))

unblock_blocked_ip_lem_example :
    let r = unblock_blocked_ip 300 "a" saved_blocks in
    (r.1 ≡ is_some (find String_discrete "a" saved_blocks))
    × (find String_discrete "a" r.0 ≡ none)
    × (find String_discrete "aa" r.0 ≡ (if r.1 then still_running 300 (some 800) else some 800))
unfolding trim_space find String_discrete
unblock_blocked_ip_lem_example =
    unblock_blocked_ip_lem 300 "a" "aa" saved_blocks (λ e. cc) two_addresses (λ e. cc)
      saved_blocks-Once

abbrev banning_tracker : FailTracker
banning_tracker = record empty_tracker {
  permanent = ("10.0.0.1", tt) ∷ [];
  permanent_lines = "10.0.0.1" ∷ "10.0.0.2" ∷ [];
}

abbrev no_comment : String → Bool
no_comment line = false

lifted_now : (unblock_permanent no_parse no_comment "10.0.0.1" banning_tracker).1 ≡ true
unfolding unblock_permanent forget_permanent remove_permanent_blocked_ip remove_lines is_key_of
    permanent_block_ip_key has_permanent find String_discrete trim_space
lifted_now = refl

unblock_permanent_lasts_example :
    let key = permanent_block_ip_key no_parse no_comment "10.0.0.1" in
    let g = (unblock_permanent no_parse no_comment "10.0.0.1" banning_tracker).0 in
    (has_permanent key g ≡ false) × NoLine no_parse no_comment key g.permanent_lines
unfolding trim_space permanent_block_ip_key String_discrete
unblock_permanent_lasts_example =
    unblock_permanent_lasts no_parse no_comment "10.0.0.1" banning_tracker refl (λ e. cc) lifted_now

add_failure_bounded_example :
    length (add_failure (at 100) "10.0.0.7" (record blocking_tracker { max_items = 1 })).items ≤ 1
add_failure_bounded_example =
    add_failure_bounded (at 100) "10.0.0.7" (record blocking_tracker { max_items = 1 })
      (omega arith)

cleanup_keeps_blocks_example :
    (block_kind (at 300) "10.0.0.1" (cleanup (at 200) blocking_tracker)).1
    ≡ (block_kind (at 300) "10.0.0.1" blocking_tracker).1
unfolding has_permanent find
cleanup_keeps_blocks_example =
    cleanup_keeps_blocks (at 200) (at 300) "10.0.0.1" blocking_tracker refl (omega arith)
