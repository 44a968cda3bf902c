-- ===== src/FailTracker/Persistence.antt =====
-- src/server/tunnel/fail_persistence.go: the state file, read back when the server starts, and the
-- operator's unblocking. A state file is the list of its `blocked_ips`. `os.ReadFile` and the JSON
-- package are not modelled: `load` is given the list that they read.
use lsyl_tunnel.Base.{
  ℕ, ◌-◌, ◌/◌, ◌≤◌, ◌≡◌, ◌≢◌, refl, sym, ap, ◌∙◌, String, Bool, true, false, not, ◌||◌, Option,
  none, some, List, [], ◌∷◌, ite, ltb, ◌==◌, if◌then◌else◌, String_discrete, Map, find, put, delete,
  Once, find-put, find-refine, and_then, refine-Once, trim_space, arith,
}
use lsyl_tunnel.FailTracker.{
  FailTracker, FailState, Env, BlockKind, blocked_none, blocked_temporary, has_permanent, is_some,
  save, blocks_at, running_until, second,
}
use lsyl_tunnel.FailTracker.Failures.{block_kind, block_kind_read, block_kind_locked}

-- `load` passes over a block of no address, and over one that has ended.
unfoldable pub is_skipped : ℕ → String → ℕ → Bool
is_skipped now ip until = ite (String_discrete ip "") true (not (ltb now until))

abbrev pub restored_state : ℕ → ℕ → FailState
restored_state now until = record {
  auth_failures = [];
  protocol_failures = [];
  blocked_until = until;
  last_seen = now;
}

-- The loop of `load` over the file's blocks.
unfoldable pub load_items : ℕ → Map String ℕ → Map String FailState → Map String FailState
load_items now [] items = items
load_items now ((ip, until) ∷ saved) items = load_items now saved (
    if is_skipped now ip until
    then items
    else put String_discrete ip (restored_state now until) items)

-- The first half of `load`, for a state file that is there and can be read.
unfoldable pub load_state : ℕ → FailTracker → FailTracker
load_state now f = record f { items = load_items now f.state_saved f.items }

-- `unblock` on the trimmed key. The Boolean tells whether it had an entry; an error of the save is
-- left out.
unfoldable pub unblock_key : Env → String → FailTracker → FailTracker × Bool
unblock_key env key f = (
  save env (record f { items = delete String_discrete key f.items }),
  is_some (find String_discrete key f.items),
)

unfoldable pub unblock : Env → String → FailTracker → FailTracker × Bool
unblock env addr f =
    let key = trim_space addr in ite (String_discrete key "") (f, false) (unblock_key env key f)

pub record BlockedIpState : Type 0 where
  pub ip : String
  pub blocked_until : ℕ
  pub remaining_sec : ℕ

-- `blockedIPStates`
unfoldable pub blocked_ip_states : ℕ → Map String ℕ → List BlockedIpState
blocked_ip_states now [] = []
blocked_ip_states now ((ip, until) ∷ items) =
    let rest = blocked_ip_states now items in
    if ite (String_discrete ip "") true (until == 0 || not (ltb now until))
    then rest
    else record { ip = ip; blocked_until = until; remaining_sec = (until - now) / second } ∷ rest

-- The loop of `UnblockBlockedIP`: the blocks that stay, and whether one was removed.
unfoldable pub unblock_saved : ℕ → String → Map String ℕ → Map String ℕ × Bool
unblock_saved now ip [] = ([], false)
unblock_saved now ip ((j, until) ∷ items) =
    let (kept, removed) = unblock_saved now ip items in
    ite (String_discrete j ip) (kept, true)
      (if ite (String_discrete j "") true (until == 0 || not (ltb now until))
        then (kept, removed)
        else ((j, until) ∷ kept, removed))

-- `UnblockBlockedIP` on a state file that is there and can be read and written.
unfoldable pub unblock_blocked_ip : ℕ → String → Map String ℕ → Map String ℕ × Bool
unblock_blocked_ip now addr saved =
    let ip = trim_space addr in
    let (kept, removed) = unblock_saved now ip saved in
    ite (String_discrete ip "") (saved, false) (if removed then (kept, true) else (saved, false))

-- The entry of `key` after the loop, where it was `before`, and the file has `o` for it.
abbrev restored : ℕ → Option ℕ → Option FailState → Option FailState
restored now none before = before
restored now (some until) before = if ltb now until then some (restored_state now until) else before

load_step :
    (now : ℕ) (key ip : String) (until : ℕ) (items : Map String FailState)
    → key ≢ ""
    → find String_discrete key (
        if is_skipped now ip until
        then items
        else put String_discrete ip (restored_state now until) items)
      ≡ restored now
          (ite (String_discrete ip key) (some until) none)
          (find String_discrete key items)
unfolding is_skipped
load_step now key ip until items n =
    ground (arith, find-put String_discrete ip key (restored_state now until) items)

find-load_items :
    (now : ℕ) (key : String) (saved : Map String ℕ) (items : Map String FailState)
    → Once String_discrete saved
    → key ≢ ""
    → find String_discrete key (load_items now saved items)
      ≡ restored now (find String_discrete key saved) (find String_discrete key items)
unfolding load_items find
find-load_items now key [] items o n = refl
find-load_items now key ((ip, until) ∷ saved) items o n =
    let next =
      if is_skipped now ip until
      then items
      else put String_discrete ip (restored_state now until) items in
    find-load_items now key saved next o.1 n
    ∙ ap (restored now (find String_discrete key saved)) (load_step now key ip until items n)
    ∙ last (String_discrete ip key)
  where
    last :
        (d : Dec (ip ≡ key))
        → restored now
            (find String_discrete key saved)
            (restored now (ite d (some until) none) (find String_discrete key items))
          ≡ restored now
              (ite d (some until) (find String_discrete key saved))
              (find String_discrete key items)
    last (yes p) =
        ap
          (λ k.
            restored now (find String_discrete k saved)
              (restored now (some until) (find String_discrete key items)))
          (sym p)
        ∙ ap (λ w. restored now w (restored now (some until) (find String_discrete key items))) o.0
    last (no q) = refl

-- What the state file has for a key, after a save that succeeded.
find-blocks_at :
    (t : ℕ) (key : String) (items : Map String FailState)
    → find String_discrete key (blocks_at t items)
      ≡ and_then String_discrete (find String_discrete key items) (running_until t)
unfolding blocks_at
find-blocks_at t key items = find-refine String_discrete (running_until t) key items

-- The answer that `blockKind` gives for the entry of an address that is not banned.
abbrev pub answer : ℕ → Option FailState → BlockKind
answer now none = blocked_none
answer now (some st) = if ltb now st.blocked_until then blocked_temporary else blocked_none

pub block_kind-answer :
    (env : Env) (key : String) (f : FailTracker)
    → has_permanent key f ≡ false
    → (block_kind env key f).1 ≡ answer env.now (find String_discrete key f.items)
unfolding block_kind block_kind_read block_kind_locked
block_kind-answer env key f p = ground arith

save_saved :
    (env : Env) (f : FailTracker)
    → f.has_state_file ≡ true
    → env.can_save ≡ true
    → (save env f).state_saved ≡ blocks_at env.save_time f.items
unfolding save
save_saved env f file ok = ground arith

answer_kept :
    (save_time load_time now : ℕ) (o : Option FailState)
    → save_time ≤ load_time
    → load_time ≤ now
    → answer now (restored load_time (and_then String_discrete o (running_until save_time)) none)
      ≡ answer now o
unfolding running_until
answer_kept save_time load_time now none a b = refl
answer_kept save_time load_time now (some st) a b = ground arith

-- A tracker that is saved, and a new one that loads what was saved, give the same answer whether an
-- address is blocked at any time from the load on. The save succeeded, the load does not come before
-- the save, the address is not "", neither tracker has it as permanently blocked, and the new one
-- has no entries yet.
pub restart :
    (env check : Env) (key : String) (load_time : ℕ) (f g : FailTracker)
    → f.has_state_file ≡ true
    → env.can_save ≡ true
    → env.save_time ≤ load_time
    → load_time ≤ check.now
    → key ≢ ""
    → has_permanent key f ≡ false
    → has_permanent key g ≡ false
    → let started = record g { items = []; state_saved = (save env f).state_saved } in
      (block_kind check key (load_state load_time started)).1 ≡ (block_kind check key f).1
unfolding load_state has_permanent blocks_at find
restart env check key load_time f g file saved_ok a b n p q =
    let saved = save_saved env f file saved_ok in
    block_kind-answer check key _ q
    ∙ ap (λ m. answer check.now (find String_discrete key (load_items load_time m []))) saved
    ∙ ap (answer check.now) (
        find-load_items load_time key (blocks_at env.save_time f.items) []
          (refine-Once String_discrete (running_until env.save_time) f.items) n
        ∙ ap (λ o. restored load_time o none) (find-blocks_at env.save_time key f.items))
    ∙ answer_kept env.save_time load_time check.now (find String_discrete key f.items) a b
    ∙ sym (block_kind-answer check key f p)
