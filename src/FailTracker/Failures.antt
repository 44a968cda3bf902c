-- ===== src/FailTracker/Failures.antt =====
-- The operations of src/server/tunnel/fail_tracker.go that count failures and answer for blocks.
use lsyl_tunnel.Base.{
  ℕ, ◌+◌, String, Bool, true, false, not, ◌&&◌, Option, none, some, [], ◌∷◌, ◌++◌, ltb, leb, ◌==◌,
  if◌then◌else◌, String_discrete, length, find, put, delete, trim_space,
}
use lsyl_tunnel.FailTracker.{
  FailTracker, FailState, Env, BlockKind, blocked_none, blocked_temporary, blocked_permanent,
  has_permanent, save, recent_failures, track_state, is_untracked,
}
use lsyl_tunnel.FailTracker.Success.{canonical_successful_ip, successful_today}

-- `blockKind` under the read lock; `none` means that it goes on under the write lock.
unfoldable pub block_kind_read : ℕ → String → FailTracker → Option BlockKind
block_kind_read now key f =
    if has_permanent key f
    then some blocked_permanent
    else elim (find String_discrete key f.items) [
      | none ↦ some blocked_none
      | some st ↦
          if st.blocked_until == 0
          then some blocked_none
          else if ltb now st.blocked_until
          then some blocked_temporary
          else none
    ]

-- The block has ended: the entry forgets it, and goes if nothing else is in it.
unfoldable pub end_block : Env → String → FailState → FailTracker → FailTracker
end_block env key st f =
    let items =
      if length st.auth_failures == 0 && length st.protocol_failures == 0
      then delete String_discrete key f.items
      else put String_discrete key (record st { blocked_until = 0 }) f.items in
    save env (record f { items = items })

-- `blockKind` under the write lock.
unfoldable pub block_kind_locked : Env → String → FailTracker → FailTracker × BlockKind
block_kind_locked env key f = elim (find String_discrete key f.items) [
  | none ↦ (f, blocked_none)
  | some st ↦
      if has_permanent key f
      then (f, blocked_permanent)
      else if st.blocked_until == 0
      then (f, blocked_none)
      else if ltb env.now st.blocked_until
      then (f, blocked_temporary)
      else (end_block env key st f, blocked_none)
]

-- `blockKind`, with nothing in between its two parts.
unfoldable pub block_kind : Env → String → FailTracker → FailTracker × BlockKind
block_kind env key f = elim (block_kind_read env.now key f) [
  | some kind ↦ (f, kind)
  | none ↦ block_kind_locked env key f
]

-- `addFailure` on the entry `st` that it tracks.
unfoldable pub count_failure : Env → String → FailState → FailTracker → FailTracker
count_failure env key st f =
    let failures = recent_failures f.window env.now st.auth_failures ++ env.now ∷ [] in
    if leb f.limit (length failures)
    then save env (record f {
      items =
          put String_discrete key
            (record st {
              auth_failures = [];
              blocked_until = env.now + f.block_for;
              last_seen = env.now;
            })
            f.items;
    })
    else record f {
      items =
          put String_discrete key (record st { auth_failures = failures; last_seen = env.now })
            f.items;
    }

-- The rest of `addFailure`, after the entry was tracked under `key`, the trimmed `addr`. With `ok`,
-- the entry is in the map: the case `none` does not arise.
unfoldable pub add_tracked_failure : Env → String → String → FailTracker × Bool → FailTracker
add_tracked_failure env addr key (f, false) = f
add_tracked_failure env addr key (f, true) =
    if has_permanent addr f
    then f
    else elim (find String_discrete key f.items) [ none ↦ f | some st ↦ count_failure env key st f ]

unfoldable pub add_failure : Env → String → FailTracker → FailTracker
add_failure env addr f = add_tracked_failure env addr (trim_space addr) (track_state addr env.now f)

-- The file append of `blockPermanentLocked` fails. With no file name nothing is appended, and that
-- is no error.
abbrev pub append_fails : Env → FailTracker → Bool
append_fails env f = f.has_permanent_file && not env.can_append

-- The ban itself: `key` goes to the file and to `permanent`, and loses its entry.
unfoldable pub ban : Env → String → FailTracker → FailTracker
ban env key f = save env (record f {
  permanent = put String_discrete key tt f.permanent;
  permanent_lines =
      if f.has_permanent_file then f.permanent_lines ++ key ∷ [] else f.permanent_lines;
  items = delete String_discrete key f.items;
})

-- `blockPermanentLocked` once the key is trimmed.
unfoldable pub block_key : Env → String → FailTracker → FailTracker × Bool
block_key env key f =
    if is_untracked key f
    then (f, false)
    else if append_fails env f
    then (f, false)
    else (ban env key f, true)

unfoldable pub block_permanent : Env → String → FailTracker → FailTracker × Bool
block_permanent env addr f = block_key env (trim_space addr) f

-- `addProtocolFailure` on the entry `st` that it tracks under `key`.
unfoldable pub count_protocol_failure :
    Env → String → String → FailState → FailTracker → FailTracker × Bool
count_protocol_failure env addr key st f =
    let failures = recent_failures f.window env.now st.protocol_failures ++ env.now ∷ [] in
    if leb f.limit (length failures)
    then block_permanent env addr (record f {
      items =
          put String_discrete key
            (record {
              auth_failures = [];
              protocol_failures = [];
              blocked_until = 0;
              last_seen = env.now;
            })
            f.items;
    })
    else (
      record f {
        items =
            put String_discrete key
              (record st { protocol_failures = failures; last_seen = env.now }) f.items;
      },
      false,
    )

unfoldable pub add_tracked_protocol_failure :
    Env → String → String → FailTracker × Bool → FailTracker × Bool
add_tracked_protocol_failure env addr key (f, false) = (f, false)
add_tracked_protocol_failure env addr key (f, true) =
    if has_permanent addr f then (f, false) else elim (find String_discrete key f.items) [
      | none ↦ (f, false)
      | some st ↦ count_protocol_failure env addr key st f
    ]

unfoldable pub protect_or_count : Env → String → FailTracker × Bool → FailTracker × Bool
protect_or_count env key (f, true) = (f, false)
protect_or_count env key (f, false) =
    add_tracked_protocol_failure env key (trim_space key) (track_state key env.now f)

abbrev pub or_else {ℓ} : {A : Type ℓ} → Option A → A → A
or_else none a = a
or_else (some b) a = b

module _ (parse_ip : String → Option String) where
  unfoldable pub add_protocol_failure : Env → String → FailTracker → FailTracker × Bool
  add_protocol_failure env addr f =
      let key = or_else (canonical_successful_ip parse_ip addr) addr in
      protect_or_count env key (successful_today key env.date f)
