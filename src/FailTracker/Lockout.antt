-- ===== src/FailTracker/Lockout.antt =====
-- Login failures of one address, up to the temporary block and its end.
use lsyl_tunnel.Base.{
  ℕ, ◌+◌, ◌<◌, ◌≡◌, ◌≢◌, refl, ap, ◌∙◌, ◌⊎◌, inl, inr, String, true, false, Option, none, some,
  List, [], ◌∷◌, ◌++◌, All, keep, if_neg, if_false, ltb, leb, if◌then◌else◌, String_discrete,
  Bool-cases, length, find, put, find-put_self, trim_space, arith,
}
use lsyl_tunnel.FailTracker.{
  FailTracker, FailState, Env, blocked_none, blocked_temporary, has_permanent, save,
  recent_failures, track_state, track_key, is_untracked, insert_fresh, evict, clean_if_full,
}
use lsyl_tunnel.FailTracker.Failures.{
  block_kind, block_kind_read, block_kind_locked, count_failure, add_tracked_failure, add_failure,
}

abbrev pub entry : String → FailTracker → Option FailState
entry key f = find String_discrete key f.items

-- A key as the map has it, of an address that is not banned.
pub record IsKey (key : String) (f : FailTracker) : Type 0 where
  pub trimmed : trim_space key ≡ key
  pub nonempty : key ≢ ""
  pub not_banned : has_permanent key f ≡ false

-- The answer of `blockKind` for an address that has an entry and is not banned: blocked while the
-- time is before `blocked_until`, and not from then on.
pub block_kind-entry :
    (env : Env) (key : String) (f : FailTracker) (st : FailState)
    → has_permanent key f ≡ false
    → entry key f ≡ some st
    → (block_kind env key f).1
      ≡ (if ltb env.now st.blocked_until then blocked_temporary else blocked_none)
unfolding block_kind block_kind_read block_kind_locked
block_kind-entry env key f st p e = ground arith

-- What `addFailure` makes of the entry `st`.
abbrev pub after_failure : ℕ → FailTracker → FailState → FailState
after_failure now f st =
    let failures = recent_failures f.window now st.auth_failures ++ now ∷ [] in
    if leb f.limit (length failures)
    then record st { auth_failures = []; blocked_until = now + f.block_for; last_seen = now }
    else record st { auth_failures = failures; last_seen = now }

-- `g` has the settings of `f`, and its bans.
abbrev pub SameSettings : FailTracker → FailTracker → Type 0
SameSettings f g =
    (g.window ≡ f.window)
    × (g.limit ≡ f.limit)
    × (g.block_for ≡ f.block_for)
    × (g.max_items ≡ f.max_items)
    × (g.permanent ≡ f.permanent)

pub save_items :
    (env : Env) (f : FailTracker) → ((save env f).items ≡ f.items) × SameSettings f (save env f)
unfolding save
save_items env f = ground arith

count_failure-entry :
    (env : Env) (key : String) (st : FailState) (f : FailTracker)
    → (entry key (count_failure env key st f) ≡ some (after_failure env.now f st))
      × SameSettings f (count_failure env key st f)
unfolding count_failure
count_failure-entry env key st f = elim (Bool-cases (leb f.limit (length failures))) [
  | inl h ↦ rw h (
      stored (record st {
        auth_failures = [];
        blocked_until = env.now + f.block_for;
        last_seen = env.now;
      }))
  | inr h ↦ rw h (find-put_self String_discrete key _ f.items, (refl, refl, refl, refl, refl))
]
  where
    failures : List ℕ
    failures = recent_failures f.window env.now st.auth_failures ++ env.now ∷ []

    stored :
        (s : FailState)
        → let g = save env (record f { items = put String_discrete key s f.items }) in
          (entry key g ≡ some s) × SameSettings f g
    stored s =
        let (same, settings) =
          save_items env (record f { items = put String_discrete key s f.items }) in
        (ap (find String_discrete key) same ∙ find-put_self String_discrete key s f.items, settings)

IsKey-tracked : (key : String) (f : FailTracker) → IsKey key f → is_untracked key f ≡ false
unfolding is_untracked
IsKey-tracked key f k = if_neg _ k.nonempty true (has_permanent key f) ∙ k.not_banned

track_key-entry :
    (key : String) (now : ℕ) (f : FailTracker) (st : FailState)
    → IsKey key f
    → entry key f ≡ some st
    → track_key key now f
      ≡ (record f { items = put String_discrete key (record st { last_seen = now }) f.items }, true)
unfolding track_key
track_key-entry key now f st k e = if_false _ _ (IsKey-tracked key f k) ∙ rw e refl

abbrev pub empty_state : ℕ → FailState
empty_state now = record {
  auth_failures = [];
  protocol_failures = [];
  blocked_until = 0;
  last_seen = now;
}

track_key_fresh :
    (key : String) (now : ℕ) (f : FailTracker)
    → IsKey key f
    → entry key f ≡ none
    → length f.items < f.max_items
    → track_key key now f
      ≡ (record f { items = put String_discrete key (empty_state now) f.items }, true)
unfolding track_key insert_fresh evict clean_if_full
track_key_fresh key now f k e room = if_false _ _ (IsKey-tracked key f k) ∙ rw e (ground arith)

add_tracked_entry :
    (env : Env) (key : String) (f : FailTracker) (st : FailState)
    → IsKey key f
    → let g = record f { items = put String_discrete key st f.items } in
      add_tracked_failure env key key (g, true) ≡ count_failure env key st g
unfolding add_tracked_failure has_permanent
add_tracked_entry env key f st k =
    if_false _ _ k.not_banned ∙ rw (find-put_self String_discrete key st f.items) refl

-- The entry that `addFailure` finds, or makes where there is room.
abbrev pub Tracks : String → FailTracker → FailState → Type 0
Tracks key f st =
    (entry key f ≡ some st)
    ⊎ ((entry key f ≡ none) × (length f.items < f.max_items) × (st ≡ empty_state 0))

-- `addFailure` for an address that has an entry, or finds room for one.
pub add_failure-entry :
    (env : Env) (key : String) (f : FailTracker) (st : FailState)
    → IsKey key f
    → Tracks key f st
    → (entry key (add_failure env key f) ≡ some (after_failure env.now f st))
      × SameSettings f (add_failure env key f)
unfolding add_failure track_state
add_failure-entry env key f st k (inl e) =
    rw (k.trimmed, track_key-entry key env.now f st k e)
      (rw (add_tracked_entry env key f (record st { last_seen = env.now }) k) (
        count_failure-entry env key (record st { last_seen = env.now })
          (record f {
            items = put String_discrete key (record st { last_seen = env.now }) f.items;
          })))
add_failure-entry env key f st k (inr (e, room, s)) =
    rw (k.trimmed, track_key_fresh key env.now f k e room, s)
      (rw (add_tracked_entry env key f (empty_state env.now) k) (
        count_failure-entry env key (empty_state env.now)
          (record f { items = put String_discrete key (empty_state env.now) f.items })))

-- All of `times` lie within the window before `now`.
abbrev pub WithinWindow : ℕ → ℕ → List ℕ → Type 0
WithinWindow window now times = All (λ t. now < t + window) times

pub recent_failures_all :
    (window now : ℕ) (times : List ℕ)
    → WithinWindow window now times
    → recent_failures window now times ≡ times
unfolding recent_failures keep
recent_failures_all window now [] h = refl
recent_failures_all window now (t ∷ ts) h = ground (arith, recent_failures_all window now ts h.1)

abbrev pub add_failures : String → List Env → FailTracker → FailTracker
add_failures key [] f = f
add_failures key (env ∷ envs) f = add_failures key envs (add_failure env key f)

-- Each failure of `envs` lies within the window of those before it, `seen` among them.
abbrev pub Burst : ℕ → List ℕ → List Env → Type 0
Burst window seen [] = Unit {0}
Burst window seen (env ∷ envs) =
    WithinWindow window env.now seen × Burst window (seen ++ env.now ∷ []) envs

abbrev pub last_time : Env → List Env → ℕ
last_time env [] = env.now
last_time env (next ∷ envs) = last_time next envs
