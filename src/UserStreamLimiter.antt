-- ===== src/UserStreamLimiter.antt =====
-- src/server/tunnel/user_stream_limiter.go: how many streams an account may hold. `max_per_user` is 0
-- where the configured limit is 0 or negative: there is no limit then.
pub mod Leases
use lsyl_tunnel.Base.{
  ℕ, zero, suc, ◌+◌, ◌-◌, String, Bool, true, false, Option, none, some, List, [], ◌∷◌, ite, ltb,
  leb, ◌==◌, if◌then◌else◌, String_discrete, length, keep, Map, find, put, delete,
}

pub record UserStreamLimiter : Type 0 where
  pub max_per_user : ℕ
  pub active : Map String ℕ

unfoldable pub new_user_stream_limiter : ℕ → UserStreamLimiter
new_user_stream_limiter max_concurrent_streams_per_user = record {
  max_per_user = max_concurrent_streams_per_user;
  active = [];
}

unfoldable pub user_or_unknown : String → String
user_or_unknown username = ite (String_discrete username "") "unknown" username

-- `m[k]` of a map of numbers: 0 where `k` is missing.
abbrev pub or_zero : Option ℕ → ℕ
or_zero none = 0
or_zero (some n) = n

abbrev pub active_at : String → UserStreamLimiter → ℕ
active_at user l = or_zero (find String_discrete user l.active)

-- `acquire`; the Boolean is its `ok`.
unfoldable pub acquire : String → UserStreamLimiter → UserStreamLimiter × Bool
acquire username l =
    if l.max_per_user == 0
    then (l, true)
    else let user = user_or_unknown username in
      if leb l.max_per_user (active_at user l)
      then (l, false)
      else (record l { active = put String_discrete user (active_at user l + 1) l.active }, true)

unfoldable pub release : String → UserStreamLimiter → UserStreamLimiter
release username l =
    if l.max_per_user == 0
    then l
    else let user = user_or_unknown username in
      if leb (active_at user l) 1
      then record l { active = delete String_discrete user l.active }
      else record l { active = put String_discrete user (active_at user l - 1) l.active }

pub record Snapshot : Type 0 where
  pub active : ℕ
  pub tracked_users : ℕ
  pub max_per_user : ℕ
  pub active_by_user : Map String ℕ

sum : Map String ℕ → ℕ
sum [] = 0
sum ((user, n) ∷ m) = n + sum m

unfoldable pub snapshot : UserStreamLimiter → Snapshot
unfolding sum
snapshot l =
    let busy = keep (λ e. ltb 0 e.1) l.active in
    record {
      active = sum busy;
      tracked_users = length busy;
      max_per_user = l.max_per_user;
      active_by_user = busy;
    }
