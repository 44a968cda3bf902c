-- ===== src/Server/Handle/Streams.antt =====
-- The stream that `handleConn` of src/server/tunnel/server.go takes of the user stream limiter, and its way back
-- on every path.
use lsyl_tunnel.Base.{
  ◌+◌, ◌-◌, ◌<◌, ◌≡◌, refl, ap, ◌∙◌, inl, inr, String, Bool, true, false, not, ◌||◌, none, ◌==◌,
  either, either_by, either_option, Bool-cases, arith,
}
use lsyl_tunnel.Config.{UserConfig, is_empty, is_text}
use lsyl_tunnel.Counters.{EntryCode, unsupported_request}
use lsyl_tunnel.FailTracker.{BlockKind, Env, blocked_none, blocked_temporary, blocked_permanent}
use lsyl_tunnel.FailTracker.Failures.{block_kind}
use lsyl_tunnel.Protocol.{OpenRequest, OpenResponse}
use lsyl_tunnel.Server.Authorization.{authorize_open, authorize_forward_check}
use lsyl_tunnel.Server.Compatibility.{check_request_compatibility}
use lsyl_tunnel.Server.Handle.{
  Library, ServerState, Dialed, dialed, dial_error, dial_cancelled, Moment, Outcome, dropped,
  answered, connected, to_reverse_control, to_reverse_stream, panics, acceptance, credential_key,
  record_permanent_blocked_hit, reject_entry_protocol, record_success, mark_canonical, end_stream,
}
use lsyl_tunnel.Server.Handle.Request.{
  received, is_supported, Login, accepted, denied, login_panics, login, dial_target, open_stream,
  answer_ok, serve, fail_login, logged_in, handle_request, handle_received, handle_block,
  handle_conn,
}
use lsyl_tunnel.UserStreamLimiter.{UserStreamLimiter, active_at, acquire, release}
use lsyl_tunnel.UserStreamLimiter.Leases.{acquire-eq, release-eq}

-- A stream that was granted and ends leaves each account with the streams that it had.
pub release-acquire :
    (username j : String) (l : UserStreamLimiter)
    → (acquire username l).1 ≡ true
    → active_at j (release username (acquire username l).0) ≡ active_at j l
release-acquire username j l h = elim (Bool-cases (l.max_per_user == 0)) [
  | inl z ↦ unlimited z
  | inr p ↦ limited (ground arith)
]
  where
    unlimited :
        (l.max_per_user == 0) ≡ true
        → active_at j (release username (acquire username l).0) ≡ active_at j l
    unlimited z = unfold acquire release in ground arith

    limited :
        0 < l.max_per_user → active_at j (release username (acquire username l).0) ≡ active_at j l
    limited p =
        let (granted, same, counts) = acquire-eq username j l p in
        ground (arith, release-eq username j (acquire username l).0)

pub refused_unchanged :
    (username : String) (l : UserStreamLimiter)
    → (acquire username l).1 ≡ false
    → (acquire username l).0 ≡ l
unfolding acquire
refused_unchanged username l h = ground arith

module _ {Public Private : Type 0} (lib : Library Public Private) where
  -- What is left of a request once its stream, if it got one, has ended.
  abbrev pub settle : String → ServerState Private × Outcome → ServerState Private
  settle username (s, dropped) = s
  settle username (s, answered response) = s
  settle username (s, connected response) = end_stream username s
  settle username (s, to_reverse_control user) = s
  settle username (s, to_reverse_stream user) = s
  settle username (s, panics) = s

  -- Every account has the streams that it had in `s`.
  abbrev Settled : String → String → ServerState Private → ServerState Private × Outcome → Type 0
  Settled username j s result =
      (active_at j (settle username result).user_streams ≡ active_at j s.user_streams)
      × ((settle username result).active_streams ≡ s.active_streams)

  pub record_success_streams :
      (env : Env) (ip : String) (s : ServerState Private)
      → ((record_success lib env ip s).user_streams ≡ s.user_streams)
        × ((record_success lib env ip s).active_streams ≡ s.active_streams)
  unfolding record_success mark_canonical
  record_success_streams env ip s = ground arith

  dial_target-Settled :
      (m : Moment) (ip j : String) (req : OpenRequest) (d : Dialed) (s : ServerState Private)
      → (acquire req.username s.user_streams).1 ≡ true
      → Settled req.username j s (
          dial_target lib m ip req d
            (record s { user_streams = (acquire req.username s.user_streams).0 }))
  unfolding dial_target end_stream
  dial_target-Settled m ip j req dial_cancelled s h =
      (release-acquire req.username j s.user_streams h, refl)
  dial_target-Settled m ip j req dial_error s h =
      (release-acquire req.username j s.user_streams h, refl)
  dial_target-Settled m ip j req dialed s h =
      let streams = (acquire req.username s.user_streams).0 in
      let held : ServerState Private = record s { user_streams = streams } in
      let (same, count) = record_success_streams m.logged ip held in
      let back =
        ap (λ (l : UserStreamLimiter). active_at j (release req.username l)) same
        ∙ release-acquire req.username j s.user_streams h in
      either (Settled req.username j s) m.can_write _ _
        (back, ap (λ n. n + 1 - 1) count ∙ omega arith) (back, count)

  open_stream-Settled :
      (m : Moment) (ip j : String) (user : UserConfig) (req : OpenRequest) (s : ServerState Private)
      → Settled req.username j s (open_stream lib m ip user req s)
  unfolding open_stream
  open_stream-Settled m ip j user req s =
      either_option (Settled req.username j s) (authorize_open lib.go s.cfg.forwards user req) _ _
        (either_by (Settled req.username j s) (not (acquire req.username s.user_streams).1) _ _
          (λ e.
            (ap (active_at j) (refused_unchanged req.username s.user_streams (ground arith)), refl))
          (λ e. dial_target-Settled m ip j req m.dial s (ground arith)))
        (λ error. (refl, refl))

  answer_ok-Settled :
      (m : Moment) (ip j username : String) (response : OpenResponse) (s t : ServerState Private)
      → t.user_streams ≡ s.user_streams
      → t.active_streams ≡ s.active_streams
      → Settled username j s (answer_ok lib m ip response t)
  unfolding answer_ok
  answer_ok-Settled m ip j username response s t e f =
      let (same, count) = record_success_streams m.logged ip t in
      (ap (active_at j) (same ∙ e), count ∙ f)

  serve-Settled :
      (m : Moment) (ip j : String) (user : UserConfig) (req : OpenRequest) (s : ServerState Private)
      → Settled req.username j s (serve lib m ip user req s)
  unfolding serve
  serve-Settled m ip j user req s =
      let settled = Settled req.username j s in
      let counted : ServerState Private = record s { auth_ok = s.auth_ok + 1 } in
      either settled (is_text req.kind "health") _ _
        (answer_ok-Settled m ip j req.username (acceptance "server healthy" none) s s refl refl)
        (either settled (is_text req.kind "forward_check") _ _
          (either_option settled
            (authorize_forward_check lib.go s.cfg.forwards s.configured_reverse user req) _ _
            (answer_ok-Settled m ip j req.username (acceptance "forward allowed" none) s s refl
              refl)
            (λ error. (refl, refl)))
          (either settled (is_text req.kind "login") _ _
            (answer_ok-Settled m ip j req.username
              (acceptance "login verified" (credential_key lib m s)) s counted refl refl)
            (either settled (is_text req.kind "reverse" || is_text req.kind "reverse_listen") _ _
              (refl, refl)
              (either settled (is_text req.kind "reverse_stream") _ _ (refl, refl)
                (open_stream-Settled m ip j user req counted)))))

  logged_in-Settled :
      (m : Moment) (ip j : String) (req : OpenRequest) (result : Login) (s : ServerState Private)
      → Settled req.username j s (logged_in lib m ip req result s)
  unfolding logged_in fail_login
  logged_in-Settled m ip j req (accepted user) s = serve-Settled m ip j user req s
  logged_in-Settled m ip j req (denied code) s = (refl, refl)
  logged_in-Settled m ip j req login_panics s = (refl, refl)

  reject-Settled :
      (env : Env) (ip j username : String) (code : EntryCode) (message : String) (count : Bool)
      (s : ServerState Private)
      → Settled username j s (reject_entry_protocol lib env ip code message count s)
  unfolding reject_entry_protocol
  reject-Settled env ip j username code message count s =
      either
        (λ outcome.
          Settled username j s ((reject_entry_protocol lib env ip code message count s).0, outcome))
        (is_empty message) _ _ (refl, refl) (refl, refl)

  handle_request-Settled :
      (m : Moment) (ip j : String) (req : OpenRequest) (s : ServerState Private)
      → Settled req.username j s (handle_request lib m ip req s)
  unfolding handle_request
  handle_request-Settled m ip j req s =
      let settled = Settled req.username j s in
      either settled (not (is_supported req.kind)) _ _
        (reject-Settled m.failed ip j req.username unsupported_request "unsupported request" false
          s)
        (either_option settled (check_request_compatibility lib.go s.cfg.compatibility req) _ _
          (logged_in-Settled m ip j req (login lib m req s) s) (λ code. (refl, refl)))

  handle_block-Settled :
      (m : Moment) (ip j : String) (req : OpenRequest) (kind : BlockKind) (s : ServerState Private)
      → Settled req.username j s (handle_block lib m ip (received req) kind s)
  unfolding handle_block handle_received record_permanent_blocked_hit
  handle_block-Settled m ip j req blocked_permanent s =
      either (λ t. Settled req.username j s (t, dropped)) (is_empty ip) _ _ (refl, refl)
        (refl, refl)
  handle_block-Settled m ip j req blocked_temporary s = (refl, refl)
  handle_block-Settled m ip j req blocked_none s = handle_request-Settled m ip j req s

  -- The streams after `handleConn`, up to its calls of `registerReverseControl` and
  -- `registerReverseStream`, and after the end of a stream that it started.
  pub handle_conn-Settled :
      (m : Moment) (ip j : String) (req : OpenRequest) (s : ServerState Private)
      → let t = settle req.username (handle_conn lib m ip (received req) s) in
        (active_at j t.user_streams ≡ active_at j s.user_streams)
        × (t.active_streams ≡ s.active_streams)
  unfolding handle_conn
  handle_conn-Settled m ip j req s =
      handle_block-Settled m ip j req (block_kind m.start ip s.fails).1
        (record s { fails = (block_kind m.start ip s.fails).0 })
