-- ===== src/Server/Handle/Request.antt =====
-- `handleConn` of src/server/tunnel/server.go, from the block of the address to the answer.
use lsyl_tunnel.Base.{
  ◌+◌, String, Bool, true, false, not, ◌||◌, Option, none, some, if◌then◌else◌, String_discrete,
  find,
}
use lsyl_tunnel.Config.{UserConfig, is_empty, is_text}
use lsyl_tunnel.Counters.{unsupported_request}
use lsyl_tunnel.Counters.Classify.{classify_entry_read_error}
use lsyl_tunnel.FailTracker.{BlockKind, blocked_none, blocked_temporary, blocked_permanent}
use lsyl_tunnel.FailTracker.Failures.{block_kind, add_failure}
use lsyl_tunnel.Protocol.{OpenRequest, OpenResponse}
use lsyl_tunnel.Server.Authorization.{
  AuthorizeError, direction_invalid, target_invalid, target_forbidden, user_denied,
  listen_addr_missing, listen_not_configured, listen_denied, authorize_open,
  authorize_forward_check,
}
use lsyl_tunnel.Server.Compatibility.{server_version_response, check_request_compatibility}
use lsyl_tunnel.Server.Handle.{
  Library, ServerState, Dialed, dialed, dial_error, dial_cancelled, Moment, Outcome, dropped,
  answered, connected, to_reverse_control, to_reverse_stream, panics, refusal, acceptance,
  record_permanent_blocked_hit, reject_entry_protocol, record_success, credential_key,
}
use lsyl_tunnel.Server.Passwords.{
  PasswordAnswer, password_is, refused_with, password_panicked, verify_password,
  password_from_request,
}
use lsyl_tunnel.UserStreamLimiter.{acquire, release}

-- What `ReadJSON` gives: a request, the text of an error, or an error while the server shuts down.
pub data Received : Type 0 where
  received : OpenRequest → Received
  read_failed : String → Received
  read_cancelled : Received

-- The texts of the errors of authorization.go.
unfoldable pub message_of : AuthorizeError → String
message_of direction_invalid = "request direction is invalid"
message_of target_invalid = "target address is invalid"
message_of target_forbidden = "target is not allowed"
message_of user_denied = "user is not allowed to access this target"
message_of listen_addr_missing = "reverse listen address is required"
message_of listen_not_configured = "reverse listen address is not configured on server"
message_of listen_denied = "user is not allowed to activate this reverse listen address"

abbrev pub is_supported : String → Bool
is_supported kind =
    is_text kind "open"
    || is_text kind "login"
    || is_text kind "health"
    || is_text kind "forward_check"
    || is_text kind "reverse"
    || is_text kind "reverse_listen"
    || is_text kind "reverse_stream"

abbrev pub blocked_response : OpenResponse
blocked_response = refusal "auth_blocked" "too many login failures, temporarily blocked; try later"

-- Whether the login of a request is accepted, and if not, with the code of `passwordFromRequest`.
pub data Login : Type 0 where
  accepted : UserConfig → Login
  denied : String → Login
  login_panics : Login

module _ {Public Private : Type 0} (lib : Library Public Private) where
  unfoldable pub check_login : Option UserConfig → PasswordAnswer → Login
  check_login user password_panicked = login_panics
  check_login user (refused_with code) = denied code
  check_login none (password_is password) = denied ""
  check_login (some user) (password_is password) =
      if user.disabled
      then denied ""
      else if verify_password lib.go lib.pass password user.password_hash
      then accepted user
      else denied ""

  unfoldable pub login : Moment → OpenRequest → ServerState Private → Login
  unfolding check_login
  login m req s =
      check_login (find String_discrete req.username s.users)
        (password_from_request lib.crypto lib.parse_time m.credential_time s.credential_keys req)

  unfoldable pub dial_target :
      Moment → String → OpenRequest → Dialed → ServerState Private → ServerState Private × Outcome
  dial_target m ip req dial_cancelled s =
      (record s { user_streams = release req.username s.user_streams }, dropped)
  dial_target m ip req dial_error s = (
    record s {
      user_streams = release req.username s.user_streams;
      dial_failed = s.dial_failed + 1;
    },
    answered (refusal "target_unreachable" "target service is unreachable"),
  )
  dial_target m ip req dialed s =
      let marked = record_success lib m.logged ip s in
      if m.can_write
      then (
        record marked {
          total_streams = marked.total_streams + 1;
          active_streams = marked.active_streams + 1;
        },
        connected (server_version_response (acceptance "connected" (credential_key lib m s))),
      )
      else (record marked { user_streams = release req.username marked.user_streams }, dropped)

  -- The end of `handleConn`, for a request to open a stream.
  unfoldable pub open_stream :
      Moment
      → String
      → UserConfig
      → OpenRequest
      → ServerState Private
      → ServerState Private × Outcome
  unfolding dial_target
  open_stream m ip user req s = elim (authorize_open lib.go s.cfg.forwards user req) [
    | some error ↦ (
      record s { policy_rejected = s.policy_rejected + 1 },
      answered (refusal "target_denied" (message_of error)),
    )
    | none ↦
        let (streams, granted) = acquire req.username s.user_streams in
        if not granted
        then (
          record s {
            user_streams = streams;
            user_stream_limit_rejected = s.user_stream_limit_rejected + 1;
          },
          answered (refusal "user_stream_limit" "too many concurrent streams for account"),
        )
        else dial_target m ip req m.dial (record s { user_streams = streams })
  ]

  unfoldable pub answer_ok :
      Moment → String → OpenResponse → ServerState Private → ServerState Private × Outcome
  answer_ok m ip response s =
      (record_success lib m.logged ip s, answered (server_version_response response))

  -- `handleConn` once the user is known, up to its calls of `registerReverseControl` and
  -- `registerReverseStream`, from which Server.Handle.Registration goes on.
  unfoldable pub serve :
      Moment
      → String
      → UserConfig
      → OpenRequest
      → ServerState Private
      → ServerState Private × Outcome
  unfolding answer_ok
  serve m ip user req s =
      let counted = record s { auth_ok = s.auth_ok + 1 } in
      if is_text req.kind "health"
      then answer_ok m ip (acceptance "server healthy" none) s
      else if is_text req.kind "forward_check"
      then elim (authorize_forward_check lib.go s.cfg.forwards s.configured_reverse user req) [
        | some error ↦ (s, answered (refusal "target_denied" (message_of error)))
        | none ↦ answer_ok m ip (acceptance "forward allowed" none) s
      ]
      else if is_text req.kind "login"
      then answer_ok m ip (acceptance "login verified" (credential_key lib m s)) counted
      else if is_text req.kind "reverse" || is_text req.kind "reverse_listen"
      then (counted, to_reverse_control user)
      else if is_text req.kind "reverse_stream"
      then (counted, to_reverse_stream user)
      else open_stream m ip user req counted

  -- The branch of `handleConn` for a login that fails.
  unfoldable pub fail_login :
      Moment → String → String → ServerState Private → ServerState Private × Outcome
  fail_login m ip code s =
      let (fails, kind) = block_kind m.recheck ip (add_failure m.failed ip s.fails) in
      (
        record s { auth_failed = s.auth_failed + 1; fails = fails },
        answered (elim kind [
          | blocked_temporary ↦ blocked_response
          | _ ↦
              if is_empty code
              then refusal "auth_failed" "username or password is incorrect"
              else refusal code (
                  if is_text code "credential_expired"
                  then "saved login has expired, please enter password again"
                  else "username or password is incorrect")
        ]),
      )

  unfoldable pub logged_in :
      Moment → String → OpenRequest → Login → ServerState Private → ServerState Private × Outcome
  logged_in m ip req (accepted user) s = serve m ip user req s
  logged_in m ip req (denied code) s = fail_login m ip code s
  logged_in m ip req login_panics s = (s, panics)

  -- `handleConn` once a request is read.
  unfoldable pub handle_request :
      Moment → String → OpenRequest → ServerState Private → ServerState Private × Outcome
  unfolding logged_in
  handle_request m ip req s =
      if not (is_supported req.kind)
      then reject_entry_protocol lib m.failed ip unsupported_request "unsupported request" false s
      else elim (check_request_compatibility lib.go s.cfg.compatibility req) [
        | some code ↦ (s, answered (refusal code (lib.describe code)))
        | none ↦ logged_in m ip req (login m req s) s
      ]

  unfoldable pub handle_received :
      Moment → String → Received → ServerState Private → ServerState Private × Outcome
  handle_received m ip read_cancelled s = (s, dropped)
  handle_received m ip (read_failed text) s =
      reject_entry_protocol lib m.failed ip
        (classify_entry_read_error lib.contains lib.upper (some text)) "invalid tunnel request" true
        s
  handle_received m ip (received req) s = handle_request m ip req s

  unfoldable pub handle_block :
      Moment → String → Received → BlockKind → ServerState Private → ServerState Private × Outcome
  unfolding handle_received
  handle_block m ip r blocked_permanent s = (record_permanent_blocked_hit lib ip s, dropped)
  handle_block m ip r blocked_temporary s = (s, answered blocked_response)
  handle_block m ip r blocked_none s = handle_received m ip r s

  -- `handleConn`
  unfoldable pub handle_conn :
      Moment → String → Received → ServerState Private → ServerState Private × Outcome
  unfolding handle_block
  handle_conn m ip r s =
      let (fails, kind) = block_kind m.start ip s.fails in
      handle_block m ip r kind (record s { fails = fails })
