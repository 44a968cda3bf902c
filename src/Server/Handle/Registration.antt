-- ===== src/Server/Handle/Registration.antt =====
-- `registerReverseControl`, `registerReverseStream`, `ensureReverseListener` and
-- `closeReverseListenerIfIdle` of src/server/tunnel/reverse.go, and the two branches of `handleConn` of
-- src/server/tunnel/server.go that call the first two.
use lsyl_tunnel.Base.{
  ℕ, ◌+◌, String, Bool, true, false, not, ◌&&◌, ◌||◌, Option, none, some, List, ◌∷◌, if◌then◌else◌,
  String_discrete, Map, find, put, delete, trim_space,
}
use lsyl_tunnel.Config.{UserConfig, is_empty, is_blank_text}
use lsyl_tunnel.Config.Validation.{known}
use lsyl_tunnel.Protocol.{OpenRequest}
use lsyl_tunnel.Server.Authorization.{
  AuthorizeError, is_configured, normalize_target, authorize_reverse,
}
use lsyl_tunnel.Server.Handle.{
  Library, ServerState, Moment, Outcome, answered, to_reverse_control, to_reverse_stream, refusal,
  record_success,
}
use lsyl_tunnel.Server.Handle.Request.{message_of}
use lsyl_tunnel.Server.ReverseListener.{
  ReverseListener, new_listener, add_control, remove_control, close_control, take_pending, is_idle,
}
use lsyl_tunnel.UserStreamLimiter.{acquire, release}

-- The errors of the two functions, the last one of `WriteJSON`.
pub data RegisterError : Type 0 where
  listen_required target_required listen_unknown : RegisterError
  not_allowed : AuthorizeError → RegisterError
  port_unavailable already_activated server_closed : RegisterError
  stream_invalid listen_inactive stream_expired stream_limit : RegisterError
  write_error : String → RegisterError

unfoldable pub register_message : RegisterError → String
register_message listen_required = "reverse listen address is required"
register_message target_required = "reverse target address is required"
register_message listen_unknown = "reverse listen address is not configured on server"
register_message (not_allowed error) = message_of error
register_message port_unavailable = "server passive port is unavailable"
register_message already_activated = "reverse listen address is already activated"
register_message server_closed = "use of closed network connection"
register_message stream_invalid = "reverse stream is invalid"
register_message listen_inactive = "reverse listen is not active"
register_message stream_expired = "reverse stream has expired"
register_message stream_limit = "too many concurrent streams for account"
register_message (write_error text) = text

-- The server with its map of reverse listeners, under normalized addresses, and the inbound connections
-- that were closed.
pub record Serving (Private : Type 0) : Type 0 where
  pub server : ServerState Private
  pub listeners : Map String ReverseListener
  pub closed_inbound : List ℕ

-- What the surroundings give to a registration: whether `net.Listen` succeeds and the workers of the
-- listener and of the connection start, and the error of `WriteJSON`, if there is one.
pub record Registering : Type 0 where
  pub can_listen : Bool
  pub loop_starts : Bool
  pub worker_starts : Bool
  pub write_fails : Option String

-- A stream that was registered relays the inbound connection `conn`.
pub data Registered : Type 0 where
  relays : ℕ → Registered
  controls : Registered
  fails_with : RegisterError → Registered

-- How a request ends: as `handleConn` says, or with its connection kept by a worker.
pub data Ended : Type 0 where
  ends : Outcome → Ended
  relaying : ℕ → Ended
  controlling : Ended

-- `errors.Is(err, errUserStreamLimit)`
unfoldable pub is_stream_limit : RegisterError → Bool
is_stream_limit stream_limit = true
is_stream_limit _ = false

module _ {Public Private : Type 0} (lib : Library Public Private) where
  set_listener : String → ReverseListener → Serving Private → Serving Private
  set_listener key rl s = record s { listeners = put String_discrete key rl s.listeners }

  -- `ensureReverseListener`; a listener whose loop does not start is closed and forgotten.
  unfoldable pub ensure_reverse_listener :
      Registering → String → Serving Private → Serving Private × (Option RegisterError)
  unfolding set_listener
  ensure_reverse_listener r key s = elim (find String_discrete key s.listeners) [
    | some rl ↦ (s, none)
    | none ↦
        if not r.can_listen
        then (s, some port_unavailable)
        else if r.loop_starts
        then (set_listener key new_listener s, none)
        else (s, some server_closed)
  ]

  -- `closeReverseListenerIfIdle`, with nothing in between its two tests.
  unfoldable pub close_if_idle : String → ReverseListener → Serving Private → Serving Private
  close_if_idle key rl s =
      if is_idle rl && not (known key s.server.configured_reverse)
      then record s { listeners = delete String_discrete key s.listeners }
      else s

  -- The control is taken off the listener again.
  unfoldable pub withdraw : String → ℕ → ReverseListener → Serving Private → Serving Private
  unfolding set_listener
  withdraw key control rl s = set_listener key (remove_control control (close_control control rl)) s

  unfoldable pub control_added :
      Registering
      → String
      → ℕ
      → Serving Private
      → ReverseListener × Bool
      → Serving Private × Registered
  unfolding set_listener
  control_added r key control s (rl, false) = (s, fails_with already_activated)
  control_added r key control s (rl, true) = elim r.write_fails [
    | some text ↦ (withdraw key control rl s, fails_with (write_error text))
    | none ↦
        if r.worker_starts
        then (set_listener key rl s, controls)
        else (withdraw key control rl s, fails_with server_closed)
  ]

  unfoldable pub add_to_listener :
      Registering
      → String
      → ℕ
      → Serving Private × (Option RegisterError)
      → Serving Private × Registered
  add_to_listener r key control (s, some error) = (s, fails_with error)
  add_to_listener r key control (s, none) = elim (find String_discrete key s.listeners) [
    | none ↦ (s, fails_with server_closed)
    | some rl ↦ control_added r key control s (add_control control rl)
  ]

  -- `registerReverseControl`, for the connection `control`.
  unfoldable pub register_reverse_control :
      Registering → ℕ → OpenRequest → UserConfig → Serving Private → Serving Private × Registered
  register_reverse_control r control req user s =
      let addr = trim_space req.listen_addr in
      if is_empty addr
      then (s, fails_with listen_required)
      else if is_blank_text req.target
      then (s, fails_with target_required)
      else if not (is_configured lib.go addr s.server.configured_reverse)
      then (s, fails_with listen_unknown)
      else elim (authorize_reverse lib.go s.server.cfg.forwards user addr) [
        | some error ↦ (s, fails_with (not_allowed error))
        | none ↦
            let key = normalize_target lib.go addr in
            add_to_listener r key control (ensure_reverse_listener r key s)
      ]

  -- The account gives its stream back, and the inbound connection is closed.
  unfoldable pub give_up : String → ℕ → Serving Private → Serving Private
  give_up username conn s = record s {
    server = record s.server { user_streams = release username s.server.user_streams };
    closed_inbound = conn ∷ s.closed_inbound;
  }

  -- The worker of a stream has started.
  unfoldable pub relay : Serving Private → Serving Private
  relay s = record s {
    server = record s.server {
      total_streams = s.server.total_streams + 1;
      active_streams = s.server.active_streams + 1;
    };
  }

  -- The answer and the worker, once the account has its stream.
  unfoldable pub start_stream :
      Registering → String → ℕ → Serving Private → Serving Private × Registered
  start_stream r username conn s = elim r.write_fails [
    | some text ↦ (give_up username conn s, fails_with (write_error text))
    | none ↦
        if r.worker_starts
        then (relay s, relays conn)
        else (give_up username conn s, fails_with server_closed)
  ]

  -- `registerReverseStream` once `takePending` has left the listener `rl`.
  unfoldable pub stream_taken :
      Registering
      → String
      → String
      → Serving Private
      → ReverseListener × (Option ℕ)
      → Serving Private × Registered
  unfolding set_listener
  stream_taken r key username s (rl, none) = (s, fails_with stream_expired)
  stream_taken r key username s (rl, some conn) =
      let (streams, granted) = acquire username s.server.user_streams in
      let taken = set_listener key rl s in
      if granted
      then start_stream r username conn (
          close_if_idle key rl
            (record taken { server = record taken.server { user_streams = streams } }))
      else (
        close_if_idle key rl (record taken {
          server = record taken.server {
            user_streams = streams;
            user_stream_limit_rejected = taken.server.user_stream_limit_rejected + 1;
          };
          closed_inbound = conn ∷ taken.closed_inbound;
        }),
        fails_with stream_limit,
      )

  -- `registerReverseStream`
  unfoldable pub register_reverse_stream :
      Registering → OpenRequest → UserConfig → Serving Private → Serving Private × Registered
  register_reverse_stream r req user s =
      let addr = trim_space req.listen_addr in
      let stream_id = trim_space req.stream_id in
      if is_empty addr || is_empty stream_id
      then (s, fails_with stream_invalid)
      else if not (is_configured lib.go addr s.server.configured_reverse)
      then (s, fails_with listen_unknown)
      else elim (authorize_reverse lib.go s.server.cfg.forwards user addr) [
        | some error ↦ (s, fails_with (not_allowed error))
        | none ↦
            let key = normalize_target lib.go addr in
            elim (find String_discrete key s.listeners) [
              | none ↦ (s, fails_with listen_inactive)
              | some rl ↦ stream_taken r key req.username s (take_pending stream_id rl)
            ]
      ]

  on_server : (ServerState Private → ServerState Private) → Serving Private → Serving Private
  on_server f s = record s { server = f s.server }

  -- The branch of `handleConn` for a control connection.
  unfoldable pub control_answer :
      Moment → String → Serving Private × Registered → Serving Private × Ended
  unfolding on_server
  control_answer m ip (s, fails_with error) = (
    on_server (λ (t : ServerState Private). record t { policy_rejected = t.policy_rejected + 1 }) s,
    ends (answered (refusal "reverse_failed" (register_message error))),
  )
  control_answer m ip (s, controls) = (on_server (record_success lib m.logged ip) s, controlling)
  control_answer m ip (s, relays conn) = (s, relaying conn)

  -- The branch of `handleConn` for a stream.
  unfoldable pub stream_answer :
      Moment → String → Serving Private × Registered → Serving Private × Ended
  unfolding on_server
  stream_answer m ip (s, fails_with error) =
      if is_stream_limit error
      then (s, ends (answered (refusal "user_stream_limit" (register_message error))))
      else (
        on_server (λ (t : ServerState Private). record t { dial_failed = t.dial_failed + 1 }) s,
        ends (answered (refusal "reverse_failed" (register_message error))),
      )
  stream_answer m ip (s, relays conn) =
      (on_server (record_success lib m.logged ip) s, relaying conn)
  stream_answer m ip (s, controls) = (s, controlling)

  -- What `handleConn` does after the branches up to the two calls. The connection is `control`.
  unfoldable pub register :
      Moment
      → Registering
      → String
      → ℕ
      → OpenRequest
      → Outcome
      → Serving Private
      → Serving Private × Ended
  register m r ip control req (to_reverse_control user) s =
      control_answer m ip (register_reverse_control r control req user s)
  register m r ip control req (to_reverse_stream user) s =
      stream_answer m ip (register_reverse_stream r req user s)
  register m r ip control req outcome s = (s, ends outcome)
