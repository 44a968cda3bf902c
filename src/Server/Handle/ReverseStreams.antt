-- ===== src/Server/Handle/ReverseStreams.antt =====
-- The streams that a whole request takes of the user stream limiter, `handleConn` of
-- src/server/tunnel/server.go with the registrations of reverse.go, and their way back on every path.
use lsyl_tunnel.Base.{
  ℕ, ◌+◌, ◌-◌, ◌≡◌, refl, ap, ◌∙◌, String, Bool, true, false, not, ◌&&◌, ◌||◌, Option, none, some,
  List, Map, String_discrete, find, trim_space, either, either_by, either_option, arith,
}
use lsyl_tunnel.Config.{UserConfig, is_empty, is_blank_text}
use lsyl_tunnel.Config.Validation.{known}
use lsyl_tunnel.Protocol.{OpenRequest}
use lsyl_tunnel.Server.Authorization.{is_configured, normalize_target, authorize_reverse}
use lsyl_tunnel.Server.Handle.{
  Library, ServerState, Moment, Outcome, dropped, answered, connected, to_reverse_control,
  to_reverse_stream, panics, end_stream,
}
use lsyl_tunnel.Server.Handle.Registration.{
  RegisterError, is_stream_limit, Serving, Registering, Registered, relays, controls, fails_with,
  ensure_reverse_listener, close_if_idle, withdraw, control_added, add_to_listener,
  register_reverse_control, give_up, relay, start_stream, stream_taken, register_reverse_stream,
  Ended, ends, relaying, controlling, control_answer, stream_answer, register,
}
use lsyl_tunnel.Server.Handle.Request.{received, handle_conn}
use lsyl_tunnel.Server.Handle.Streams.{
  settle, release-acquire, refused_unchanged, record_success_streams, handle_conn-Settled,
}
use lsyl_tunnel.Server.ReverseListener.{ReverseListener, add_control, take_pending, is_idle}
use lsyl_tunnel.UserStreamLimiter.{UserStreamLimiter, active_at, acquire, release}

module _ {Public Private : Type 0} (lib : Library Public Private) where
  -- `t` has the streams of `s`, of the account `j` and in all.
  abbrev SameStreams : String → ServerState Private → ServerState Private → Type 0
  SameStreams j s t =
      (active_at j t.user_streams ≡ active_at j s.user_streams)
      × (t.active_streams ≡ s.active_streams)

  -- What a registration leaves, once a stream that it started has ended.
  abbrev ended_stream : String → Serving Private × Registered → ServerState Private
  ended_stream username (s, relays conn) = end_stream username s.server
  ended_stream username (s, controls) = s.server
  ended_stream username (s, fails_with error) = s.server

  close_if_idle-server :
      (key : String) (rl : ReverseListener) (s : Serving Private)
      → (close_if_idle lib key rl s).server ≡ s.server
  unfolding close_if_idle
  close_if_idle-server key rl s =
      either (λ (t : Serving Private). t.server ≡ s.server)
        (is_idle rl && not (known key s.server.configured_reverse)) _ _ refl refl

  -- A stream that was granted is given back by `start_stream`, or by the end of the relaying.
  start_stream-Same :
      (r : Registering) (username j : String) (conn : ℕ) (s : ServerState Private)
      (t : Serving Private)
      → (acquire username s.user_streams).1 ≡ true
      → t.server.user_streams ≡ (acquire username s.user_streams).0
      → t.server.active_streams ≡ s.active_streams
      → SameStreams j s (ended_stream username (start_stream lib r username conn t))
  unfolding start_stream give_up relay end_stream
  start_stream-Same r username j conn s t g e c =
      let back =
        ap (λ (l : UserStreamLimiter). active_at j (release username l)) e
        ∙ release-acquire username j s.user_streams g in
      either_option
        (λ (x : Serving Private × Registered). SameStreams j s (ended_stream username x))
        r.write_fails _ _
        (either (λ (x : Serving Private × Registered). SameStreams j s (ended_stream username x))
          r.worker_starts _ _ (back, ap (λ n. n + 1 - 1) c ∙ omega arith) (back, c))
        (λ text. (back, c))

  stream_taken-Same :
      (r : Registering) (key username j : String) (s : Serving Private)
      (x : ReverseListener × Option ℕ)
      → SameStreams j s.server (ended_stream username (stream_taken lib r key username s x))
  unfolding stream_taken
  stream_taken-Same r key username j s (rl, none) = (refl, refl)
  stream_taken-Same r key username j s (rl, some conn) =
      either_by
        (λ (x : Serving Private × Registered). SameStreams j s.server (ended_stream username x))
        (acquire username s.server.user_streams).1 _ _
        (λ g.
          start_stream-Same r username j conn s.server _ g
            (ap (λ (t : ServerState Private). t.user_streams) (close_if_idle-server key rl _))
            (ap (λ (t : ServerState Private). t.active_streams) (close_if_idle-server key rl _)))
        (λ g. (
          ap (λ (t : ServerState Private). active_at j t.user_streams)
                (close_if_idle-server key rl _)
              ∙ ap (active_at j) (refused_unchanged username s.server.user_streams g),
          ap (λ (t : ServerState Private). t.active_streams) (close_if_idle-server key rl _),
        ))

  register_stream-Same :
      (r : Registering) (j : String) (req : OpenRequest) (user : UserConfig) (s : Serving Private)
      → SameStreams j s.server
          (ended_stream req.username (register_reverse_stream lib r req user s))
  unfolding register_reverse_stream
  register_stream-Same r j req user s =
      let addr = trim_space req.listen_addr in
      let same = λ (x : Serving Private × Registered).
        SameStreams j s.server (ended_stream req.username x) in
      either same (is_empty addr || is_empty (trim_space req.stream_id)) _ _ (refl, refl)
        (either same (not (is_configured lib.go addr s.server.configured_reverse)) _ _ (refl, refl)
          (either_option same (authorize_reverse lib.go s.server.cfg.forwards user addr) _ _
            (either_option same (find String_discrete (normalize_target lib.go addr) s.listeners) _
              _ (refl, refl)
              (λ rl.
                stream_taken-Same r (normalize_target lib.go addr) req.username j s
                  (take_pending (trim_space req.stream_id) rl)))
            (λ error. (refl, refl))))

  -- A control connection leaves the server's own state alone, and is no stream.
  abbrev Untouched : String → Serving Private → Serving Private × Registered → Type 0
  Untouched username s x = ended_stream username x ≡ s.server

  added-Untouched :
      (r : Registering) (key username : String) (control : ℕ) (s : Serving Private)
      (x : ReverseListener × Bool)
      → Untouched username s (control_added lib r key control s x)
  unfolding control_added withdraw
  added-Untouched r key username control s (rl, false) = refl
  added-Untouched r key username control s (rl, true) =
      either_option (Untouched username s) r.write_fails _ _
        (either (Untouched username s) r.worker_starts _ _ refl refl) (λ text. refl)

  to_listener-Untouched :
      (r : Registering) (key username : String) (control : ℕ)
      (x : Serving Private × Option RegisterError)
      → Untouched username x.0 (add_to_listener lib r key control x)
  unfolding add_to_listener
  to_listener-Untouched r key username control (s, some error) = refl
  to_listener-Untouched r key username control (s, none) =
      either_option (Untouched username s) (find String_discrete key s.listeners) _ _ refl
        (λ rl. added-Untouched r key username control s (add_control control rl))

  ensure-server :
      (r : Registering) (key : String) (s : Serving Private)
      → (ensure_reverse_listener lib r key s).0.server ≡ s.server
  unfolding ensure_reverse_listener
  ensure-server r key s =
      let same = λ (x : Serving Private × Option RegisterError). x.0.server ≡ s.server in
      either_option same (find String_discrete key s.listeners) _ _
        (either same (not r.can_listen) _ _ refl (either same r.loop_starts _ _ refl refl))
        (λ rl. refl)

  control-Untouched :
      (r : Registering) (username : String) (control : ℕ) (req : OpenRequest) (user : UserConfig)
      (s : Serving Private)
      → Untouched username s (register_reverse_control lib r control req user s)
  unfolding register_reverse_control
  control-Untouched r username control req user s =
      let addr = trim_space req.listen_addr in
      let key = normalize_target lib.go addr in
      either (Untouched username s) (is_empty addr) _ _ refl (
        either (Untouched username s) (is_blank_text req.target) _ _ refl (
          either (Untouched username s)
            (not (is_configured lib.go addr s.server.configured_reverse)) _ _ refl
            (either_option (Untouched username s)
              (authorize_reverse lib.go s.server.cfg.forwards user addr) _ _
              (to_listener-Untouched r key username control (ensure_reverse_listener lib r key s)
                ∙ ensure-server r key s)
              (λ error. refl))))

  -- The server once the request is over, and its stream where it got one.
  abbrev pub over : String → Serving Private × Ended → ServerState Private
  over username (s, ends outcome) = settle lib username (s.server, outcome)
  over username (s, relaying conn) = end_stream username s.server
  over username (s, controlling) = s.server

  stream_answer-Same :
      (m : Moment) (ip j username : String) (s : ServerState Private)
      (x : Serving Private × Registered)
      → SameStreams j s (ended_stream username x)
      → SameStreams j s (over username (stream_answer lib m ip x))
  unfolding stream_answer end_stream
  stream_answer-Same m ip j username s (t, fails_with error) h =
      either (λ (x : Serving Private × Ended). SameStreams j s (over username x))
        (is_stream_limit error) _ _ h h
  stream_answer-Same m ip j username s (t, controls) h = h
  stream_answer-Same m ip j username s (t, relays conn) h =
      let (same, count) = record_success_streams lib m.logged ip t.server in
      (
        ap (λ (l : UserStreamLimiter). active_at j (release username l)) same ∙ h.0,
        ap (λ n. n - 1) count ∙ h.1,
      )

  control_answer-Same :
      (m : Moment) (ip j username : String) (x : Serving Private × Registered)
      → SameStreams j (ended_stream username x) (over username (control_answer lib m ip x))
  unfolding control_answer
  control_answer-Same m ip j username (t, fails_with error) = (refl, refl)
  control_answer-Same m ip j username (t, relays conn) = (refl, refl)
  control_answer-Same m ip j username (t, controls) =
      let (same, count) = record_success_streams lib m.logged ip t.server in
      (ap (active_at j) same, count)

  register-Same :
      (m : Moment) (r : Registering) (ip j : String) (control : ℕ) (req : OpenRequest)
      (outcome : Outcome) (s : Serving Private)
      → SameStreams j
          (settle lib req.username (s.server, outcome))
          (over req.username (register lib m r ip control req outcome s))
  unfolding register
  register-Same m r ip j control req (to_reverse_control user) s =
      let x = register_reverse_control lib r control req user s in
      let (a, b) = control_answer-Same m ip j req.username x in
      let same = control-Untouched r req.username control req user s in
      (
        a ∙ ap (λ (t : ServerState Private). active_at j t.user_streams) same,
        b ∙ ap (λ (t : ServerState Private). t.active_streams) same,
      )
  register-Same m r ip j control req (to_reverse_stream user) s =
      stream_answer-Same m ip j req.username s.server (register_reverse_stream lib r req user s)
        (register_stream-Same r j req user s)
  register-Same m r ip j control req dropped s = (refl, refl)
  register-Same m r ip j control req (answered response) s = (refl, refl)
  register-Same m r ip j control req (connected response) s = (refl, refl)
  register-Same m r ip j control req panics s = (refl, refl)

  -- However a request ends, by `handleConn` itself or by `registerReverseControl` or
  -- `registerReverseStream`, refusal, full account, failed dial, failed answer, worker that does not start
  -- and shutdown included, and once the stream has ended where it started one: every account has as many
  -- streams as before, and so has the server. No path keeps a place of the user stream limiter, or gives
  -- one back twice. The reverse listeners may be in any state.
  pub streams_given_back :
      (m : Moment) (r : Registering) (ip j : String) (control : ℕ) (req : OpenRequest)
      (s : ServerState Private) (listeners : Map String ReverseListener) (closed : List ℕ)
      → let (t, outcome) = handle_conn lib m ip (received req) s in
        let serving : Serving Private = record {
          server = t;
          listeners = listeners;
          closed_inbound = closed;
        } in
        let u = over req.username (register lib m r ip control req outcome serving) in
        (active_at j u.user_streams ≡ active_at j s.user_streams)
        × (u.active_streams ≡ s.active_streams)
  streams_given_back m r ip j control req s listeners closed =
      let x = handle_conn lib m ip (received req) s in
      let (a, b) = handle_conn-Settled lib m ip j req s in
      let (c, d) =
        register-Same m r ip j control req x.1
          (record { server = x.0; listeners = listeners; closed_inbound = closed }) in
      (c ∙ a, d ∙ b)
