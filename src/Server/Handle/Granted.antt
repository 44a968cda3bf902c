-- ===== src/Server/Handle/Granted.antt =====
-- To whom `handleConn` of src/server/tunnel/server.go gives anything but a refusal.
use lsyl_tunnel.Base.{
  true-false, ◌+◌, ◌≡◌, refl, sym, ap, ◌∙◌, inl, inr, String, Bool, true, false, not, Option, none,
  some, if_true, if_false, Bool-cases, Option-cases, String_discrete, find, arith,
}
use lsyl_tunnel.Config.{UserConfig}
use lsyl_tunnel.FailTracker.{BlockKind, Env, blocked_none, blocked_temporary, blocked_permanent}
use lsyl_tunnel.FailTracker.Failures.{block_kind}
use lsyl_tunnel.Counters.{EntryCode, unsupported_request}
use lsyl_tunnel.Protocol.{OpenRequest, OpenResponse}
use lsyl_tunnel.Server.Authorization.{authorize_open}
use lsyl_tunnel.Server.Compatibility.{check_request_compatibility}
use lsyl_tunnel.Server.Handle.{
  Library, ServerState, Moment, Outcome, dropped, answered, connected, to_reverse_control,
  to_reverse_stream, panics, refusal, reject_entry_protocol,
}
use lsyl_tunnel.Server.Handle.Request.{
  Received, received, read_failed, read_cancelled, is_supported, Login, accepted, denied,
  login_panics, check_login, login, open_stream, answer_ok, serve, fail_login, logged_in,
  handle_request, handle_received, handle_block, handle_conn,
}
use lsyl_tunnel.Server.Passwords.{
  PasswordAnswer, password_is, refused_with, password_panicked, verify_password,
  password_from_request,
}

-- An outcome that is no refusal: a positive answer, a stream, or a reverse connection.
abbrev pub grants : Outcome → Bool
grants dropped = false
grants (answered response) = response.ok
grants (connected response) = true
grants (to_reverse_control user) = true
grants (to_reverse_stream user) = true
grants panics = false

module _ {Public Private : Type 0} (lib : Library Public Private) where
  -- What `handleConn` asks of a request `req` of the address `ip`, and of its user.
  pub record Entitled (m : Moment) (ip : String) (req : OpenRequest) (s : ServerState Private)
      (user : UserConfig) : Type 0 where
    pub not_blocked : (block_kind m.start ip s.fails).1 ≡ blocked_none
    pub supported : is_supported req.kind ≡ true
    pub compatible : check_request_compatibility lib.go s.cfg.compatibility req ≡ none
    pub known : find String_discrete req.username s.users ≡ some user
    pub enabled : user.disabled ≡ false
    pub password : String
    pub proof :
        password_from_request lib.crypto lib.parse_time m.credential_time s.credential_keys req
        ≡ password_is password
    pub verified : verify_password lib.go lib.pass password user.password_hash ≡ true

  check_login-accepted :
      (found : Option UserConfig) (answer : PasswordAnswer) (user : UserConfig)
      → check_login lib found answer ≡ accepted user
      → (found ≡ some user)
        × (user.disabled ≡ false)
        × ((p : String) × (answer ≡ password_is p)
            × (verify_password lib.go lib.pass p user.password_hash ≡ true))
  unfolding check_login
  check_login-accepted found password_panicked user h = absurd (ground arith)
  check_login-accepted found (refused_with code) user h = absurd (ground arith)
  check_login-accepted none (password_is p) user h = absurd (ground arith)
  check_login-accepted (some u) (password_is p) user h =
      let same : u ≡ user = ground arith in
      (
        ap some same,
        ap (λ (x : UserConfig). x.disabled) (sym same) ∙ ground arith,
        (
          p,
          refl,
          ap (λ (x : UserConfig). verify_password lib.go lib.pass p x.password_hash) (sym same)
              ∙ ground arith,
        ),
      )

  reject-refuses :
      (env : Env) (ip : String) (code : EntryCode) (message : String) (count : Bool)
      (s : ServerState Private)
      → grants (reject_entry_protocol lib env ip code message count s).1 ≡ false
  unfolding reject_entry_protocol
  reject-refuses env ip code message count s = ground arith

  fail_login-refuses :
      (m : Moment) (ip code : String) (s : ServerState Private)
      → grants (fail_login lib m ip code s).1 ≡ false
  unfolding fail_login
  fail_login-refuses m ip code s = ground arith

  -- A stream runs only to a target that `authorizeOpen` allows.
  abbrev AllowedTarget : OpenRequest → UserConfig → ServerState Private → Outcome → Type 0
  AllowedTarget req user s outcome =
      (response : OpenResponse)
      → outcome ≡ connected response
      → authorize_open lib.go s.cfg.forwards user req ≡ none

  open_stream-AllowedTarget :
      (m : Moment) (ip : String) (user : UserConfig) (req : OpenRequest) (s : ServerState Private)
      → AllowedTarget req user s (open_stream lib m ip user req s).1
  unfolding open_stream
  open_stream-AllowedTarget m ip user req s response h =
      elim (Option-cases (authorize_open lib.go s.cfg.forwards user req)) [
        | inl e ↦ e
        | inr (error, e) ↦ absurd (ground arith)
      ]

  serve-AllowedTarget :
      (m : Moment) (ip : String) (user : UserConfig) (req : OpenRequest) (s : ServerState Private)
      → AllowedTarget req user s (serve lib m ip user req s).1
  unfolding serve answer_ok
  serve-AllowedTarget m ip user req s response h = ground (
    arith,
    open_stream-AllowedTarget m ip user req (record s { auth_ok = s.auth_ok + 1 }) response,
  )

  -- A request that is granted something, the user that it is granted to, and what it asks.
  pub record Granted (m : Moment) (ip : String) (r : Received) (s : ServerState Private)
      (outcome : Outcome) : Type 0 where
    pub req : OpenRequest
    pub user : UserConfig
    pub was_read : r ≡ received req
    pub entitled : Entitled m ip req s user
    pub target : AllowedTarget req user s outcome

  logged_in-granted :
      (m : Moment) (ip : String) (req : OpenRequest) (result : Login) (s : ServerState Private)
      → grants (logged_in lib m ip req result s).1 ≡ true
      → (user : UserConfig) × (result ≡ accepted user)
        × AllowedTarget req user s (logged_in lib m ip req result s).1
  unfolding logged_in
  logged_in-granted m ip req (accepted user) s h = (user, refl, serve-AllowedTarget m ip user req s)
  logged_in-granted m ip req (denied code) s h =
      absurd (true-false (sym h ∙ fail_login-refuses m ip code s))
  logged_in-granted m ip req login_panics s h = absurd (true-false (sym h))

  -- The three ways through `handle_request`.
  handle_request_unsupported :
      (m : Moment) (ip : String) (req : OpenRequest) (s : ServerState Private)
      → is_supported req.kind ≡ false
      → handle_request lib m ip req s
        ≡ reject_entry_protocol lib m.failed ip unsupported_request "unsupported request" false s
  unfolding handle_request
  handle_request_unsupported m ip req s e = if_true {b = not (is_supported req.kind)} _ _ (ap not e)

  handle_request_incompatible :
      (m : Moment) (ip : String) (req : OpenRequest) (s : ServerState Private) (code : String)
      → is_supported req.kind ≡ true
      → check_request_compatibility lib.go s.cfg.compatibility req ≡ some code
      → handle_request lib m ip req s ≡ (s, answered (refusal code (lib.describe code)))
  unfolding handle_request
  handle_request_incompatible m ip req s code e c =
      if_false {b = not (is_supported req.kind)} _ _ (ap not e) ∙ rw c refl

  pub handle_request_compatible :
      (m : Moment) (ip : String) (req : OpenRequest) (s : ServerState Private)
      → is_supported req.kind ≡ true
      → check_request_compatibility lib.go s.cfg.compatibility req ≡ none
      → handle_request lib m ip req s ≡ logged_in lib m ip req (login lib m req s) s
  unfolding handle_request
  handle_request_compatible m ip req s e c =
      if_false {b = not (is_supported req.kind)} _ _ (ap not e) ∙ rw c refl

  handle_request-granted :
      (m : Moment) (ip : String) (req : OpenRequest) (s : ServerState Private)
      → grants (handle_request lib m ip req s).1 ≡ true
      → (is_supported req.kind ≡ true)
        × (check_request_compatibility lib.go s.cfg.compatibility req ≡ none)
        × (grants (logged_in lib m ip req (login lib m req s) s).1 ≡ true)
        × (handle_request lib m ip req s ≡ logged_in lib m ip req (login lib m req s) s)
  handle_request-granted m ip req s h = elim (Bool-cases (is_supported req.kind)) [
    | inr e ↦ absurd (
        true-false (
          sym h
          ∙ ap (λ (o : ServerState Private × Outcome). grants o.1)
              (handle_request_unsupported m ip req s e)
          ∙ reject-refuses m.failed ip unsupported_request "unsupported request" false s))
    | inl e ↦ elim (Option-cases (check_request_compatibility lib.go s.cfg.compatibility req)) [
      | inr (code, c) ↦ absurd (
          true-false (
            sym h
            ∙ ap (λ (o : ServerState Private × Outcome). grants o.1)
                (handle_request_incompatible m ip req s code e c)))
      | inl c ↦
          let same = handle_request_compatible m ip req s e c in
          (e, c, ap (λ (o : ServerState Private × Outcome). grants o.1) (sym same) ∙ h, same)
    ]
  ]

  -- The state in which the request is handled once its address is found not to be blocked.
  abbrev unblocked : Moment → String → ServerState Private → ServerState Private
  unblocked m ip s = record s { fails = (block_kind m.start ip s.fails).0 }

  handle_block-granted :
      (m : Moment) (ip : String) (r : Received) (kind : BlockKind) (s : ServerState Private)
      → grants (handle_block lib m ip r kind s).1 ≡ true
      → (kind ≡ blocked_none)
        × ((req : OpenRequest) × (r ≡ received req)
            × (handle_block lib m ip r kind s ≡ handle_request lib m ip req s))
  unfolding handle_block handle_received
  handle_block-granted m ip r blocked_permanent s h = absurd (true-false (sym h))
  handle_block-granted m ip r blocked_temporary s h = absurd (true-false (sym h))
  handle_block-granted m ip read_cancelled blocked_none s h = absurd (true-false (sym h))
  handle_block-granted m ip (read_failed text) blocked_none s h =
      absurd (true-false (sym h ∙ reject-refuses m.failed ip _ "invalid tunnel request" true s))
  handle_block-granted m ip (received req) blocked_none s h = (refl, (req, refl, refl))

  -- Whatever a connection is granted by `handleConn`, be it a positive answer, a stream or a reverse
  -- connection: its address was not blocked, its request was read whole, is of a supported type and of
  -- a compatible client, and names a user of the server who is not disabled and whose password the
  -- request proves. A stream is granted only to a target that `authorizeOpen` allows this user.
  pub handle_conn-Granted :
      (m : Moment) (ip : String) (r : Received) (s : ServerState Private)
      → grants (handle_conn lib m ip r s).1 ≡ true
      → Granted m ip r s (handle_conn lib m ip r s).1
  unfolding handle_conn login
  handle_conn-Granted m ip r s h =
      let t = unblocked m ip s in
      let (kind, (req, read, same)) =
        handle_block-granted m ip r (block_kind m.start ip s.fails).1 t h in
      let (supported, compatible, logged, request) =
        handle_request-granted m ip req t (ap (λ o. grants o.1) (sym same) ∙ h) in
      let (user, result, target) = logged_in-granted m ip req (login lib m req t) t logged in
      let (known, enabled, (p, proof, verified)) = check_login-accepted _ _ user result in
      record {
        req = req;
        user = user;
        was_read = read;
        entitled = record {
          not_blocked = kind;
          supported = supported;
          compatible = compatible;
          known = known;
          enabled = enabled;
          password = p;
          proof = proof;
          verified = verified;
        };
        target = λ response e. target response (ap (λ o. o.1) (sym (same ∙ request)) ∙ e);
      }
