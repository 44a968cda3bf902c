-- ===== src/Server/Handle/Lockout.antt =====
-- Failed logins that `handleConn` of src/server/tunnel/server.go counts with the failure tracker of
-- fail_tracker.go, up to the block of their address.
use lsyl_tunnel.Base.{◌+◌, ◌<◌, ◌≡◌, String, true, none, List, [], ◌∷◌, length}
use lsyl_tunnel.FailTracker.{FailTracker, FailState, Env}
use lsyl_tunnel.FailTracker.Lockout.{IsKey, Tracks, Burst}
use lsyl_tunnel.Protocol.{OpenRequest}
use lsyl_tunnel.Server.Compatibility.{check_request_compatibility}
use lsyl_tunnel.Server.Handle.{Library, ServerState, Moment}
use lsyl_tunnel.Server.Handle.Request.{received, is_supported, denied, login, handle_conn}

-- An address in the midst of failures that stay below the limit.
record InBurst (key : String) (f : FailTracker) (st : FailState) (envs : List Env) : Type 0 where
  key_known : IsKey key f
  tracked : Tracks key f st
  unblocked : st.blocked_until ≡ 0
  near : Burst f.window st.auth_failures envs
  room : length st.auth_failures + length envs < f.limit

-- One request that fails to log in.
pub record Try : Type 0 where
  pub moment : Moment
  pub req : OpenRequest
  pub code : String

abbrev pub failure_times : List Try → List Env
failure_times [] = []
failure_times (t ∷ ts) = t.moment.failed ∷ failure_times ts

module _ {Public Private : Type 0} (lib : Library Public Private) where
  -- The request is a supported one of a compatible client, and its login is denied.
  abbrev pub Fails : ServerState Private → Try → Type 0
  Fails s t =
      (is_supported t.req.kind ≡ true)
      × (check_request_compatibility lib.go s.cfg.compatibility t.req ≡ none)
      × (login lib t.moment t.req s ≡ denied t.code)

  abbrev pub handle_tries : String → List Try → ServerState Private → ServerState Private
  handle_tries key [] s = s
  handle_tries key (t ∷ ts) s =
      handle_tries key ts (handle_conn lib t.moment key (received t.req) s).0
