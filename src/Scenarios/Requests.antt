-- ===== src/Scenarios/Requests.antt =====
-- Sealed credentials and requests on small inputs.
pub mod Rotation
pub mod Sealing
use lsyl_tunnel.Base.{
  put, delete, ℕ, ◌+◌, ◌<◌, ◌≡◌, inl, refl, String, Bool, true, false, Option, some, none, List, [],
  ◌∷◌, ◌++◌, find, String_discrete, trim_space,
}
use Prim.Native.Char.{code}
use lsyl_tunnel.Config.{UserConfig, GoLibrary}
use lsyl_tunnel.Config.Version.{compare, parse, parse_part}
use lsyl_tunnel.FailTracker.{has_permanent}
use lsyl_tunnel.FailTracker.Failures.{block_kind, block_kind_read, block_kind_locked}
use lsyl_tunnel.FailTracker.Lockout.{IsKey}
use lsyl_tunnel.HitLog.{new_permanent_block_hit_aggregator}
use lsyl_tunnel.Protocol.{OpenRequest}
use lsyl_tunnel.Scenarios.Blocking.{empty_tracker, at}
use lsyl_tunnel.Scenarios.Requests.Sealing.{small_crypto}
use lsyl_tunnel.Scenarios.Serving.{health_request, web_go}
use lsyl_tunnel.Scenarios.Settings.{small_config, no_probes}
use lsyl_tunnel.Server.Compatibility.{check_request_compatibility, too_old, too_new}
use lsyl_tunnel.Server.Handle.{Library, ServerState, Moment, dialed}
use lsyl_tunnel.Server.Handle.Granted.{grants, Granted, handle_conn-Granted}
use lsyl_tunnel.Server.Handle.Lockout.{Try}
use lsyl_tunnel.Server.Handle.Request.{
  received, check_login, login, answer_ok, serve, logged_in, handle_request, handle_received,
  handle_block, handle_conn,
}
use lsyl_tunnel.Server.Handle.Registration.{
  Serving, Registering, register, register_reverse_stream, stream_taken, start_stream, give_up,
  close_if_idle,
}
use lsyl_tunnel.Server.Authorization.{
  is_configured, normalize_target, authorize_reverse, reverse_allowed, listens_on,
  configured_reverse_listen_addr, allowed_user,
}
use lsyl_tunnel.Config.Forwards.{port_in_range}
use lsyl_tunnel.Server.Handle.ReverseStreams.{over, streams_given_back}
use lsyl_tunnel.Server.ReverseListener.{ReverseListener, new_listener, take_pending, is_idle}
use lsyl_tunnel.Server.Passwords.{PassLibrary, password_from_request, verify_password}
use lsyl_tunnel.Server.Compatibility.{server_version_response}
use lsyl_tunnel.UserStreamLimiter.{active_at, acquire}

abbrev text_bytes : String → List ℕ
text_bytes String.[] = []
text_bytes (String.◌∷◌ c s) = code c ∷ text_bytes s

-- Every hash is a plain one.
abbrev plain_pass : PassLibrary
plain_pass = record {
  bytes = text_bytes;
  has_prefix = λ text prefix. true;
  hex_decode = λ text. none;
  base64_decode = λ text. none;
  sha256 = λ bytes. bytes;
  pbkdf2 = λ password salt rounds size. some password;
}

abbrev small_library : Library (Unit {0}) (Unit {0})
small_library = record {
  go = web_go;
  pass = plain_pass;
  crypto = small_crypto;
  parse_ip = λ text. some text;
  contains = λ text part. false;
  upper = λ bytes. bytes;
  parse_time = λ text. none;
  format_time = λ t. "";
  describe = λ code. code;
}

abbrev small_server : ServerState (Unit {0})
small_server = record {
  cfg = small_config;
  users = ("ann", record { username = "ann"; password_hash = "p"; disabled = false }) ∷ [];
  configured_reverse = [];
  credential_keys = [];
  active_key = none;
  fails = empty_tracker;
  user_streams = record { max_per_user = 2; active = [] };
  hits = record { interval = 10; hits = [] };
  entry = no_probes;
  permanent_blocks_created = 0;
  permanent_block_hits = 0;
  user_stream_limit_rejected = 0;
  auth_ok = 0;
  auth_failed = 0;
  policy_rejected = 0;
  dial_failed = 0;
  total_streams = 0;
  active_streams = 0;
}

abbrev moment_at : ℕ → Moment
moment_at t = record {
  start = at t;
  failed = at t;
  recheck = at t;
  logged = at t;
  credential_time = t;
  dial = dialed;
  can_write = true;
}

healthy :
    grants
      (handle_conn small_library
        (moment_at 100)
        "10.0.0.1"
        (received health_request)
        small_server).1
    ≡ true
unfolding handle_conn handle_block handle_received handle_request logged_in login check_login serve
    answer_ok server_version_response block_kind block_kind_read block_kind_locked has_permanent
    check_request_compatibility too_old too_new compare parse parse_part password_from_request
    verify_password find String_discrete trim_space
healthy = refl

handle_conn-Granted_example :
    Granted small_library
      (moment_at 100)
      "10.0.0.1"
      (received health_request)
      small_server
      (handle_conn small_library
        (moment_at 100)
        "10.0.0.1"
        (received health_request)
        small_server).1
handle_conn-Granted_example =
    handle_conn-Granted small_library (moment_at 100) "10.0.0.1" (received health_request)
      small_server healthy

abbrev wrong_password : ℕ → Try
wrong_password t = record {
  moment = moment_at t;
  req = record health_request { password = "x" };
  code = "";
}

known : IsKey "10.0.0.1" empty_tracker
unfolding trim_space has_permanent find String_discrete
known = record { trimmed = refl; nonempty = λ e. cc; not_banned = refl }

abbrev stream_request : OpenRequest
stream_request = record health_request {
  kind = "reverse_stream";
  listen_addr = "a";
  stream_id = "s";
}

-- The worker of the stream does not start.
abbrev no_worker : Registering
no_worker = record {
  can_listen = true;
  loop_starts = true;
  worker_starts = false;
  write_fails = none;
}

abbrev one_pending : ReverseListener
one_pending = record new_listener { pending = ("s", 7) ∷ [] }

abbrev reverse_server : ServerState (Unit {0})
reverse_server = record small_server { configured_reverse = ("127.0.0.1", tt) ∷ [] }

streams_given_back_example :
    let (t, outcome) =
      handle_conn small_library
        (moment_at 100)
        "10.0.0.1"
        (received stream_request)
        reverse_server in
    let serving : Serving (Unit {0}) = record {
      server = t;
      listeners = ("127.0.0.1", one_pending) ∷ [];
      closed_inbound = [];
    } in
    let u = over small_library "ann" (
      register small_library
        (moment_at 100)
        no_worker
        "10.0.0.1"
        1
        stream_request
        outcome
        serving) in
    (active_at "ann" u.user_streams ≡ 0) × (u.active_streams ≡ 0)
unfolding find
streams_given_back_example =
    streams_given_back small_library (moment_at 100) no_worker "10.0.0.1" "ann" 1 stream_request
      reverse_server (("127.0.0.1", one_pending) ∷ []) []

-- The pending connection is taken and, since no worker starts, closed.
inbound_closed :
    (register_reverse_stream small_library no_worker stream_request
      (record { username = "ann"; password_hash = "p"; disabled = false })
      (record {
        server = reverse_server;
        listeners = ("127.0.0.1", one_pending) ∷ [];
        closed_inbound = [];
      })).0.closed_inbound
    ≡ 7 ∷ []
unfolding register_reverse_stream stream_taken start_stream give_up close_if_idle is_configured
    normalize_target authorize_reverse reverse_allowed listens_on configured_reverse_listen_addr
    allowed_user port_in_range take_pending is_idle acquire find put delete String_discrete
    trim_space
inbound_closed = refl
