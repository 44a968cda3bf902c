-- ===== src/Server/Handle.antt =====
-- `handleConn` of src/server/tunnel/server.go, with `rejectEntryProtocol` of entry_security.go and the mark of
-- `recordRequestLog`: what the server makes of one request. The logs and the event ring are left out.
pub mod Request
pub mod Granted
pub mod Lockout
pub mod Registration
pub mod ReverseStreams
pub mod Streams
use lsyl_tunnel.Base.{
  ℕ, ◌+◌, ◌-◌, String, Bool, true, false, not, ◌&&◌, ◌||◌, Option, none, some, List, if◌then◌else◌,
  String_discrete, Map, find,
}
use lsyl_tunnel.Config.{GoLibrary, Config, UserConfig, is_empty, is_text}
use lsyl_tunnel.Config.Validation.{Names}
use lsyl_tunnel.Counters.{
  EntryCode, EntryCounters, unsupported_request, count_entry_protocol_rejected,
}
use lsyl_tunnel.Credseal.{Crypto}
use lsyl_tunnel.FailTracker.{
  FailTracker, Env, BlockKind, blocked_none, blocked_temporary, blocked_permanent,
}
use lsyl_tunnel.FailTracker.Failures.{add_protocol_failure}
use lsyl_tunnel.FailTracker.Success.{canonical_successful_ip, mark_successful}
use lsyl_tunnel.HitLog.{PermanentBlockHitAggregator, observe}
use lsyl_tunnel.Protocol.{CredentialPublicKey, OpenResponse}
use lsyl_tunnel.Server.Passwords.{PassLibrary, CredentialSealKey, active_credential_public_key}
use lsyl_tunnel.UserStreamLimiter.{UserStreamLimiter, release}

-- Go's library. `parse_ip`, `contains` and `upper` are as in the modules FailTracker and
-- Counters.Classify; `parse_time` and `format_time` are `time.Parse` and `Format` of RFC 3339, and
-- `describe` is the text of `fmt.Sprintf` for a refusal.
pub record Library (Public Private : Type 0) : Type 0 where
  pub go : GoLibrary
  pub pass : PassLibrary
  pub crypto : Crypto Public Private
  pub parse_ip : String → Option String
  pub contains : String → String → Bool
  pub upper : List ℕ → List ℕ
  pub parse_time : String → Option ℕ
  pub format_time : ℕ → String
  pub describe : String → String

-- The state of the server that a request reads and writes.
pub record ServerState (Private : Type 0) : Type 0 where
  pub cfg : Config
  pub users : Map String UserConfig
  pub configured_reverse : Names
  pub credential_keys : Map String (CredentialSealKey Private)
  pub active_key : Option (CredentialSealKey Private)
  pub fails : FailTracker
  pub user_streams : UserStreamLimiter
  pub hits : PermanentBlockHitAggregator
  pub entry : EntryCounters
  pub permanent_blocks_created : ℕ
  pub permanent_block_hits : ℕ
  pub user_stream_limit_rejected : ℕ
  pub auth_ok : ℕ
  pub auth_failed : ℕ
  pub policy_rejected : ℕ
  pub dial_failed : ℕ
  pub total_streams : ℕ
  pub active_streams : ℕ

-- How `DialContext` ends: with a connection, with an error, or because the server shuts down.
pub data Dialed : Type 0 where
  dialed dial_error dial_cancelled : Dialed

-- What the surroundings give to one request: the clock and the files at its accesses of the failure
-- tracker, the time at which credentials are tested, the dial, and whether the answer can be written.
pub record Moment : Type 0 where
  pub start : Env
  pub failed : Env
  pub recheck : Env
  pub logged : Env
  pub credential_time : ℕ
  pub dial : Dialed
  pub can_write : Bool

-- How `handleConn` ends: it closes the connection without or with an answer, runs a stream after its
-- answer, hands the connection to `registerReverseControl` or `registerReverseStream`, or panics.
pub data Outcome : Type 0 where
  dropped : Outcome
  answered connected : OpenResponse → Outcome
  to_reverse_control to_reverse_stream : UserConfig → Outcome
  panics : Outcome

abbrev pub refusal : String → String → OpenResponse
refusal code message = record {
  ok = false;
  code = code;
  message = message;
  server_version = "";
  stream_id = "";
  credential_key = none;
}

abbrev pub acceptance : String → Option CredentialPublicKey → OpenResponse
acceptance message key = record {
  ok = true;
  code = "ok";
  message = message;
  server_version = "";
  stream_id = "";
  credential_key = key;
}

module _ {Public Private : Type 0} (lib : Library Public Private) where
  -- `recordPermanentBlockedHit`
  unfoldable pub record_permanent_blocked_hit : String → ServerState Private → ServerState Private
  record_permanent_blocked_hit ip s =
      if is_empty ip
      then s
      else record s { permanent_block_hits = s.permanent_block_hits + 1; hits = observe ip s.hits }

  -- `rejectEntryProtocol`
  unfoldable pub reject_entry_protocol :
      Env → String → EntryCode → String → Bool → ServerState Private → ServerState Private × Outcome
  reject_entry_protocol env ip code message count_auth_failed s =
      let (fails, created) = add_protocol_failure lib.parse_ip env ip s.fails in
      (
        record s {
          auth_failed = if count_auth_failed then s.auth_failed + 1 else s.auth_failed;
          entry = count_entry_protocol_rejected code s.entry;
          fails = fails;
          permanent_blocks_created =
              if created then s.permanent_blocks_created + 1 else s.permanent_blocks_created;
        },
        if is_empty message then dropped else answered (refusal "bad_request" message),
      )

  unfoldable pub mark_canonical :
      Env → String → Option String → ServerState Private → ServerState Private
  mark_canonical env ip none s = s
  mark_canonical env ip (some key) s = record s {
    fails = (mark_successful lib.parse_ip env ip s.fails).0;
  }

  -- The part of `recordRequestLog` that a request with the results "ok" reaches.
  unfoldable pub record_success : Env → String → ServerState Private → ServerState Private
  unfolding mark_canonical
  record_success env ip s = mark_canonical env ip (canonical_successful_ip lib.parse_ip ip) s

  unfoldable pub credential_key : Moment → ServerState Private → Option CredentialPublicKey
  credential_key m s = active_credential_public_key lib.format_time m.credential_time s.active_key

-- The end of a stream of `handleConn`: the counter and the deferred `releaseUserStream`.
unfoldable pub end_stream : {Private : Type 0} → String → ServerState Private → ServerState Private
end_stream username s = record s {
  active_streams = s.active_streams - 1;
  user_streams = release username s.user_streams;
}
