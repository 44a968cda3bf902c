-- ===== src/Lib.antt =====
-- A model of LSYL Tunnel, a TLS tunnel whose server admits connections of many clients,
-- counts their failures, blocks addresses and logs what it turns away. All paths are from
-- the root of the repository.
--
-- Which file models what. `ConnectionLimiter` is src/server/tunnel/connection_limiter.go,
-- with the release closures of `acquire` as leases in ConnectionLimiter/Leases.
-- `UserStreamLimiter` is user_stream_limiter.go, `EventRing` is runtime_event_ring.go,
-- `EntryTrafficWriter` is entry_traffic_writer.go and `HitLog` is the aggregator of
-- permanent_block_hit_logs.go, all of that directory. `FailTracker` is fail_tracker.go: the
-- records, the map of failures, its cleanup and eviction; FailTracker/Failures has the
-- operations that count failures and answer for blocks, FailTracker/Success those of
-- successful_ip_history.go, FailTracker/Persistence those of fail_persistence.go and
-- FailTracker/PermanentFile those of permanent_blocks.go. `Counters` has the counters of
-- maintenance.go and entry_security.go, Counters/Classify and Counters/Announced the
-- classification of probes of the latter, and Counters/Peek its entryPeekConn.
-- FailTracker/Views has what the server shows of the tracker. `Config` is config.go with
-- config_addresses.go: the records and `ApplyDefaults`; Config/Forwards has the ports of
-- reverse forwards, Config/Validation `ValidateConfig` and src/internal/netaddr, and
-- Config/Version is src/internal/version/version.go. `Protocol` is
-- src/internal/protocol/protocol.go and `Credseal` is src/internal/credseal/credseal.go.
-- `Server` has what a request passes through: Server/Handle and Server/Handle/Request are
-- `handleConn` of server.go, Server/Authorization is authorization.go with the configured
-- reverse listeners of configured_forwards.go, Server/Compatibility is
-- `checkRequestCompatibility`, Server/Passwords is src/internal/passutil/passutil.go with
-- `passwordFromRequest` of credential_seal.go, Server/KeyRotation the rotation of the keys
-- there, and Server/Lifecycle is lifecycle.go with the accept loop, and
-- Server/ReverseListener is the listener of reverse.go; Server/Handle/Registration has its
-- `registerReverseControl` and `registerReverseStream`, with the map of listeners, as
-- `handleConn` calls them. `CertificateGate` is src/internal/transport/certificate_gate.go.
-- `Base` has what the parts share, and `Scenarios` runs them on small inputs. The other
-- files below a part hold the proofs about it.
--
-- How the parts interact. `handleConn` asks the failure tracker for a block and the
-- connection limiter for a lease; a refusal goes to the counters and the log writer, a hit
-- of a banned address to the hit log. A login that fails is `add_failure`, a peer that does
-- not speak the protocol is `add_protocol_failure`, and a login that succeeds is
-- `mark_successful`. The limits of all of them are those of `SecurityConfig`, as
-- `ApplyDefaults` leaves them. `Server.Handle` runs the tracker, the stream limiter, the
-- hit log and the counters in the order of `handleConn`, and `Server.Lifecycle` runs the
-- connection limiter with its leases below the accept loop and `Close`. Where `handleConn`
-- hands a connection over, its outcome says so, and `register` of
-- Server/Handle/Registration goes on.
--
-- How it is modelled. An operation that changes an object is a function from its record to
-- a new one, and returns its result beside it. An operation that holds the object's mutex
-- from its start to its end is one step, and a run is a list of steps in any order.
-- `entryConn.Close` and `handleReverseInbound` take a lock more than once: each part is a
-- step of its own. `blockKind`, `unblockPermanent` and a whole request do too: their parts
-- are functions of their own, and are run with nothing in between. A Go map is an
-- association list: its order is that of a `range` loop, and the theorems hold for every
-- order. Times are numbers of nanoseconds since Go's zero time, so that `IsZero` is a test
-- for 0; `t.After(now.Add(-w))` is `now < t + w`. The limiters and the tracker take a limit
-- that is 0 or negative as 0; in the configuration the sign is kept. Counters have no
-- bound, and nil receivers are left out. `net.ParseIP` and the other functions of Go's
-- library that are no plain list or number functions are parameters. Whether a file can be
-- written is part of `Env`. Every loop is over a list but one: the search for a free
-- identifier in Server/KeyRotation has one step more of fuel than there are keys, which is
-- enough when the identifiers it tries differ.
--
-- What a request finds in its surroundings, the clock, the dial and the write of its
-- answer, is the record `Moment`. RSA, AES, HMAC, JSON and the hashes of passwords are
-- records of functions, and what the theorems ask of them is the record `Laws` of
-- Credseal/RoundTrip.
--
-- Not modelled: TLS, sockets, YAML, the relaying of streams, the messages of the controls
-- of reverse listeners, the files of credential keys, the start of the tracker from the
-- file of banned addresses, the client, the windows and the services.
pub mod Base
pub mod CertificateGate
pub mod Config
pub mod ConnectionLimiter
pub mod Counters
pub mod Credseal
pub mod EntryTrafficWriter
pub mod EventRing
pub mod FailTracker
pub mod HitLog
pub mod Protocol
pub mod Scenarios
pub mod Server
pub mod UserStreamLimiter
