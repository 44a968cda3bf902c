-- ===== src/Protocol.antt =====
-- src/internal/protocol/protocol.go: the messages of the tunnel, and how they are framed on the wire.
-- A connection that is read is the list of its bytes. `encoding/json` is the interface `Json`.
pub mod Framing
use lsyl_tunnel.Base.{
  ℕ, zero, suc, ◌+◌, ◌-◌, ◌*◌, ◌≤◌, ◌<◌, String, Bool, true, false, Option, none, some, List, [],
  ◌∷◌, ◌++◌, ltb, leb, ◌==◌, if◌then◌else◌, length, drop,
}
use lsyl_tunnel.Config.{ℤ, pos, negsuc}
use lsyl_tunnel.Counters.Classify.{put_uint32, be32}
use lsyl_tunnel.Counters.Peek.{take}

pub record SealedCredential : Type 0 where
  pub kind : String
  pub key_id : String
  pub expires_at : String
  pub ciphertext : String

pub record CredentialPublicKey : Type 0 where
  pub kind : String
  pub key_id : String
  pub expires_at : String
  pub public_key_pem : String

pub record OpenRequest : Type 0 where
  pub kind : String
  pub username : String
  pub password : String
  pub credential : Option SealedCredential
  pub client_id : String
  pub client_version : String
  pub protocol_version : ℤ
  pub forward_name : String
  pub direction : String
  pub listen_addr : String
  pub stream_id : String
  pub target : String

pub record OpenResponse : Type 0 where
  pub ok : Bool
  pub code : String
  pub message : String
  pub server_version : String
  pub stream_id : String
  pub credential_key : Option CredentialPublicKey

-- `json.Marshal` and `json.Unmarshal` for one type of message.
pub record Json (A : Type 0) : Type 0 where
  pub marshal : A → Option (List ℕ)
  pub unmarshal : List ℕ → Option A

abbrev pub default_max_handshake_bytes : ℕ
default_max_handshake_bytes = 32 * 1024

pub data WireError : Type 0 where
  bad_value unexpected_eof empty_handshake : WireError
  handshake_too_large : ℕ → WireError

pub data Result (A : Type 0) : Type 0 where
  done : A → Result A
  failed : WireError → Result A

-- The bytes that `WriteJSON` writes for a marshalled value.
unfoldable pub frame : List ℕ → Result (List ℕ)
frame bytes =
    if ltb default_max_handshake_bytes (length bytes)
    then failed (handshake_too_large (length bytes))
    else done (put_uint32 (length bytes) ++ bytes)

frame_marshalled : Option (List ℕ) → Result (List ℕ)
unfolding frame
frame_marshalled none = failed bad_value
frame_marshalled (some bytes) = frame bytes

-- `WriteJSON`, where the connection takes what is written.
unfoldable pub write_json : {A : Type 0} → Json A → A → Result (List ℕ)
unfolding frame_marshalled
write_json json v = frame_marshalled (json.marshal v)

-- `maxBytes`, 0 where it is not positive.
unfoldable pub effective_max : ℕ → ℕ
effective_max max_bytes = if max_bytes == 0 then default_max_handshake_bytes else max_bytes

abbrev pub parsed : {A : Type 0} → Option A → List ℕ → Result (A × List ℕ)
parsed none rest = failed bad_value
parsed (some v) rest = done (v, rest)

-- The rest of `ReadJSON` once the header `n` is read, on the bytes that follow it.
unfoldable pub read_body : {A : Type 0} → Json A → ℕ → ℕ → List ℕ → Result (A × List ℕ)
read_body json max_bytes n bytes =
    if n == 0
    then failed empty_handshake
    else if ltb (effective_max max_bytes) n
    then failed (handshake_too_large n)
    else if ltb (length bytes) n
    then failed unexpected_eof
    else parsed (json.unmarshal (take n bytes)) (drop n bytes)

-- `ReadJSON`, with the bytes that it leaves on the connection.
unfoldable pub read_json : {A : Type 0} → Json A → ℕ → List ℕ → Result (A × List ℕ)
read_json json max_bytes (a ∷ b ∷ c ∷ d ∷ bytes) = read_body json max_bytes (be32 a b c d) bytes
read_json json max_bytes _ = failed unexpected_eof
