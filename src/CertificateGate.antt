-- ===== src/CertificateGate.antt =====
-- src/internal/transport/certificate_gate.go: before TLS starts, a client shows that it has the server's
-- certificate. `mac` is HMAC with SHA-256 over the three texts that `certificateGateProof` writes, which
-- gives 32 bytes. What is sent and received are lists of bytes.
pub mod Admission
use lsyl_tunnel.Base.{
  ℕ, ◌+◌, Bool, true, false, not, ◌&&◌, Option, none, some, List, [], ◌∷◌, ◌++◌, ltb, ◌==◌,
  if◌then◌else◌, length, drop,
}
use lsyl_tunnel.Counters.Peek.{take}
use lsyl_tunnel.Server.Passwords.{same_bytes}

abbrev pub gate_version : ℕ
gate_version = 1

abbrev pub nonce_size : ℕ
nonce_size = 32

-- "LSYLGATE" and "LSYLPROF"
abbrev pub challenge_magic : List ℕ
challenge_magic = 76 ∷ 83 ∷ 89 ∷ 76 ∷ 71 ∷ 65 ∷ 84 ∷ 69 ∷ []

abbrev pub response_magic : List ℕ
response_magic = 76 ∷ 83 ∷ 89 ∷ 76 ∷ 80 ∷ 82 ∷ 79 ∷ 70 ∷ []

-- The size of a challenge, of the part of a response before its proof, and of a response.
abbrev pub challenge_size : ℕ
challenge_size = 8 + 1 + nonce_size

abbrev pub response_size : ℕ
response_size = 8 + 1 + nonce_size + 32

pub data GateError : Type 0 where
  gate_short gate_protocol gate_proof : GateError

unfoldable pub challenge_of : List ℕ → List ℕ
challenge_of nonce = challenge_magic ++ gate_version ∷ nonce

unfoldable pub response_header : List ℕ → List ℕ
response_header nonce = response_magic ++ gate_version ∷ nonce

-- `bytes.Equal(data[:8], magic)` and `data[8] == certificateGateVersion`
unfoldable pub has_header : List ℕ → List ℕ → Bool
has_header magic bytes = same_bytes (take 9 bytes) (magic ++ gate_version ∷ [])

module _ {Key : Type 0} (mac : Key → List ℕ → List ℕ → List ℕ) where
  -- `ServerCertificateGate` on the nonce that it drew and the bytes that it receives; `none` is the
  -- admission of the client, with the bytes that are left on the connection.
  unfoldable pub check_response : Key → List ℕ → List ℕ → Option GateError
  check_response key challenge response =
      if not (has_header response_magic response)
      then some gate_protocol
      else if not (
          same_bytes (drop challenge_size response)
            (mac key challenge (take challenge_size response)))
      then some gate_proof
      else none

  unfoldable pub server_gate : Key → List ℕ → List ℕ → Option GateError
  server_gate key nonce received =
      if ltb (length received) response_size
      then some gate_short
      else check_response key (challenge_of nonce) (take response_size received)

  -- `ClientCertificateGate`, on the challenge that it reads and the nonce that it draws: what it sends,
  -- or `none` where it gives up.
  unfoldable pub client_gate : Key → List ℕ → List ℕ → Option (List ℕ)
  client_gate key received nonce =
      let challenge = take challenge_size received in
      if ltb (length received) challenge_size
      then none
      else if not (has_header challenge_magic challenge)
      then none
      else some (response_header nonce ++ mac key challenge (response_header nonce))
