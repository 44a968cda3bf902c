-- ===== src/CertificateGate/Admission.antt =====
-- Whom `ServerCertificateGate` of src/internal/transport/certificate_gate.go admits.
use lsyl_tunnel.Base.{
  ℕ, ◌≡◌, refl, sym, ap, ◌∙◌, true, not, none, some, List, [], ◌∷◌, ◌++◌, ltb, if_false, length,
  length-append, drop, arith,
}
use lsyl_tunnel.Counters.Peek.{take}
use lsyl_tunnel.Protocol.Framing.{take-append_exact, drop-append_exact}
use lsyl_tunnel.Server.Passwords.{same_bytes}
use lsyl_tunnel.CertificateGate.{
  challenge_magic, response_magic, challenge_size, response_size, challenge_of, response_header,
  has_header, check_response, server_gate, client_gate,
}

take_first : {A : Type 0} (n : ℕ) (xs ys : List A) → length xs ≡ n → take n (xs ++ ys) ≡ xs
take_first n xs ys h = ap (λ k. take k (xs ++ ys)) (sym h) ∙ take-append_exact xs ys

drop_first : {A : Type 0} (n : ℕ) (xs ys : List A) → length xs ≡ n → drop n (xs ++ ys) ≡ ys
drop_first n xs ys h = ap (λ k. drop k (xs ++ ys)) (sym h) ∙ drop-append_exact xs ys

same_bytes_refl : (xs : List ℕ) → same_bytes xs xs ≡ true
same_bytes_refl [] = refl
same_bytes_refl (x ∷ xs) = ground (arith, same_bytes_refl xs)

challenge_of-size : (nonce : List ℕ) → length nonce ≡ 32 → length (challenge_of nonce) ≡ 41
unfolding challenge_of
challenge_of-size nonce h = omega (arith, h)

response_header-size : (nonce : List ℕ) → length nonce ≡ 32 → length (response_header nonce) ≡ 41
unfolding response_header
response_header-size nonce h = omega (arith, h)

challenge_of-header : (nonce : List ℕ) → has_header challenge_magic (challenge_of nonce) ≡ true
unfolding challenge_of has_header take
challenge_of-header nonce = refl

response_header-header :
    (nonce proof : List ℕ) → has_header response_magic (response_header nonce ++ proof) ≡ true
unfolding response_header has_header take
response_header-header nonce proof = refl

module _ {Key : Type 0} (mac : Key → List ℕ → List ℕ → List ℕ) where
  -- What an honest client sends for a challenge.
  abbrev pub answer_to : Key → List ℕ → List ℕ → List ℕ
  answer_to key challenge nonce = response_header nonce ++ mac key challenge (response_header nonce)

  client_answers :
      (key : Key) (server_nonce nonce later : List ℕ)
      → length server_nonce ≡ 32
      → client_gate mac key (challenge_of server_nonce ++ later) nonce
        ≡ some (answer_to key (challenge_of server_nonce) nonce)
  unfolding client_gate
  client_answers key server_nonce nonce later h =
      let challenge = challenge_of server_nonce in
      let size = challenge_of-size server_nonce h in
      let whole = take_first challenge_size challenge later size in
      if_false {b = ltb (length (challenge ++ later)) challenge_size} _ _
        (ground (arith, length-append challenge later))
      ∙ if_false {b = not (has_header challenge_magic (take challenge_size (challenge ++ later)))} _
          _
          (ap (λ bytes. not (has_header challenge_magic bytes)) whole
            ∙ ap not (challenge_of-header server_nonce))
      ∙ ap (λ bytes. some (answer_to key bytes nonce)) whole

  answer_admitted :
      (key : Key) (challenge nonce : List ℕ)
      → length nonce ≡ 32
      → check_response mac key challenge (answer_to key challenge nonce) ≡ none
  unfolding check_response
  answer_admitted key challenge nonce h =
      let proof = mac key challenge (response_header nonce) in
      let size = response_header-size nonce h in
      let answer = answer_to key challenge nonce in
      let proofs : same_bytes (drop challenge_size answer)
            (mac key challenge (take challenge_size answer))
          ≡ true =
        ap (λ bytes. same_bytes bytes (mac key challenge (take challenge_size answer)))
          (drop_first challenge_size (response_header nonce) proof size)
        ∙ ap (λ bytes. same_bytes proof (mac key challenge bytes))
            (take_first challenge_size (response_header nonce) proof size)
        ∙ same_bytes_refl proof in
      if_false {b = not (has_header response_magic answer)} _ _
        (ap not (response_header-header nonce proof))
      ∙ if_false _ _ (ap not proofs)

  -- A client and a server that hold the same key pass the gate: the client answers the challenge of the
  -- server, and the server admits the client on that answer, whatever follows on either connection. The
  -- nonces of both and every proof have 32 bytes.
  pub gate_passed :
      (key : Key) (server_nonce nonce later rest : List ℕ)
      → length server_nonce ≡ 32
      → length nonce ≡ 32
      → length (mac key (challenge_of server_nonce) (response_header nonce)) ≡ 32
      → let answer = answer_to key (challenge_of server_nonce) nonce in
        (client_gate mac key (challenge_of server_nonce ++ later) nonce ≡ some answer)
        × (server_gate mac key server_nonce (answer ++ rest) ≡ none)
  unfolding server_gate
  gate_passed key server_nonce nonce later rest h k m =
      let challenge = challenge_of server_nonce in
      let answer = answer_to key challenge nonce in
      let size : length answer ≡ response_size =
        length-append (response_header nonce) (mac key challenge (response_header nonce))
        ∙ omega (arith, response_header-size nonce k, m) in
      (
        client_answers key server_nonce nonce later h,
        if_false {b = ltb (length (answer ++ rest)) response_size} _ _
              (ground (arith, length-append answer rest, size))
            ∙ ap (check_response mac key challenge) (take_first response_size answer rest size)
            ∙ answer_admitted key challenge nonce k,
      )
