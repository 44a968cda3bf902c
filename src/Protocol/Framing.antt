-- ===== src/Protocol/Framing.antt =====
-- What `ReadJSON` of src/internal/protocol/protocol.go makes of what `WriteJSON` wrote.
use mathlib.Core.List.{append_assoc}
use lsyl_tunnel.Base.{
  ℕ, suc, ◌+◌, ◌/◌, ◌%◌, ◌≤◌, ◌<◌, ◌≡◌, refl, sym, ap, ◌∙◌, some, List, [], ◌∷◌, ◌++◌, ltb, ◌==◌,
  if_false, length, drop, arith, length-append,
}
use lsyl_tunnel.Counters.Classify.{put_uint32, be32}
use lsyl_tunnel.Counters.Peek.{take}
use lsyl_tunnel.Protocol.{
  Json, unexpected_eof, done, failed, default_max_handshake_bytes, frame, write_json, effective_max,
  parsed, read_body, read_json,
}

pub take-append_exact : {A : Type 0} (xs ys : List A) → take (length xs) (xs ++ ys) ≡ xs
unfolding take
take-append_exact [] ys = refl
take-append_exact (x ∷ xs) ys = ap (λ r. x ∷ r) (take-append_exact xs ys)

pub drop-append_exact : {A : Type 0} (xs ys : List A) → drop (length xs) (xs ++ ys) ≡ ys
drop-append_exact [] ys = refl
drop-append_exact (x ∷ xs) ys = drop-append_exact xs ys

be32-put_uint32 :
    (n : ℕ)
    → n < 2147483648
    → be32 ((n / 16777216) % 256) ((n / 65536) % 256) ((n / 256) % 256) (n % 256) ≡ n
be32-put_uint32 n h = omega arith

read-header :
    {A : Type 0} (json : Json A) (max_bytes n : ℕ) (bytes : List ℕ)
    → n < 2147483648
    → read_json json max_bytes (put_uint32 n ++ bytes) ≡ read_body json max_bytes n bytes
unfolding read_json put_uint32
read-header json max_bytes n bytes h =
    ap (λ k. read_body json max_bytes k bytes) (be32-put_uint32 n h)

read-body-whole :
    {A : Type 0} (json : Json A) (max_bytes : ℕ) (bytes rest : List ℕ)
    → 0 < length bytes
    → length bytes ≤ effective_max max_bytes
    → read_body json max_bytes (length bytes) (bytes ++ rest) ≡ parsed (json.unmarshal bytes) rest
unfolding read_body
read-body-whole json max_bytes bytes rest h l =
    if_false {b = length bytes == 0} _ _ (ground arith)
    ∙ if_false {b = ltb (effective_max max_bytes) (length bytes)} _ _ (ground arith)
    ∙ if_false {b = ltb (length (bytes ++ rest)) (length bytes)} _ _
        (ground (arith, length-append bytes rest))
    ∙ ap (λ bs. parsed (json.unmarshal bs) (drop (length bytes) (bytes ++ rest)))
        (take-append_exact bytes rest)
    ∙ ap (λ bs. parsed (json.unmarshal bytes) bs) (drop-append_exact bytes rest)

-- What was written is within the bound of `WriteJSON`, and has the header of its length.
write_json-facts :
    {A : Type 0} (json : Json A) (v : A) (bytes sent : List ℕ)
    → json.marshal v ≡ some bytes
    → write_json json v ≡ done sent
    → (length bytes ≤ default_max_handshake_bytes) × (sent ≡ put_uint32 (length bytes) ++ bytes)
unfolding write_json frame
write_json-facts json v bytes sent m w = ground arith

-- A message that `WriteJSON` wrote is what `ReadJSON` reads, and the bytes that follow it stay on the
-- connection for the next message. The codec reads back what it writes, writes at least one byte,
-- and the reader's bound is no lower than the size of the message.
pub read_json-write_json :
    {A : Type 0} (json : Json A) (v : A) (bytes sent rest : List ℕ) (max_bytes : ℕ)
    → json.marshal v ≡ some bytes
    → json.unmarshal bytes ≡ some v
    → 0 < length bytes
    → length bytes ≤ effective_max max_bytes
    → write_json json v ≡ done sent
    → read_json json max_bytes (sent ++ rest) ≡ done (v, rest)
read_json-write_json json v bytes sent rest max_bytes m u h l w =
    let (bounded, framed) = write_json-facts json v bytes sent m w in
    ap (λ s. read_json json max_bytes (s ++ rest)) framed
    ∙ ap (read_json json max_bytes) (append_assoc (put_uint32 (length bytes)) bytes rest)
    ∙ read-header json max_bytes (length bytes) (bytes ++ rest) (omega arith)
    ∙ read-body-whole json max_bytes bytes rest h l
    ∙ ap (λ r. parsed r rest) u

-- The header, where four bytes are there, of a message that was cut later.
cut_header :
    (n : ℕ) (bytes front back : List ℕ) (x a b c d : ℕ)
    → put_uint32 n ++ bytes ≡ (a ∷ b ∷ c ∷ d ∷ front) ++ (x ∷ back)
    → ((n / 16777216) % 256 ≡ a)
      × ((n / 65536) % 256 ≡ b)
      × ((n / 256) % 256 ≡ c)
      × (n % 256 ≡ d)
      × (bytes ≡ front ++ (x ∷ back))
unfolding put_uint32
cut_header n bytes front back x a b c d e = (cc, cc, cc, cc, cc)

read_cut :
    {A : Type 0} (json : Json A) (bytes front back : List ℕ) (x max_bytes : ℕ)
    → 0 < length bytes
    → length bytes ≤ effective_max max_bytes
    → length bytes < 2147483648
    → put_uint32 (length bytes) ++ bytes ≡ front ++ (x ∷ back)
    → read_json json max_bytes front ≡ failed unexpected_eof
unfolding read_json read_body
read_cut json bytes [] back x max_bytes h l s e = refl
read_cut json bytes (a ∷ []) back x max_bytes h l s e = refl
read_cut json bytes (a ∷ b ∷ []) back x max_bytes h l s e = refl
read_cut json bytes (a ∷ b ∷ c ∷ []) back x max_bytes h l s e = refl
read_cut json bytes (a ∷ b ∷ c ∷ d ∷ front) back x max_bytes h l s e =
    let (p, q, r, t, tail) = cut_header (length bytes) bytes front back x a b c d e in
    let whole : be32 a b c d ≡ length bytes =
      omega (arith, be32-put_uint32 (length bytes) s, p, q, r, t) in
    let size : length bytes ≡ length front + suc (length back) =
      ap (λ (bs : List ℕ). length bs) tail ∙ length-append front (x ∷ back) in
    ground (arith, whole, size)

-- A cut connection: no proper prefix of a message that `WriteJSON` wrote is read as a message. Whether
-- it ends within the header or within the body, `ReadJSON` answers that the input has ended, provided
-- that the message has at least one byte of JSON and that the reader's limit is not below its size.
pub read_json_truncated :
    {A : Type 0} (json : Json A) (v : A) (bytes sent front back : List ℕ) (x max_bytes : ℕ)
    → json.marshal v ≡ some bytes
    → 0 < length bytes
    → length bytes ≤ effective_max max_bytes
    → write_json json v ≡ done sent
    → sent ≡ front ++ (x ∷ back)
    → read_json json max_bytes front ≡ failed unexpected_eof
read_json_truncated json v bytes sent front back x max_bytes m h l w e =
    let (bounded, framed) = write_json-facts json v bytes sent m w in
    read_cut json bytes front back x max_bytes h l (omega arith) (sym framed ∙ e)
