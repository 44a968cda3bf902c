-- ===== src/Counters/Classify.antt =====
-- `classifyEntryReadError`, `classifyEntryHandshakeError`, `oversizedHandshakeHTTPMethod` and
-- `entryHTTPMethodFromPrefix` of src/server/tunnel/entry_security.go. Texts from the network are
-- lists of bytes. `strings.Contains` is `contains`, and `strings.ToUpper` is `upper`.
use Prim.Native.Char.{Char}
use lsyl_tunnel.Base.{
  ◌≤◌, ℕ, ◌+◌, ◌*◌, ◌/◌, ◌%◌, ◌<◌, ◌≡◌, refl, ap, ap₂, All, ◌∙◌, String, Bool, true, false, not,
  ◌&&◌, ◌||◌, Option, none, some, List, [], ◌∷◌, ltb, ◌==◌, if◌then◌else◌, length, arith,
}
use lsyl_tunnel.Counters.Announced.{
  IsDigits, number_from, announced_size, too_large_text, announced_size_written,
}
use lsyl_tunnel.Counters.{
  EntryCode, http_probe, non_tls_probe, unsupported_tls, slow_handshake, closed_handshake,
  oversized_handshake, invalid_handshake,
}

unfoldable pub has_prefix : List ℕ → List ℕ → Bool
has_prefix text [] = true
has_prefix [] (m ∷ method) = false
has_prefix (t ∷ text) (m ∷ method) =
    let rest = has_prefix text method in if t == m then rest else false

-- "GET ", "POST", "HEAD", "PUT ", "DELE", "OPTI", "CONN", "TRAC", "PATC" and "PROP"
abbrev pub http_methods : List (List ℕ)
http_methods =
    (71 ∷ 69 ∷ 84 ∷ 32 ∷ [])
    ∷ (80 ∷ 79 ∷ 83 ∷ 84 ∷ [])
    ∷ (72 ∷ 69 ∷ 65 ∷ 68 ∷ [])
    ∷ (80 ∷ 85 ∷ 84 ∷ 32 ∷ [])
    ∷ (68 ∷ 69 ∷ 76 ∷ 69 ∷ [])
    ∷ (79 ∷ 80 ∷ 84 ∷ 73 ∷ [])
    ∷ (67 ∷ 79 ∷ 78 ∷ 78 ∷ [])
    ∷ (84 ∷ 82 ∷ 65 ∷ 67 ∷ [])
    ∷ (80 ∷ 65 ∷ 84 ∷ 67 ∷ [])
    ∷ (80 ∷ 82 ∷ 79 ∷ 80 ∷ [])
    ∷ []

unfoldable pub starts_with_any : List (List ℕ) → List ℕ → Bool
starts_with_any [] text = false
starts_with_any (m ∷ methods) text = has_prefix text m || starts_with_any methods text

-- The case of the switch on a token: a method, with nothing after it.
unfoldable pub is_any : List (List ℕ) → List ℕ → Bool
is_any [] text = false
is_any (m ∷ methods) text = (has_prefix text m && has_prefix m text) || is_any methods text

-- `binary.BigEndian.PutUint32`
unfoldable pub put_uint32 : ℕ → List ℕ
put_uint32 v = (v / 16777216) % 256 ∷ (v / 65536) % 256 ∷ (v / 256) % 256 ∷ v % 256 ∷ []

unfoldable pub looks_like_tls : List ℕ → Bool
looks_like_tls [] = false
looks_like_tls (b ∷ bytes) = b == 0x16

module _ (contains : String → String → Bool) (upper : List ℕ → List ℕ) where
  -- `entryHTTPMethodFromPrefix`, as a test whether there is one.
  unfoldable pub has_http_method : List ℕ → Bool
  has_http_method [] = false
  has_http_method (b ∷ bytes) = starts_with_any http_methods (upper (b ∷ bytes))

  -- `oversizedHandshakeHTTPMethod`, as a test whether there is one.
  unfoldable pub oversized_http_method : String → Bool
  oversized_http_method text = elim (announced_size text) [
    | none ↦ false
    | some value ↦ is_any http_methods (upper (put_uint32 value))
  ]

  -- The cases that the two functions share, down to the default.
  unfoldable pub classify_tls_text : String → Option EntryCode
  classify_tls_text text =
      if contains text "client sent an HTTP request to an HTTPS server"
      then some http_probe
      else if contains text "first record does not look like a TLS handshake"
      then some non_tls_probe
      else if contains text "client offered only unsupported versions"
      then some unsupported_tls
      else none

  unfoldable pub classify_io_text : String → Option EntryCode
  classify_io_text text =
      if contains text "i/o timeout"
      then some slow_handshake
      else if contains text "forcibly closed" || contains text "EOF"
      then some closed_handshake
      else none

  abbrev pub or_code : Option EntryCode → EntryCode → EntryCode
  or_code none code = code
  or_code (some code) other = code

  -- `none` is the error nil.
  unfoldable pub classify_entry_read_error : Option String → EntryCode
  classify_entry_read_error none = invalid_handshake
  classify_entry_read_error (some text) = or_code (classify_tls_text text) (
      if contains text "handshake too large:"
      then if oversized_http_method text then http_probe else oversized_handshake
      else or_code (classify_io_text text) invalid_handshake)

  unfoldable pub classify_entry_handshake_error : Option String → List ℕ → EntryCode
  classify_entry_handshake_error error prefix =
      if has_http_method prefix then http_probe else elim error [
        | none ↦ invalid_handshake
        | some text ↦ or_code (classify_tls_text text) (
            or_code (classify_io_text text) (
              if ltb 0 (length prefix) && not (looks_like_tls prefix)
              then non_tls_probe
              else invalid_handshake))
      ]

-- The number that four bytes stand for, the highest first.
abbrev pub be32 : ℕ → ℕ → ℕ → ℕ → ℕ
be32 a b c d = a * 16777216 + b * 65536 + c * 256 + d

put_uint32_bytes :
    (a b c d : ℕ)
    → a < 256
    → b < 256
    → c < 256
    → d < 256
    → put_uint32 (be32 a b c d) ≡ a ∷ b ∷ c ∷ d ∷ []
unfolding put_uint32
put_uint32_bytes a b c d h i j k = cc (first, second, third, fourth)
  where
    first : (be32 a b c d / 16777216) % 256 ≡ a
    first = omega arith

    second : (be32 a b c d / 65536) % 256 ≡ b
    second = omega arith

    third : (be32 a b c d / 256) % 256 ≡ c
    third = omega arith

    fourth : be32 a b c d % 256 ≡ d
    fourth = omega arith

has_prefix-flip :
    (xs ys : List ℕ)
    → length xs ≡ length ys
    → (has_prefix xs ys && has_prefix ys xs) ≡ has_prefix xs ys
unfolding has_prefix
has_prefix-flip [] [] h = refl
has_prefix-flip [] (y ∷ ys) h = refl
has_prefix-flip (x ∷ xs) [] h = ground arith
has_prefix-flip (x ∷ xs) (y ∷ ys) h = ground (arith, has_prefix-flip xs ys)

-- All of `methods` have four bytes.
abbrev OfFour : List (List ℕ) → Type 0
OfFour methods = All (λ m. length m ≡ 4) methods

is_any-four :
    (methods : List (List ℕ)) (text : List ℕ)
    → OfFour methods
    → length text ≡ 4
    → is_any methods text ≡ starts_with_any methods text
unfolding is_any starts_with_any
is_any-four [] text h n = refl
is_any-four (m ∷ methods) text h n =
    ap₂ (λ a b. a || b) (has_prefix-flip text m (omega (arith, n, h.0)))
      (is_any-four methods text h.1 n)

oversized_method_lem :
    (contains : String → String → Bool) (upper : List ℕ → List ℕ) (text : String) (v : ℕ)
    → announced_size text ≡ some v
    → oversized_http_method contains upper text ≡ is_any http_methods (upper (put_uint32 v))
unfolding oversized_http_method
oversized_method_lem contains upper text v s = rw (s, oversized_http_method) refl

be32_bounded : (a b c d : ℕ) → a < 256 → b < 256 → c < 256 → d < 256 → be32 a b c d ≤ 4294967295
be32_bounded a b c d h i j k = omega arith

-- A peer that speaks HTTP is told apart in the same way whether its first four bytes are seen before
-- the TLS handshake or are taken for the length of a handshake: the error of `ReadJSON` that the handshake
-- is too large, with the number that the four bytes stand for in decimal digits (`digit` and `digits`), is
-- classified as an HTTP probe exactly where the bytes start an HTTP method, and else as an oversized
-- handshake. `strings.Contains` finds in the text "handshake too large:" and none of the three texts of the
-- TLS library, and `strings.ToUpper` makes four bytes of the four.
pub oversized_probe :
    (contains : String → String → Bool) (upper : List ℕ → List ℕ) (digit : Char) (digits : String)
    (a b c d : ℕ)
    → a < 256
    → b < 256
    → c < 256
    → d < 256
    → IsDigits (String.◌∷◌ digit digits)
    → number_from 0 (String.◌∷◌ digit digits) ≡ be32 a b c d
    → length (upper (a ∷ b ∷ c ∷ d ∷ [])) ≡ 4
    → classify_tls_text contains upper (too_large_text (String.◌∷◌ digit digits)) ≡ none
    → contains (too_large_text (String.◌∷◌ digit digits)) "handshake too large:" ≡ true
    → classify_entry_read_error contains upper (some (too_large_text (String.◌∷◌ digit digits))) ≡ (
        if has_http_method contains upper (a ∷ b ∷ c ∷ d ∷ [])
        then http_probe
        else oversized_handshake)
unfolding classify_entry_read_error has_http_method
oversized_probe contains upper digit digits a b c d h i j k ds value n t o =
    let text = too_large_text (String.◌∷◌ digit digits) in
    let size : announced_size text ≡ some (be32 a b c d) =
      announced_size_written digit digits ds (omega (arith, value, be32_bounded a b c d h i j k))
      ∙ ap (λ v. some v) value in
    rw (t, o)
      (ap (λ m. if m then http_probe else oversized_handshake)
        (oversized_method_lem contains upper text (be32 a b c d) size
          ∙ ap (λ bytes. is_any http_methods (upper bytes)) (put_uint32_bytes a b c d h i j k)
          ∙ is_any-four http_methods (upper (a ∷ b ∷ c ∷ d ∷ []))
              (refl, (refl, (refl, (refl, (refl, (refl, (refl, (refl, (refl, (refl, tt)))))))))) n))
