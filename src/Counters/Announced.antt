-- ===== src/Counters/Announced.antt =====
-- The size that the text of an error announces: the first part of `oversizedHandshakeHTTPMethod` of
-- src/server/tunnel/entry_security.go, with `strings.Index`, `strings.Fields` and `strconv.ParseUint`.
use Prim.Native.Char.{Char, code}
use lsyl_tunnel.Base.{
  ℕ, ◌+◌, ◌-◌, ◌*◌, ◌≤◌, ◌≡◌, refl, ap, ◌∙◌, String, Bool, true, false, ◌&&◌, Option, none, some,
  leb, ◌==◌, if◌then◌else◌, if_false, trim_space, trim_left, trim_right, trim_cons, is_blank,
  is_space, arith,
}

-- What stands behind `prefix` at the start of a text.
unfoldable pub strip_prefix : String → String → Option String
strip_prefix text String.[] = some text
strip_prefix String.[] (String.◌∷◌ m prefix) = none
strip_prefix (String.◌∷◌ c text) (String.◌∷◌ m prefix) =
    let rest = strip_prefix text prefix in if code c == code m then rest else none

abbrev or_later : Option String → Option String → Option String
or_later none later = later
or_later (some rest) later = some rest

-- What stands behind the first occurrence of `marker`: `text[idx+len(marker):]` for `strings.Index`.
unfoldable pub after_first : String → String → Option String
after_first marker String.[] = strip_prefix "" marker
after_first marker (String.◌∷◌ c text) =
    or_later (strip_prefix (String.◌∷◌ c text) marker) (after_first marker text)

unfoldable pub first_word : String → String
first_word String.[] = ""
first_word (String.◌∷◌ c text) =
    let rest = first_word text in if is_blank c then "" else String.◌∷◌ c rest

-- `fields[0]` of `strings.Fields`; "" is no field.
unfoldable pub first_field : String → String
first_field text = first_word (trim_left text)

abbrev pub is_digit : Char → Bool
is_digit c = leb 48 (code c) && leb (code c) 57

unfoldable pub parse_digits : ℕ → String → Option ℕ
parse_digits n String.[] = some n
parse_digits n (String.◌∷◌ c text) =
    let next = n * 10 + (code c - 48) in
    let rest = parse_digits next text in if is_digit c && leb next 4294967295 then rest else none

-- `strconv.ParseUint(text, 10, 32)`; `none` is an error.
unfoldable pub parse_uint32 : String → Option ℕ
parse_uint32 String.[] = none
parse_uint32 (String.◌∷◌ c text) = parse_digits 0 (String.◌∷◌ c text)

abbrev size_of : Option String → Option ℕ
size_of none = none
size_of (some rest) = parse_uint32 (first_field (trim_space rest))

unfoldable pub announced_size : String → Option ℕ
announced_size text = size_of (after_first "handshake too large:" text)

abbrev pub then_text : String → String → String
then_text String.[] t = t
then_text (String.◌∷◌ c s) t = String.◌∷◌ c (then_text s t)

-- The text of the error of `ReadJSON` in src/internal/protocol/protocol.go, with the size in digits.
abbrev pub too_large_text : String → String
too_large_text digits = then_text "handshake too large: " (then_text digits " bytes")

abbrev pub IsDigits : String → Type 0
IsDigits String.[] = Unit
IsDigits (String.◌∷◌ c s) = (is_digit c ≡ true) × IsDigits s

-- The number that digits stand for, after a number `n` to their left.
abbrev pub number_from : ℕ → String → ℕ
number_from n String.[] = n
number_from n (String.◌∷◌ c s) = number_from (n * 10 + (code c - 48)) s

digit_unblank : (c : Char) → is_digit c ≡ true → is_blank c ≡ false
unfolding is_blank is_space
digit_unblank c h = ground (arith, h)

number_from-le : (n : ℕ) (s : String) → n ≤ number_from n s
number_from-le n String.[] = omega arith
number_from-le n (String.◌∷◌ c s) = omega (arith, number_from-le (n * 10 + (code c - 48)) s)

parse_digits_all :
    (n : ℕ) (s : String)
    → IsDigits s
    → number_from n s ≤ 4294967295
    → parse_digits n s ≡ some (number_from n s)
unfolding parse_digits
parse_digits_all n String.[] d h = refl
parse_digits_all n (String.◌∷◌ c s) d h =
    let next = n * 10 + (code c - 48) in
    ground (arith, parse_digits_all next s d.1 h, number_from-le next s, d.0)

trim_right_digits :
    (s : String) → IsDigits s → trim_right (then_text s " bytes") ≡ then_text s " bytes"
unfolding trim_right trim_cons is_blank is_space
trim_right_digits String.[] d = refl
trim_right_digits (String.◌∷◌ c s) d = ap (trim_cons c) (trim_right_digits s d.1) ∙ kept s
  where
    kept : (s : String) → trim_cons c (then_text s " bytes") ≡ String.◌∷◌ c (then_text s " bytes")
    kept String.[] = refl
    kept (String.◌∷◌ d s) = refl

first_word_digits : (s : String) → IsDigits s → first_word (then_text s " bytes") ≡ s
unfolding first_word
first_word_digits String.[] d = unfold is_blank is_space in refl
first_word_digits (String.◌∷◌ c s) d =
    if_false "" (String.◌∷◌ c (first_word (then_text s " bytes"))) (digit_unblank c d.0)
    ∙ ap (String.◌∷◌ c) (first_word_digits s d.1)

trim_left_digits :
    (c : Char) (s : String) → is_digit c ≡ true → trim_left (String.◌∷◌ c s) ≡ String.◌∷◌ c s
unfolding trim_left
trim_left_digits c s d = if_false (trim_left s) (String.◌∷◌ c s) (digit_unblank c d)

behind_marker :
    (s : String)
    → after_first "handshake too large:" (too_large_text s)
      ≡ some (then_text " " (then_text s " bytes"))
unfolding after_first strip_prefix
behind_marker s = refl

-- The size that `ReadJSON` writes is read back.
pub announced_size_written :
    (c : Char) (s : String)
    → let digits = String.◌∷◌ c s in
      IsDigits digits
      → number_from 0 digits ≤ 4294967295
      → announced_size (too_large_text digits) ≡ some (number_from 0 digits)
unfolding announced_size
announced_size_written c s d h =
    let digits = String.◌∷◌ c s in
    ap size_of (behind_marker digits)
    ∙ ap (λ t. parse_uint32 (first_field t)) trimmed
    ∙ ap parse_uint32 field
    ∙ (unfold parse_uint32 in parse_digits_all 0 digits d h)
  where
    unspaced :
        trim_left (then_text " " (then_text (String.◌∷◌ c s) " bytes"))
        ≡ trim_left (then_text (String.◌∷◌ c s) " bytes")
    unspaced = unfold trim_left is_blank is_space in refl

    trimmed :
        trim_space (then_text " " (then_text (String.◌∷◌ c s) " bytes"))
        ≡ then_text (String.◌∷◌ c s) " bytes"
    trimmed =
        unfold trim_space in
        ap trim_right (unspaced ∙ trim_left_digits c (then_text s " bytes") d.0)
        ∙ trim_right_digits (String.◌∷◌ c s) d

    field : first_field (then_text (String.◌∷◌ c s) " bytes") ≡ String.◌∷◌ c s
    field =
        unfold first_field in
        ap first_word (trim_left_digits c (then_text s " bytes") d.0)
        ∙ first_word_digits (String.◌∷◌ c s) d
