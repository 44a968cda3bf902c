-- ===== src/Server/Compatibility.antt =====
-- `checkRequestCompatibility` and `serverVersionResponse` of src/server/tunnel/server.go: which clients the
-- server talks to. The answer is the code of the refusal, or `none`; its message is left out.
use lsyl_tunnel.Base.{
  true-false, ◌≡◌, ◌≢◌, ◌⊎◌, ◌↔◌, inl, inr, refl, sym, ap, ◌∙◌, String, Bool, true, false, not,
  ◌&&◌, Option, none, some, if◌then◌else◌, String_discrete, Option-cases, trim_space, arith,
}
use lsyl_tunnel.Config.{
  ℤ, pos, negsuc, GoLibrary, CompatibilityConfig, is_empty, is_blank_text, is_zero,
}
use lsyl_tunnel.Config.Forwards.{eq_int}
use lsyl_tunnel.Config.Version.{
  Ordering, less, same, greater, Version, parse, compare, compare_versions, Before, flip,
  compare_less, compare-flip,
}
use lsyl_tunnel.Protocol.{OpenRequest, OpenResponse}

abbrev pub app_version : String
app_version = "3.1.1"

abbrev pub legacy_client_version : String
legacy_client_version = "1.1.0"

-- `serverVersionResponse`
unfoldable pub server_version_response : OpenResponse → OpenResponse
server_version_response resp =
    if resp.ok && is_blank_text resp.server_version
    then record resp { server_version = app_version }
    else resp

abbrev pub server_protocol : CompatibilityConfig → ℤ
server_protocol cfg = if is_zero cfg.protocol_version then pos 3 else cfg.protocol_version

abbrev pub request_protocol : OpenRequest → ℤ
request_protocol req = if is_zero req.protocol_version then pos 1 else req.protocol_version

abbrev pub client_version_of : OpenRequest → String
client_version_of req =
    let version = trim_space req.client_version in
    if is_empty version then legacy_client_version else version

abbrev below : Option Ordering → Bool
below none = true
below (some less) = true
below (some same) = false
below (some greater) = false

abbrev above : Option Ordering → Bool
above none = true
above (some less) = false
above (some same) = false
above (some greater) = true

abbrev unparsed : Option Version → Bool
unparsed none = true
unparsed (some v) = false

below-some : (o : Ordering) → (below (some o) ≡ false) ↔ (o ≢ less)
below-some less = (λ h. ground arith, λ h. absurd (h refl))
below-some same = (λ h e. ground arith, λ h. refl)
below-some greater = (λ h e. ground arith, λ h. refl)

above-some : (o : Ordering) → (above (some o) ≡ false) ↔ (flip o ≢ less)
above-some less = (λ h e. ground arith, λ h. refl)
above-some same = (λ h e. ground arith, λ h. refl)
above-some greater = (λ h. ground arith, λ h. absurd (h refl))

not_below : (v w : Version) → (below (some (compare_versions v w)) ≡ false) ↔ (Before v w → ⊥)
not_below v w =
    let order = compare_less v w in
    let test = below-some (compare_versions v w) in
    (λ h b. test.0 h (order.1 b), λ h. test.1 (λ e. h (order.0 e)))

not_above : (v w : Version) → (above (some (compare_versions v w)) ≡ false) ↔ (Before w v → ⊥)
not_above v w =
    let order = compare_less w v in
    let test = above-some (compare_versions v w) in
    (
      λ h b. test.0 h (sym (compare-flip v w) ∙ order.1 b),
      λ h. test.1 (λ e. h (order.0 (compare-flip v w ∙ e))),
    )

skipped : (text : String) → text ≡ "" → (t : Bool) → (not (is_empty text) && t) ≡ false
skipped text p t = ground arith

applied : (text : String) → text ≢ "" → (t : Bool) → (not (is_empty text) && t) ≡ t
applied text q t = ground arith

eq_int-lem : (a b : ℤ) → (eq_int a b ≡ true) ↔ (a ≡ b)
eq_int-lem (pos a) (pos b) = (λ h. ap pos (ground arith), λ h. ground arith)
eq_int-lem (negsuc a) (negsuc b) = (λ h. ap negsuc (ground arith), λ h. ground arith)
eq_int-lem (pos a) (negsuc b) = (λ h. absurd (true-false (sym h)), λ h. cc)
eq_int-lem (negsuc a) (pos b) = (λ h. absurd (true-false (sym h)), λ h. cc)

unparsed-false : (o : Option Version) → unparsed o ≡ false → (v : Version) × (o ≡ some v)
unparsed-false none h = absurd (true-false h)
unparsed-false (some v) h = (v, refl)

-- A chain of four tests, each of which refuses.
abbrev chain : Bool → Bool → Bool → Bool → Option String
chain p u a b =
    if not p
    then some "protocol_version_unsupported"
    else if u
    then some "client_version_unsupported"
    else if a
    then some "client_version_unsupported"
    else if b
    then some "client_version_unsupported"
    else none

four_tests :
    (p u a b : Bool) → chain p u a b ≡ none → (p ≡ true) × (u ≡ false) × (a ≡ false) × (b ≡ false)
four_tests p u a b h = (ground arith, ground arith, ground arith, ground arith)

four_passed : {p u a b : Bool} → p ≡ true → u ≡ false → a ≡ false → b ≡ false → chain p u a b ≡ none
four_passed hp hu ha hb = ground arith

module _ (go : GoLibrary) where
  -- The two tests against a bound, which are skipped where it is "".
  unfoldable pub too_old : String → String → Bool
  too_old version minimum = not (is_empty minimum) && below (compare go version minimum)

  unfoldable pub too_new : String → String → Bool
  too_new version maximum = not (is_empty maximum) && above (compare go version maximum)

  -- `checkRequestCompatibility`
  unfoldable pub check_request_compatibility : CompatibilityConfig → OpenRequest → Option String
  check_request_compatibility cfg req =
      let version = client_version_of req in
      if not (eq_int (request_protocol req) (server_protocol cfg))
      then some "protocol_version_unsupported"
      else if unparsed (parse go version)
      then some "client_version_unsupported"
      else if too_old version (trim_space cfg.min_client_version)
      then some "client_version_unsupported"
      else if too_new version (trim_space cfg.max_client_version)
      then some "client_version_unsupported"
      else none

  -- A bound is "", or a version that `P` holds of.
  abbrev pub Bound : String → (Version → Type 0) → Type 0
  Bound text P = (text ≡ "") ⊎ ((v : Version) × (parse go text ≡ some v) × P v)

  compare_unparsed :
      (a b : String) (v : Version) → parse go a ≡ some v → parse go b ≡ none → compare go a b ≡ none
  unfolding compare
  compare_unparsed a b v e f = rw (e, compare, f) refl

  compare_parsed :
      (a b : String) (v w : Version)
      → parse go a ≡ some v
      → parse go b ≡ some w
      → compare go a b ≡ some (compare_versions v w)
  unfolding compare
  compare_parsed a b v w e f = rw (e, compare, f) refl

  -- Both tests against a bound: `refused` is a test of the order that refuses what does not parse.
  bound_test :
      (refused : Option Ordering → Bool) (P : Version → Version → Type 0)
      → refused none ≡ true
      → ((v w : Version) → (refused (some (compare_versions v w)) ≡ false) ↔ P v w)
      → (version text : String) (v : Version) → parse go version ≡ some v
      → ((not (is_empty text) && refused (compare go version text)) ≡ false) ↔ Bound text (P v)
  bound_test refused P n d version text v e = elim (String_discrete text "") [
    | yes p ↦ (λ h. inl p, λ h. skipped text p (refused (compare go version text)))
    | no q ↦
        let applies = applied text q (refused (compare go version text)) in
        (λ h. inr (within (sym applies ∙ h)), λ h. applies ∙ passes q h)
  ]
    where
      within :
          refused (compare go version text) ≡ false
          → (w : Version) × (parse go text ≡ some w) × P v w
      within h = elim (Option-cases (parse go text)) [
        | inl f ↦
            absurd (true-false (sym n ∙ ap refused (sym (compare_unparsed version text v e f)) ∙ h))
        | inr (w, f) ↦
            (w, f, (d v w).0 (ap refused (sym (compare_parsed version text v w e f)) ∙ h))
      ]

      passes : text ≢ "" → Bound text (P v) → refused (compare go version text) ≡ false
      passes q (inl p) = absurd (q p)
      passes q (inr (w, f, t)) = ap refused (compare_parsed version text v w e f) ∙ (d v w).1 t

  -- `checkRequestCompatibility` takes a request exactly where its protocol version, 1 where it gives
  -- none, is the server's, 3 where the configuration gives none; its client version, 1.1.0 where it
  -- gives none, is three numbers; and that version does not lie before the configured minimum nor
  -- after the configured maximum, each of which is blank or three numbers. The order of versions is
  -- that of the three numbers, the first that differs deciding.
  pub check_request_compatibility_lem :
      (cfg : CompatibilityConfig) (req : OpenRequest)
      → (check_request_compatibility cfg req ≡ none) ↔ (
          (request_protocol req ≡ server_protocol cfg)
          × ((v : Version) × (parse go (client_version_of req) ≡ some v)
              × Bound (trim_space cfg.min_client_version) (λ w. Before v w → ⊥)
              × Bound (trim_space cfg.max_client_version) (λ w. Before w v → ⊥)))
  unfolding check_request_compatibility too_old too_new
  check_request_compatibility_lem cfg req = (
    λ h.
        let (p, u, a, b) = four_tests _ _ _ _ h in
        let (v, e) = unparsed-false (parse go (client_version_of req)) u in
        (
          (eq_int-lem (request_protocol req) (server_protocol cfg)).0 p,
          (
            v,
            e,
            (bound_test below (λ v w. Before v w → ⊥) refl not_below _ _ v e).0 a,
            (bound_test above (λ v w. Before w v → ⊥) refl not_above _ _ v e).0 b,
          ),
        ),
    λ (p, (v, e, a, b)).
        four_passed ((eq_int-lem (request_protocol req) (server_protocol cfg)).1 p) (ap unparsed e)
          ((bound_test below (λ v w. Before v w → ⊥) refl not_below _ _ v e).1 a)
          ((bound_test above (λ v w. Before w v → ⊥) refl not_above _ _ v e).1 b),
  )
