-- ===== src/Server/Authorization/Targets.antt =====
-- Which targets `authorizeTarget` of src/server/tunnel/authorization.go lets a user open.
use lsyl_tunnel.Base.{
  true-false, some-none, ◌≡◌, ◌≢◌, ◌⊎◌, ◌↔◌, inl, inr, refl, sym, ap, ◌∙◌, String, Bool, true, not,
  ◌&&◌, Option, none, some, List, [], ◌∷◌, if◌then◌else◌, if_true, if_false, String_discrete,
  Option-cases, Bool-cases, trim_space, arith,
}
use lsyl_tunnel.Config.{
  ℤ, GoLibrary, ForwardConfig, UserConfig, client_to_server, is_empty, is_text,
}
use lsyl_tunnel.Config.Forwards.{split_host_port}
use lsyl_tunnel.Config.Validation.{direction_of, is_forward_target_host}
use lsyl_tunnel.Server.Authorization.{
  target_invalid, allowed_user, normalize_target, check_forward, find_forward,
  allowed_configured_forward, authorize_target,
}

-- `P` holds of an element of the list.
abbrev pub Any {ℓ} : {A : Type ℓ} → (A → Type 0) → List A → Type 0
Any P [] = ⊥
Any P (x ∷ xs) = P x ⊎ Any P xs

-- A user name of the list is `username`, its spaces trimmed.
abbrev pub Allows : List String → String → Type 0
Allows users username = Any (λ user. trim_space user ≡ username) users

pub allowed_user-Allows :
    (users : List String) (username : String)
    → (allowed_user users username ≡ true) ↔ Allows users username
unfolding allowed_user
allowed_user-Allows [] username = (λ h. ground arith, λ h. absurd h)
allowed_user-Allows (user ∷ users) username =
    let rest = allowed_user-Allows users username in
    elim (String_discrete (trim_space user) username) [
      | yes p ↦ (λ h. inl p, λ h. ground arith)
      | no n ↦ (
        λ h. inr (rest.0 (ground arith)),
        λ h. elim h [ inl p ↦ absurd (n p) | inr a ↦ ground (arith, rest.1 a) ],
      )
    ]

same_host :
    (host other : String) (port p : ℤ)
    → ◌≡◌ {A = Option (String × ℤ)} (some (host, port)) (some (other, p))
    → host ≡ other
same_host host other port p h = ground arith

module _ (go : GoLibrary) where
  -- The forward leads from the clients to `target`, and `username` is among its users.
  abbrev pub Serves : String → String → ForwardConfig → Type 0
  Serves username target fwd =
      (direction_of fwd ≡ client_to_server)
      × Allows fwd.allowed_users username
      × (trim_space fwd.server_target ≢ "")
      × (normalize_target go (trim_space fwd.server_target) ≡ target)

  serves : String → String → ForwardConfig → Bool
  serves username target fwd =
      is_text (direction_of fwd) client_to_server
      && allowed_user fwd.allowed_users username
      && not (is_empty (trim_space fwd.server_target))
      && is_text (normalize_target go (trim_space fwd.server_target)) target

  serves-Serves :
      (username target : String) (fwd : ForwardConfig)
      → (serves username target fwd ≡ true) ↔ Serves username target fwd
  unfolding serves
  serves-Serves username target fwd =
      let allows = allowed_user-Allows fwd.allowed_users username in
      (
        λ h. (ground arith, allows.0 (ground arith), λ e. ground arith, ground arith),
        λ (d, a, n, t). ground (arith, allows.1 a),
      )

  find_forward-serves :
      (username target : String) (fwd : ForwardConfig) (fwds : List ForwardConfig)
      → find_forward go username target (fwd ∷ fwds)
        ≡ (if serves username target fwd then some fwd else find_forward go username target fwds)
  unfolding find_forward serves
  find_forward-serves username target fwd fwds = ground arith

  find_forward-Any :
      (username target : String) (fwds : List ForwardConfig)
      → (find_forward go username target fwds ≢ none) ↔ Any (Serves username target) fwds
  unfolding find_forward
  find_forward-Any username target [] = (λ h. absurd (h refl), λ h. absurd h)
  find_forward-Any username target (fwd ∷ fwds) =
      let rest = find_forward-Any username target fwds in
      let one = serves-Serves username target fwd in
      let same = find_forward-serves username target fwd fwds in
      elim (Bool-cases (serves username target fwd)) [
        | inl e ↦ (λ h. inl (one.0 e), λ a h. some-none fwd (sym (same ∙ if_true _ _ e) ∙ h))
        | inr e ↦ (
          λ h. inr (rest.0 (λ n. h (same ∙ if_false _ _ e ∙ n))),
          λ a. elim a [
            | inl s ↦ λ n. true-false (sym (one.1 s) ∙ e)
            | inr a ↦ λ n. rest.1 a (sym (same ∙ if_false _ _ e) ∙ n)
          ],
        )
      ]

  allowed_configured_forward-Any :
      (fwds : List ForwardConfig) (name target : String)
      → (allowed_configured_forward go fwds name target ≢ none) ↔ (
          (trim_space name ≢ "") × Any (Serves (trim_space name) (normalize_target go target)) fwds)
  unfolding allowed_configured_forward
  allowed_configured_forward-Any fwds name target =
      let found = find_forward-Any (trim_space name) (normalize_target go target) fwds in
      elim (String_discrete (trim_space name) "") [
        | yes p ↦ (λ h. absurd (h (ground arith)), λ h. absurd (h.0 p))
        | no n ↦ (λ h. (n, found.0 (λ e. h (ground arith))), λ h e. found.1 h.1 (ground arith))
      ]

  check_forward-none :
      (host : String) (fwd : Option ForwardConfig)
      → (check_forward go host fwd ≡ none)
        ↔ ((is_forward_target_host go host ≡ true) × (fwd ≢ none))
  unfolding check_forward
  check_forward-none host none = (λ h. absurd (some-none _ h), λ h. absurd (h.1 refl))
  check_forward-none host (some fwd) = (λ h. (ground arith, some-none fwd), λ h. if_true _ _ h.0)

  authorize_target_invalid :
      (fwds : List ForwardConfig) (user : UserConfig) (target : String)
      → split_host_port go target ≡ none
      → authorize_target go fwds user target ≡ some target_invalid
  unfolding authorize_target
  authorize_target_invalid fwds user target e = rw (e, authorize_target) refl

  authorize_target_valid :
      (fwds : List ForwardConfig) (user : UserConfig) (target host : String) (port : ℤ)
      → split_host_port go target ≡ some (host, port)
      → authorize_target go fwds user target
        ≡ check_forward go host (allowed_configured_forward go fwds user.username target)
  unfolding authorize_target
  authorize_target_valid fwds user target host port e = rw (e, authorize_target) refl

  authorize_target_cases :
      (fwds : List ForwardConfig) (user : UserConfig) (target : String)
      → (authorize_target go fwds user target ≡ none) ↔ (
          (host : String) × (port : ℤ) × (split_host_port go target ≡ some (host, port))
          × (is_forward_target_host go host ≡ true)
          × (allowed_configured_forward go fwds user.username target ≢ none))
  authorize_target_cases fwds user target = elim (Option-cases (split_host_port go target)) [
    | inl e ↦ (
      λ h. absurd (some-none _ (sym (authorize_target_invalid fwds user target e) ∙ h)),
      λ h. absurd (some-none (h.0, h.1) (sym h.2 ∙ e)),
    )
    | inr ((host, port), e) ↦
        let same = authorize_target_valid fwds user target host port e in
        let check =
          check_forward-none host (allowed_configured_forward go fwds user.username target) in
        (
          λ h. let (t, a) = check.0 (sym same ∙ h) in (host, port, e, t, a),
          λ h.
              same
              ∙ check.1 (
                ap (is_forward_target_host go) (same_host host h.0 port h.1 (sym e ∙ h.2)) ∙ h.3,
                h.4,
              ),
        )
  ]

  -- `authorizeTarget` lets a user open a target exactly where the target is a host with a port, the
  -- host is 127.0.0.1 or a private address, the user's name is not blank, and some forward of the
  -- configuration leads from the clients to that target, up to its normal form, and lists the user.
  pub authorize_target_lem :
      (fwds : List ForwardConfig) (user : UserConfig) (target : String)
      → (authorize_target go fwds user target ≡ none) ↔ (
          (host : String) × (port : ℤ) × (split_host_port go target ≡ some (host, port))
          × (is_forward_target_host go host ≡ true)
          × (trim_space user.username ≢ "")
          × Any (Serves (trim_space user.username) (normalize_target go target)) fwds)
  authorize_target_lem fwds user target =
      let cases = authorize_target_cases fwds user target in
      let allowed = allowed_configured_forward-Any fwds user.username target in
      (
        λ h.
            let (host, port, s, t, a) = cases.0 h in
            (host, port, s, t, (allowed.0 a).0, (allowed.0 a).1),
        λ (host, port, s, t, n, a). cases.1 (host, port, s, t, allowed.1 (n, a)),
      )
