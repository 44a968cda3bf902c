-- ===== src/Server/Authorization/Reverse.antt =====
-- Who may activate a reverse listener: `authorizeReverse` of src/server/tunnel/authorization.go, under a
-- configuration that `ValidateConfig` takes.
use lsyl_tunnel.Base.{
  ℕ, ◌==◌, ◌≡◌, ◌⊎◌, inl, inr, refl, sym, subst, ap, ◌∙◌, String, Bool, true, false, not, ◌&&◌,
  none, List, [], ◌∷◌, All, if◌then◌else◌, if_true, if_false, String_discrete, length, find,
  find-put, Bool-cases, trim_space, arith,
}
use lsyl_tunnel.Config.{
  ℤ, GoLibrary, ForwardConfig, UserConfig, Config, client_to_server, server_to_client, is_empty,
  is_text,
}
use lsyl_tunnel.Config.Accepted.{valid_accounts}
use lsyl_tunnel.Config.Accepted.Accounts.{orelse_none, fails-none, allowed_step}
use lsyl_tunnel.Config.Accepted.Ports.{forwards_step}
use lsyl_tunnel.Config.Validation.{
  Names, known, with_name, fails, no_allowed_users, check_users, check_allowed, check_forward_users,
  check_direction, check_forwards, is_reverse, validate_config,
}
use lsyl_tunnel.Server.Authorization.{
  allowed_user, normalize_target, listens_on, reverse_allowed, authorize_reverse,
}

abbrev OneUser : ForwardConfig → Type 0
OneUser fwd =
    is_reverse fwd ≡ true
    → (a b : String) → allowed_user fwd.allowed_users a ≡ true
    → allowed_user fwd.allowed_users b ≡ true
    → a ≡ b

-- The direction as `ValidateConfig` and as `authorizeReverse` read it.
reverse_direction :
    (direction : String)
    → direction ≡ server_to_client
    → is_text (if is_empty direction then client_to_server else direction) server_to_client ≡ true
unfolding String_discrete
reverse_direction direction h =
    subst (λ d. is_text (if is_empty d then client_to_server else d) server_to_client ≡ true)
      (sym h) refl

-- The names that are found at the end of the loop over a forward's users.
check_allowed-allowed :
    (users : Names) (names : List String) (allowed : Names) (a : String)
    → (check_allowed users names allowed).0 ≡ none
    → (allowed_user names a ≡ true) ⊎ (known a allowed ≡ true)
    → known a (check_allowed users names allowed).1 ≡ true
unfolding allowed_user check_allowed
check_allowed-allowed users [] allowed a h k = elim k [ inl e ↦ ground arith | inr e ↦ e ]
check_allowed-allowed users (name ∷ names) allowed a h k =
    let same = (allowed_step users name names allowed h).1 in
    ap (λ r. known a r.1) same
    ∙ check_allowed-allowed users names (with_name (trim_space name) allowed) a
        (sym (ap (λ r. r.0) same) ∙ h) (place (String_discrete (trim_space name) a) k)
  where
    place :
        Dec (trim_space name ≡ a)
        → (allowed_user (name ∷ names) a ≡ true) ⊎ (known a allowed ≡ true)
        → (allowed_user names a ≡ true) ⊎ (known a (with_name (trim_space name) allowed) ≡ true)
    place (yes p) k = inr (ground (arith, find-put String_discrete (trim_space name) a tt allowed))
    place (no n) (inl e) = inl (ground arith)
    place (no n) (inr e) =
        inr (ground (arith, find-put String_discrete (trim_space name) a tt allowed))

single_name :
    (names : Names) (a b : String)
    → length names ≡ 1
    → known a names ≡ true
    → known b names ≡ true
    → a ≡ b
unfolding find
single_name [] a b l p q = ground arith
single_name ((k, v) ∷ []) a b l p q = ground arith
single_name (x ∷ y ∷ names) a b l p q = ground arith

exactly_one : (t : Bool) (n : ℕ) → t ≡ true → (t && not (n == 1)) ≡ false → n ≡ 1
exactly_one t n h k = ground arith

module _ (go : GoLibrary) where
  listens_on-is_reverse :
      (addr : String) (fwd : ForwardConfig) → listens_on go addr fwd ≡ true → is_reverse fwd ≡ true
  unfolding listens_on
  listens_on-is_reverse addr fwd h = reverse_direction (trim_space fwd.direction) (ground arith)

  reverse_allowed_one :
      (a b addr : String) (fwds : List ForwardConfig)
      → All OneUser fwds
      → reverse_allowed go a addr fwds ≡ true
      → reverse_allowed go b addr fwds ≡ true
      → a ≡ b
  unfolding reverse_allowed
  reverse_allowed_one a b addr [] u p q = ground arith
  reverse_allowed_one a b addr (fwd ∷ fwds) u p q = elim (Bool-cases (listens_on go addr fwd)) [
    | inl e ↦
        u.0 (listens_on-is_reverse addr fwd e) a b (sym (if_true _ _ e) ∙ p)
          (sym (if_true _ _ e) ∙ q)
    | inr e ↦
        reverse_allowed_one a b addr fwds u.1 (sym (if_false _ _ e) ∙ p) (sym (if_false _ _ e) ∙ q)
  ]

  users-OneUser :
      (users : Names) (fwd : ForwardConfig) → check_forward_users go users fwd ≡ none → OneUser fwd
  unfolding check_forward_users
  users-OneUser users fwd h r a b p q =
      let (e, h1) = orelse_none (check_allowed users fwd.allowed_users []).0 _ h in
      let users_of = (check_allowed users fwd.allowed_users []).1 in
      let (z, one) = orelse_none (fails (length users_of == 0) no_allowed_users) _ h1 in
      single_name users_of a b
        (exactly_one (is_reverse fwd) (length users_of) r (fails-none _ _ one))
        (check_allowed-allowed users fwd.allowed_users [] a e (inl p))
        (check_allowed-allowed users fwd.allowed_users [] b e (inl q))

  forwards-OneUser :
      (users : Names) (fwds : List ForwardConfig) (ports : List ℤ)
      → check_forwards go users fwds ports ≡ none
      → All OneUser fwds
  forwards-OneUser users [] ports h = tt
  forwards-OneUser users (fwd ∷ fwds) ports h =
      let (u, cases) = forwards_step go users fwd fwds ports h in
      (
        users-OneUser users fwd u,
        elim cases [
          | inl (r, k) ↦ forwards-OneUser users fwds ports k
          | inr (r, t, k) ↦ forwards-OneUser users fwds ((check_direction go fwd).1 ∷ ports) k
        ],
      )

  -- Under a configuration that `ValidateConfig` takes, two users whom `authorizeReverse` lets activate
  -- the same listen address, however it is written in the two requests, are one user: their names
  -- agree once trimmed. So no user can take the reverse listener of another.
  pub reverse_listener_owner :
      (cfg : Config) (a b : UserConfig) (at_a at_b : String)
      → validate_config go cfg ≡ none
      → normalize_target go at_a ≡ normalize_target go at_b
      → authorize_reverse go cfg.forwards a at_a ≡ none
      → authorize_reverse go cfg.forwards b at_b ≡ none
      → trim_space a.username ≡ trim_space b.username
  unfolding authorize_reverse
  reverse_listener_owner cfg a b at_a at_b h s p q =
      let (u, f, c) = valid_accounts go cfg h in
      reverse_allowed_one (trim_space a.username) (trim_space b.username) (normalize_target go at_a)
        cfg.forwards (forwards-OneUser (check_users cfg.users []).1 cfg.forwards [] f)
        (ground arith) (rw s (ground arith))
