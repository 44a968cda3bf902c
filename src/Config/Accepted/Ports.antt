-- ===== src/Config/Accepted/Ports.antt =====
-- The loop of `ValidateConfig` of src/server/tunnel/config.go over the forwards: the ports and the users
-- of the forwards that it takes.
use lsyl_tunnel.Base.{
  ◌≡◌, ◌≢◌, refl, sym, ap, ◌∙◌, ◌⊎◌, inl, inr, Bool, true, false, ◌||◌, none, List, [], ◌∷◌, All,
  map, if◌then◌else◌, if_true, if_false, Bool-cases, trim_space, arith,
}
use lsyl_tunnel.Config.{ℤ, pos, negsuc, GoLibrary, ForwardConfig, UserConfig}
use lsyl_tunnel.Config.Forwards.{eq_int}
use lsyl_tunnel.Config.Validation.{
  fails, Names, known, taken, is_reverse, check_direction, check_forward_users, check_forwards,
}
use lsyl_tunnel.Config.Accepted.Accounts.{
  Distinct, Listed, user_name, orelse_none, fails-none, check_allowed-known,
}

taken_none : (port : ℤ) (ports : List ℤ) → taken port ports ≡ false → All (λ p. port ≢ p) ports
taken_none port [] h = tt
taken_none port (p ∷ ports) h = (
  λ e. differ p (ap (λ q. eq_int p q) (sym e) ∙ left (eq_int p port) (taken port ports) h),
  taken_none port ports (right (eq_int p port) (taken port ports) h),
)
  where
    left : (a b : Bool) → (a || b) ≡ false → a ≡ false
    left true b e = cc
    left false b e = refl

    right : (a b : Bool) → (a || b) ≡ false → b ≡ false
    right true b e = cc
    right false b e = e

    differ : (q : ℤ) → eq_int q q ≡ false → ⊥
    differ (pos n) e = ground arith
    differ (negsuc n) e = ground arith

module _ (go : GoLibrary) where
  -- The ports that the reverse forwards listen on, as the loop over the forwards reads them.
  abbrev pub reverse_ports : List ForwardConfig → List ℤ
  reverse_ports [] = []
  reverse_ports (fwd ∷ fwds) =
      if is_reverse fwd then (check_direction go fwd).1 ∷ reverse_ports fwds else reverse_ports fwds

  pub forwards_step :
      (users : Names) (fwd : ForwardConfig) (rest : List ForwardConfig) (ports : List ℤ)
      → check_forwards go users (fwd ∷ rest) ports ≡ none
      → (check_forward_users go users fwd ≡ none)
        × (((is_reverse fwd ≡ false) × (check_forwards go users rest ports ≡ none))
            ⊎ ((is_reverse fwd ≡ true)
                × (taken (check_direction go fwd).1 ports ≡ false)
                × (check_forwards go users rest ((check_direction go fwd).1 ∷ ports) ≡ none)))
  unfolding check_forwards
  forwards_step users fwd rest ports h =
      let (e, h1) = orelse_none _ _ h in
      let (u, h2) = orelse_none _ _ h1 in
      (
        u,
        elim (Bool-cases (is_reverse fwd)) [
          | inl r ↦
              let (t, h3) =
                orelse_none (fails (taken (check_direction go fwd).1 ports) _) _
                  (sym (if_true _ _ r) ∙ h2) in
              inr (r, fails-none _ _ t, h3)
          | inr r ↦ inl (r, sym (if_false _ _ r) ∙ h2)
        ],
      )

  -- Every user that `fwd` allows has an account.
  abbrev pub AllowedKnown : List UserConfig → ForwardConfig → Type 0
  AllowedKnown users fwd =
      All (λ user. Listed (trim_space user) (map user_name users)) fwd.allowed_users

  users_known :
      (users : Names) (fwd : ForwardConfig)
      → check_forward_users go users fwd ≡ none
      → All (λ user. known (trim_space user) users ≡ true) fwd.allowed_users
  unfolding check_forward_users
  users_known users fwd h = check_allowed-known users fwd.allowed_users [] (orelse_none _ _ h).0

  pub forwards_known :
      (users : Names) (fwds : List ForwardConfig) (ports : List ℤ)
      → check_forwards go users fwds ports ≡ none
      → All (λ fwd. All (λ user. known (trim_space user) users ≡ true) fwd.allowed_users) fwds
  forwards_known users [] ports h = tt
  forwards_known users (fwd ∷ rest) ports h =
      let (u, cases) = forwards_step users fwd rest ports h in
      (
        users_known users fwd u,
        elim cases [
          | inl (r, k) ↦ forwards_known users rest ports k
          | inr (r, t, k) ↦ forwards_known users rest ((check_direction go fwd).1 ∷ ports) k
        ],
      )

  -- No port is in `taken_ports`.
  pub forwards_ports :
      (users : Names) (fwds : List ForwardConfig) (ports : List ℤ)
      → check_forwards go users fwds ports ≡ none
      → All (λ port. All (λ p. port ≢ p) ports) (reverse_ports fwds) × Distinct (reverse_ports fwds)
  forwards_ports users [] ports h = (tt, tt)
  forwards_ports users (fwd ∷ rest) ports h = elim (forwards_step users fwd rest ports h).1 [
    | inl (r, k) ↦ rw r (forwards_ports users rest ports k)
    | inr (r, t, k) ↦
        let port = (check_direction go fwd).1 in
        let (unused, distinct) = forwards_ports users rest (port ∷ ports) k in
        let (differ, others) = split_All port ports (reverse_ports rest) unused in
        rw r ((taken_none port ports t, others), (differ, distinct))
  ]
    where
      split_All :
          (port : ℤ) (ports qs : List ℤ)
          → All (λ q. All (λ p. q ≢ p) (port ∷ ports)) qs
          → All (λ q. q ≢ port) qs × All (λ q. All (λ p. q ≢ p) ports) qs
      split_All port ports [] h = (tt, tt)
      split_All port ports (q ∷ qs) h =
          let (a, b) = split_All port ports qs h.1 in ((h.0.0, a), (h.0.1, b))
