-- ===== src/Config/Accepted/Accounts.antt =====
-- The sets of names that `ValidateConfig` of src/server/tunnel/config.go builds from the users and from
-- the users of a forward.
use lsyl_tunnel.Base.{
  ◌≡◌, ◌≢◌, refl, sym, ap, ◌∙◌, ◌⊎◌, inl, inr, String, Bool, true, false, Option, none, some, List,
  [], ◌∷◌, All, map, String_discrete, find, find-put, trim_space, arith,
}
use lsyl_tunnel.Config.{UserConfig}
use lsyl_tunnel.Config.Validation.{
  ConfigError, ◌orelse◌, fails, Names, known, with_name, check_users, check_allowed,
}

abbrev pub Distinct {ℓ} : {A : Type ℓ} → List A → Type ℓ
Distinct [] = Unit
Distinct (x ∷ xs) = All (λ y. y ≢ x) xs × Distinct xs

abbrev pub Listed : String → List String → Type 0
Listed x [] = ⊥
Listed x (y ∷ ys) = (x ≡ y) ⊎ Listed x ys

abbrev pub user_name : UserConfig → String
user_name user = trim_space user.username

pub orelse_none : (a b : Option ConfigError) → (a orelse b) ≡ none → (a ≡ none) × (b ≡ none)
orelse_none none b h = (refl, h)
orelse_none (some e) b h = cc

pub fails-none : (t : Bool) (e : ConfigError) → fails t e ≡ none → t ≡ false
fails-none true e h = cc
fails-none false e h = refl

known-with_name :
    (x y : String) (names : Names)
    → known y (with_name x names) ≡ false
    → (y ≢ x) × (known y names ≡ false)
known-with_name x y names h = (
  λ e. ground (arith, find-put String_discrete x y tt names),
  ground (arith, find-put String_discrete x y tt names),
)

-- No user's name is blank, or one of `names`.
abbrev pub Fresh : Names → List UserConfig → Type 0
Fresh names users =
    All (λ user. (user_name user ≢ "") × (known (user_name user) names ≡ false)) users

Fresh-with_name :
    (x : String) (names : Names) (users : List UserConfig)
    → Fresh (with_name x names) users
    → All (λ y. y ≢ x) (map user_name users) × Fresh names users
Fresh-with_name x names [] h = (tt, tt)
Fresh-with_name x names (user ∷ users) h =
    let (differ, rest) = Fresh-with_name x names users h.1 in
    let (n, k) = known-with_name x (user_name user) names h.0.1 in ((n, differ), ((h.0.0, k), rest))

-- The parts of the test of one user.
user_step :
    (user : UserConfig) (users : List UserConfig) (names : Names)
    → (check_users (user ∷ users) names).0 ≡ none
    → (user_name user ≢ "")
      × (known (user_name user) names ≡ false)
      × (check_users (user ∷ users) names ≡ check_users users (with_name (user_name user) names))
unfolding check_users
user_step user users names h = (λ e. ground arith, ground arith, ground arith)

pub check_users-none :
    (users : List UserConfig) (names : Names)
    → (check_users users names).0 ≡ none
    → Fresh names users × Distinct (map user_name users)
check_users-none [] names h = (tt, tt)
check_users-none (user ∷ users) names h =
    let (nonempty, unseen, same) = user_step user users names h in
    let (fresh, distinct) =
      check_users-none users (with_name (user_name user) names) (sym (ap (λ r. r.0) same) ∙ h) in
    let (differ, rest) = Fresh-with_name (user_name user) names users fresh in
    (((nonempty, unseen), rest), (differ, distinct))

known-with_name_cases :
    (x y : String) (names : Names)
    → known y (with_name x names) ≡ true
    → (y ≡ x) ⊎ (known y names ≡ true)
known-with_name_cases x y names h = elim (String_discrete x y) [
  | yes p ↦ inl (sym p)
  | no n ↦ inr (ground (arith, find-put String_discrete x y tt names))
]

-- The set that the loop over the users leaves has their names and no more.
pub check_users-known :
    (users : List UserConfig) (names : Names) (y : String)
    → (check_users users names).0 ≡ none
    → known y (check_users users names).1 ≡ true
    → Listed y (map user_name users) ⊎ (known y names ≡ true)
unfolding check_users
check_users-known [] names y h k = inr k
check_users-known (user ∷ users) names y h k =
    let (nonempty, unseen, same) = user_step user users names h in
    place (
      check_users-known users (with_name (user_name user) names) y (sym (ap (λ r. r.0) same) ∙ h)
        (sym (ap (λ r. known y r.1) same) ∙ k))
  where
    place :
        Listed y (map user_name users) ⊎ (known y (with_name (user_name user) names) ≡ true)
        → Listed y (map user_name (user ∷ users)) ⊎ (known y names ≡ true)
    place (inl l) = inl (inr l)
    place (inr e) = elim (known-with_name_cases (user_name user) y names e) [
      | inl p ↦ inl (inl p)
      | inr q ↦ inr q
    ]

pub unknown_empty : (x : String) → known x [] ≡ true → ⊥
unfolding find
unknown_empty x h = ground arith

pub allowed_step :
    (users : Names) (user : String) (rest : List String) (allowed : Names)
    → (check_allowed users (user ∷ rest) allowed).0 ≡ none
    → (known (trim_space user) users ≡ true)
      × (check_allowed users (user ∷ rest) allowed
          ≡ check_allowed users rest (with_name (trim_space user) allowed))
unfolding check_allowed
allowed_step users user rest allowed h = (ground arith, ground arith)

pub check_allowed-known :
    (users : Names) (names : List String) (allowed : Names)
    → (check_allowed users names allowed).0 ≡ none
    → All (λ user. known (trim_space user) users ≡ true) names
check_allowed-known users [] allowed h = tt
check_allowed-known users (user ∷ names) allowed h =
    let (k, same) = allowed_step users user names allowed h in
    (
      k,
      check_allowed-known users names (with_name (trim_space user) allowed)
          (sym (ap (λ r. r.0) same) ∙ h),
    )

pub All-map :
    {P Q : String → Type 0} (f : (x : String) → P x → Q x) (xs : List String) → All P xs → All Q xs
All-map f [] h = tt
All-map f (x ∷ xs) h = (f x h.0, All-map f xs h.1)
