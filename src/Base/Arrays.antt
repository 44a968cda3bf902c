-- ===== src/Base/Arrays.antt =====
-- Lists as arrays: reads and writes by index, and a list given by a function of the index.
use Prim.Native.Nat.{ℕ, zero, suc, ◌+◌, ◌-◌, ◌%◌, ◌≤◌, ◌<◌}
use mathlib.Core.Path.{◌≡◌, refl, ap, ap₂, ◌∙◌}
use mathlib.Core.List.{List, [], ◌∷◌, ◌++◌}
use native.Mathlib.Omega.{arith}
use native.Mathlib.Decide.{dec_lt}
use native.Mathlib.Nat.{mod-eq_of_lt, mod-eq-sub-mod}
use lsyl_tunnel.Base.Tests.{ltb, ◌==◌, if◌then◌else◌}
use lsyl_tunnel.Base.Lists.{length}

module _ {ℓ} {A : Type ℓ} where
  unfoldable pub get_or : List A → ℕ → A → A
  get_or [] i d = d
  get_or (x ∷ xs) zero d = x
  get_or (x ∷ xs) (suc i) d = get_or xs i d

  unfoldable pub set : List A → ℕ → A → List A
  set [] i v = []
  set (x ∷ xs) zero v = v ∷ xs
  set (x ∷ xs) (suc i) v = x ∷ set xs i v

  unfoldable pub replicate : ℕ → A → List A
  replicate zero a = []
  replicate (suc n) a = a ∷ replicate n a

  abbrev pub drop : ℕ → List A → List A
  drop zero xs = xs
  drop (suc n) [] = []
  drop (suc n) (x ∷ xs) = drop n xs

  -- `f i ∷ f (i + 1) ∷ …`, of length `n`.
  unfoldable pub tabulate : (ℕ → A) → ℕ → ℕ → List A
  tabulate f i zero = []
  tabulate f i (suc n) = f i ∷ tabulate f (suc i) n

  pub length-set : (xs : List A) (i : ℕ) (v : A) → length (set xs i v) ≡ length xs
  unfolding set
  length-set [] i v = refl
  length-set (x ∷ xs) zero v = refl
  length-set (x ∷ xs) (suc i) v = ap suc (length-set xs i v)

  pub get_or-set :
      (xs : List A) (i j : ℕ) (v d : A)
      → i < length xs
      → get_or (set xs i v) j d ≡ (if i == j then v else get_or xs j d)
  unfolding set get_or
  get_or-set [] i j v d h = elim h [ ]
  get_or-set (x ∷ xs) zero zero v d h = refl
  get_or-set (x ∷ xs) zero (suc j) v d h = ground arith
  get_or-set (x ∷ xs) (suc i) zero v d h = ground arith
  get_or-set (x ∷ xs) (suc i) (suc j) v d h = ground (arith, get_or-set xs i j v d)

  pub length-replicate : (n : ℕ) (a : A) → length (replicate n a) ≡ n
  unfolding replicate
  length-replicate zero a = refl
  length-replicate (suc n) a = ap suc (length-replicate n a)

  pub length-tabulate : (f : ℕ → A) (i n : ℕ) → length (tabulate f i n) ≡ n
  unfolding tabulate
  length-tabulate f i zero = refl
  length-tabulate f i (suc n) = ap suc (length-tabulate f (suc i) n)

  pub tabulate_last :
      (f : ℕ → A) (i n : ℕ) → tabulate f i (suc n) ≡ tabulate f i n ++ f (i + n) ∷ []
  unfolding tabulate
  tabulate_last f i zero = ap (λ k. f k ∷ []) (omega arith)
  tabulate_last f i (suc n) =
      ap (λ r. f i ∷ r)
        (tabulate_last f (suc i) n ∙ ap (λ k. tabulate f (suc i) n ++ f k ∷ []) (omega arith))

  -- Two tables agree where the functions do, the second read `s` further on.
  pub tabulate_shift :
      (f g : ℕ → A) (s i n : ℕ)
      → ((k : ℕ) → i ≤ k → k < i + n → f k ≡ g (k + s))
      → tabulate f i n ≡ tabulate g (i + s) n
  unfolding tabulate
  tabulate_shift f g s i zero h = refl
  tabulate_shift f g s i (suc n) h =
      ap₂ (λ x xs. x ∷ xs) (h i (omega arith) (omega arith))
        (tabulate_shift f g s (suc i) n (λ k a b. h k (omega arith) (omega arith))
          ∙ ap (λ j. tabulate g j n) (omega arith))

module _ {ℓ} {A : Type ℓ} where
  pub tabulate_snoc : (f : ℕ → A) (n : ℕ) → tabulate f 0 (suc n) ≡ tabulate f 0 n ++ f n ∷ []
  tabulate_snoc f n = tabulate_last f 0 n ∙ ap (λ k. tabulate f 0 n ++ f k ∷ []) (omega arith)

  pub tabulate_ext :
      (f g : ℕ → A) (n : ℕ) → ((k : ℕ) → k < n → f k ≡ g k) → tabulate f 0 n ≡ tabulate g 0 n
  tabulate_ext f g n h = tabulate_shift f g 0 0 n (λ k a b. h k (omega arith) ∙ ap g (omega arith))

  pub tabulate_next :
      (f g : ℕ → A) (n : ℕ)
      → ((k : ℕ) → k < n → f k ≡ g (k + 1))
      → tabulate f 0 n ≡ drop 1 (tabulate g 0 (suc n))
  unfolding tabulate
  tabulate_next f g n h = tabulate_shift f g 1 0 n (λ k a b. h k (omega arith))

module _ {ℓ} {A : Type ℓ} where
  pub length-drop : (n : ℕ) (xs : List A) → length (drop n xs) ≡ length xs - n
  length-drop zero xs = omega arith
  length-drop (suc n) [] = omega arith
  length-drop (suc n) (x ∷ xs) = omega (arith, length-drop n xs)

  pub drop-append : (n : ℕ) (xs ys : List A) → n ≤ length xs → drop n (xs ++ ys) ≡ drop n xs ++ ys
  drop-append zero xs ys h = refl
  drop-append (suc n) [] ys h = elim h [ ]
  drop-append (suc n) (x ∷ xs) ys h = drop-append n xs ys (omega arith)

  pub drop-suc : (n : ℕ) (xs : List A) → drop 1 (drop n xs) ≡ drop (suc n) xs
  drop-suc zero xs = refl
  drop-suc (suc n) [] = refl
  drop-suc (suc n) (x ∷ xs) = drop-suc n xs

-- An index taken round once.
pub wrap_lem :
    (s k c : ℕ) → s < c → k ≤ c → (s + k) % c ≡ (if ltb (s + k) c then s + k else s + k - c)
wrap_lem s k c h le = elim (dec_lt (s + k) c) [
  | yes p ↦ rw (mod-eq_of_lt p) (ground arith)
  | no n ↦
      rw (mod-eq-sub-mod {n = s + k} {m = c} (omega arith))
        (rw (mod-eq_of_lt {n = s + k - c} {m = c} (omega arith)) (ground arith))
]
