-- ===== src/Config/Version.antt =====
-- src/internal/version/version.go: versions of three numbers, and their order.
use lsyl_tunnel.Base.{
  ℕ, ◌<◌, ◌≡◌, ◌⊎◌, ◌↔◌, String, Bool, true, false, Option, none, some, List, [], ◌∷◌, ltb,
  if◌then◌else◌, trim_space, arith,
}
use lsyl_tunnel.Config.{ℤ, pos, negsuc, GoLibrary, is_empty}

pub data Ordering : Type 0 where
  less same greater : Ordering

pub record Version : Type 0 where
  pub major : ℕ
  pub minor : ℕ
  pub patch : ℕ

unfoldable pub order : ℕ → ℕ → Ordering
order a b = if ltb a b then less else if ltb b a then greater else same

unfoldable pub first_different : Ordering → Ordering → Ordering
first_different less o = less
first_different same o = o
first_different greater o = greater

-- The loop of `Compare` over the three numbers.
unfoldable pub compare_versions : Version → Version → Ordering
compare_versions a b =
    first_different (order a.major b.major)
      (first_different (order a.minor b.minor) (order a.patch b.patch))

module _ (go : GoLibrary) where
  natural : Option ℤ → Option ℕ
  natural none = none
  natural (some (pos n)) = some n
  natural (some (negsuc n)) = none

  -- One part of a version.
  unfoldable pub parse_part : String → Option ℕ
  unfolding natural
  parse_part part = if is_empty part then none else natural (go.atoi part)

  parse_three : List String → Option Version
  parse_three (a ∷ b ∷ c ∷ []) = elim (parse_part a) [
    | none ↦ none
    | some major ↦ elim (parse_part b) [
      | none ↦ none
      | some minor ↦ elim (parse_part c) [
        | none ↦ none
        | some patch ↦ some (record { major = major; minor = minor; patch = patch })
      ]
    ]
  ]
  parse_three _ = none

  unfoldable pub parse : String → Option Version
  unfolding parse_three
  parse v = parse_three (go.split (trim_space (go.trim_prefix v "v")) ".")

  -- `Compare`; `none` is an error.
  unfoldable pub compare : String → String → Option Ordering
  compare a b = elim (parse a) [
    | none ↦ none
    | some left ↦ elim (parse b) [ none ↦ none | some right ↦ some (compare_versions left right) ]
  ]

  -- `CheckMin` and `CheckMax`; `true` where there is no error.
  at_least : Option Ordering → Bool
  at_least none = false
  at_least (some less) = false
  at_least (some same) = true
  at_least (some greater) = true

  at_most : Option Ordering → Bool
  at_most none = false
  at_most (some less) = true
  at_most (some same) = true
  at_most (some greater) = false

  unfoldable pub check_min : String → String → Bool
  unfolding at_least
  check_min current minimum =
      let m = trim_space minimum in if is_empty m then true else at_least (compare current m)

  unfoldable pub check_max : String → String → Bool
  unfolding at_most
  check_max current maximum =
      let m = trim_space maximum in if is_empty m then true else at_most (compare current m)

-- The order of the numbers, the first that differs deciding.
abbrev pub Before : Version → Version → Type 0
Before a b =
    (a.major < b.major)
    ⊎ ((a.major ≡ b.major) × ((a.minor < b.minor) ⊎ ((a.minor ≡ b.minor) × (a.patch < b.patch))))

abbrev pub flip : Ordering → Ordering
flip less = greater
flip same = same
flip greater = less

-- `compare_versions` with its arguments swapped: the answer is the opposite one.
pub compare-flip : (a b : Version) → compare_versions b a ≡ flip (compare_versions a b)
unfolding compare_versions first_different order
compare-flip a b = ground arith

-- `compare_versions` says "less" exactly where the first version lies before the second in the order of the
-- three numbers.
pub compare_less : (a b : Version) → (compare_versions a b ≡ less) ↔ Before a b
unfolding compare_versions first_different order
compare_less a b = (λ h. ground arith, λ h. ground arith)

pub compare_same : (a b : Version) → (compare_versions a b ≡ same) ↔ (a ≡ b)
unfolding compare_versions first_different order
compare_same a b = (λ h. ground arith, λ h. ground arith)
