-- ===== src/Base/Maps.antt =====
-- A Go map as an association list. The order of the list stands for the order in which a `range`
-- loop meets the entries, which Go leaves open: the theorems hold for every list.
use Prim.Native.Nat.{◌+◌, ◌≤◌, ◌<◌}
use mathlib.Core.Path.{◌≡◌, refl}
use mathlib.Core.Logic.{ite}
use mathlib.Core.Option.{Option, none, some}
use mathlib.Core.List.{List, [], ◌∷◌}
use native.Mathlib.Omega.{arith}
use lsyl_tunnel.Base.Lists.{length}

abbrev pub Map {ℓ} : Type ℓ → Type ℓ → Type ℓ
Map K V = List (K × V)

module _ {ℓ} {K V : Type ℓ} (dec : Discrete K) where
  -- `m[k]`
  unfoldable pub find : K → Map K V → Option V
  find k [] = none
  find k ((j, v) ∷ m) = ite (dec j k) (some v) (find k m)

  -- `m[k] = v`
  unfoldable pub put : K → V → Map K V → Map K V
  put k v [] = (k, v) ∷ []
  put k v ((j, w) ∷ m) = ite (dec j k) ((k, v) ∷ m) ((j, w) ∷ put k v m)

  -- `delete(m, k)`
  unfoldable pub delete : K → Map K V → Map K V
  delete k [] = []
  delete k ((j, v) ∷ m) = let rest = delete k m in ite (dec j k) rest ((j, v) ∷ rest)

  pub find-put :
      (k j : K) (v : V) (m : Map K V) → find j (put k v m) ≡ ite (dec k j) (some v) (find j m)
  unfolding find put
  find-put k j v [] = ground arith
  find-put k j v ((i, w) ∷ m) = ground (arith, find-put k j v m)

  pub find-delete : (k j : K) (m : Map K V) → find j (delete k m) ≡ ite (dec k j) none (find j m)
  unfolding find delete
  find-delete k j [] = ground arith
  find-delete k j ((i, w) ∷ m) = ground (arith, find-delete k j m)

  pub length-put-le : (k : K) (v : V) (m : Map K V) → length (put k v m) ≤ length m + 1
  unfolding put
  length-put-le k v [] = omega arith
  length-put-le k v ((j, w) ∷ m) = ground (arith, length-put-le k v m)

  pub length-put_found :
      (k : K) (v w : V) (m : Map K V) → find k m ≡ some w → length (put k v m) ≡ length m
  unfolding put find
  length-put_found k v w [] h = cc
  length-put_found k v w ((j, u) ∷ m) h = ground (arith, length-put_found k v w m)

  pub length-delete-le : (k : K) (m : Map K V) → length (delete k m) ≤ length m
  unfolding delete
  length-delete-le k [] = omega arith
  length-delete-le k ((j, w) ∷ m) = ground (arith, length-delete-le k m)

  pub length-delete_found :
      (k : K) (w : V) (m : Map K V) → find k m ≡ some w → length (delete k m) < length m
  unfolding delete find
  length-delete_found k w [] h = cc
  length-delete_found k w ((j, u) ∷ m) h =
      ground (arith, length-delete_found k w m, length-delete-le k m)

  pub find-put_self : (k : K) (v : V) (m : Map K V) → find k (put k v m) ≡ some v
  find-put_self k v m = ground (arith, find-put k k v m)

  pub find-delete_self : (k : K) (m : Map K V) → find k (delete k m) ≡ none
  find-delete_self k m = ground (arith, find-delete k k m)

  -- No key is listed twice.
  abbrev pub Once : Map K V → Type ℓ
  Once [] = Unit
  Once ((k, v) ∷ m) = (find k m ≡ none) × Once m

  pub delete-Once : (k : K) (m : Map K V) → Once m → Once (delete k m)
  unfolding delete
  delete-Once k [] h = tt
  delete-Once k ((j, v) ∷ m) h = ground (arith, delete-Once k m, find-delete k j m)

module _ {ℓ} {K V W : Type ℓ} (dec : Discrete K) where
  -- `for k, v := range m { … }` with a body that makes one entry of each entry, or drops it (`none`).
  unfoldable pub refine : (V → Option W) → Map K V → Map K W
  unfolding delete
  refine g [] = []
  refine g ((k, v) ∷ m) =
      let rest = delete dec k (refine g m) in elim (g v) [ none ↦ rest | some w ↦ (k, w) ∷ rest ]

  abbrev pub and_then : Option V → (V → Option W) → Option W
  and_then none g = none
  and_then (some v) g = g v

  pub find-refine :
      (g : V → Option W) (j : K) (m : Map K V) → find dec j (refine g m) ≡ and_then (find dec j m) g
  unfolding find refine
  find-refine g j [] = refl
  find-refine g j ((k, v) ∷ m) = ground (arith, find-delete dec k j (refine g m), find-refine g j m)

  pub length-refine-le : (g : V → Option W) (m : Map K V) → length (refine g m) ≤ length m
  unfolding refine
  length-refine-le g [] = omega arith
  length-refine-le g ((k, v) ∷ m) =
      ground (arith, length-delete-le dec k (refine g m), length-refine-le g m)

  pub refine-Once : (g : V → Option W) (m : Map K V) → Once dec (refine g m)
  unfolding refine
  refine-Once g [] = tt
  refine-Once g ((k, v) ∷ m) = keep_listed (delete-Once dec k (refine g m) (refine-Once g m)) (g v)
    where
      rest : Map K W
      rest = delete dec k (refine g m)

      keep_listed :
          Once dec rest
          → (o : Option W) → Once dec (elim o [ none ↦ rest | some w ↦ (k, w) ∷ rest ])
      keep_listed h none = h
      keep_listed h (some w) = (find-delete_self dec k (refine g m), h)
