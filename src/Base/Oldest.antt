-- ===== src/Base/Oldest.antt =====
-- The loop of the bounded maps that looks for an entry to evict: among the entries that are not busy
-- it takes one seen longest ago. No key of those maps is "", so the test `oldestKey == ""` of the
-- loops is a test for `none` here.
use Prim.Native.Nat.{ℕ, ◌≤◌}
use Prim.Native.String.{String}
use mathlib.Core.Path.{◌≡◌, refl, subst}
use mathlib.Core.Logic.{inl, inr, if_neg}
use mathlib.Core.Bool.{Bool, true, false}
use mathlib.Core.Option.{Option, none, some}
use mathlib.Core.List.{[], ◌∷◌}
use native.Mathlib.Omega.{arith}
use lsyl_tunnel.Base.Tests.{ltb, if◌then◌else◌, Bool-cases, Option-cases, String_discrete}
use lsyl_tunnel.Base.Maps.{Map, find}

module _ {V : Type 0} (busy : V → Bool) (last_seen : V → ℕ) where
  -- One round, at the key `ip`, whose entry is read from the map.
  unfoldable pub older : Map String V → String → Option (String × ℕ) → Option (String × ℕ)
  older items ip oldest = elim (find String_discrete ip items) [
    | none ↦ oldest
    | some st ↦ if busy st then oldest else elim oldest [
      | none ↦ some (ip, last_seen st)
      | some (o, seen) ↦ if ltb (last_seen st) seen then some (ip, last_seen st) else some (o, seen)
    ]
  ]

  unfoldable pub oldest_from :
      Map String V → Option (String × ℕ) → Map String V → Option (String × ℕ)
  oldest_from items oldest [] = oldest
  oldest_from items oldest ((ip, st) ∷ rest) = oldest_from items (older items ip oldest) rest

  unfoldable pub oldest_idle : Map String V → Option (String × ℕ)
  unfolding oldest_from
  oldest_idle items = oldest_from items none items

  -- `ip` is recorded with no open connection, last seen at `seen`.
  abbrev pub IsIdleAt : Map String V → String → ℕ → Type 0
  IsIdleAt items ip seen =
      (st : V) × (find String_discrete ip items ≡ some st)
      × (busy st ≡ false)
      × (last_seen st ≡ seen)

  abbrev IsCandidate : Map String V → Option (String × ℕ) → Type 0
  IsCandidate items none = Unit
  IsCandidate items (some (ip, seen)) = IsIdleAt items ip seen

  older-IsCandidate :
      (items : Map String V) (ip : String) (oldest : Option (String × ℕ))
      → IsCandidate items oldest
      → IsCandidate items (older items ip oldest)
  unfolding older
  older-IsCandidate items ip none h = elim (Option-cases (find String_discrete ip items)) [
    | inl e ↦ rw (e, older) tt
    | inr (st, e) ↦ elim (Bool-cases (busy st)) [
      | inl b ↦ rw (e, older) (rw b tt)
      | inr idle ↦ rw (e, older) (rw idle (st, e, idle, refl))
    ]
  ]
  older-IsCandidate items ip (some (o, seen)) h =
      elim (Option-cases (find String_discrete ip items)) [
        | inl e ↦ rw (e, older) h
        | inr (st, e) ↦ elim (Bool-cases (busy st)) [
          | inl b ↦ rw (e, older) (rw b h)
          | inr idle ↦ elim (Bool-cases (ltb (last_seen st) seen)) [
            | inl before ↦ rw (e, older) (rw idle (rw before (st, e, idle, refl)))
            | inr after ↦ rw (e, older) (rw idle (rw after h))
          ]
        ]
      ]

  oldest_from-IsCandidate :
      (items : Map String V) (oldest : Option (String × ℕ)) (es : Map String V)
      → IsCandidate items oldest
      → IsCandidate items (oldest_from items oldest es)
  unfolding oldest_from
  oldest_from-IsCandidate items oldest [] h = h
  oldest_from-IsCandidate items oldest ((ip, st) ∷ es) h =
      oldest_from-IsCandidate items (older items ip oldest) es (older-IsCandidate items ip oldest h)

  -- The entry that the loop chooses is in the map and is not busy.
  pub oldest_idle_idle :
      (items : Map String V) {ip : String} {seen : ℕ}
      → oldest_idle items ≡ some (ip, seen)
      → IsIdleAt items ip seen
  unfolding oldest_idle
  oldest_idle_idle items h =
      subst (IsCandidate items) h (oldest_from-IsCandidate items none items tt)

  -- There is a candidate, last seen no later than `t`.
  abbrev AtMost : Option (String × ℕ) → ℕ → Type 0
  AtMost none t = ⊥
  AtMost (some (o, seen)) t = seen ≤ t

  older_self :
      (items : Map String V) (ip : String) (oldest : Option (String × ℕ)) (st : V)
      → find String_discrete ip items ≡ some st
      → busy st ≡ false
      → AtMost (older items ip oldest) (last_seen st)
  unfolding older
  older_self items ip none st e z = rw (e, older) (rw z (omega arith))
  older_self items ip (some (o, seen)) st e z = elim (Bool-cases (ltb (last_seen st) seen)) [
    | inl before ↦ rw (e, older) (rw z (rw before (omega arith)))
    | inr after ↦ rw (e, older) (rw z (rw after (ground arith)))
  ]

  older-AtMost :
      (items : Map String V) (ip : String) (oldest : Option (String × ℕ)) (t : ℕ)
      → AtMost oldest t
      → AtMost (older items ip oldest) t
  unfolding older
  older-AtMost items ip none t h = absurd h
  older-AtMost items ip (some (o, seen)) t h = ground arith

  oldest_from-AtMost :
      (items : Map String V) (oldest : Option (String × ℕ)) (es : Map String V) (t : ℕ)
      → AtMost oldest t
      → AtMost (oldest_from items oldest es) t
  unfolding oldest_from
  oldest_from-AtMost items oldest [] t h = h
  oldest_from-AtMost items oldest ((ip, st) ∷ es) t h =
      oldest_from-AtMost items (older items ip oldest) es t (older-AtMost items ip oldest t h)

  oldest_from_seen :
      (items es : Map String V) (ip : String) (oldest : Option (String × ℕ)) (st w : V)
      → find String_discrete ip es ≡ some w
      → find String_discrete ip items ≡ some st
      → busy st ≡ false
      → AtMost (oldest_from items oldest es) (last_seen st)
  unfolding oldest_from find
  oldest_from_seen items [] ip oldest st w m e z = cc
  oldest_from_seen items ((j, v) ∷ es) ip oldest st w m e z = elim (String_discrete j ip) [
    | yes p ↦
        oldest_from-AtMost items (older items j oldest) es (last_seen st)
          (older_self items j oldest st (rw p e) z)
    | no n ↦ oldest_from_seen items es ip (older items j oldest) st w (rw (if_neg _ n) at m) e z
  ]

  -- No idle entry was seen before the one that the loop chooses.
  pub oldest_idle-le :
      (items : Map String V) {ip : String} {seen : ℕ} (j : String) (st : V)
      → oldest_idle items ≡ some (ip, seen)
      → find String_discrete j items ≡ some st
      → busy st ≡ false
      → seen ≤ last_seen st
  unfolding oldest_idle
  oldest_idle-le items j st h e z =
      subst (λ o. AtMost o (last_seen st)) h (oldest_from_seen items items j none st st e e z)

  -- The loop finds no entry only where every entry is busy.
  pub oldest_idle-none :
      (items : Map String V) (j : String) (st : V)
      → oldest_idle items ≡ none
      → find String_discrete j items ≡ some st
      → busy st ≡ true
  unfolding oldest_idle
  oldest_idle-none items j st h e = elim (Bool-cases (busy st)) [
    | inl b ↦ b
    | inr z ↦
        absurd
          (subst (λ o. AtMost o (last_seen st)) h (oldest_from_seen items items j none st st e e z))
  ]
