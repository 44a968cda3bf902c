-- ===== src/EventRing/Queue.antt =====
-- The ring against a queue that forgets its oldest events.
use mathlib.Core.List.{append-nil, append_assoc}
use native.Mathlib.Nat.{mod-lt}
use native.Mathlib.Numerals.{add-one}
use lsyl_tunnel.Base.{
  ℕ, suc, ◌+◌, ◌-◌, ◌%◌, ◌≤◌, ◌<◌, ◌≡◌, ap, ap₂, sym, ◌∙◌, List, [], ◌∷◌, ◌++◌, ltb, ◌==◌,
  if◌then◌else◌, false, Bool-cases, inl, inr, length, length-append, get_or, set, drop, tabulate,
  length-set, get_or-set, length-replicate, length-tabulate, tabulate_snoc, tabulate_next,
  tabulate_ext, if_true, if_false, wrap_lem, dec_lt, length-drop, drop-append, drop-suc, arith,
}
use lsyl_tunnel.EventRing.{EventRing, new_event_ring, snapshot, append, default_recent_events}

-- The queue of at most `capacity` events that a snapshot shows, oldest first.
abbrev pub push : {E : Type 0} → ℕ → List E → E → List E
push capacity es event =
    if ltb (length es) capacity then es ++ event ∷ [] else drop 1 es ++ event ∷ []

pub record IsRing {E : Type 0} (r : EventRing E) : Type 0 where
  pub room : 0 < length r.items
  pub start_in : r.start < length r.items
  pub used_in : r.used ≤ length r.items

append-IsRing : {E : Type 0} (event : E) (r : EventRing E) → IsRing r → IsRing (append event r)
unfolding append
append-IsRing event r v = elim (Bool-cases (ltb r.used (length r.items))) [
  | inl h ↦ grind (arith, length-set, v.room, v.start_in, v.used_in)
  | inr h ↦ grind (arith, length-set, v.room, v.start_in, v.used_in, mod-lt)
]

module _ {E : Type 0} (items : List E) (start : ℕ) (event zero_event : E)
    (here : start < length items) where
  grow_slot :
      (used k : ℕ)
      → used < length items
      → k ≤ used
      → get_or
          (set items ((start + used) % length items) event)
          ((start + k) % length (set items ((start + used) % length items) event))
          zero_event
        ≡ (if k == used then event else get_or items ((start + k) % length items) zero_event)
  grow_slot used k h le = rw (length-set items ((start + used) % length items) event) (
      get_or-set items ((start + used) % length items) ((start + k) % length items) event zero_event
        (mod-lt (start + used) (omega arith))
      ∙ ground (arith, wrap_lem start used (length items), wrap_lem start k (length items)))

  turn_slot :
      (k : ℕ)
      → k < length items
      → get_or
          (set items start event)
          (((start + 1) % length items + k) % length (set items start event))
          zero_event
        ≡ (if k + 1 == length items
            then event
            else get_or items ((start + (k + 1)) % length items) zero_event)
  turn_slot k h = rw (length-set items start event) (
      get_or-set items start (((start + 1) % length items + k) % length items) event zero_event here
      ∙ ground (
        arith,
        wrap_lem start 1 (length items),
        wrap_lem ((start + 1) % length items) k (length items),
        wrap_lem start (k + 1) (length items),
        mod-lt (start + 1) {m = length items},
      ))

module _ {E : Type 0} (zero_event : E) where
  abbrev slot : EventRing E → ℕ → E
  slot r i = get_or r.items ((r.start + i) % length r.items) zero_event

  -- Room is left: the new event goes behind the last, and no slot in use changes.
  snapshot_grow :
      (event : E) (r : EventRing E)
      → IsRing r
      → r.used < length r.items
      → snapshot zero_event (record r {
        items = set r.items ((r.start + r.used) % length r.items) event;
        used = r.used + 1;
      })
        ≡ snapshot zero_event r ++ event ∷ []
  unfolding snapshot
  snapshot_grow event r v h = rw (add-one r.used) (
      tabulate_snoc _ r.used
      ∙ ap₂ (λ xs x. xs ++ x ∷ [])
          (tabulate_ext _ (slot r) r.used
            (λ k b. at k (omega arith) ∙ if_false event (slot r k) (ground arith)))
          (at r.used (omega arith) ∙ if_true event (slot r r.used) (ground arith)))
    where
      at :
          (k : ℕ)
          → k ≤ r.used
          → get_or
              (set r.items ((r.start + r.used) % length r.items) event)
              ((r.start + k) % length (set r.items ((r.start + r.used) % length r.items) event))
              zero_event
            ≡ (if k == r.used then event else slot r k)
      at k le = grow_slot r.items r.start event zero_event v.start_in r.used k h le

  -- No room is left: the new event takes the slot of the oldest.
  snapshot_turn :
      (event : E) (items : List E) (start n : ℕ)
      → start < length items
      → length items ≡ suc n
      → tabulate
          (λ k.
            get_or
              (set items start event)
              (((start + 1) % length items + k) % length (set items start event))
              zero_event)
          0
          (suc n)
        ≡ drop 1 (tabulate (λ k. get_or items ((start + k) % length items) zero_event) 0 (suc n))
          ++ event ∷ []
  snapshot_turn event items start n here full =
      tabulate_snoc _ n
      ∙ ap₂ (λ xs x. xs ++ x ∷ [])
          (tabulate_next _ (λ k. get_or items ((start + k) % length items) zero_event) n
            (λ k b.
              turn_slot items start event zero_event here k (omega arith)
              ∙ if_false event _ (ground arith)))
          (turn_slot items start event zero_event here n (omega arith)
            ∙ if_true {b = n + 1 == length items} event _ (ground arith))

  turn_full :
      (event : E) (r : EventRing E) (n : ℕ)
      → IsRing r
      → length r.items ≡ suc n
      → r.used ≡ suc n
      → snapshot zero_event
          (record r { items = set r.items r.start event; start = (r.start + 1) % length r.items })
        ≡ drop 1 (snapshot zero_event r) ++ event ∷ []
  unfolding snapshot
  turn_full event r n v full used = rw used (snapshot_turn event r.items r.start n v.start_in full)

  length-snapshot : (r : EventRing E) → length (snapshot zero_event r) ≡ r.used
  unfolding snapshot
  length-snapshot r = length-tabulate _ 0 r.used

  -- `Append` then `Snapshot` is `push` on the queue of the earlier snapshot.
  pub snapshot-append :
      (event : E) (r : EventRing E)
      → IsRing r
      → snapshot zero_event (append event r) ≡ push (length r.items) (snapshot zero_event r) event
  unfolding append
  snapshot-append event r v =
      rw (length-snapshot r) (elim (Bool-cases (ltb r.used (length r.items))) [
        | inl h ↦
            ap (snapshot zero_event) (if_false _ _ room ∙ if_true _ _ h)
            ∙ snapshot_grow event r v (ground arith)
            ∙ sym (if_true _ _ h)
        | inr h ↦
            ap (snapshot zero_event) (if_false _ _ room ∙ if_false _ _ h)
            ∙ turn_full event r (length r.items - 1) v (omega (arith, v.room))
                (ground (arith, v.used_in, v.room))
            ∙ sym (if_false _ _ h)
      ])
    where
      room : (length r.items == 0) ≡ false
      room = ground (arith, v.room)

-- The last `n` elements, in their order.
abbrev pub keep_last : {E : Type 0} → ℕ → List E → List E
keep_last n xs = drop (length xs - n) xs

abbrev pub append_all : {E : Type 0} → EventRing E → List E → EventRing E
append_all r [] = r
append_all r (e ∷ es) = append_all (append e r) es

push-keep_last :
    {E : Type 0} (n : ℕ) (xs : List E) (e : E)
    → 0 < n
    → push n (keep_last n xs) e ≡ keep_last n (xs ++ e ∷ [])
push-keep_last n xs e h = elim (dec_lt (length xs) n) [
  | yes p ↦
      if_true {b = ltb (length (keep_last n xs)) n} _ _
        (ground (arith, length-drop (length xs - n) xs))
      ∙ sym (drop-append (length xs - n) xs (e ∷ []) (omega arith))
      ∙ ap (λ k. drop k (xs ++ e ∷ [])) (omega (arith, length-append xs (e ∷ [])))
  | no q ↦
      if_false {b = ltb (length (keep_last n xs)) n} _ _
        (ground (arith, length-drop (length xs - n) xs))
      ∙ ap (λ r. r ++ e ∷ []) (drop-suc (length xs - n) xs)
      ∙ sym (drop-append (suc (length xs - n)) xs (e ∷ []) (omega arith))
      ∙ ap (λ k. drop k (xs ++ e ∷ [])) {x = suc (length xs - n)}
          (omega (arith, length-append xs (e ∷ [])))
]

append_capacity :
    {E : Type 0} (event : E) (r : EventRing E) → length (append event r).items ≡ length r.items
unfolding append
append_capacity event r = ground (
  arith,
  length-set r.items r.start event,
  length-set r.items ((r.start + r.used) % length r.items) event,
)

module _ {E : Type 0} (zero_event : E) where
  append_all_recent :
      (n : ℕ) (r : EventRing E) (seen es : List E)
      → IsRing r
      → length r.items ≡ n
      → snapshot zero_event r ≡ keep_last n seen
      → snapshot zero_event (append_all r es) ≡ keep_last n (seen ++ es)
  append_all_recent n r seen [] v c h = h ∙ ap (keep_last n) (sym (append-nil seen))
  append_all_recent n r seen (e ∷ es) v c h =
      append_all_recent n (append e r) (seen ++ e ∷ []) es (append-IsRing e r v)
        (append_capacity e r ∙ c)
        (snapshot-append zero_event e r v
          ∙ ap₂ (λ k q. push k q e) c h
          ∙ push-keep_last n seen e (omega (arith, v.room, c)))
      ∙ ap (keep_last n) (append_assoc seen (e ∷ []) es)

  new-IsRing : (capacity : ℕ) → IsRing (new_event_ring zero_event capacity)
  unfolding new_event_ring
  new-IsRing capacity =
      let n = if capacity == 0 then default_recent_events else capacity in
      let size = length-replicate n zero_event in
      record {
        room = rw size (ground arith);
        start_in = rw size (ground arith);
        used_in = omega arith;
      }

  -- After the events `es`, a snapshot of a new ring shows the last `capacity` of them, the oldest
  -- first: all of them, if they are fewer.
  pub snapshot_recent :
      (capacity : ℕ) (es : List E)
      → 0 < capacity
      → snapshot zero_event (append_all (new_event_ring zero_event capacity) es)
        ≡ keep_last capacity es
  unfolding new_event_ring snapshot tabulate
  snapshot_recent capacity es h =
      append_all_recent capacity (new_event_ring zero_event capacity) [] es (new-IsRing capacity)
        (length-replicate _ zero_event ∙ if_false default_recent_events capacity (ground arith))
        (ap (λ k. drop {A = E} k []) {x = 0} (omega arith))
