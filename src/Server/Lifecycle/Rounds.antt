-- ===== src/Server/Lifecycle/Rounds.antt =====
-- The loop of `Close` of src/server/tunnel/lifecycle.go: what half a round does once `closing` is set.
use lsyl_tunnel.Base.{
  ℕ, ◌-◌, ◌*◌, ap₂, ◌==◌, either_by, true-false, if◌then◌else◌, ◌≡◌, refl, sym, ap, subst, ◌∙◌, inl,
  inr, Bool, true, false, List, [], ◌∷◌, if_true, if_false, Bool-cases, length, arith,
}
use lsyl_tunnel.Server.Lifecycle.{
  Lifecycle, has_id, close_body, close_conn, forget_conn, close_first,
}
use lsyl_tunnel.Server.Lifecycle.Tracking.{Tracks}
use lsyl_tunnel.Server.Lifecycle.Shutdown.{
  conns-FallingIds, in_map, has_id_all_removed, forget_conn-Keeps, has_id_removed, Keeps,
  close_conn-Keeps,
}

-- The first connection of the snapshot is not open.
abbrev pub HeadGone : List ℕ → List ℕ → Type 0
HeadGone [] conns = Unit
HeadGone (id ∷ ids) conns = has_id id conns ≡ false

-- Every key of the map is in what `Close` has left to close, and between the two halves of a round its
-- connection is not open.
pub record Within (s : Lifecycle) : Type 0 where
  pub listed : (id : ℕ) → in_map id s ≡ true → has_id id s.snapshot ≡ true
  pub gone : s.head_closed ≡ true → HeadGone s.snapshot s.conns

-- The half rounds that the loop of `Close` has left.
abbrev pub to_do : List ℕ → Bool → ℕ
to_do ids head_closed = 2 * length ids - (if head_closed then 1 else 0)

HeadGone-fewer :
    (ids xs ys : List ℕ)
    → ((id : ℕ) → has_id id ys ≡ true → has_id id xs ≡ true)
    → HeadGone ids xs
    → HeadGone ids ys
HeadGone-fewer [] xs ys k h = tt
HeadGone-fewer (id ∷ ids) xs ys k h = elim (Bool-cases (has_id id ys)) [
  | inl e ↦ absurd (true-false (sym (k id e) ∙ h))
  | inr e ↦ e
]

pub Keeps-Within : (s t : Lifecycle) → Keeps s t → Within s → Within t
Keeps-Within s t k w = record {
  listed = λ id h. ap (has_id id) k.snapshot ∙ w.listed id (k.mapped id h);
  gone = λ h.
      subst (λ ids. HeadGone ids t.conns) (sym k.snapshot)
        (HeadGone-fewer s.snapshot s.conns t.conns k.conns (w.gone (sym k.head_closed ∙ h)));
}

close_conn_removes :
    (id now : ℕ) (s : Lifecycle) → Tracks s → has_id id (close_conn id now s).conns ≡ false
unfolding close_conn close_body
close_conn_removes id now s v = elim (Bool-cases (has_id id s.conns)) [
  | inl e ↦
      ap (λ (t : Lifecycle). has_id id t.conns) (if_true _ _ e)
      ∙ has_id_removed id s.ledger.next_id s.conns (conns-FallingIds s v)
  | inr e ↦ ap (λ (t : Lifecycle). has_id id t.conns) (if_false _ _ e) ∙ e
]

-- Half a round of the loop of `Close`.
pub record Round (s t : Lifecycle) : Type 0 where
  pub closing : t.closing ≡ s.closing
  pub workers : t.workers ≡ s.workers
  pub rounds : to_do t.snapshot t.head_closed ≡ to_do s.snapshot s.head_closed - 1
  pub within : Within t

-- The first half of the closing of the first connection.
first_half-Round :
    (now id : ℕ) (ids : List ℕ) (s : Lifecycle)
    → id ∷ ids ≡ s.snapshot
    → s.head_closed ≡ false
    → Tracks s
    → Within s
    → Round s (record (close_conn id now s) { head_closed = true })
first_half-Round now id ids s e h v w =
    let k = close_conn-Keeps id now s in
    let same : (close_conn id now s).snapshot ≡ id ∷ ids = k.snapshot ∙ sym e in
    record {
      closing = k.closing;
      workers = k.workers;
      rounds =
          ap (λ (xs : List ℕ). to_do xs true) same
          ∙ omega arith
          ∙ ap₂ (λ (xs : List ℕ) b. to_do xs b - 1) e (sym h);
      within = record {
        listed = λ x m. ap (has_id x) k.snapshot ∙ w.listed x (k.mapped x m);
        gone = λ t.
            subst (λ xs. HeadGone xs (close_conn id now s).conns) (sym same)
              (close_conn_removes id now s v);
      };
    }

-- The second half: nothing of the first connection is left.
second_half-Round :
    (id : ℕ) (ids : List ℕ) (s : Lifecycle)
    → id ∷ ids ≡ s.snapshot
    → s.head_closed ≡ true
    → Within s
    → Round s (record (forget_conn id s) { snapshot = ids; head_closed = false })
second_half-Round id ids s e h w =
    let k = forget_conn-Keeps id s in
    let gone : has_id id s.conns ≡ false = subst (λ xs. HeadGone xs s.conns) (sym e) (w.gone h) in
    record {
      closing = k.closing;
      workers = k.workers;
      rounds = omega arith ∙ ap₂ (λ (xs : List ℕ) b. to_do xs b - 1) e (sym h);
      within = record {
        listed = λ x m. others x m gone (ap (has_id x) e ∙ w.listed x (k.mapped x m));
        gone = λ t. absurd (true-false (sym t));
      };
    }
  where
    none_of :
        has_id id s.conns ≡ false
        → in_map id (record (forget_conn id s) { snapshot = ids; head_closed = false }) ≡ false
    none_of gone = unfold forget_conn in ground (arith, gone, has_id_all_removed id s.leaving)

    others :
        (x : ℕ)
        → in_map x (record (forget_conn id s) { snapshot = ids; head_closed = false }) ≡ true
        → has_id id s.conns ≡ false
        → has_id x (id ∷ ids) ≡ true
        → has_id x ids ≡ true
    others x m gone l = elim (Bool-cases (id == x)) [
      | inl e ↦
          let same : id ≡ x = ground (arith, e) in
          let left =
            subst
              (λ y.
                in_map y (record (forget_conn id s) { snapshot = ids; head_closed = false }) ≡ true)
              (sym same) m in
          absurd (true-false (sym left ∙ none_of gone))
      | inr e ↦ ground (arith, e, l)
    ]

pub close_first-Round :
    (now : ℕ) (xs : List ℕ) (s : Lifecycle)
    → xs ≡ s.snapshot
    → Tracks s
    → Within s
    → Round s (close_first now xs s)
unfolding close_first
close_first-Round now [] s e v w = record {
  closing = refl;
  workers = refl;
  rounds = none_left s.snapshot e s.head_closed;
  within = w;
}
  where
    none_left : (ys : List ℕ) → [] ≡ ys → (b : Bool) → to_do ys b ≡ to_do ys b - 1
    none_left [] h b = omega arith
    none_left (y ∷ ys) h b = ground arith
close_first-Round now (id ∷ ids) s e v w =
    either_by (Round s) s.head_closed _ _ (λ h. second_half-Round id ids s e h w)
      (λ h. first_half-Round now id ids s e h v w)
