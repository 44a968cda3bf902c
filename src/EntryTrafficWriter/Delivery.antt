-- ===== src/EntryTrafficWriter/Delivery.antt =====
-- What was accepted is written, in order, and before `Close` returns.
use mathlib.Core.List.{append-nil, append_assoc}
use lsyl_tunnel.Base.{
  ℕ, zero, suc, ◌≤◌, ◌≡◌, refl, true, false, List, [], ◌∷◌, ◌++◌, length, length-append, arith, ◌∙◌,
  sym, ap, ◌⊎◌, inl, Bool, not, ◌&&◌, ltb, if◌then◌else◌,
}
use lsyl_tunnel.EntryTrafficWriter.{
  Writer, new_async_entry_traffic_log, enqueue, close, drain_step, run_step, Event, enqueues,
  closes, runs, step, run,
}

-- The accepted entries, in their order: those written and those still queued.
abbrev pub entries : {E : Type 0} → Writer E → List E
entries w = w.output ++ w.queue

pub record Inv {E : Type 0} (w : Writer E) : Type 0 where
  pub bounded : length w.queue ≤ w.capacity
  pub accepted_exact : w.accepted ≡ length (entries w)
  pub written_exact : w.written ≡ length w.output
  pub done_drained : (w.done ≡ false) ⊎ ((w.closed ≡ true) × (w.queue ≡ []))

enqueue-Inv : {E : Type 0} (entry : E) (w : Writer E) → Inv w → Inv (enqueue entry w)
unfolding enqueue
enqueue-Inv entry w v = ground (
  arith,
  length-append w.output w.queue,
  length-append w.queue (entry ∷ []),
  length-append w.output (w.queue ++ entry ∷ []),
)

close-Inv : {E : Type 0} (w : Writer E) → Inv w → Inv (close w)
unfolding close
close-Inv w v = ground arith

drain_step-Inv :
    {E : Type 0} (queue : List E) (w : Writer E)
    → w.queue ≡ queue
    → w.done ≡ false
    → Inv w
    → Inv (drain_step queue w)
unfolding drain_step
drain_step-Inv [] w e d v = ground arith
drain_step-Inv (entry ∷ rest) w e d v = ground (
  arith,
  ap length e,
  length-append w.output w.queue,
  length-append w.output (entry ∷ []),
  length-append (w.output ++ entry ∷ []) rest,
)

run_step-Inv : {E : Type 0} (w : Writer E) → Inv w → Inv (run_step w)
unfolding run_step
run_step-Inv w v = ground (arith, drain_step-Inv w.queue w refl)

step-Inv : {E : Type 0} (w : Writer E) (e : Event E) → Inv w → Inv (step w e)
unfolding step
step-Inv w (enqueues entry) v = enqueue-Inv entry w v
step-Inv w closes v = close-Inv w v
step-Inv w runs v = run_step-Inv w v

run-Inv : {E : Type 0} (w : Writer E) (es : List (Event E)) → Inv w → Inv (run w es)
unfolding run
run-Inv w [] v = v
run-Inv w (e ∷ es) v = run-Inv (step w e) es (step-Inv w e v)

new-Inv : {E : Type 0} (capacity : ℕ) → Inv (new_async_entry_traffic_log {E = E} capacity)
unfolding new_async_entry_traffic_log
new-Inv capacity = record {
  bounded = omega arith;
  accepted_exact = refl;
  written_exact = refl;
  done_drained = inl refl;
}

-- Whatever calls and rounds come after the start, `accepted` and `written` count the entries
-- accepted and written, the queue stays within its capacity, and once `run` has returned every
-- accepted entry has been written.
pub writer_counters_exact :
    {E : Type 0} (capacity : ℕ) (es : List (Event E))
    → Inv (run (new_async_entry_traffic_log capacity) es)
writer_counters_exact capacity es =
    run-Inv (new_async_entry_traffic_log capacity) es (new-Inv capacity)

-- A round of `run` keeps the accepted entries and their order.
drain_step_entries :
    {E : Type 0} (queue : List E) (w : Writer E)
    → w.queue ≡ queue
    → entries (drain_step queue w) ≡ entries w
unfolding drain_step
drain_step_entries [] w e = ground arith
drain_step_entries (entry ∷ rest) w e =
    append_assoc w.output (entry ∷ []) rest ∙ ap (λ q. w.output ++ q) (sym e)

abbrev pub rounds : {E : Type 0} → ℕ → Writer E → Writer E
rounds zero w = w
rounds (suc n) w = rounds n (run_step w)

run_step_nil :
    {E : Type 0} (w : Writer E)
    → w.queue ≡ []
    → w.closed ≡ true
    → w.done ≡ false
    → ((run_step w).done ≡ true) × ((run_step w).output ≡ w.output)
unfolding run_step
run_step_nil w e c d = rw (d, e, drain_step) (rw c (refl, refl))

run_step_cons :
    {E : Type 0} (x : E) (xs : List E) (w : Writer E)
    → w.queue ≡ x ∷ xs
    → w.done ≡ false
    → ((run_step w).queue ≡ xs)
      × ((run_step w).output ≡ w.output ++ x ∷ [])
      × ((run_step w).closed ≡ w.closed)
      × ((run_step w).done ≡ false)
unfolding run_step
run_step_cons x xs w e d = ground (arith, d, e)

drain :
    {E : Type 0} (queue : List E) (w : Writer E)
    → w.queue ≡ queue
    → w.closed ≡ true
    → w.done ≡ false
    → let u = rounds (suc (length queue)) w in (u.done ≡ true) × (u.output ≡ w.output ++ queue)
drain [] w e c d =
    let (finished, same) = run_step_nil w e c d in (finished, same ∙ sym (append-nil w.output))
drain (x ∷ xs) w e c d =
    let (q, o, c', d') = run_step_cons x xs w e d in
    let (finished, out) = drain xs (run_step w) q (c' ∙ c) d' in
    (finished, out ∙ ap (λ l. l ++ xs) o ∙ append_assoc w.output (x ∷ []) xs)

close_facts :
    {E : Type 0} (w : Writer E)
    → ((close w).queue ≡ w.queue)
      × ((close w).output ≡ w.output)
      × ((close w).closed ≡ true)
      × ((close w).done ≡ w.done)
unfolding close
close_facts w = ground arith

-- Whether `Enqueue` takes an entry: the writer is not closed and has room.
abbrev pub takes : {E : Type 0} → Writer E → Bool
takes w = not w.closed && ltb (length w.queue) w.capacity

-- The entries of those calls of `Enqueue` that are accepted, in the order of the calls.
abbrev pub accepted_calls : {E : Type 0} → Writer E → List (Event E) → List E
accepted_calls w [] = []
accepted_calls w (enqueues entry ∷ es) =
    let rest = accepted_calls (enqueue entry w) es in if takes w then entry ∷ rest else rest
accepted_calls w (closes ∷ es) = accepted_calls (close w) es
accepted_calls w (runs ∷ es) = accepted_calls (run_step w) es

enqueue_entries :
    {E : Type 0} (entry : E) (w : Writer E)
    → entries (enqueue entry w) ≡ (if takes w then entries w ++ entry ∷ [] else entries w)
unfolding enqueue
enqueue_entries entry w = ground (arith, append_assoc w.output w.queue (entry ∷ []))

close_entries : {E : Type 0} (w : Writer E) → entries (close w) ≡ entries w
unfolding close
close_entries w = ground arith

run_step_entries : {E : Type 0} (w : Writer E) → entries (run_step w) ≡ entries w
unfolding run_step
run_step_entries w = ground (arith, drain_step_entries w.queue w refl)

run_entries :
    {E : Type 0} (w : Writer E) (es : List (Event E))
    → entries (run w es) ≡ entries w ++ accepted_calls w es
unfolding run step
run_entries w [] = sym (append-nil (entries w))
run_entries w (enqueues entry ∷ es) =
    run_entries (enqueue entry w) es
    ∙ ap (λ l. l ++ accepted_calls (enqueue entry w) es) (enqueue_entries entry w)
    ∙ taken (takes w) (accepted_calls (enqueue entry w) es)
  where
    taken :
        (b : Bool) (rest : List _)
        → (if b then entries w ++ entry ∷ [] else entries w) ++ rest
          ≡ entries w ++ (if b then entry ∷ rest else rest)
    taken true rest = append_assoc (entries w) (entry ∷ []) rest
    taken false rest = refl
run_entries w (closes ∷ es) =
    run_entries (close w) es ∙ ap (λ l. l ++ accepted_calls (close w) es) (close_entries w)
run_entries w (runs ∷ es) =
    run_entries (run_step w) es ∙ ap (λ l. l ++ accepted_calls (run_step w) es) (run_step_entries w)

-- Whatever calls and rounds come after the start, as long as the goroutine has not returned: after
-- `Close` it returns after one round for each queued entry and one more, and the log then has the
-- entries of the accepted calls of `Enqueue`, each once and in the order of these calls.
pub close_drains :
    {E : Type 0} (capacity : ℕ) (es : List (Event E))
    → (run (new_async_entry_traffic_log capacity) es).done ≡ false
    → let w = run (new_async_entry_traffic_log capacity) es in
      let u = rounds (suc (length w.queue)) (close w) in
      (u.done ≡ true) × (u.output ≡ accepted_calls (new_async_entry_traffic_log capacity) es)
unfolding new_async_entry_traffic_log
close_drains capacity es d =
    let w = run (new_async_entry_traffic_log capacity) es in
    let (q, o, c, d') = close_facts w in
    let (finished, out) = drain w.queue (close w) q c (d' ∙ d) in
    (
      finished,
      out ∙ ap (λ l. l ++ w.queue) o ∙ run_entries (new_async_entry_traffic_log capacity) es,
    )
