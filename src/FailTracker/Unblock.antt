-- ===== src/FailTracker/Unblock.antt =====
-- The operator's unblocking: `unblock` and `UnblockBlockedIP` of
-- src/server/tunnel/fail_persistence.go.
use lsyl_tunnel.Base.{
  ℕ, ◌≡◌, ◌≢◌, refl, ap, ◌∙◌, String, false, none, some, [], ◌∷◌, if_neg, String_discrete, Map, ltb,
  Option, Once, if◌then◌else◌, find, delete, find-delete, find-delete_self, trim_space, arith,
}
use lsyl_tunnel.FailTracker.{FailTracker, Env, blocked_none, has_permanent, is_some, save}
use lsyl_tunnel.FailTracker.Failures.{block_kind, block_kind_read}
use lsyl_tunnel.FailTracker.Persistence.{unblock, unblock_key, unblock_saved, unblock_blocked_ip}

unblock_key_items :
    (env : Env) (key : String) (f : FailTracker)
    → (unblock_key env key f).0.items ≡ delete String_discrete key f.items
unfolding unblock_key save
unblock_key_items env key f = ground arith

unblock_key_permanent :
    (env : Env) (key : String) (f : FailTracker) → (unblock_key env key f).0.permanent ≡ f.permanent
unfolding unblock_key save
unblock_key_permanent env key f = ground arith

fresh_none :
    (env : Env) (key : String) (f : FailTracker)
    → has_permanent key f ≡ false
    → find String_discrete key f.items ≡ none
    → (block_kind env key f).1 ≡ blocked_none
unfolding block_kind block_kind_read
fresh_none env key f p e = ground arith

-- `unblock` of an address that is not permanently blocked: its answer tells whether the tracker had
-- an entry for it, the address is no longer blocked, whatever the time is, and the entries of all
-- others stay. The address is not blank.
pub unblock_lem :
    (env check : Env) (addr other : String) (f : FailTracker)
    → trim_space addr ≢ ""
    → other ≢ trim_space addr
    → has_permanent (trim_space addr) f ≡ false
    → let r = unblock env addr f in
      (r.1 ≡ is_some (find String_discrete (trim_space addr) f.items))
      × ((block_kind check (trim_space addr) r.0).1 ≡ blocked_none)
      × (find String_discrete other r.0.items ≡ find String_discrete other f.items)
unfolding unblock unblock_key has_permanent
unblock_lem env check addr other f n o p =
    let key = trim_space addr in
    let r = unblock_key env key f in
    rw (if_neg (String_discrete key "") n (f, false) r) (
      refl,
      fresh_none check key r.0
          (ap (λ m. is_some (find String_discrete key m)) (unblock_key_permanent env key f) ∙ p)
          (ap (find String_discrete key) (unblock_key_items env key f)
            ∙ find-delete_self String_discrete key f.items),
      ap (find String_discrete other) (unblock_key_items env key f)
          ∙ find-delete String_discrete key other f.items
          ∙ if_neg (String_discrete key other) (λ e. o (cc)) none
              (find String_discrete other f.items),
    )

unblock_saved_gone :
    (now : ℕ) (ip : String) (saved : Map String ℕ)
    → find String_discrete ip (unblock_saved now ip saved).0 ≡ none
unfolding unblock_saved find
unblock_saved_gone now ip [] = refl
unblock_saved_gone now ip ((j, until) ∷ saved) = ground (arith, unblock_saved_gone now ip saved)

unblock_saved_absent :
    (now : ℕ) (ip : String) (saved : Map String ℕ)
    → (unblock_saved now ip saved).1 ≡ is_some (find String_discrete ip saved)
unfolding unblock_saved find
unblock_saved_absent now ip [] = refl
unblock_saved_absent now ip ((j, until) ∷ saved) = ground (arith, unblock_saved_absent now ip saved)

-- What is left of a saved block, once those that have ended are gone.
abbrev pub still_running : ℕ → Option ℕ → Option ℕ
still_running now none = none
still_running now (some until) = if ltb now until then some until else none

unblock_saved_other :
    (now : ℕ) (ip other : String) (saved : Map String ℕ)
    → other ≢ ip
    → other ≢ ""
    → Once String_discrete saved
    → find String_discrete other (unblock_saved now ip saved).0
      ≡ still_running now (find String_discrete other saved)
unfolding unblock_saved find
unblock_saved_other now ip other [] n m o = refl
unblock_saved_other now ip other ((j, u) ∷ saved) n m o =
    ground (arith, o, unblock_saved_other now ip other saved)

-- `UnblockBlockedIP` on the state file, which has each address once: its answer tells whether the file
-- had the address, the file no longer has it, and if it had it, every other address keeps its time
-- where its block still runs and goes where it has ended; a file without the address stays as it is.
-- Neither of the two addresses is blank.
pub unblock_blocked_ip_lem :
    (now : ℕ) (addr other : String) (saved : Map String ℕ)
    → trim_space addr ≢ ""
    → other ≢ trim_space addr
    → other ≢ ""
    → Once String_discrete saved
    → let r = unblock_blocked_ip now addr saved in
      let before = find String_discrete other saved in
      (r.1 ≡ is_some (find String_discrete (trim_space addr) saved))
      × (find String_discrete (trim_space addr) r.0 ≡ none)
      × (find String_discrete other r.0 ≡ (if r.1 then still_running now before else before))
unfolding unblock_blocked_ip
unblock_blocked_ip_lem now addr other saved n o m u = ground (
  arith,
  unblock_saved_absent now (trim_space addr) saved,
  unblock_saved_gone now (trim_space addr) saved,
  unblock_saved_other now (trim_space addr) other saved,
)
