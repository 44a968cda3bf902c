-- ===== src/FailTracker/Bans.antt =====
-- Protocol failures of one address, up to the ban, and the protection of an address that logged in
-- today: `addProtocolFailure` of src/server/tunnel/fail_tracker.go and `markSuccessful` of
-- src/server/tunnel/successful_ip_history.go.
use lsyl_tunnel.Base.{
  ◌≡◌, refl, sym, ap, subst, inl, inr, String, Bool, true, false, Option, none, some, [], ◌∷◌, ◌++◌,
  leb, if_pos, String_discrete, Option-cases, Bool-cases, length, find, find-put_self,
  find-delete_self, trim_space, arith,
}
use lsyl_tunnel.FailTracker.{
  FailTracker, FailState, Env, blocked_permanent, has_permanent, is_some, is_untracked,
  recent_failures, save, track_state,
}
use lsyl_tunnel.FailTracker.Failures.{
  block_kind, block_kind_read, ban, block_key, block_permanent, count_protocol_failure,
  add_tracked_protocol_failure, protect_or_count, add_protocol_failure, append_fails, or_else,
}
use lsyl_tunnel.FailTracker.Success.{
  rotate_successful_ips, successful_today, canonical_successful_ip, mark_successful, mark_key,
  forget_protocol_failures,
}

-- `key` is banned: the set has it, and no entry is left of it.
abbrev pub Banned : String → FailTracker → Type 0
Banned key f = (has_permanent key f ≡ true) × (find String_discrete key f.items ≡ none)

ban-Banned : (env : Env) (key : String) (f : FailTracker) → Banned key (ban env key f)
unfolding ban save has_permanent
ban-Banned env key f = (
  ground (arith, find-put_self String_discrete key tt f.permanent),
  ground (arith, find-delete_self String_discrete key f.items),
)

-- What an operation that may ban answers: `true` only where it banned `key`.
abbrev Verdict : String → FailTracker × Bool → Type 0
Verdict key (f, false) = Unit {0}
Verdict key (f, true) = Banned key f

block_key-Verdict : (env : Env) (key : String) (f : FailTracker) → Verdict key (block_key env key f)
unfolding block_key
block_key-Verdict env key f = elim (Bool-cases (is_untracked key f)) [
  | inl u ↦ rw u tt
  | inr n ↦ elim (Bool-cases (append_fails env f)) [
    | inl u ↦ rw (n, u) tt
    | inr m ↦ rw (n, m) (ban-Banned env key f)
  ]
]

count-Verdict :
    (env : Env) (addr key : String) (st : FailState) (f : FailTracker)
    → Verdict (trim_space addr) (count_protocol_failure env addr key st f)
unfolding count_protocol_failure block_permanent
count-Verdict env addr key st f =
    elim (Bool-cases (
      leb f.limit
        (length (recent_failures f.window env.now st.protocol_failures ++ env.now ∷ [])))) [
          | inl h ↦ rw h (block_key-Verdict env (trim_space addr) _)
          | inr h ↦ rw h tt
        ]

tracked-Verdict :
    (env : Env) (addr key : String) (r : FailTracker × Bool)
    → Verdict (trim_space addr) (add_tracked_protocol_failure env addr key r)
unfolding add_tracked_protocol_failure
tracked-Verdict env addr key (f, false) = tt
tracked-Verdict env addr key (f, true) = elim (Bool-cases (has_permanent addr f)) [
  | inl h ↦ rw h tt
  | inr h ↦ elim (Option-cases (find String_discrete key f.items)) [
    | inl e ↦ rw (h, e) tt
    | inr (st, e) ↦ rw (h, e) (count-Verdict env addr key st f)
  ]
]

protect-Verdict :
    (env : Env) (key : String) (r : FailTracker × Bool)
    → Verdict (trim_space key) (protect_or_count env key r)
unfolding protect_or_count
protect-Verdict env key (f, true) = tt
protect-Verdict env key (f, false) =
    tracked-Verdict env key (trim_space key) (track_state key env.now f)

of_Verdict : (key : String) (r : FailTracker × Bool) → Verdict key r → r.1 ≡ true → Banned key r.0
of_Verdict key (f, false) v h = cc
of_Verdict key (f, true) v h = v

pub block_kind_banned :
    (env : Env) (key : String) (f : FailTracker)
    → has_permanent key f ≡ true
    → block_kind env key f ≡ (f, blocked_permanent)
unfolding block_kind block_kind_read
block_kind_banned env key f h = ground arith

module _ (parse_ip : String → Option String) where
  -- The key under which `addProtocolFailure` counts an address.
  abbrev pub protocol_key : String → String
  protocol_key addr = trim_space (or_else (canonical_successful_ip parse_ip addr) addr)

  -- A ban that `addProtocolFailure` reports: the set has the address, and its entry is gone.
  pub add_protocol_failure-Banned :
      (env : Env) (addr : String) (f : FailTracker)
      → (add_protocol_failure parse_ip env addr f).1 ≡ true
      → Banned (protocol_key addr) (add_protocol_failure parse_ip env addr f).0
  unfolding add_protocol_failure
  add_protocol_failure-Banned env addr f h =
      let key = or_else (canonical_successful_ip parse_ip addr) addr in
      of_Verdict (trim_space key) (protect_or_count env key (successful_today key env.date f))
        (protect-Verdict env key (successful_today key env.date f)) h

  rotated :
      (date : String) (f : FailTracker) → (rotate_successful_ips date f).successful_date ≡ date
  unfolding rotate_successful_ips
  rotated date f = ground arith

  -- What `markSuccessful` leaves where it answers `true`.
  abbrev Marked : String → String → FailTracker × Bool → Type 0
  Marked key date (f, false) = Unit {0}
  Marked key date (f, true) =
      (f.successful_date ≡ date) × (is_some (find String_discrete key f.successful_ips) ≡ true)

  mark_key-Marked :
      (key date : String) (f : FailTracker)
      → f.successful_date ≡ date
      → Marked key date (mark_key parse_ip key f)
  unfolding mark_key forget_protocol_failures
  mark_key-Marked key date f h =
      elim (Bool-cases (is_some (find String_discrete key f.successful_ips))) [
        | inl e ↦ rw e (ground arith)
        | inr e ↦ elim (Bool-cases (leb f.max_items (length f.successful_ips))) [
          | inl full ↦ rw (e, full) tt
          | inr room ↦
              rw (e, room) (ground (arith, find-put_self String_discrete key tt f.successful_ips))
        ]
      ]

  today_marked :
      (key date : String) (f : FailTracker)
      → f.successful_date ≡ date
      → is_some (find String_discrete key f.successful_ips) ≡ true
      → successful_today key date f ≡ (f, true)
  unfolding successful_today rotate_successful_ips
  today_marked key date f h e =
      rw (if_pos (String_discrete f.successful_date date) h) (ap (λ b. (f, b)) e)

  Marked-protects :
      (env : Env) (addr key date : String) (r : FailTracker × Bool)
      → Marked key date r
      → r.1 ≡ true
      → canonical_successful_ip parse_ip addr ≡ some key
      → env.date ≡ date
      → add_protocol_failure parse_ip env addr r.0 ≡ (r.0, false)
  unfolding add_protocol_failure protect_or_count
  Marked-protects env addr key date (f, false) m h c d = cc
  Marked-protects env addr key date (f, true) m h c d =
      rw (c, d, today_marked key date f m.0 m.1) refl

  mark-Marked :
      (env : Env) (addr key : String) (f : FailTracker)
      → canonical_successful_ip parse_ip addr ≡ some key
      → Marked key env.date (mark_successful parse_ip env addr f)
  unfolding mark_successful
  mark-Marked env addr key f c =
      subst (Marked key env.date) (sym called)
        (mark_key-Marked key env.date (rotate_successful_ips env.date f) (rotated env.date f))
    where
      called :
          mark_successful parse_ip env addr f
          ≡ mark_key parse_ip key (rotate_successful_ips env.date f)
      called = rw (c, mark_successful) refl

  -- An address that `markSuccessful` recorded is not banned for a protocol failure on that date: the
  -- failure changes nothing in the tracker, and the answer is `false`. The two addresses need only be
  -- spellings of the same IP.
  pub success_protects :
      (first later : Env) (addr again key : String) (f : FailTracker)
      → canonical_successful_ip parse_ip addr ≡ some key
      → canonical_successful_ip parse_ip again ≡ some key
      → later.date ≡ first.date
      → (mark_successful parse_ip first addr f).1 ≡ true
      → let g = (mark_successful parse_ip first addr f).0 in
        add_protocol_failure parse_ip later again g ≡ (g, false)
  success_protects first later addr again key f c d same h =
      Marked-protects later again key first.date (mark_successful parse_ip first addr f)
        (mark-Marked first addr key f c) h d same
