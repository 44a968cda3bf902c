-- ===== src/FailTracker/PermanentFile.antt =====
-- src/server/tunnel/permanent_blocks.go and `unblockPermanent` of fail_persistence.go: the file of
-- banned addresses, as the list of its lines. `parse_ip` is `net.ParseIP` followed by `String`. A
-- line that starts with "#" is a comment: `is_comment` is that test. Reading and writing the file
-- succeed here; whether the file has a name is `has_permanent_file`.
use lsyl_tunnel.Base.{
  ◌≡◌, ◌≢◌, sym, subst, inl, inr, String, Bool, true, false, ◌||◌, Option, List, [], ◌∷◌, All, ite,
  if_neg, if◌then◌else◌, String_discrete, Bool-cases, Map, find, put, delete, find-delete_self,
  trim_space, arith,
}
use lsyl_tunnel.FailTracker.{FailTracker, has_permanent, is_some}
use lsyl_tunnel.FailTracker.Failures.{or_else}

module _ (parse_ip : String → Option String) (is_comment : String → Bool) where
  -- `permanentBlockIPKey`
  unfoldable pub permanent_block_ip_key : String → String
  permanent_block_ip_key value =
      let text = trim_space value in ite (String_discrete text "") "" (or_else (parse_ip text) text)

  -- The loop of `loadPermanentBlockedIPs`.
  unfoldable pub load_permanent_blocked_ips : List String → Map String (Unit {0})
  load_permanent_blocked_ips [] = []
  load_permanent_blocked_ips (line ∷ lines) =
      let ip = trim_space line in
      let rest = load_permanent_blocked_ips lines in
      if ite (String_discrete ip "") true (is_comment ip)
      then rest
      else put String_discrete ip tt rest

  unfoldable pub is_key_of : String → String → Bool
  is_key_of key line = ite (String_discrete (permanent_block_ip_key line) key) true false

  -- The loop of `removePermanentBlockedIPs` for one target: the lines that stay, and whether one went.
  unfoldable pub remove_lines : String → List String → List String × Bool
  unfolding is_key_of
  remove_lines key [] = ([], false)
  remove_lines key (line ∷ lines) =
      let (kept, removed) = remove_lines key lines in
      if is_key_of key line then (kept, true) else (line ∷ kept, removed)

  -- `RemovePermanentBlockedIP`, on a file that has a name or not.
  unfoldable pub remove_permanent_blocked_ip : Bool → String → List String → List String × Bool
  remove_permanent_blocked_ip has_file ip lines =
      let key = permanent_block_ip_key ip in
      ite (String_discrete key "") (lines, false)
        (if has_file then remove_lines key lines else (lines, false))

  -- `unblockPermanent`, once the file has been rewritten.
  unfoldable pub forget_permanent : String → FailTracker → List String × Bool → FailTracker × Bool
  forget_permanent key f (lines, removed) =
      if removed || has_permanent key f
      then (
        record f { permanent = delete String_discrete key f.permanent; permanent_lines = lines },
        true,
      )
      else (f, false)

  unfoldable pub unblock_permanent : String → FailTracker → FailTracker × Bool
  unblock_permanent addr f =
      let key = trim_space addr in
      ite (String_discrete key "") (f, false)
        (forget_permanent (permanent_block_ip_key key) f
          (remove_permanent_blocked_ip f.has_permanent_file key f.permanent_lines))

  -- No line stands for `key`.
  abbrev pub NoLine : String → List String → Type 0
  NoLine key lines = All (λ line. permanent_block_ip_key line ≢ key) lines

  kept_line :
      (key line : String) (lines : List String)
      → is_key_of key line ≡ false
      → (permanent_block_ip_key line ≢ key)
        × ((remove_lines key (line ∷ lines)).0 ≡ line ∷ (remove_lines key lines).0)
  unfolding remove_lines is_key_of
  kept_line key line lines e = (λ p. ground arith, ground arith)

  dropped_line :
      (key line : String) (lines : List String)
      → is_key_of key line ≡ true
      → (remove_lines key (line ∷ lines)).0 ≡ (remove_lines key lines).0
  unfolding remove_lines
  dropped_line key line lines e = ground arith

  remove_lines-NoLine : (key : String) (lines : List String) → NoLine key (remove_lines key lines).0
  unfolding remove_lines
  remove_lines-NoLine key [] = tt
  remove_lines-NoLine key (line ∷ lines) =
      let rest = remove_lines-NoLine key lines in
      elim (Bool-cases (is_key_of key line)) [
        | inl e ↦ subst (NoLine key) (sym (dropped_line key line lines e)) rest
        | inr e ↦
            let (n, same) = kept_line key line lines e in subst (NoLine key) (sym same) (n, rest)
      ]

  -- What `unblockPermanent` is to leave of the address.
  abbrev Gone : String → FailTracker → Type 0
  Gone key f = (has_permanent key f ≡ false) × NoLine key f.permanent_lines

  forget-Gone :
      (key : String) (f : FailTracker) (r : List String × Bool)
      → NoLine key r.0
      → (forget_permanent key f r).1 ≡ true
      → Gone key (forget_permanent key f r).0
  unfolding forget_permanent has_permanent
  forget-Gone key f (lines, removed) n h =
      elim (Bool-cases (removed || is_some (find String_discrete key f.permanent))) [
        | inl e ↦ rw e (ground (arith, find-delete_self String_discrete key f.permanent), n)
        | inr e ↦ absurd (ground arith)
      ]

  removed-NoLine :
      (ip : String) (lines : List String)
      → permanent_block_ip_key ip ≢ ""
      → NoLine (permanent_block_ip_key ip) (remove_permanent_blocked_ip true ip lines).0
  unfolding remove_permanent_blocked_ip
  removed-NoLine ip lines n =
      subst (λ r. NoLine (permanent_block_ip_key ip) r.0)
        (sym (
          if_neg (String_discrete (permanent_block_ip_key ip) "") n (lines, false)
            (remove_lines (permanent_block_ip_key ip) lines)))
        (remove_lines-NoLine (permanent_block_ip_key ip) lines)

  -- Where `unblockPermanent` reports that it lifted a ban, the address is no longer banned and no line
  -- of the file stands for it, so that a restart does not ban it again. The address has a key that is
  -- not "", and there is a file.
  pub unblock_permanent_lasts :
      (addr : String) (f : FailTracker)
      → f.has_permanent_file ≡ true
      → permanent_block_ip_key (trim_space addr) ≢ ""
      → (unblock_permanent addr f).1 ≡ true
      → let key = permanent_block_ip_key (trim_space addr) in
        (has_permanent key (unblock_permanent addr f).0 ≡ false)
        × NoLine key (unblock_permanent addr f).0.permanent_lines
  unfolding unblock_permanent
  unblock_permanent_lasts addr f file n h =
      elim (String_discrete (trim_space addr) "")
          as (λ d.
            (ite d (f, false) forgotten).1 ≡ true → Gone key (ite d (f, false) forgotten).0) [
              | yes p ↦ λ e. cc
              | no q ↦ λ e.
                  forget-Gone key f lifted
                    (subst
                      (λ b.
                        NoLine key
                          (remove_permanent_blocked_ip b (trim_space addr) f.permanent_lines).0)
                      (sym file) (removed-NoLine (trim_space addr) f.permanent_lines n))
                    e
            ]
        h
    where
      key : String
      key = permanent_block_ip_key (trim_space addr)

      lifted : List String × Bool
      lifted = remove_permanent_blocked_ip f.has_permanent_file (trim_space addr) f.permanent_lines

      forgotten : FailTracker × Bool
      forgotten = forget_permanent key f lifted
