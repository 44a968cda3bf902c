-- ===== src/Counters/Peek.antt =====
-- `entryPeekConn` of src/server/tunnel/entry_security.go, which keeps the first bytes that it reads.
use mathlib.Core.List.{append_assoc, append-nil}
use lsyl_tunnel.Base.{
  ℕ, zero, suc, ◌-◌, ◌≤◌, ◌≡◌, refl, sym, ap, ◌∙◌, ◌⊎◌, false, ◌&&◌, inl, inr, List, [], ◌∷◌, ◌++◌,
  ltb, if◌then◌else◌, if_true, if_false, Bool-cases, length, arith,
}

-- `p[:n]`
unfoldable pub take : {A : Type 0} → ℕ → List A → List A
take zero xs = []
take (suc n) [] = []
take (suc n) (x ∷ xs) = x ∷ take n xs

-- The bytes of `chunk` that `Read` keeps where it has room for `limit`.
unfoldable pub kept_length : ℕ → ℕ → ℕ
kept_length limit n = if ltb n limit then n else limit

-- `Read`, where the connection returns the bytes `chunk`: the prefix afterwards.
unfoldable pub read : List ℕ → List ℕ → List ℕ
read chunk prefix =
    if ltb 0 (length chunk) && ltb (length prefix) 16
    then prefix ++ take (kept_length (16 - length prefix) (length chunk)) chunk
    else prefix

-- `ResetPrefix`
unfoldable pub reset_prefix : List ℕ → List ℕ
reset_prefix prefix = []

abbrev pub read_all : List (List ℕ) → List ℕ → List ℕ
read_all [] prefix = prefix
read_all (chunk ∷ chunks) prefix = read_all chunks (read chunk prefix)

abbrev pub concat : List (List ℕ) → List ℕ
concat [] = []
concat (chunk ∷ chunks) = chunk ++ concat chunks

take-append :
    {A : Type 0} (n : ℕ) (xs ys : List A) → take n (xs ++ ys) ≡ take n xs ++ take (n - length xs) ys
unfolding take
take-append zero xs ys = ap (λ k. take k ys) {x = 0} (omega arith)
take-append (suc n) [] ys = ap (λ k. take k ys) {x = suc n} (omega arith)
take-append (suc n) (x ∷ xs) ys =
    ap (λ r. x ∷ r) (take-append n xs ys ∙ ap (λ k. take n xs ++ take k ys) (omega arith))

take_all : {A : Type 0} (n : ℕ) (ys : List A) → length ys ≤ n → take n ys ≡ ys
unfolding take
take_all zero [] h = refl
take_all zero (y ∷ ys) h = absurd (omega arith)
take_all (suc n) [] h = refl
take_all (suc n) (y ∷ ys) h = ap (λ r. y ∷ r) (take_all n ys (omega arith))

take_kept :
    {A : Type 0} (limit : ℕ) (ys : List A) → take (kept_length limit (length ys)) ys ≡ take limit ys
unfolding kept_length
take_kept limit ys = elim (Bool-cases (ltb (length ys) limit)) [
  | inl h ↦
      ap (λ k. take k ys) (if_true (length ys) limit h)
      ∙ take_all (length ys) ys (omega arith)
      ∙ sym (take_all limit ys (ground arith))
  | inr h ↦ ap (λ k. take k ys) (if_false (length ys) limit h)
]

take_nothing : {A : Type 0} (n : ℕ) (ys : List A) → ((length ys ≡ 0) ⊎ (n ≡ 0)) → take n ys ≡ []
unfolding take
take_nothing zero ys h = refl
take_nothing (suc n) [] h = refl
take_nothing (suc n) (y ∷ ys) h = absurd (ground arith)

length-take :
    {A : Type 0} (n : ℕ) (xs : List A)
    → length (take n xs) ≡ (if ltb n (length xs) then n else length xs)
unfolding take
length-take zero xs = ground arith
length-take (suc n) [] = ground arith
length-take (suc n) (x ∷ xs) = ground (arith, length-take n xs)

-- One more chunk leaves the first sixteen bytes of all that was read.
read_lem : (chunk xs : List ℕ) → read chunk (take 16 xs) ≡ take 16 (xs ++ chunk)
unfolding read
read_lem chunk xs = elim (Bool-cases (ltb 0 (length chunk) && ltb (length (take 16 xs)) 16)) [
  | inl h ↦
      if_true _ _ h
      ∙ ap (λ r. take 16 xs ++ r) (take_kept (16 - length (take 16 xs)) chunk)
      ∙ ap (λ k. take 16 xs ++ take k chunk) (ground (arith, length-take 16 xs))
      ∙ sym (take-append 16 xs chunk)
  | inr h ↦
      if_false _ _ h
      ∙ sym (append-nil (take 16 xs))
      ∙ ap (λ r. take 16 xs ++ r)
          (sym (
            take_nothing (16 - length xs) chunk
              (nothing (length chunk) (length xs) (length (take 16 xs)) (length-take 16 xs) h)))
      ∙ sym (take-append 16 xs chunk)
]
  where
    nothing :
        (n m p : ℕ)
        → p ≡ (if ltb 16 m then 16 else m)
        → (ltb 0 n && ltb p 16) ≡ false
        → (n ≡ 0) ⊎ (16 - m ≡ 0)
    nothing n m p e h = ground arith

read_all_from :
    (chunks : List (List ℕ)) (xs : List ℕ)
    → read_all chunks (take 16 xs) ≡ take 16 (xs ++ concat chunks)
read_all_from [] xs = ap (take 16) (sym (append-nil xs))
read_all_from (chunk ∷ chunks) xs =
    ap (read_all chunks) (read_lem chunk xs)
    ∙ read_all_from chunks (xs ++ chunk)
    ∙ ap (take 16) (append_assoc xs chunk (concat chunks))

-- However the connection cuts its bytes into reads, the prefix that is kept since the last reset is
-- the first sixteen bytes of them, or all where they are fewer.
pub prefix_kept :
    (chunks : List (List ℕ)) (prefix : List ℕ)
    → read_all chunks (reset_prefix prefix) ≡ take 16 (concat chunks)
unfolding reset_prefix take
prefix_kept chunks prefix = read_all_from chunks []
