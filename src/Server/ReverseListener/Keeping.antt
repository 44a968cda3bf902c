-- ===== src/Server/ReverseListener/Keeping.antt =====
-- What every state of a reverse listener of src/server/tunnel/reverse.go has.
use lsyl_tunnel.Base.{
  ℕ, ◌+◌, ◌≤◌, ◌≡◌, refl, String, true, none, some, List, [], ◌∷◌, ◌++◌, String_discrete,
  ℕ_discrete, length, count, Map, Once, find, put, delete, find-put, arith,
}
use lsyl_tunnel.Server.Lifecycle.{has_id, remove_id}
use lsyl_tunnel.Server.ReverseListener.{Reverse, conns_of, new_reverse}

abbrev pub occurs : ℕ → List ℕ → ℕ
occurs c xs = count ℕ_discrete c xs

pub occurs-append : (c : ℕ) (xs ys : List ℕ) → occurs c (xs ++ ys) ≡ occurs c xs + occurs c ys
occurs-append c [] ys = omega arith
occurs-append c (x ∷ xs) ys = ground (arith, occurs-append c xs ys)

pub occurs-put :
    (c : ℕ) (key : String) (conn : ℕ) (m : Map String ℕ)
    → find String_discrete key m ≡ none
    → occurs c (conns_of (put String_discrete key conn m)) ≡ occurs c (conn ∷ conns_of m)
unfolding find put
occurs-put c key conn [] h = refl
occurs-put c key conn ((k, v) ∷ m) h = ground (arith, occurs-put c key conn m)

pub put-Once :
    (key : String) (conn : ℕ) (m : Map String ℕ)
    → find String_discrete key m ≡ none
    → Once String_discrete m
    → Once String_discrete (put String_discrete key conn m)
unfolding find put
put-Once key conn [] h o = (refl, tt)
put-Once key conn ((k, v) ∷ m) h o =
    ground (arith, put-Once key conn m, find-put String_discrete key k conn m)

delete_missing :
    (key : String) (m : Map String ℕ)
    → find String_discrete key m ≡ none
    → delete String_discrete key m ≡ m
unfolding find delete
delete_missing key [] h = refl
delete_missing key ((k, v) ∷ m) h = ground (arith, delete_missing key m)

pub occurs-delete :
    (c : ℕ) (key : String) (conn : ℕ) (m : Map String ℕ)
    → Once String_discrete m
    → find String_discrete key m ≡ some conn
    → occurs c (conns_of m) ≡ occurs c (conn ∷ conns_of (delete String_discrete key m))
unfolding find delete
occurs-delete c key conn [] o h = ground arith
occurs-delete c key conn ((k, v) ∷ m) o h =
    ground (arith, occurs-delete c key conn m, delete_missing key m)

pub occurs-remove_id :
    (c conn : ℕ) (xs : List ℕ)
    → has_id conn xs ≡ true
    → occurs c xs ≡ occurs c (conn ∷ remove_id conn xs)
unfolding remove_id
occurs-remove_id c conn [] h = ground arith
occurs-remove_id c conn (x ∷ xs) h = ground (arith, occurs-remove_id c conn xs)

-- What every state of a reverse listener has.
pub record Kept (s : Reverse) : Type 0 where
  pub once : Once String_discrete s.listener.pending
  pub one_control : length s.listener.controls ≤ 1
  pub empty : s.listener.closed ≡ true → (s.listener.controls ≡ []) × (s.listener.pending ≡ [])
  pub balance :
      (c : ℕ)
      → occurs c s.arrived
        ≡ occurs c s.waiting
          + occurs c (conns_of s.listener.pending)
          + occurs c s.taken
          + occurs c s.relayed
          + occurs c s.dropped

pub new_reverse-Kept : Kept new_reverse
unfolding find
new_reverse-Kept = record {
  once = tt;
  one_control = omega arith;
  empty = λ h. (refl, refl);
  balance = λ c. refl;
}
