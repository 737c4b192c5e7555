-- ===== src/Agent/Graph/Pigeonhole.antt =====
-- Lists of names: membership, and that distinct names among others are at most as many.
use sql_self_healing_agent.Prelude.{
  suc, ◌≤◌, String, ◌≡◌, true, false, List, [], ◌∷◌, ◌==◌, contains, length, All, arith, eq_iff,
  eq_refl, if◌then◌else◌,
}
use sql_self_healing_agent.Agent.Graph.Spec.{Distinct}

erase : String → List String → List String
erase x [] = []
erase x (y ∷ ys) = let rest = erase x ys in if y == x then ys else y ∷ rest

length-erase :
    (x : String) (ys : List String) → contains x ys ≡ true → length ys ≡ suc (length (erase x ys))
unfolding erase
length-erase x [] h = cc
length-erase x (y ∷ ys) h = ground (arith, length-erase x ys)

contains-erase :
    (x k : String) (ys : List String)
    → (x == k) ≡ false
    → contains k ys ≡ true
    → contains k (erase x ys) ≡ true
unfolding erase
contains-erase x k [] n h = cc
contains-erase x k (y ∷ ys) n h =
    ground (arith, contains-erase x k ys n, eq_iff y x, eq_iff y k, eq_iff x k)

abbrev pub Inside : List String → List String → Type 0
Inside ys xs = All (λ x. contains x ys ≡ true) xs

Inside-erase :
    (x : String) (ys xs : List String)
    → contains x xs ≡ false
    → Inside ys xs
    → Inside (erase x ys) xs
Inside-erase x ys [] n h = tt
Inside-erase x ys (k ∷ xs) n h = (
  contains-erase x k ys (ground (arith, eq_iff x k, eq_iff k x)) h.0,
  Inside-erase x ys xs (ground arith) h.1,
)

-- Distinct names that all occur in a list are at most as many as its entries.
pub pigeonhole : (xs ys : List String) → Distinct xs → Inside ys xs → length xs ≤ length ys
pigeonhole [] ys d h = omega arith
pigeonhole (x ∷ xs) ys d h =
    omega
      (arith, length-erase x ys h.0, pigeonhole xs (erase x ys) d.1 (Inside-erase x ys xs d.0 h.1))

-- What all members satisfy as a test holds of each member.
pub Inside-contains :
    (k : String) (ys xs : List String) → Inside ys xs → contains k xs ≡ true → contains k ys ≡ true
Inside-contains k ys [] h m = cc
Inside-contains k ys (x ∷ xs) h m = ground (arith, eq_iff x k, Inside-contains k ys xs h.1, h.0)

pub Inside-weaken :
    (ys zs xs : List String)
    → ((k : String) → contains k ys ≡ true → contains k zs ≡ true)
    → Inside ys xs
    → Inside zs xs
Inside-weaken ys zs [] w h = tt
Inside-weaken ys zs (x ∷ xs) w h = (w x h.0, Inside-weaken ys zs xs w h.1)

pub Inside-self : (xs : List String) → Inside xs xs
Inside-self [] = tt
Inside-self (x ∷ xs) =
    (ground (arith, eq_refl x), Inside-weaken xs (x ∷ xs) xs (λ k h. ground arith) (Inside-self xs))
