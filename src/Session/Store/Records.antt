-- ===== src/Session/Store/Records.antt =====
-- The event records of a session as a table by their keys (session/session_store.py).
use sql_self_healing_agent.Prelude.{
  String, ◌==◌, ◌≡◌, refl, sym, ap, ◌∙◌, inl, inr, true, false, Option, none, some, List, [], ◌∷◌,
  ◌++◌, if◌then◌else◌, find, arith, eq_iff, Bool-cases,
}
use sql_self_healing_agent.Session.Models.{UpstreamTaskEventRecord}
use sql_self_healing_agent.Session.Store.{replace_record}

abbrev pub find_key : String → List UpstreamTaskEventRecord → Option UpstreamTaskEventRecord
find_key k xs = find (λ r. r.event_key == k) xs

-- No key is listed twice.
abbrev pub HasDistinctKeys : List UpstreamTaskEventRecord → Type 0
HasDistinctKeys [] = Unit
HasDistinctKeys (x ∷ xs) = (find_key x.event_key xs ≡ none) × HasDistinctKeys xs

pub find_key-snoc :
    (k : String) (r : UpstreamTaskEventRecord) (xs : List UpstreamTaskEventRecord)
    → find_key k xs ≡ none
    → find_key k (xs ++ r ∷ []) ≡ (if r.event_key == k then some r else none)
find_key-snoc k r [] e = refl
find_key-snoc k r (x ∷ xs) e = ground (arith, find_key-snoc k r xs)

pub find_key-snoc_found :
    (k : String) (r x : UpstreamTaskEventRecord) (xs : List UpstreamTaskEventRecord)
    → find_key k xs ≡ some x
    → find_key k (xs ++ r ∷ []) ≡ some x
find_key-snoc_found k r x [] e = cc
find_key-snoc_found k r x (y ∷ xs) e = ground (arith, find_key-snoc_found k r x xs)

-- A record with a new key is found by it, and every other key finds what it found before.
pub find_key-snoc_new :
    (k : String) (r : UpstreamTaskEventRecord) (xs : List UpstreamTaskEventRecord)
    → find_key r.event_key xs ≡ none
    → find_key k (xs ++ r ∷ []) ≡ (if r.event_key == k then some r else find_key k xs)
find_key-snoc_new k r [] e = refl
find_key-snoc_new k r (x ∷ xs) e = ground (
  arith,
  find_key-snoc_new k r xs,
  eq_iff x.event_key k,
  eq_iff r.event_key k,
  eq_iff x.event_key r.event_key,
)

pub HasDistinctKeys-snoc :
    (r : UpstreamTaskEventRecord) (xs : List UpstreamTaskEventRecord)
    → HasDistinctKeys xs
    → find_key r.event_key xs ≡ none
    → HasDistinctKeys (xs ++ r ∷ [])
HasDistinctKeys-snoc r [] d e = (refl, tt)
HasDistinctKeys-snoc r (x ∷ xs) d e = ground (
  arith,
  HasDistinctKeys-snoc r xs d.1,
  find_key-snoc x.event_key r xs d.0,
  eq_iff r.event_key x.event_key,
  eq_iff x.event_key r.event_key,
)

-- Replacing a record that is there: its key finds it, every other key what it found before, and the
-- keys stay distinct.
abbrev pub Replaced :
    UpstreamTaskEventRecord → List UpstreamTaskEventRecord → List UpstreamTaskEventRecord → Type 0
Replaced r xs ys =
    ((k : String) → find_key k ys ≡ (if r.event_key == k then some r else find_key k xs))
    × (HasDistinctKeys xs → HasDistinctKeys ys)

find_key-changed :
    (k : String) (r y : UpstreamTaskEventRecord) (found : Option UpstreamTaskEventRecord)
    → (y.event_key == r.event_key) ≡ true
    → (if r.event_key == k then some r else found)
      ≡ (if r.event_key == k then some r else if y.event_key == k then some y else found)
find_key-changed k r y found e =
    ground (arith, eq_iff y.event_key r.event_key, eq_iff y.event_key k, eq_iff r.event_key k)

find_key-kept :
    (k : String) (r y : UpstreamTaskEventRecord) (before after : Option UpstreamTaskEventRecord)
    → (y.event_key == r.event_key) ≡ false
    → after ≡ (if r.event_key == k then some r else before)
    → (if y.event_key == k then some y else after)
      ≡ (if r.event_key == k then some r else if y.event_key == k then some y else before)
find_key-kept k r y before after e h =
    ground (arith, eq_iff y.event_key r.event_key, eq_iff y.event_key k, eq_iff r.event_key k)

distinct_changed :
    (r y : UpstreamTaskEventRecord) (xs : List UpstreamTaskEventRecord)
    → (y.event_key == r.event_key) ≡ true
    → HasDistinctKeys (y ∷ xs)
    → HasDistinctKeys (r ∷ xs)
distinct_changed r y xs e d =
    (ap (λ k. find_key k xs) (sym ((eq_iff y.event_key r.event_key).0 e)) ∙ d.0, d.1)

distinct_kept :
    (r y : UpstreamTaskEventRecord) (xs ys : List UpstreamTaskEventRecord)
    → (y.event_key == r.event_key) ≡ false
    → Replaced r xs ys
    → HasDistinctKeys (y ∷ xs)
    → HasDistinctKeys (y ∷ ys)
distinct_kept r y xs ys e p d = (
  p.0 y.event_key
      ∙ ground (arith, eq_iff r.event_key y.event_key, eq_iff y.event_key r.event_key, d.0),
  p.1 d.1,
)

pub replace_record-Replaced :
    (r x : UpstreamTaskEventRecord) (xs : List UpstreamTaskEventRecord)
    → find_key r.event_key xs ≡ some x
    → (ys : List UpstreamTaskEventRecord) × (replace_record r xs ≡ some ys) × Replaced r xs ys
unfolding replace_record
replace_record-Replaced r x [] e = cc
replace_record-Replaced r x (y ∷ xs) e = elim (Bool-cases (y.event_key == r.event_key)) [
  | inl same ↦ (
    r ∷ xs,
    rw same refl,
    (λ k. find_key-changed k r y (find_key k xs) same, distinct_changed r y xs same),
  )
  | inr other ↦
      let (ys, p, kept) = replace_record-Replaced r x xs (rw other at e) in
      (
        y ∷ ys,
        rw (other, p) refl,
        (
          λ k. find_key-kept k r y (find_key k xs) (find_key k ys) other (kept.0 k),
          distinct_kept r y xs ys other kept,
        ),
      )
]

-- A record is found by its own key.
pub find_key-own :
    (k : String) (r : UpstreamTaskEventRecord) (xs : List UpstreamTaskEventRecord)
    → find_key k xs ≡ some r
    → r.event_key ≡ k
find_key-own k r [] e = cc
find_key-own k r (x ∷ xs) e = ground (arith, find_key-own k r xs, eq_iff x.event_key k)
