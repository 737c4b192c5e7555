-- ===== src/Repair/Evaluator/Oscillation.antt =====
-- When ErrorOscillationDetector.detect (repair/error_oscillation_detector.py) reports oscillation.
use sql_self_healing_agent.Prelude.{
  ℕ, zero, suc, ◌-◌, String, ◌≡◌, refl, ap, ◌↔◌, true, false, ◌&&◌, List, [], ◌∷◌, ◌++◌, ◌==◌,
  length, leb, arith, eq_iff, eq_refl, Bool-cases, inl, inr, length-append, map,
}
use sql_self_healing_agent.Repair.Models.{DiagnosisHistoryItem}
use sql_self_healing_agent.Repair.Evaluator.{
  drop, last_n, returns_first, alternates, oscillates, detect, fingerprint,
}

module _ {ℓ} {A : Type ℓ} where
  drop-suc : (k : ℕ) (xs : List A) → drop 1 (drop k xs) ≡ drop (suc k) xs
  drop-suc zero xs = refl
  drop-suc (suc k) [] = refl
  drop-suc (suc k) (x ∷ xs) = drop-suc k xs

  length-drop : (k : ℕ) (xs : List A) → length (drop k xs) ≡ length xs - k
  length-drop zero xs = omega arith
  length-drop (suc k) [] = omega arith
  length-drop (suc k) (x ∷ xs) = omega (arith, length-drop k xs)

  drop-length-append : (front back : List A) → drop (length front) (front ++ back) ≡ back
  drop-length-append [] back = refl
  drop-length-append (x ∷ front) back = drop-length-append front back

  split_at : (k : ℕ) (xs : List A) → (front : List A) × (xs ≡ front ++ drop k xs)
  split_at zero xs = ([], refl)
  split_at (suc k) [] = ([], refl)
  split_at (suc k) (x ∷ xs) = let (front, e) = split_at k xs in (x ∷ front, ap (λ l. x ∷ l) e)

-- A window A/B/A/B ends in B/A/B.
returns-alternates : (xs : List String) → alternates xs ≡ true → returns_first (drop 1 xs) ≡ true
returns-alternates [] h = cc
returns-alternates (a ∷ []) h = cc
returns-alternates (a ∷ b ∷ []) h = cc
returns-alternates (a ∷ b ∷ c ∷ []) h = cc
returns-alternates (a ∷ b ∷ c ∷ d ∷ xs) h =
    ground (arith, eq_iff a c, eq_iff b d, eq_iff a b, eq_iff b c)

-- The second window adds nothing.
oscillates_by_three :
    (fs : List String) → oscillates fs ≡ (leb 3 (length fs) && returns_first (last_n 3 fs))
unfolding oscillates
oscillates_by_three fs = elim (Bool-cases (leb 4 (length fs) && alternates (last_n 4 fs))) [
  | inl h ↦ ground (arith, sub h)
  | inr h ↦ ground arith
]
  where
    sub :
        (leb 4 (length fs) && alternates (last_n 4 fs)) ≡ true → returns_first (last_n 3 fs) ≡ true
    sub h =
        let e : length fs - 3 ≡ suc (length fs - 4) = ground arith in
        rw e (
          rw (← drop-suc (length fs - 4) fs)
            (returns-alternates (drop (length fs - 4) fs) (ground arith)))

-- The last three fingerprints are A, B, A with A and B different.
abbrev pub EndsInReturn : List String → Type 0
EndsInReturn fs =
    (front : List String) × (a : String) × (b : String) × (fs ≡ front ++ a ∷ b ∷ a ∷ [])
    × ((a == b) ≡ false)

return_of_three :
    (ys front fs : List String)
    → fs ≡ front ++ ys
    → length ys ≡ 3
    → returns_first ys ≡ true
    → EndsInReturn fs
return_of_three (a ∷ b ∷ c ∷ []) front fs e l h =
    (front, a, b, ground (arith, eq_iff a c), ground arith)
return_of_three [] front fs e l h = cc
return_of_three (a ∷ []) front fs e l h = cc
return_of_three (a ∷ b ∷ []) front fs e l h = cc
return_of_three (a ∷ b ∷ c ∷ d ∷ ys) front fs e l h = absurd (omega arith)

three_of_return :
    (front : List String) (a b : String)
    → (a == b) ≡ false
    → oscillates (front ++ a ∷ b ∷ a ∷ []) ≡ true
three_of_return front a b h =
    rw (oscillates_by_three (front ++ a ∷ b ∷ a ∷ []))
      (ground (arith, length-append front (a ∷ b ∷ a ∷ []), window, eq_refl a))
  where
    window : last_n 3 (front ++ a ∷ b ∷ a ∷ []) ≡ a ∷ b ∷ a ∷ []
    window =
        let e : length (front ++ a ∷ b ∷ a ∷ []) - 3 ≡ length front =
          omega (arith, length-append front (a ∷ b ∷ a ∷ [])) in
        rw e (drop-length-append front (a ∷ b ∷ a ∷ []))

-- Oscillation is reported exactly when the last three fingerprints are A, B, A with A different
-- from B; the longer pattern A, B, A, B is a case of it.
pub detect_iff :
    (history : List DiagnosisHistoryItem)
    → (detect history ≡ true) ↔ EndsInReturn (map fingerprint history)
unfolding detect
detect_iff history = (
  λ h. forward (map fingerprint history) h,
  λ r. let (front, a, b, e, ne) = r in rw e (three_of_return front a b ne),
)
  where
    forward : (fs : List String) → oscillates fs ≡ true → EndsInReturn fs
    forward fs h =
        let (front, e) = split_at (length fs - 3) fs in
        return_of_three (last_n 3 fs) front fs e
          (ground (arith, length-drop (length fs - 3) fs, oscillates_by_three fs))
          (ground (arith, oscillates_by_three fs))
