-- ===== src/Session/Numbers.antt =====
-- The identifiers of attempts, `f"attempt_{attempt_no:03d}"` of SessionStore.create_attempt.
use Prim.Native.Char.{Char, code}
use Prim.Native.String.{◌++◌ as str_append}
use text.Mathlib.TextLemmas.{nil-append, cons-append, append_cancel_left}
use sql_self_healing_agent.Prelude.{
  ℕ, zero, suc, ◌+◌, ◌-◌, ◌*◌, ◌/◌, ◌%◌, ◌<◌, String, ◌≡◌, refl, sym, ap, ◌∙◌, inl, inr, arith, leb,
  Bool-cases, if◌then◌else◌, decimal, decimal_from, digit, [], ◌∷◌, All,
}

-- `f"{n:03d}"`
unfoldable pub padded : ℕ → String
unfolding decimal
padded n =
    if leb n 9
    then String.◌∷◌ "0" (String.◌∷◌ "0" (decimal n))
    else if leb n 99
    then String.◌∷◌ "0" (decimal n)
    else decimal n

unfoldable pub attempt_name : ℕ → String
unfolding padded
attempt_name n = str_append "attempt_" (padded n)

-- The number that decimal digits stand for, read after `acc`.
read_digits : ℕ → String → ℕ
read_digits acc String.[] = acc
read_digits acc (String.◌∷◌ c s) = read_digits (acc * 10 + (code c - 48)) s

digit_cases :
    (d : ℕ) → d < 10 → (P : ℕ → Type 0) → All P (0 ∷ 1 ∷ 2 ∷ 3 ∷ 4 ∷ 5 ∷ 6 ∷ 7 ∷ 8 ∷ 9 ∷ []) → P d
digit_cases zero h P a = a.0
digit_cases (suc zero) h P a = a.1.0
digit_cases (suc (suc zero)) h P a = a.1.1.0
digit_cases (suc (suc (suc zero))) h P a = a.1.1.1.0
digit_cases (suc (suc (suc (suc zero)))) h P a = a.1.1.1.1.0
digit_cases (suc (suc (suc (suc (suc zero))))) h P a = a.1.1.1.1.1.0
digit_cases (suc (suc (suc (suc (suc (suc zero)))))) h P a = a.1.1.1.1.1.1.0
digit_cases (suc (suc (suc (suc (suc (suc (suc zero))))))) h P a = a.1.1.1.1.1.1.1.0
digit_cases (suc (suc (suc (suc (suc (suc (suc (suc zero)))))))) h P a = a.1.1.1.1.1.1.1.1.0
digit_cases (suc (suc (suc (suc (suc (suc (suc (suc (suc zero))))))))) h P a = a.1.1.1.1.1.1.1.1.1.0
digit_cases (suc (suc (suc (suc (suc (suc (suc (suc (suc (suc d)))))))))) h P a =
    absurd (omega arith)

character_append : (c : Char) (s : String) → str_append (String.◌∷◌ c "") s ≡ String.◌∷◌ c s
character_append c s = cons-append c "" s ∙ ap (String.◌∷◌ c) (nil-append s)

read_digits-digit :
    (d acc : ℕ) (s : String)
    → d < 10
    → read_digits acc (str_append (digit d) s) ≡ read_digits (acc * 10 + d) s
unfolding read_digits
read_digits-digit d acc s h =
    digit_cases d h (λ d. read_digits acc (str_append (digit d) s) ≡ read_digits (acc * 10 + d) s)
      (
        at "0",
        (
          at "1",
          (at "2", (at "3", (at "4", (at "5", (at "6", (at "7", (at "8", (at "9", tt)))))))),
        ),
      )
  where
    at :
        (c : Char)
        → read_digits acc (str_append (String.◌∷◌ c "") s)
          ≡ read_digits (acc * 10 + (code c - 48)) s
    at c = ap (read_digits acc) (character_append c s)

read_digits-decimal_from :
    (fuel n : ℕ) (s : String) → n < fuel → read_digits 0 (decimal_from fuel n s) ≡ read_digits n s
unfolding decimal_from
read_digits-decimal_from zero n s h = elim h [ ]
read_digits-decimal_from (suc fuel) n s h = elim (Bool-cases (leb n 9)) [
  | inl small ↦
      rw small
        (read_digits-digit (n % 10) 0 s (omega arith) ∙ ap (λ m. read_digits m s) (ground arith))
  | inr large ↦ rw large (
      read_digits-decimal_from fuel (n / 10) (str_append (digit (n % 10)) s) (ground arith)
      ∙ read_digits-digit (n % 10) (n / 10) s (omega arith)
      ∙ ap (λ m. read_digits m s) (omega arith))
]

read_digits-decimal : (n : ℕ) → read_digits 0 (decimal n) ≡ n
unfolding decimal read_digits
read_digits-decimal n = read_digits-decimal_from (suc n) n "" (omega arith)

read_digits-padded : (n : ℕ) → read_digits 0 (padded n) ≡ n
unfolding padded read_digits
read_digits-padded n = ground (arith, read_digits-decimal n)

-- Different numbers give different names.
pub attempt_name-injective : (m n : ℕ) → attempt_name m ≡ attempt_name n → m ≡ n
unfolding attempt_name
attempt_name-injective m n e =
    sym (read_digits-padded m)
    ∙ ap (read_digits 0) (append_cancel_left "attempt_" (padded m) (padded n) e)
    ∙ read_digits-padded n

first_attempt : attempt_name 7 ≡ "attempt_007"
unfolding attempt_name
first_attempt = refl
