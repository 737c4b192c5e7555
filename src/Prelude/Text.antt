-- ===== src/Prelude/Text.antt =====
-- Python strings and lists of strings: truth, blankness, membership, `dict.fromkeys`.
use Prim.Native.Nat.{ℕ, zero, suc, ◌/◌, ◌%◌}
use Prim.Native.Char.{code}
use Prim.Native.String.{String, slice, ◌++◌ as str_append}
use mathlib.Core.Path.{◌≡◌, refl}
use mathlib.Core.Bool.{Bool, true, false, not, ◌&&◌, ◌||◌}
use mathlib.Core.Option.{Option, none, some}
use mathlib.Core.List.{List, [], ◌∷◌, ◌++◌}
use native.Mathlib.Omega.{arith}
use text.Mathlib.Text.{◌==◌}
use text.Mathlib.TextEquality.{eq_iff}
use sql_self_healing_agent.Prelude.Tests.{leb, nat_eq, if◌then◌else◌}

-- The code points that `str.isspace` accepts, which `str.strip` and `\s` read.
unfoldable pub is_space : ℕ → Bool
is_space c =
    leb 9 c && leb c 13
    || leb 28 c && leb c 32
    || nat_eq c 133
    || nat_eq c 160
    || nat_eq c 5760
    || leb 8192 c && leb c 8202
    || nat_eq c 8232
    || nat_eq c 8233
    || nat_eq c 8239
    || nat_eq c 8287
    || nat_eq c 12288

-- `not s.strip()`
unfoldable pub is_blank : String → Bool
unfolding is_space
is_blank String.[] = true
is_blank (String.◌∷◌ c s) = is_space (code c) && is_blank s

-- `bool(s)` of a text, and of an optional text.
abbrev pub truthy : String → Bool
truthy s = not (s == "")

abbrev pub some_text : Option String → Bool
some_text none = false
some_text (some s) = truthy s

-- `s or ""`
abbrev pub text_or : Option String → String → String
text_or none d = d
text_or (some s) d = if truthy s then s else d

-- `a == b` of optional texts.
abbrev pub same_text : Option String → Option String → Bool
same_text none none = true
same_text (some a) (some b) = a == b
same_text _ _ = false

-- `k in xs`
abbrev pub contains : String → List String → Bool
contains k [] = false
contains k (x ∷ xs) = x == k || contains k xs

abbrev pub without : String → List String → List String
without k [] = []
without k (x ∷ xs) = let rest = without k xs in if x == k then rest else x ∷ rest

-- `list(dict.fromkeys(xs))`: the first of each text, in order.
unfoldable pub from_keys : List String → List String
from_keys [] = []
from_keys (x ∷ xs) = x ∷ without x (from_keys xs)

pub contains-append :
    (k : String) (xs ys : List String) → contains k (xs ++ ys) ≡ (contains k xs || contains k ys)
contains-append k [] ys = refl
contains-append k (x ∷ xs) ys = ground (arith, contains-append k xs ys)

contains-without :
    (k j : String) (xs : List String)
    → contains j (without k xs) ≡ (if k == j then false else contains j xs)
contains-without k j [] = ground arith
contains-without k j (x ∷ xs) =
    ground (arith, contains-without k j xs, eq_iff x k, eq_iff x j, eq_iff k j)

-- Removing duplicates keeps exactly the members.
pub contains-from_keys : (k : String) (xs : List String) → contains k (from_keys xs) ≡ contains k xs
unfolding from_keys
contains-from_keys k [] = refl
contains-from_keys k (x ∷ xs) =
    ground (arith, contains-without x k (from_keys xs), contains-from_keys k xs)

abbrev pub digit : ℕ → String
digit d = slice "0123456789" d (suc d)

unfoldable pub decimal_from : ℕ → ℕ → String → String
decimal_from zero n s = s
decimal_from (suc fuel) n s =
    let s' = str_append (digit (n % 10)) s in
    let rest = decimal_from fuel (n / 10) s' in if leb n 9 then s' else rest

-- `str(n)`; a number has no more digits than units, so the fuel is enough.
unfoldable pub decimal : ℕ → String
unfolding decimal_from
decimal n = decimal_from (suc n) n ""

decimal_test : decimal 2026 ≡ "2026"
unfolding decimal
decimal_test = refl
