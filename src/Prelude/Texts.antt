-- ===== src/Prelude/Texts.antt =====
-- Equality of texts is decidable, and numbers print in decimal.
use Prim.Native.Nat.{ℕ, zero, suc, ◌/◌, ◌%◌}
use Prim.Native.String.{String, ◌++◌}
use mathlib.Core.Path.{◌≡◌, refl}
use mathlib.Core.Logic.{inl, inr}
use text.Mathlib.Text.{◌==◌ as str_eq}
use text.Mathlib.TextEquality.{eq_iff}
use ephy_worker.Prelude.Tests.{Bool-cases, ltb, ◌==◌, if◌then◌else◌}

unfoldable pub String-discrete : Discrete String
unfolding Bool-cases
String-discrete s t = elim (Bool-cases (str_eq s t)) [
  | inl same ↦ yes ((eq_iff s t).0 same)
  | inr differ ↦ no (λ e. cc (differ, (eq_iff s t).1 e))
]

digit : ℕ → String
digit n =
    if n == 0
    then "0"
    else if n == 1
    then "1"
    else if n == 2
    then "2"
    else if n == 3
    then "3"
    else if n == 4
    then "4"
    else if n == 5
    then "5"
    else if n == 6
    then "6"
    else if n == 7
    then "7"
    else if n == 8
    then "8"
    else "9"

decimal_from : ℕ → ℕ → String
decimal_from zero n = ""
decimal_from (suc fuel) n =
    let high = decimal_from fuel (n / 10) in if ltb n 10 then digit n else high ++ digit (n % 10)

-- `str(n)`: a number has no more digits than its value and one.
unfoldable pub decimal : ℕ → String
unfolding decimal_from digit
decimal n = decimal_from (suc n) n

decimal_40 : decimal 4075 ≡ "4075"
unfolding decimal
decimal_40 = refl
