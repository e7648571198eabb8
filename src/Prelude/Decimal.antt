-- ===== src/Prelude/Decimal.antt =====
-- Python's text of a number that is not negative: its decimal digits.
use Prim.Native.Nat.{ℕ, zero, suc, ◌/◌, ◌%◌, ◌<◌}
use Prim.Native.String.{String, ◌++◌}
use mathlib.Core.Path.{◌≡◌, refl}
use native.Mathlib.Omega.{arith}
use funduq_server.Prelude.Tests.{ltb, nat_eq, if◌then◌else◌}

digit : ℕ → String
digit n =
    if nat_eq n 0
    then "0"
    else if nat_eq n 1
    then "1"
    else if nat_eq n 2
    then "2"
    else if nat_eq n 3
    then "3"
    else if nat_eq n 4
    then "4"
    else if nat_eq n 5
    then "5"
    else if nat_eq n 6
    then "6"
    else if nat_eq n 7
    then "7"
    else if nat_eq n 8
    then "8"
    else "9"

-- one round for each digit, on fuel
digits : ℕ → ℕ → String
unfolding digit
digits zero n = ""
digits (suc fuel) n =
    let longer = digits fuel (n / 10) ++ digit (n % 10) in if ltb n 10 then digit n else longer

-- Any fuel above the number gives the same text.
digits_enough : (f g n : ℕ) → n < f → n < g → digits f n ≡ digits g n
unfolding digits
digits_enough zero g n hf hg = absurd (omega arith)
digits_enough (suc f) zero n hf hg = absurd (omega arith)
digits_enough (suc f) (suc g) n hf hg = ground (arith, digits_enough f g (n / 10))

unfoldable pub decimal : ℕ → String
unfolding digits
decimal n = digits (suc n) n

decimal_test : decimal 1024 ≡ "1024"
unfolding decimal
decimal_test = refl
