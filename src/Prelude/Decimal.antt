-- ===== src/Prelude/Decimal.antt =====
-- `strconv.FormatInt(n, 10)` of Go's standard library, for numbers of up to 20 digits.
use quotascale_controller.Prelude.{
  ℕ, zero, suc, ◌/◌, ◌%◌, String, ◌≡◌, refl, ltb, ◌==◌, if◌then◌else◌,
}
use quotascale_controller.Prelude.Int.{ℤ, pos, negsuc}
use quotascale_controller.Prelude.Text.{append}

digit : ℕ → String
digit n =
    if n == 0
    then "0"
    else if n == 1
    then "1"
    else if n == 2
    then "2"
    else if n == 3
    then "3"
    else if n == 4
    then "4"
    else if n == 5
    then "5"
    else if n == 6
    then "6"
    else if n == 7
    then "7"
    else if n == 8
    then "8"
    else "9"

-- The digits of a number below 10 ^ fuel.
digits : ℕ → ℕ → String
unfolding digit
digits zero n = ""
digits (suc fuel) n =
    let rest = append (digits fuel (n / 10)) (digit (n % 10)) in if ltb n 10 then digit n else rest

unfoldable pub format_int : ℤ → String
unfolding digits
format_int (pos n) = digits 20 n
format_int (negsuc n) = append "-" (digits 20 (suc n))

some_thousands : format_int (pos 20480) ≡ "20480"
unfolding format_int append
some_thousands = refl

below_zero : format_int (negsuc 6) ≡ "-7"
unfolding format_int append
below_zero = refl
