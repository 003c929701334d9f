-- ===== src/Prelude/Float.antt =====
-- Go's float64 (IEEE 754 binary64, round to nearest, ties to even) where the sources use it: on
-- values that come from `int64`s by one product and one quotient. A finite value is a sign and a
-- magnitude in units of 2^-128. Those values lie between 2^-63 and 2^70 or are 0, so all of their 53
-- bits stand above the unit, and neither overflow nor underflow occurs.
use quotascale_controller.Prelude.{
  ℕ, zero, suc, ◌+◌, ◌-◌, ◌*◌, ◌/◌, ◌%◌, ◌^◌, ◌≡◌, refl, Bool, true, false, not, ltb, ◌==◌,
  if◌then◌else◌,
}
use quotascale_controller.Prelude.Int.{ℤ, pos, negsuc, pos_part, neg_part, sub_ℕ}

-- `not_finite` stands for the infinities and the results that are no number.
pub data Float64 : Type 0 where
  finite : Bool → ℕ → Float64
  not_finite : Float64

-- The number of binary digits; `fuel` bounds it.
pub bit_length : ℕ → ℕ → ℕ
bit_length zero n = 0
bit_length (suc fuel) n = let rest = suc (bit_length fuel (n / 2)) in if n == 0 then 0 else rest

-- The whole number nearest to n / d, the even one of two.
pub nearest : ℕ → ℕ → ℕ
nearest n d =
    let q = n / d in
    let twice = 2 * (n % d) in if ltb twice d then q else if ltb d twice then q + 1 else q + q % 2

-- The magnitude nearest to n / d that has 53 significant digits.
unfoldable pub round : ℕ → ℕ → ℕ
unfolding bit_length nearest
round n d =
    let scaled = n * 2 ^ 128 in
    let drop = bit_length 256 (scaled / d) - 53 in nearest scaled (d * 2 ^ drop) * 2 ^ drop

abbrev is_neg : ℤ → Bool
is_neg (pos n) = false
is_neg (negsuc n) = true

-- `float64(z)`
unfoldable pub of_int64 : ℤ → Float64
unfolding round
of_int64 z = finite (is_neg z) (round (pos_part z + neg_part z) 1)

abbrev differ : Bool → Bool → Bool
differ a b = if a then not b else b

unfoldable pub mul : Float64 → Float64 → Float64
unfolding round
mul (finite s a) (finite t b) = finite (differ s t) (round (a * b) (2 ^ 256))
mul (finite s a) not_finite = not_finite
mul not_finite y = not_finite

unfoldable pub div : Float64 → Float64 → Float64
unfolding round
div (finite s a) (finite t zero) = not_finite
div (finite s a) (finite t (suc b)) = finite (differ s t) (round a (suc b))
div (finite s a) not_finite = not_finite
div not_finite y = not_finite

-- `int64(x)` drops the fraction. For a value out of range the language leaves the result to the
-- implementation; amd64 gives the lowest int64.
unfoldable pub to_int64 : Float64 → ℤ
to_int64 (finite s a) =
    let whole = a / 2 ^ 128 in
    if ltb whole (2 ^ 63) then (if s then sub_ℕ 0 whole else pos whole) else negsuc (2 ^ 63 - 1)
to_int64 not_finite = negsuc (2 ^ 63 - 1)

-- 29 of 100 in percent, by a quotient and a product: 28.999999999999996.
twenty_nine_percent :
    to_int64 (mul (div (of_int64 (pos 29)) (of_int64 (pos 100))) (of_int64 (pos 100))) ≡ pos 28
unfolding to_int64 mul div of_int64
twenty_nine_percent = refl

third :
    to_int64 (div (mul (of_int64 (pos 1000)) (of_int64 (pos 100))) (of_int64 (pos 70))) ≡ pos 1428
unfolding to_int64 mul div of_int64
third = refl
