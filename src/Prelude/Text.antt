-- ===== src/Prelude/Text.antt =====
-- Go's `==` and `<` on strings. `<` compares bytewise, and so does `compare`: it goes by code
-- points, and UTF-8 keeps their order. The order is strict and total.
use Prim.Native.Nat.{Ordering, compare as compare_ℕ}
use Prim.Native.Char.{Char, code}
use Prim.Native.String.{compare, then}
use Prim.Native.String.compare
use text.Mathlib.Text.{is_lt, ◌==◌ as same_text}
use text.Mathlib.TextEquality.{eq_iff as same_text_iff, codes_equal}
use text.Mathlib.TextPositions.{compare_refl}
use quotascale_controller.Prelude.{
  ℕ, String, ◌≡◌, refl, ap, ◌∙◌, ◌↔◌, ◌&&◌, ◌||◌, Bool, true, false, arith, ltb, ◌==◌, Bool-cases,
  inl, inr,
}

abbrev pub str_eq : String → String → Bool
str_eq = same_text

pub str_eq_iff : (s t : String) → (str_eq s t ≡ true) ↔ (s ≡ t)
str_eq_iff = same_text_iff

unfoldable pub str_ltb : String → String → Bool
str_ltb s t = is_lt (compare s t)

-- The head decides, and where the heads agree the tails do.
then_lt :
    (a b : ℕ) (o : Ordering) → is_lt (then (compare_ℕ a b) o) ≡ (ltb a b || (a == b && is_lt o))
then_lt a b o = ground arith

abbrev step_lt : Char → Char → String → String → Bool
step_lt c d s t = ltb (code c) (code d) || (code c == code d && str_ltb s t)

str_ltb-cons :
    (c d : Char) (s t : String) → str_ltb (String.◌∷◌ c s) (String.◌∷◌ d t) ≡ step_lt c d s t
unfolding str_ltb
str_ltb-cons c d s t =
    ap is_lt (compare.cons-cons c d s t) ∙ then_lt (code c) (code d) (compare s t)

str_ltb-nil : (s : String) → str_ltb s String.[] ≡ false
unfolding str_ltb
str_ltb-nil String.[] = ap is_lt compare.nil-nil
str_ltb-nil (String.◌∷◌ c s) = ap is_lt (compare.cons-nil c s)

nil-str_ltb : (d : Char) (t : String) → str_ltb String.[] (String.◌∷◌ d t) ≡ true
unfolding str_ltb
nil-str_ltb d t = ap is_lt (compare.nil-cons d t)

pub str_ltb_irrefl : (s : String) → str_ltb s s ≡ false
unfolding str_ltb
str_ltb_irrefl s = ap is_lt (compare_refl s)

pub str_ltb_trans : (s t u : String) → str_ltb s t ≡ true → str_ltb t u ≡ true → str_ltb s u ≡ true
str_ltb_trans s String.[] u h k = cc (str_ltb-nil s)
str_ltb_trans s (String.◌∷◌ d t) String.[] h k = cc (str_ltb-nil (String.◌∷◌ d t))
str_ltb_trans String.[] (String.◌∷◌ d t) (String.◌∷◌ e u) h k = nil-str_ltb e u
str_ltb_trans (String.◌∷◌ c s) (String.◌∷◌ d t) (String.◌∷◌ e u) h k =
    rw str_ltb-cons
      (ground (arith, str_ltb-cons c d s t, str_ltb-cons d e t u, str_ltb_trans s t u))

pub str_ltb_total : (s t : String) → str_ltb s t ≡ false → str_ltb t s ≡ false → s ≡ t
str_ltb_total String.[] String.[] h k = refl
str_ltb_total String.[] (String.◌∷◌ d t) h k = cc (nil-str_ltb d t)
str_ltb_total (String.◌∷◌ c s) String.[] h k = cc (nil-str_ltb c s)
str_ltb_total (String.◌∷◌ c s) (String.◌∷◌ d t) h k =
    λ i. String.◌∷◌ (heads i) (str_ltb_total s t tails.0 tails.1 i)
  where
    same_codes : code c ≡ code d
    same_codes = ground (arith, str_ltb-cons c d s t, str_ltb-cons d c t s)

    tails : (str_ltb s t ≡ false) × (str_ltb t s ≡ false)
    tails = ground (arith, str_ltb-cons c d s t, str_ltb-cons d c t s)

    heads : c ≡ d
    heads = codes_equal c d (ground (arith, same_codes))

pub str_ltb_asym : (s t : String) → str_ltb s t ≡ true → str_ltb t s ≡ false
str_ltb_asym s t h = ground (arith, str_ltb_trans s t s h, str_ltb_irrefl s)

-- Not to be less is transitive.
pub str_leb_trans :
    (s t u : String) → str_ltb t s ≡ false → str_ltb u t ≡ false → str_ltb u s ≡ false
str_leb_trans s t u h k = elim (Bool-cases (str_ltb u s)) [
  | inr e ↦ e
  | inl e ↦ elim (Bool-cases (str_ltb s t)) [
    | inl lt ↦ cc (str_ltb_trans u s t e lt)
    | inr ge ↦ rw (str_ltb_total s t ge h) k
  ]
]

-- `s + t`
unfoldable pub append : String → String → String
append String.[] t = t
append (String.◌∷◌ c s) t = String.◌∷◌ c (append s t)
