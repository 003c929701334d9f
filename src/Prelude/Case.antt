-- ===== src/Prelude/Case.antt =====
-- `strings.ToLower` and `strings.Contains`, as the sources use them: against texts of small ASCII
-- letters, digits, blanks. A text is the list of its code points.
use Prim.Native.Char.{code}
use quotascale_controller.Prelude.{
  ℕ, ◌+◌, ◌≡◌, refl, String, Bool, true, false, ◌&&◌, ◌||◌, List, [], ◌∷◌, map, leb, ◌==◌,
  if◌then◌else◌,
}

abbrev pub codes : String → List ℕ
codes String.[] = []
codes (String.◌∷◌ c s) = code c ∷ codes s

-- Besides A to Z only U+0130 and U+212A have a small letter in ASCII, i and k.
lower_code : ℕ → ℕ
lower_code c =
    if leb b'A' c && leb c b'Z'
    then c + 32
    else if c == 0x130
    then b'i'
    else if c == 0x212A
    then b'k'
    else c

unfoldable pub to_lower : String → List ℕ
unfolding lower_code
to_lower s = map lower_code (codes s)

unfoldable pub codes_eq : List ℕ → List ℕ → Bool
codes_eq [] [] = true
codes_eq [] (d ∷ t) = false
codes_eq (c ∷ s) [] = false
codes_eq (c ∷ s) (d ∷ t) = c == d && codes_eq s t

has_prefix : List ℕ → List ℕ → Bool
has_prefix s [] = true
has_prefix [] (d ∷ t) = false
has_prefix (c ∷ s) (d ∷ t) = c == d && has_prefix s t

unfoldable pub contains : List ℕ → List ℕ → Bool
unfolding has_prefix
contains [] t = has_prefix [] t
contains (c ∷ s) t = has_prefix (c ∷ s) t || contains s t

-- `strings.ToLower(s) == t`
unfoldable pub is_lower_case_of : String → String → Bool
unfolding to_lower codes_eq
is_lower_case_of t s = codes_eq (to_lower s) (codes t)

mixed_case : is_lower_case_of "memory" "MeMory" ≡ true
unfolding is_lower_case_of
mixed_case = refl

found_inside : contains (to_lower "pods: Exceeded Quota: x") (codes "exceeded quota") ≡ true
unfolding contains to_lower
found_inside = refl
