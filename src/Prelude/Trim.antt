-- ===== src/Prelude/Trim.antt =====
-- `strings.TrimSpace`: white space, as `unicode.IsSpace` has it, goes at both ends.
use Prim.Native.Char.{code}
use quotascale_controller.Prelude.{
  ℕ, String, Bool, ◌&&◌, ◌||◌, [], ◌∷◌, any, ◌≡◌, refl, leb, ◌==◌, if◌then◌else◌,
}
use quotascale_controller.Prelude.Text.{str_eq}

unfoldable is_space : ℕ → Bool
is_space c =
    leb 9 c && leb c 13
    || leb 0x2000 c && leb c 0x200A
    || any (λ d. c == d)
        (b' ' ∷ 0x85 ∷ 0xA0 ∷ 0x1680 ∷ 0x2028 ∷ 0x2029 ∷ 0x202F ∷ 0x205F ∷ 0x3000 ∷ [])

unfoldable trim_left : String → String
unfolding is_space
trim_left String.[] = String.[]
trim_left (String.◌∷◌ c s) =
    let rest = trim_left s in if is_space (code c) then rest else String.◌∷◌ c s

unfoldable trim_right : String → String
unfolding is_space
trim_right String.[] = String.[]
trim_right (String.◌∷◌ c s) =
    let rest = trim_right s in if is_space (code c) && str_eq rest "" then "" else String.◌∷◌ c rest

unfoldable pub trim_space : String → String
unfolding trim_left trim_right
trim_space s = trim_right (trim_left s)

both_ends : trim_space "  kube system " ≡ "kube system"
unfolding trim_space
both_ends = refl

only_blanks : trim_space "  " ≡ ""
unfolding trim_space
only_blanks = refl
