-- ===== src/Logging.antt =====
-- pkg/logging/logging.go: the levels. Formatting and writing a line is the standard library's.
use quotascale_controller.Prelude.{
  ℕ, ◌-◌, String, Bool, ◌&&◌, map, leb, ◌==◌, ◌≡◌, refl, if◌then◌else◌,
}
use quotascale_controller.Prelude.Int.{ℤ, pos, leb_ℤ, ◌==ℤ◌}
use quotascale_controller.Prelude.Text.{str_eq}
use quotascale_controller.Prelude.Case.{codes, codes_eq}
use quotascale_controller.Effects.{Result, ok, err}

-- Besides a to z only U+0131 and U+017F have a capital letter in ASCII, I and S.
unfoldable upper_code : ℕ → ℕ
upper_code c =
    if leb b'a' c && leb c b'z'
    then c - 32
    else if c == 0x131
    then b'I'
    else if c == 0x17F
    then b'S'
    else c

-- `strings.ToUpper(s) == t`, against a text of capital letters.
unfoldable is_upper_case_of : String → String → Bool
unfolding upper_code codes_eq
is_upper_case_of t s = codes_eq (map upper_code (codes s)) (codes t)

pub data LevelError : Type 0 where
  invalid_format : LevelError

-- The level, 0 where there is an error.
unfoldable pub parse_string_log_level : String → ℤ × Result LevelError (Unit {0})
unfolding is_upper_case_of
parse_string_log_level level =
    if is_upper_case_of "DEBUG" level
    then (pos 10, ok tt)
    else if is_upper_case_of "INFO" level
    then (pos 20, ok tt)
    else if is_upper_case_of "WARNING" level
    then (pos 30, ok tt)
    else if is_upper_case_of "ERROR" level
    then (pos 40, ok tt)
    else if is_upper_case_of "CRITICAL" level
    then (pos 50, ok tt)
    else (pos 0, err invalid_format)

unfoldable pub parse_int_log_level : ℤ → String
parse_int_log_level level =
    if level ==ℤ pos 10
    then "DEBUG"
    else if level ==ℤ pos 20
    then "INFO"
    else if level ==ℤ pos 30
    then "WARNING"
    else if level ==ℤ pos 40
    then "ERROR"
    else if level ==ℤ pos 50
    then "CRITICAL"
    else "NOTSET"

-- `init`, of the value of LOG_LEVEL: the level that is set.
unfoldable pub initial_level : String → ℤ
unfolding parse_string_log_level
initial_level level = if str_eq level "" then pos 20 else (parse_string_log_level level).0

-- Whether `Logf` writes.
unfoldable pub is_logged : ℤ → ℤ → Bool
is_logged current level = leb_ℤ current level

mixed_case : initial_level "Warning" ≡ pos 30
unfolding initial_level
mixed_case = refl

unknown_level : initial_level "loud" ≡ pos 0
unfolding initial_level
unknown_level = refl

prints_back : parse_int_log_level (parse_string_log_level "critical").0 ≡ "CRITICAL"
unfolding parse_int_log_level parse_string_log_level
prints_back = refl
