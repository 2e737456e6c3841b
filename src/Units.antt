-- ===== src/Units.antt =====
-- web3/internal/service/balance.go, `formatUnits`: an amount in the smallest unit as a decimal text.
-- `ReadBack` and `RoundTrip` read the
-- text again.
use grpc_go_project.Prelude.{
  ℕ, zero, suc, ◌+◌, ◌-◌, ◌*◌, ◌/◌, ◌%◌, Bool, true, false, Option, none, some, List, [], ◌∷◌, ◌++◌,
  length, take, drop, replicate, ◌==◌, if◌then◌else◌,
}
use grpc_go_project.Prelude.Int.{ℤ, pos, negsuc}
use grpc_go_project.Prelude.Text.{Text, is_empty}
pub mod ReadBack
pub mod RoundTrip

-- The decimal digits of a number in front of a text; the first argument bounds the rounds.
unfoldable pub digits_from : ℕ → ℕ → Text → Text
digits_from zero n out = out
digits_from (suc rounds) n out = elim (n / 10) [
  | zero ↦ (b'0' + n % 10) ∷ out
  | suc m ↦ digits_from rounds (suc m) ((b'0' + n % 10) ∷ out)
]

-- `(*big.Int).String` of a magnitude; a number has at most as many digits as it counts, or one.
unfoldable pub decimal : ℕ → Text
unfolding digits_from
decimal n = digits_from (suc n) n []

-- `strings.TrimRight(s, c)`
unfoldable pub trim_right : ℕ → Text → Text
trim_right c [] = []
trim_right c (x ∷ xs) = elim (trim_right c xs) [
  | [] ↦ if x == c then [] else x ∷ []
  | y ∷ ys ↦ x ∷ y ∷ ys
]

-- `for len(digits) <= decimals { digits = "0" + digits }`
abbrev pub padded : ℕ → Text → Text
padded decimals digits = replicate (suc decimals - length digits) b'0' ++ digits

-- The digits with the point put in, without the zeros and the point that it may end in.
abbrev pub pointed : ℕ → Text → Text
pointed decimals digits =
    let split = length digits - decimals in
    trim_right b'.' (trim_right b'0' (take split digits ++ b'.' ∷ drop split digits))

-- The text for a magnitude.
unfoldable pub format_magnitude : ℕ → ℕ → Text
unfolding decimal trim_right
format_magnitude n zero = decimal n
format_magnitude n (suc d) =
    let formatted = pointed (suc d) (padded (suc d) (decimal n)) in
    if is_empty formatted then b'0' ∷ [] else formatted

abbrev pub is_zero_text : Text → Bool
is_zero_text (c ∷ []) = c == b'0'
is_zero_text _ = false

abbrev pub with_sign : Text → Text
with_sign formatted = if is_zero_text formatted then formatted else b'-' ∷ formatted

-- `formatUnits`
unfoldable pub format_units : Option ℤ → ℕ → Text
unfolding format_magnitude
format_units none d = b'0' ∷ []
format_units (some (pos n)) d = format_magnitude n d
format_units (some (negsuc n)) d = with_sign (format_magnitude (suc n) d)
