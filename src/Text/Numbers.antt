-- ===== src/Text/Numbers.antt =====
-- Numbers in decimal, as `%d` and `strconv` write and read them.
use mesh_vpn.Text.{Text}
use mesh_vpn.Base.{
  Bool, Option, [], false, if◌then◌else◌, leb, ltb, none, some, suc, true, zero, ℕ, ◌%◌, ◌&&◌, ◌*◌,
  ◌+◌, ◌-◌, ◌/◌, ◌==◌, ◌^◌, ◌∷◌,
}
use mesh_vpn.Base.Int.{negsuc, pos, ℤ}

-- The digits of a number before those of a text. The fuel is a number above it.
digits_from : ℕ → ℕ → Text → Text
digits_from zero n rest = rest
digits_from (suc fuel) n rest =
    let more = digits_from fuel (n / 10) ((b'0' + n % 10) ∷ rest) in
    if ltb n 10 then (b'0' + n) ∷ rest else more

unfoldable pub show_ℕ : ℕ → Text
unfolding digits_from
show_ℕ n = digits_from (n + 1) n []

unfoldable pub show_ℤ : ℤ → Text
unfolding show_ℕ
show_ℤ (pos n) = show_ℕ n
show_ℤ (negsuc n) = b'-' ∷ show_ℕ (n + 1)

unfoldable pub is_digit : ℕ → Bool
is_digit c = leb b'0' c && leb c b'9'

-- The number that digits stand for behind those read already, or none at another code point.
unfoldable pub read_digits : ℕ → Text → Option ℕ
unfolding is_digit
read_digits n [] = some n
read_digits n (c ∷ s) =
    let rest = read_digits (10 * n + (c - b'0')) s in if is_digit c then rest else none

-- At least one digit.
abbrev pub read_ℕ : Text → Option ℕ
read_ℕ [] = none
read_ℕ (c ∷ s) = read_digits 0 (c ∷ s)

-- `strconv.Atoi`: an optional sign and digits. A number out of the range of an int is an error.
abbrev int_max : ℕ
int_max = 2 ^ 63

abbrev in_range : Bool → Option ℕ → Option ℤ
in_range negative none = none
in_range true (some zero) = some (pos 0)
in_range true (some (suc n)) = if leb (suc n) int_max then some (negsuc n) else none
in_range false (some n) = if ltb n int_max then some (pos n) else none

unfoldable pub atoi : Text → Option ℤ
unfolding read_digits
atoi [] = none
atoi (c ∷ s) =
    if c == b'-'
    then in_range true (read_ℕ s)
    else if c == b'+'
    then in_range false (read_ℕ s)
    else in_range false (read_ℕ (c ∷ s))
