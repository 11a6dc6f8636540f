-- ===== src/Prelude/Stoi.antt =====
-- `std::stoi`: white space, a sign, in base 16 a prefix `0x`, then digits up to the first character
-- that is none. `none` is an exception: no digit, or a value that is no `int`.
use Prim.Native.Nat.{ℕ, zero, suc, ◌+◌, ◌-◌, ◌*◌}
use mathlib.Core.Bool.{Bool, ◌&&◌, ◌||◌}
use mathlib.Core.Option.{Option, none, some}
use mathlib.Core.List.{[], ◌∷◌}
use code_tribunal.Prelude.{ltb, leb, ◌==◌, if◌then◌else◌, Text}
use code_tribunal.Prelude.Int.{ℤ, pos, negsuc}

-- `std::isspace` in the C locale.
unfoldable pub is_space : ℕ → Bool
is_space c = c == 32 || (leb 9 c && leb c 13)

unfoldable pub skip_spaces : Text → Text
unfolding is_space
skip_spaces [] = []
skip_spaces (c ∷ s) = if is_space c then skip_spaces s else c ∷ s

-- The value of a digit, 36 for a character that is none.
unfoldable pub digit_value : ℕ → ℕ
digit_value c =
    if leb b'0' c && leb c b'9'
    then c - b'0'
    else if leb b'a' c && leb c b'z'
    then c - b'a' + 10
    else if leb b'A' c && leb c b'Z'
    then c - b'A' + 10
    else 36

unfoldable pub read_digits : ℕ → ℕ → Text → ℕ
unfolding digit_value
read_digits base acc [] = acc
read_digits base acc (c ∷ s) =
    let rest = read_digits base (acc * base + digit_value c) s in
    if ltb (digit_value c) base then rest else acc

unfoldable pub read_number : ℕ → Text → Option ℕ
unfolding read_digits
read_number base [] = none
read_number base (c ∷ s) =
    if ltb (digit_value c) base then some (read_digits base 0 (c ∷ s)) else none

unfoldable pub skip_prefix : ℕ → Text → Text
unfolding digit_value
skip_prefix base (z ∷ x ∷ d ∷ s) =
    if base == 16 && (z == b'0' && ((x == b'x' || x == b'X') && ltb (digit_value d) 16))
    then d ∷ s
    else z ∷ x ∷ d ∷ s
skip_prefix base s = s

abbrev as_positive : Option ℕ → Option ℤ
as_positive none = none
as_positive (some n) = if leb n 2147483647 then some (pos n) else none

abbrev as_negative : Option ℕ → Option ℤ
as_negative none = none
as_negative (some zero) = some (pos 0)
as_negative (some (suc n)) = if leb n 2147483647 then some (negsuc n) else none

unfoldable pub signed_number : ℕ → Text → Option ℤ
unfolding read_number skip_prefix
signed_number base [] = none
signed_number base (c ∷ s) =
    if c == b'-'
    then as_negative (read_number base (skip_prefix base s))
    else if c == b'+'
    then as_positive (read_number base (skip_prefix base s))
    else as_positive (read_number base (skip_prefix base (c ∷ s)))

unfoldable pub stoi : ℕ → Text → Option ℤ
unfolding signed_number skip_spaces
stoi base s = signed_number base (skip_spaces s)
