-- ===== src/Prelude/Decimal.antt =====
-- Decimal numerals: `std::to_string` of a non-negative number.
use Prim.Native.Nat.{ℕ, zero, suc, ◌+◌, ◌/◌, ◌%◌}
use mathlib.Core.List.{[], ◌∷◌}
use code_tribunal.Prelude.Tests.{ltb, if◌then◌else◌}
use code_tribunal.Prelude.Texts.{Text}

-- The digits of `n` before those of `acc`. A number has fewer digits than its fuel `suc n`.
unfoldable pub digits : ℕ → ℕ → Text → Text
digits zero n acc = acc
digits (suc fuel) n acc =
    let more = digits fuel (n / 10) ((48 + n % 10) ∷ acc) in
    if ltb n 10 then (48 + n) ∷ acc else more

unfoldable pub to_string : ℕ → Text
unfolding digits
to_string n = digits (suc n) n []
