-- ===== src/Prelude/Numerals.antt =====
-- `std::stoi` reads back what `std::to_string` wrote.
use Prim.Native.Nat.{ℕ, zero, suc, ◌+◌, ◌*◌, ◌/◌, ◌%◌, ◌≤◌, ◌<◌}
use mathlib.Core.Path.{◌≡◌, ◌∙◌, refl, ap, sym}
use mathlib.Core.Logic.{inl, inr}
use mathlib.Core.Bool.{true, false}
use mathlib.Core.Option.{some}
use mathlib.Core.List.{[], ◌∷◌, ◌++◌}
use native.Mathlib.Omega.{arith}
use code_tribunal.Prelude.Tests.{ltb, leb, ◌==◌, lt→ltb, Bool-cases}
use code_tribunal.Prelude.Texts.{Text}
use code_tribunal.Prelude.Decimal.{digits, to_string}
use code_tribunal.Prelude.Search.{IsFree}
use code_tribunal.Prelude.Int.{pos}
use code_tribunal.Prelude.Stoi.{
  is_space, skip_spaces, digit_value, read_digits, read_number, skip_prefix, signed_number, stoi,
}

-- No digit stands at the start of the text.
abbrev pub EndsNumber : Text → Type 0
EndsNumber [] = Unit
EndsNumber (c ∷ s) = ltb (digit_value c) 10 ≡ false

digit_value_decimal : (d : ℕ) → d < 10 → digit_value (48 + d) ≡ d
unfolding digit_value
digit_value_decimal d h = ground arith

read_digits_cons :
    (acc d : ℕ) (s : Text)
    → d < 10
    → read_digits 10 acc ((48 + d) ∷ s) ≡ read_digits 10 (acc * 10 + d) s
unfolding read_digits
read_digits_cons acc d s h = rw (digit_value_decimal d h, lt→ltb d 10 h) refl

read_digits_end : (acc : ℕ) (s : Text) → EndsNumber s → read_digits 10 acc s ≡ acc
unfolding read_digits
read_digits_end acc [] h = refl
read_digits_end acc (c ∷ s) h = rw h refl

digits_last : (f n : ℕ) (s : Text) → n < 10 → digits (suc f) n s ≡ (48 + n) ∷ s
unfolding digits
digits_last f n s h = rw (lt→ltb n 10 h) refl

digits_more :
    (f n : ℕ) (s : Text)
    → ltb n 10 ≡ false
    → digits (suc f) n s ≡ digits f (n / 10) ((48 + n % 10) ∷ s)
unfolding digits
digits_more f n s h = rw h refl

read_digits-digits :
    (f n : ℕ) (s : Text) → n < f → read_digits 10 0 (digits f n s) ≡ read_digits 10 n s
read_digits-digits zero n s h = absurd (omega arith)
read_digits-digits (suc f) n s h = elim (Bool-cases (ltb n 10)) [
  | inl e ↦
      let small : n < 10 = ground arith in
      ap (read_digits 10 0) (digits_last f n s small)
      ∙ read_digits_cons 0 n s small
      ∙ ap (λ k. read_digits 10 k s) (omega arith)
  | inr e ↦
      let large : 10 ≤ n = ground arith in
      ap (read_digits 10 0) (digits_more f n s e)
      ∙ read_digits-digits f (n / 10) ((48 + n % 10) ∷ s) (omega arith)
      ∙ read_digits_cons (n / 10) (n % 10) s (omega arith)
      ∙ ap (λ k. read_digits 10 k s) (omega arith)
]

-- A numeral begins with a digit.
pub digits_head :
    (f n : ℕ) (s : Text) → n < f → (d : ℕ) × (t : Text) × (digits f n s ≡ (48 + d) ∷ t) × (d < 10)
digits_head zero n s h = absurd (omega arith)
digits_head (suc f) n s h = elim (Bool-cases (ltb n 10)) [
  | inl e ↦ let small : n < 10 = ground arith in (n, s, digits_last f n s small, small)
  | inr e ↦
      let large : 10 ≤ n = ground arith in
      let (d, t, same, small) = digits_head f (n / 10) ((48 + n % 10) ∷ s) (omega arith) in
      (d, t, digits_more f n s e ∙ same, small)
]

digits_append : (f n : ℕ) (s t : Text) → digits f n s ++ t ≡ digits f n (s ++ t)
unfolding digits
digits_append zero n s t = refl
digits_append (suc f) n s t = elim (Bool-cases (ltb n 10)) [
  | inl e ↦ rw e refl
  | inr e ↦ rw e (digits_append f (n / 10) ((48 + n % 10) ∷ s) t)
]

is_space_digit : (d : ℕ) → d < 10 → is_space (48 + d) ≡ false
unfolding is_space
is_space_digit d h = ground arith

skip_prefix_decimal : (s : Text) → skip_prefix 10 s ≡ s
unfolding skip_prefix
skip_prefix_decimal [] = refl
skip_prefix_decimal (a ∷ []) = refl
skip_prefix_decimal (a ∷ b ∷ []) = refl
skip_prefix_decimal (a ∷ b ∷ c ∷ s) = refl

read_number_digit :
    (d : ℕ) (t : Text)
    → d < 10
    → read_number 10 ((48 + d) ∷ t) ≡ some (read_digits 10 0 ((48 + d) ∷ t))
unfolding read_number
read_number_digit d t h = rw (digit_value_decimal d h, lt→ltb d 10 h) refl

skip_spaces_digit : (d : ℕ) (t : Text) → d < 10 → skip_spaces ((48 + d) ∷ t) ≡ (48 + d) ∷ t
unfolding skip_spaces
skip_spaces_digit d t h = rw (is_space_digit d h) refl

signed_number_digit :
    (d n : ℕ) (t : Text)
    → d < 10
    → n ≤ 2147483647
    → read_number 10 ((48 + d) ∷ t) ≡ some n
    → signed_number 10 ((48 + d) ∷ t) ≡ some (pos n)
unfolding signed_number
signed_number_digit d n t h b e =
    let minus : (48 + d == b'-') ≡ false = ground arith in
    let plus : (48 + d == b'+') ≡ false = ground arith in
    let fits : leb n 2147483647 ≡ true = ground arith in
    rw (minus, plus, skip_prefix_decimal ((48 + d) ∷ t), e, fits) refl

stoi_digit :
    (d n : ℕ) (t : Text)
    → d < 10
    → n ≤ 2147483647
    → read_digits 10 0 ((48 + d) ∷ t) ≡ n
    → stoi 10 ((48 + d) ∷ t) ≡ some (pos n)
unfolding stoi
stoi_digit d n t h b e =
    ap (signed_number 10) (skip_spaces_digit d t h)
    ∙ signed_number_digit d n t h b (read_number_digit d t h ∙ ap some e)

-- A number that fits an `int` reads back from its numeral, whatever follows that is no digit.
pub stoi-to_string :
    (n : ℕ) (rest : Text)
    → n ≤ 2147483647
    → EndsNumber rest
    → stoi 10 (to_string n ++ rest) ≡ some (pos n)
unfolding to_string
stoi-to_string n rest h e =
    let whole = digits_append (suc n) n [] rest in
    let (d, t, same, small) = digits_head (suc n) n rest (omega arith) in
    let value = read_digits-digits (suc n) n rest (omega arith) ∙ read_digits_end n rest e in
    ap (stoi 10) (whole ∙ same)
    ∙ stoi_digit d n t small h (ap (read_digits 10 0) (sym same) ∙ value)

digits-IsFree : (ch f n : ℕ) (s : Text) → ch < 48 → IsFree ch s → IsFree ch (digits f n s)
unfolding digits
digits-IsFree ch zero n s h free = free
digits-IsFree ch (suc f) n s h free = elim (Bool-cases (ltb n 10)) [
  | inl e ↦ rw e (ground arith, free)
  | inr e ↦ rw e (digits-IsFree ch f (n / 10) ((48 + n % 10) ∷ s) h (ground arith, free))
]

-- A numeral holds no character below the digits.
pub to_string-IsFree : (ch n : ℕ) → ch < 48 → IsFree ch (to_string n)
unfolding to_string
to_string-IsFree ch n h = digits-IsFree ch (suc n) n [] h tt
