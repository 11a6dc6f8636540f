-- ===== src/Prelude/Search.antt =====
-- Searching a text for a character or a pattern, and cutting it there.
use Prim.Native.Nat.{ℕ, zero, suc, ◌+◌, ◌≤◌, ◌<◌}
use mathlib.Core.Path.{◌≡◌, refl, ap, ◌∙◌}
use mathlib.Core.Logic.{inl, inr}
use mathlib.Core.Bool.{Bool, true, false, not, ◌&&◌}
use mathlib.Core.Option.{some, none}
use mathlib.Core.List.{List, [], ◌∷◌, ◌++◌}
use native.Mathlib.Omega.{arith}
use code_tribunal.Prelude.Tests.{Bool-cases, Option-cases, ◌==◌, ==_refl}
use code_tribunal.Prelude.Lists.{All, take, drop, length}
use code_tribunal.Prelude.Texts.{Text, find_char, find, starts_with}

-- No character of the text is `ch`.
abbrev pub IsFree : ℕ → Text → Type 0
IsFree ch s = All (λ c. (c == ch) ≡ false) s

-- The same as tests.
abbrev pub none_of : (ℕ → Bool) → Text → Bool
none_of p [] = true
none_of p (c ∷ s) = not (p c) && none_of p s

pub none_of-All : (p : ℕ → Bool) (s : Text) → none_of p s ≡ true → All (λ c. p c ≡ false) s
none_of-All p [] h = tt
none_of-All p (c ∷ s) h = (ground arith, none_of-All p s (ground arith))

pub find_char_stop :
    (ch : ℕ) (a b : Text) → IsFree ch a → find_char ch (a ++ ch ∷ b) ≡ some (length a)
unfolding find_char
find_char_stop ch [] b h = ground arith
find_char_stop ch (c ∷ a) b h = rw (h.0, find_char_stop ch a b h.1) refl

pub find_char-none : (ch : ℕ) (a : Text) → IsFree ch a → find_char ch a ≡ none
unfolding find_char
find_char-none ch [] h = refl
find_char-none ch (c ∷ a) h = rw (h.0, find_char-none ch a h.1) refl

pub take_append {ℓ} : {A : Type ℓ} (a b : List A) → take (length a) (a ++ b) ≡ a
take_append [] b = refl
take_append (c ∷ a) b = ap (λ s. c ∷ s) (take_append a b)

pub drop-length {ℓ} : {A : Type ℓ} (a b : List A) → drop (length a) (a ++ b) ≡ b
drop-length [] b = refl
drop-length (x ∷ a) b = drop-length a b

pub drop_append {ℓ} : {A : Type ℓ} (a b : List A) (c : A) → drop (suc (length a)) (a ++ c ∷ b) ≡ b
drop_append [] b c = refl
drop_append (x ∷ a) b c = drop_append a b c

pub starts_with_append : (pat s : Text) → starts_with pat (pat ++ s) ≡ true
unfolding starts_with
starts_with_append [] s = refl
starts_with_append (p ∷ pat) s = rw (==_refl p) (starts_with_append pat s)

-- The pattern starts at no place of `a`, where `rest` follows.
abbrev pub IsAbsent : Text → Text → Text → Type 0
IsAbsent pat [] rest = Unit
IsAbsent pat (c ∷ a) rest = (starts_with pat (c ∷ (a ++ rest)) ≡ false) × IsAbsent pat a rest

find_here : (pat s : Text) → starts_with pat s ≡ true → find pat s ≡ some 0
unfolding find
find_here pat [] h = rw h refl
find_here pat (c ∷ s) h = rw h refl

pub find_stop :
    (pat a b : Text) → IsAbsent pat a (pat ++ b) → find pat (a ++ (pat ++ b)) ≡ some (length a)
unfolding find
find_stop pat [] b h = find_here pat (pat ++ b) (starts_with_append pat b)
find_stop pat (c ∷ a) b h = rw (h.0, find_stop pat a b h.1) refl

-- A pattern is absent from a text that has not its first character.
pub IsFree-IsAbsent : (p : ℕ) (pat a rest : Text) → IsFree p a → IsAbsent (p ∷ pat) a rest
unfolding starts_with
IsFree-IsAbsent p pat [] rest h = tt
IsFree-IsAbsent p pat (c ∷ a) rest h = (ground (arith, h.0), IsFree-IsAbsent p pat a rest h.1)

-- What a cut gives if the text is not longer than the cut.
pub take_short {ℓ} : {A : Type ℓ} (n : ℕ) (s : List A) → length s ≤ n → take n s ≡ s
take_short zero [] h = refl
take_short (suc n) [] h = refl
take_short zero (c ∷ s) h = absurd (omega arith)
take_short (suc n) (c ∷ s) h = ap (λ t. c ∷ t) (take_short n s (omega arith))

pub length-take_le {ℓ} : {A : Type ℓ} (n : ℕ) (s : List A) → length (take n s) ≤ n
length-take_le zero s = omega arith
length-take_le (suc n) [] = omega arith
length-take_le (suc n) (c ∷ s) = omega (arith, length-take_le n s)

pub length-drop {ℓ} : {A : Type ℓ} (n : ℕ) (s : List A) → length (drop n s) ≤ length s
length-drop zero s = omega arith
length-drop (suc n) [] = omega arith
length-drop (suc n) (c ∷ s) = omega (arith, length-drop n s)

pub take-drop {ℓ} : {A : Type ℓ} (n : ℕ) (s : List A) → take n s ++ drop n s ≡ s
take-drop zero s = refl
take-drop (suc n) [] = refl
take-drop (suc n) (c ∷ s) = ap (λ l. c ∷ l) (take-drop n s)

pub take_full {ℓ} : {A : Type ℓ} (n : ℕ) (s : List A) → suc (length (take n s)) ≤ n → take n s ≡ s
take_full zero s h = absurd (omega arith)
take_full (suc n) [] h = refl
take_full (suc n) (c ∷ s) h = ap (λ t. c ∷ t) (take_full n s (omega arith))

find_char_zero : (ch c : ℕ) (s : Text) → find_char ch (c ∷ s) ≡ some 0 → ch ≡ c
unfolding find_char
find_char_zero ch c s h = elim (Bool-cases (c == ch)) [
  | inl t ↦ ground arith
  | inr f ↦ elim (Option-cases (find_char ch s)) [
    | inl e ↦ ground (arith, h, e)
    | inr (q, e) ↦ ground (arith, h, e)
  ]
]

find_char-suc :
    (ch c q : ℕ) (s : Text)
    → find_char ch (c ∷ s) ≡ some (suc q)
    → ((c == ch) ≡ false) × (find_char ch s ≡ some q)
unfolding find_char
find_char-suc ch c q s h = elim (Bool-cases (c == ch)) [
  | inl t ↦ ground arith
  | inr f ↦ elim (Option-cases (find_char ch s)) [
    | inl e ↦ ground (arith, h, e)
    | inr (r, e) ↦ ground (arith, h, e)
  ]
]

-- A text is what stands before a character that was found, the character and the rest.
pub find_char_cut :
    (ch : ℕ) (s : Text) (p : ℕ)
    → find_char ch s ≡ some p
    → (take p s ++ ch ∷ drop (suc p) s ≡ s)
      × IsFree ch (take p s)
      × (length (drop (suc p) s) < length s)
unfolding find_char
find_char_cut ch [] p h = absurd (ground (arith, h))
find_char_cut ch (c ∷ s) zero h = (ap (λ k. k ∷ s) (find_char_zero ch c s h), tt, omega arith)
find_char_cut ch (c ∷ s) (suc q) h =
    let (differs, found) = find_char-suc ch c q s h in
    let (same, free, shorter) = find_char_cut ch s q found in
    (ap (λ t. c ∷ t) same, (differs, free), omega (arith, shorter))

pub find_char-IsFree : (ch : ℕ) (s : Text) → find_char ch s ≡ none → IsFree ch s
unfolding find_char
find_char-IsFree ch [] h = tt
find_char-IsFree ch (c ∷ s) h = elim (Bool-cases (c == ch)) [
  | inl t ↦ ground arith
  | inr f ↦ elim (Option-cases (find_char ch s)) [
    | inl e ↦ (f, find_char-IsFree ch s e)
    | inr (r, e) ↦ absurd (ground (arith, h, e))
  ]
]

-- A cut that goes past the first text goes on in the second.
pub drop-append_past {ℓ} :
    {A : Type ℓ} (a s : List A) (n : ℕ) → drop (length a + n) (a ++ s) ≡ drop n s
drop-append_past [] s n = let none_more : 0 + n ≡ n = omega arith in ap (λ k. drop k s) none_more
drop-append_past (c ∷ a) s n =
    let one_more : suc (length a) + n ≡ suc (length a + n) = omega arith in
    ap (λ k. drop k (c ∷ (a ++ s))) one_more ∙ drop-append_past a s n
