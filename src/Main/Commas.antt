-- ===== src/Main/Commas.antt =====
-- The names after `--models` (`parse_arguments` of src/main.cpp).
use code_tribunal.Prelude.{
  ℕ, zero, suc, ◌<◌, ◌≡◌, ◌≢◌, refl, ap, ◌∙◌, inl, inr, some, List, [], ◌∷◌, ◌++◌, Text, length,
  take, drop, find_char, All, arith, Option-cases,
}
use code_tribunal.Prelude.Search.{IsFree, find_char_cut, find_char-IsFree}
use code_tribunal.Main.{split_from, split_models}

-- The texts with commas between them.
abbrev pub joined : List Text → Text
joined [] = []
joined (a ∷ []) = a
joined (a ∷ b ∷ names) = a ++ b',' ∷ joined (b ∷ names)

joined-cons :
    (a : Text) (names : List Text) → names ≢ [] → joined (a ∷ names) ≡ a ++ b',' ∷ joined names
joined-cons a [] h = absurd (h refl)
joined-cons a (b ∷ names) h = refl

cons-ne-nil : (a : Text) (names : List Text) → a ∷ names ≢ []
cons-ne-nil a names h = cc

split_from-joined :
    (fuel : ℕ) (s : Text)
    → length s < fuel
    → (names : List Text) × (split_from fuel s ≡ some names)
      × (joined names ≡ s)
      × All (IsFree b',') names
      × (names ≢ [])
unfolding split_from
split_from-joined zero s h = absurd (omega arith)
split_from-joined (suc fuel) s h = elim (Option-cases (find_char b',' s)) [
  | inl e ↦
      (s ∷ [], rw (e, split_from) refl, refl, (find_char-IsFree b',' s e, tt), cons-ne-nil s [])
  | inr (p, e) ↦
      let (same, free, shorter) = find_char_cut b',' s p e in
      let (names, rest, whole, frees, some_name) =
        split_from-joined fuel (drop (suc p) s) (omega arith) in
      (
        take p s ∷ names,
        rw (e, split_from) (rw (rest, split_from) refl),
        joined-cons (take p s) names some_name ∙ ap (λ t. take p s ++ b',' ∷ t) whole ∙ same,
        (free, frees),
        cons-ne-nil (take p s) names,
      )
]

-- The loop over the commas ends for every text, within as many rounds as the text has characters and
-- one: the names that it gives have no comma in them, and joined by commas they are the text.
pub split_models-joined :
    (s : Text)
    → (names : List Text) × (split_models s ≡ some names)
      × (joined names ≡ s)
      × All (IsFree b',') names
unfolding split_models
split_models-joined s =
    let (names, split, whole, free, _) = split_from-joined (suc (length s)) s (omega arith) in
    (names, split, whole, free)
