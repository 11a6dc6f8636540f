-- ===== src/Core/ConfigParser/Trim.antt =====
-- Trimming of white space (src/core/ConfigParser.cpp).
use code_tribunal.Prelude.{
  ℕ, ◌≡◌, refl, sym, ap, ◌∙◌, Bool, true, false, ◌&&◌, [], ◌∷◌, ◌++◌, Text, All, is_empty,
  Bool-cases, inl, inr,
}
use code_tribunal.Prelude.Stoi.{is_space, skip_spaces}
use code_tribunal.Core.ConfigParser.{trim_end, trim}

abbrev pub IsSpace : ℕ → Type 0
IsSpace c = is_space c ≡ true

pub skip_blank : (c : ℕ) (s : Text) → is_space c ≡ true → skip_spaces (c ∷ s) ≡ skip_spaces s
unfolding skip_spaces
skip_blank c s h = rw h refl

pub skip_keep : (c : ℕ) (s : Text) → is_space c ≡ false → skip_spaces (c ∷ s) ≡ c ∷ s
unfolding skip_spaces
skip_keep c s h = rw h refl

pub skip_skip : (s : Text) → skip_spaces (skip_spaces s) ≡ skip_spaces s
unfolding skip_spaces
skip_skip [] = refl
skip_skip (c ∷ s) = elim (Bool-cases (is_space c)) [
  | inl e ↦ rw e (skip_skip s)
  | inr e ↦ rw (e, e) refl
]

pub skip_pad : (p s : Text) → All IsSpace p → skip_spaces (p ++ s) ≡ skip_spaces s
unfolding skip_spaces
skip_pad [] s h = refl
skip_pad (c ∷ p) s h = rw h.0 (skip_pad p s h.1)

pub skip_stop :
    (a b : Text) (c : ℕ) → is_space c ≡ false → skip_spaces (a ++ c ∷ b) ≡ skip_spaces a ++ c ∷ b
unfolding skip_spaces
skip_stop [] b c h = rw h refl
skip_stop (x ∷ a) b c h =
    let rest = skip_stop a b c h in
    elim (Bool-cases (is_space x)) [
      | inl e ↦ skip_blank x (a ++ c ∷ b) e ∙ rest ∙ sym (ap (λ z. z ++ c ∷ b) (skip_blank x a e))
      | inr e ↦ skip_keep x (a ++ c ∷ b) e ∙ sym (ap (λ z. z ++ c ∷ b) (skip_keep x a e))
    ]

end_blank : (c : ℕ) (s : Text) → is_space c ≡ true → trim_end s ≡ [] → trim_end (c ∷ s) ≡ []
unfolding trim_end
end_blank c s h e = rw (h, e) refl

end_keep :
    (c : ℕ) (s : Text)
    → (is_space c && is_empty (trim_end s)) ≡ false
    → trim_end (c ∷ s) ≡ c ∷ trim_end s
unfolding trim_end
end_keep c s h = rw h refl

blank_parts : (b : Bool) (s : Text) → (b && is_empty s) ≡ true → (b ≡ true) × (s ≡ [])
blank_parts true [] h = (refl, refl)
blank_parts true (x ∷ s) h = cc
blank_parts false s h = cc

filled : (b : Bool) (t s : Text) (x : ℕ) (u : Text) → t ≡ s ++ x ∷ u → (b && is_empty t) ≡ false
filled true t [] x u e = rw e refl
filled true t (y ∷ s) x u e = rw e refl
filled false t s x u e = refl

pub end_stop :
    (a b : Text) (c : ℕ) → is_space c ≡ false → trim_end (a ++ c ∷ b) ≡ a ++ c ∷ trim_end b
end_stop [] b c h = end_keep c b (rw h refl)
end_stop (x ∷ a) b c h =
    let rest = end_stop a b c h in
    end_keep x (a ++ c ∷ b) (filled (is_space x) _ a c (trim_end b) rest) ∙ ap (λ s. x ∷ s) rest

pub end_pad : (s q : Text) → All IsSpace q → trim_end (s ++ q) ≡ trim_end s
unfolding trim_end
end_pad [] [] h = refl
end_pad [] (c ∷ q) h = rw (end_pad [] q h.1, h.0) refl
end_pad (c ∷ s) q h = rw (end_pad s q h) refl

trim_end_nil : trim_end [] ≡ []
unfolding trim_end
trim_end_nil = refl

nil_nil : skip_spaces [] ≡ trim_end (skip_spaces [])
unfolding skip_spaces trim_end
nil_nil = refl

skip_end_cons :
    (c : ℕ) (s : Text)
    → skip_spaces (trim_end s) ≡ trim_end (skip_spaces s)
    → (is_space c && is_empty (trim_end s)) ≡ false
    → skip_spaces (c ∷ trim_end s) ≡ trim_end (skip_spaces (c ∷ s))
skip_end_cons c s rest b = elim (Bool-cases (is_space c)) [
  | inl h ↦ skip_blank c (trim_end s) h ∙ rest ∙ sym (ap trim_end (skip_blank c s h))
  | inr h ↦ skip_keep c (trim_end s) h ∙ sym (ap trim_end (skip_keep c s h) ∙ end_keep c s b)
]

pub skip_end : (s : Text) → skip_spaces (trim_end s) ≡ trim_end (skip_spaces s)
skip_end [] = ap skip_spaces trim_end_nil ∙ nil_nil
skip_end (c ∷ s) = elim (Bool-cases (is_space c && is_empty (trim_end s))) [
  | inl b ↦
      (let (h, e) = blank_parts (is_space c) (trim_end s) b in
        let rest = skip_end s in
        ap skip_spaces (end_blank c s h e ∙ sym e) ∙ rest ∙ sym (ap trim_end (skip_blank c s h)))
  | inr b ↦ ap skip_spaces (end_keep c s b) ∙ skip_end_cons c s (skip_end s) b
]

pub end_end : (s : Text) → trim_end (trim_end s) ≡ trim_end s
end_end [] = ap trim_end trim_end_nil
end_end (c ∷ s) =
    let rest = end_end s in
    elim (Bool-cases (is_space c && is_empty (trim_end s))) [
      | inl b ↦
          (let (h, e) = blank_parts (is_space c) (trim_end s) b in
            ap trim_end (end_blank c s h e) ∙ trim_end_nil ∙ sym (end_blank c s h e))
      | inr b ↦
          (ap trim_end (end_keep c s b)
            ∙ end_keep c (trim_end s) (rw rest b)
            ∙ ap (λ t. c ∷ t) rest
            ∙ sym (end_keep c s b))
    ]

-- Trimming twice trims no more.
pub trim-trim : (s : Text) → trim (trim s) ≡ trim s
unfolding trim
trim-trim s = rw (skip_end (skip_spaces s), skip_skip s, end_end) refl

pub trim_skip : (s : Text) → trim (skip_spaces s) ≡ trim s
unfolding trim
trim_skip s = rw (skip_skip s) refl

pub trim-trim_end : (s : Text) → trim (trim_end s) ≡ trim s
unfolding trim
trim-trim_end s = rw (skip_end s, end_end) refl

-- White space around a text is not part of it.
pub trim_pad : (p s q : Text) → All IsSpace p → All IsSpace q → trim (p ++ (s ++ q)) ≡ trim s
unfolding trim
trim_pad p s q hp hq =
    ap trim_end (skip_pad p (s ++ q) hp)
    ∙ sym (skip_end (s ++ q))
    ∙ ap skip_spaces (end_pad s q hq)
    ∙ skip_end s
