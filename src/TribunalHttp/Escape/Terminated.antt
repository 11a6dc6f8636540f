-- ===== src/TribunalHttp/Escape/Terminated.antt =====
-- `escape_json_string` of src/tribunal_http.c on a text with its terminator, and what is behind it in memory.
use code_tribunal.Prelude.{
  ℕ, ◌+◌, ◌-◌, ◌≡◌, refl, ◌∙◌, inl, inr, Bool-cases, Option-cases, Bool, true, false, not, ◌&&◌,
  ◌||◌, ◌==◌, ltb, leb, [], ◌∷◌, ◌++◌, Text, text, starts_with, if◌then◌else◌, arith,
}
use code_tribunal.Prelude.Search.{none_of}
use code_tribunal.TribunalHttp.Escape.{json_code, escape_loop, escape_json_string}

-- Does the text hold no terminator, and does every ANSI sequence in it end? `skipping` as in the loop.
unfoldable pub is_closed : Bool → Text → Bool
unfolding starts_with
is_closed true [] = false
is_closed false [] = true
is_closed true (c ∷ s) =
    let outer = is_closed false s in
    let inner = is_closed true s in not (c == 0) && (if c == b'm' then outer else inner)
is_closed false (c ∷ s) =
    let outer = is_closed false s in
    let inner = is_closed true s in
    not (c == 0) && (if c == 27 && starts_with (text "[") s then inner else outer)

-- The text without its ANSI sequences.
unfoldable pub visible : Bool → Text → Text
unfolding starts_with
visible skipping [] = []
visible true (c ∷ s) =
    let outer = visible false s in let inner = visible true s in if c == b'm' then outer else inner
visible false (c ∷ s) =
    let outer = c ∷ visible false s in
    let inner = visible true s in if c == 27 && starts_with (text "[") s then inner else outer

closed_inside :
    (c : ℕ) (s : Text)
    → is_closed false (c ∷ s) ≡ true
    → (c == 27 && starts_with (text "[") s) ≡ true
    → is_closed true s ≡ true
unfolding is_closed
closed_inside c s h starts = ground (arith, h, starts)

closed_outside :
    (c : ℕ) (s : Text)
    → is_closed false (c ∷ s) ≡ true
    → (c == 27 && starts_with (text "[") s) ≡ false
    → is_closed false s ≡ true
unfolding is_closed
closed_outside c s h starts = ground (arith, h, starts)

unclosed :
    (size : ℕ) (a rest : Text) (j : ℕ)
    → none_of (λ c. c == 0 || c == b'm') a ≡ true
    → escape_loop size true (a ++ 0 ∷ rest) j ≡ escape_loop size false rest j
unfolding escape_loop
unclosed size [] rest j h = refl
unclosed size (c ∷ a) rest j h =
    let inner : (c == 0 || c == b'm') ≡ false = ground (arith, h) in
    rw (escape_loop, inner) (unclosed size a rest j (ground (arith, h)))

skips :
    (size : ℕ) (t : Text) (j : ℕ)
    → leb (size - 1) j ≡ false
    → escape_loop size false (27 ∷ b'[' ∷ t) j ≡ escape_loop size true t j
unfolding escape_loop starts_with
skips size t j room = rw room refl

-- The text up to its last sequence, that sequence without its end, and the memory behind the terminator.
module _ (size : ℕ) (a : Text) (x : ℕ) (rest : Text)
    (unended : none_of (λ c. c == 0 || c == b'm') a ≡ true) (other_byte : (x == b'[') ≡ false) where
  abbrev pub held : Text → Text
  held s = s ++ 27 ∷ b'[' ∷ (a ++ 0 ∷ x ∷ rest)

  abbrev pub joined : Text → Text
  joined s = s ++ x ∷ rest

  starts_held : (s : Text) → starts_with (text "[") (held s) ≡ starts_with (text "[") s
  unfolding starts_with
  starts_held [] = refl
  starts_held (c ∷ s) = refl

  starts_joined : (s : Text) → starts_with (text "[") (joined s) ≡ starts_with (text "[") s
  unfolding starts_with
  starts_joined [] = ground arith
  starts_joined (c ∷ s) = refl

  escape_loop_unclosed :
      (skipping : Bool) (s : Text) (j : ℕ)
      → is_closed skipping s ≡ true
      → escape_loop size skipping (held s) j ≡ escape_loop size skipping (joined s) j
  unfolding escape_loop is_closed
  escape_loop_unclosed true [] j h = absurd (ground (arith, h))
  escape_loop_unclosed false [] j h = elim (Bool-cases (leb (size - 1) j)) [
    | inl full ↦ elim (Bool-cases (x == 0)) [
      | inl ends ↦ rw (escape_loop, full, ends) refl
      | inr goes ↦ rw (escape_loop, full, goes) refl
    ]
    | inr room ↦ skips size (a ++ 0 ∷ x ∷ rest) j room ∙ unclosed size a (x ∷ rest) j unended
  ]
  escape_loop_unclosed true (c ∷ s) j h = elim (Bool-cases (c == 0)) [
    | inl ends ↦ absurd (ground (arith, h))
    | inr goes ↦ elim (Bool-cases (c == b'm')) [
      | inl m ↦ rw (escape_loop, goes, m) (escape_loop_unclosed false s j (ground (arith, h)))
      | inr other ↦
          rw (escape_loop, goes, other) (escape_loop_unclosed true s j (ground (arith, h)))
    ]
  ]
  escape_loop_unclosed false (c ∷ s) j h = elim (Bool-cases (c == 0)) [
    | inl ends ↦ absurd (ground (arith, h))
    | inr goes ↦ elim (Bool-cases (leb (size - 1) j)) [
      | inl full ↦ rw (escape_loop, goes, full) refl
      | inr room ↦ elim (Bool-cases (c == 27 && starts_with (text "[") s)) [
        | inl starts ↦
            let same = starts_held s in
            let alike = starts_joined s in
            rw (escape_loop, goes, room, same, alike, starts)
              (escape_loop_unclosed true s j (closed_inside c s h starts))
        | inr other ↦
            let same = starts_held s in
            let alike = starts_joined s in
            let closed = closed_outside c s h other in
            elim (Option-cases (json_code c)) [
              | inl plain ↦
                  let next = escape_loop_unclosed false s (j + 1) closed in
                  rw (escape_loop, goes, room, same, alike, other, plain, next) refl
              | inr (e, special) ↦ elim (Bool-cases (ltb (j + 2) size)) [
                | inl two ↦
                    let next = escape_loop_unclosed false s (j + 2) closed in
                    rw (escape_loop, goes, room, same, alike, other, special, two, next) refl
                | inr less ↦
                    let next = escape_loop_unclosed false s j closed in
                    rw (escape_loop, goes, room, same, alike, other, special, less, next) refl
              ]
            ]
      ]
    ]
  ]

-- Where the ANSI sequences of a text are closed but for the last, which has no end, `escape_json_string`
-- goes on with the memory behind the terminator: its result is that for the text without this sequence,
-- followed by the bytes from there. The first of them is no bracket, which would extend an escape at the
-- end of the text.
pub escape_json_string_unclosed :
    (s a rest : Text) (x size : ℕ)
    → is_closed false s ≡ true
    → none_of (λ c. c == 0 || c == b'm') a ≡ true
    → (x == b'[') ≡ false
    → escape_json_string (s ++ 27 ∷ b'[' ∷ (a ++ 0 ∷ x ∷ rest)) size
      ≡ escape_json_string (s ++ x ∷ rest) size
unfolding escape_json_string
escape_json_string_unclosed s a rest x size closed unended other =
    escape_loop_unclosed size a x rest unended other false s 0 closed
