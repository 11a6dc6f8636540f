-- ===== src/TribunalHttp/Escape/RoundTrip.antt =====
-- The texts that src/tribunal_http.c escapes for JSON: they fit their buffers, and read back.
use mathlib.Core.Option
use code_tribunal.Prelude.{
  ℕ, ◌+◌, ◌-◌, ◌*◌, ◌<◌, ◌⊎◌, ◌≡◌, refl, inl, inr, Bool-cases, Option-cases, Bool, true, false,
  ◌&&◌, ◌==◌, ltb, leb, Option, none, some, [], ◌∷◌, Text, length, if◌then◌else◌, arith,
}
use code_tribunal.TribunalHttp.Escape.{output_code, escape_with, escape_output, json_code}

-- The character that a reader of JSON takes a short escape for.
unfoldable pub json_char : ℕ → Option ℕ
json_char x =
    if x == b'"'
    then some b'"'
    else if x == b'\\'
    then some b'\\'
    else if x == b'n'
    then some 10
    else if x == b't'
    then some 9
    else if x == b'r'
    then some 13
    else if x == b'b'
    then some 8
    else if x == b'f'
    then some 12
    else if x == b'/'
    then some b'/'
    else none

-- The inside of a string in JSON, read back. A bare quote, a control character as such and an escape
-- that is none of these are refused; so are the escapes by number, which the program never writes.
unfoldable pub unescape : Text → Option Text
unfolding json_char
unescape [] = some []
unescape (c ∷ []) =
    if ltb c 32
    then none
    else if c == b'"'
    then none
    else if c == b'\\'
    then none
    else some (c ∷ [])
unescape (c ∷ x ∷ s) =
    let rest = unescape s in
    let plain = Option.map (λ t. c ∷ t) (unescape (x ∷ s)) in
    if ltb c 32
    then none
    else if c == b'"'
    then none
    else if c == b'\\'
    then elim (json_char x) [ none ↦ none | some d ↦ Option.map (λ t. d ∷ t) rest ]
    else plain

-- Has every control character of the text an escape in the table?
unfoldable pub is_legible : (ℕ → Option ℕ) → Text → Bool
is_legible code [] = true
is_legible code (c ∷ s) =
    let rest = is_legible code s in elim (code c) [ none ↦ leb 32 c && rest | some x ↦ rest ]

map_legible :
    (b : Bool) (c : ℕ) (s : Text)
    → Option.map {B = Text} (λ t. c ∷ t) (if b then some s else none)
      ≡ (if b then some (c ∷ s) else none)
map_legible true c s = refl
map_legible false c s = refl

-- `t` is `s` with some characters left out.
pub data IsSubsequence : Text → Text → Type 0 where
  none_left : IsSubsequence [] []
  kept : (c : ℕ) {t s : Text} → IsSubsequence t s → IsSubsequence (c ∷ t) (c ∷ s)
  left_out : (c : ℕ) {t s : Text} → IsSubsequence t s → IsSubsequence t (c ∷ s)

empty_of : (s : Text) → IsSubsequence [] s
empty_of [] = none_left
empty_of (c ∷ s) = left_out c (empty_of s)

unescape_pair :
    (x d : ℕ) (s : Text)
    → json_char x ≡ some d
    → unescape (b'\\' ∷ x ∷ s) ≡ Option.map (λ t. d ∷ t) (unescape s)
unfolding unescape
unescape_pair x d s h = rw h refl

-- What is asked of a table of escapes: a reader undoes them, and quotes and backslashes have one.
pub record IsReadable (code : ℕ → Option ℕ) : Type 0 where
  pub undone : (c x : ℕ) → code c ≡ some x → json_char x ≡ some c
  pub plain : (c : ℕ) → code c ≡ none → ((c == b'"') ≡ false) × ((c == b'\\') ≡ false)

pub output_code-IsReadable : IsReadable output_code
unfolding output_code json_char
output_code-IsReadable = record {
  undone = λ c x h. ground (arith, h);
  plain = λ c h. ground (arith, h);
}

pub json_code-IsReadable : IsReadable json_code
unfolding json_code json_char
json_code-IsReadable = record {
  undone = λ c x h. ground (arith, h);
  plain = λ c h. ground (arith, h);
}

module _ (code : ℕ → Option ℕ) (size : ℕ) where
  -- With its terminator, the escaped text fits the buffer.
  pub length-escape_with :
      (s : Text) (j : ℕ) → j < size → j + length (escape_with code size s j) < size
  unfolding escape_with
  length-escape_with [] j h = omega arith
  length-escape_with (c ∷ s) j h = elim (Bool-cases (ltb j (size - 1))) [
    | inr full ↦ rw (escape_with, full) (omega arith)
    | inl room ↦ elim (Option-cases (code c)) [
      | inl plain ↦ rw (escape_with, room, plain) (ground (arith, length-escape_with s (j + 1)))
      | inr (x, special) ↦ elim (Bool-cases (ltb (j + 2) size)) [
        | inl two ↦
            rw (escape_with, room, special, two) (ground (arith, length-escape_with s (j + 2)))
        | inr less ↦ rw (escape_with, room, special, less) (length-escape_with s j h)
      ]
    ]
  ]

  pub escape_with_full :
      (s : Text) (j : ℕ) → ltb j (size - 1) ≡ false → escape_with code size s j ≡ []
  unfolding escape_with
  escape_with_full [] j h = refl
  escape_with_full (c ∷ s) j h = rw (escape_with, h) refl

  module _ (readable : IsReadable code) where
    unescape_single :
        (c : ℕ) (s : Text)
        → code c ≡ none
        → leb 32 c ≡ true
        → unescape (c ∷ s) ≡ Option.map (λ t. c ∷ t) (unescape s)
    unfolding unescape
    unescape_single c [] h printable =
        let (quote, slash) = readable.plain c h in
        let low : ltb c 32 ≡ false = ground arith in rw (low, quote, slash) refl
    unescape_single c (x ∷ s) h printable =
        let (quote, slash) = readable.plain c h in
        let low : ltb c 32 ≡ false = ground arith in rw (low, quote, slash) refl

    unescape_control : (c : ℕ) (s : Text) → leb 32 c ≡ false → unescape (c ∷ s) ≡ none
    unfolding unescape
    unescape_control c [] h = let low : ltb c 32 ≡ true = ground arith in rw low refl
    unescape_control c (x ∷ s) h = let low : ltb c 32 ≡ true = ground arith in rw low refl

    -- Whatever the size, a reader of JSON takes an escaped legible text back as the text with some
    -- characters left out: no escape is ever cut in two.
    pub unescape-escape_with_cut :
        (s : Text) (j : ℕ)
        → is_legible code s ≡ true
        → (t : Text) × (unescape (escape_with code size s j) ≡ some t) × IsSubsequence t s
    unfolding escape_with unescape is_legible
    unescape-escape_with_cut [] j h = ([], refl, none_left)
    unescape-escape_with_cut (c ∷ s) j h = elim (Bool-cases (ltb j (size - 1))) [
      | inr full ↦ ([], rw (escape_with, full) refl, empty_of (c ∷ s))
      | inl room ↦ elim (Option-cases (code c)) [
        | inl plain ↦
            let legible = rw (plain, is_legible) at h in
            let printable : leb 32 c ≡ true = ground (arith, legible) in
            let others : is_legible code s ≡ true = ground (arith, legible) in
            let (t, e, sub) = unescape-escape_with_cut s (j + 1) others in
            let single = unescape_single c (escape_with code size s (j + 1)) plain printable in
            (c ∷ t, rw (escape_with, room, plain, single, e) refl, kept c sub)
        | inr (x, special) ↦ elim (Bool-cases (ltb (j + 2) size)) [
          | inl two ↦
              let (t, e, sub) =
                unescape-escape_with_cut s (j + 2) (rw (special, is_legible) at h) in
              let same = readable.undone c x special in
              (c ∷ t, rw (escape_with, room, special, two, same, e) refl, kept c sub)
          | inr less ↦
              let (t, e, sub) = unescape-escape_with_cut s j (rw (special, is_legible) at h) in
              (t, rw (escape_with, room, special, less) e, left_out c sub)
        ]
      ]
    ]

    -- If the buffer has two bytes for each character of the text and one more, a legible text comes
    -- back whole, and any other is refused.
    pub unescape-escape_with :
        (s : Text) (j : ℕ)
        → j + 2 * length s < size
        → unescape (escape_with code size s j) ≡ (if is_legible code s then some s else none)
    unfolding escape_with unescape is_legible
    unescape-escape_with [] j h = refl
    unescape-escape_with (c ∷ s) j h =
        let room : ltb j (size - 1) ≡ true = ground arith in
        let two : ltb (j + 2) size ≡ true = ground arith in
        elim (Option-cases (code c)) [
          | inl plain ↦
              let after = escape_with code size s (j + 1) in
              let rest = unescape-escape_with s (j + 1) (omega arith) in
              elim (Bool-cases (leb 32 c)) [
                | inl printable ↦
                    let single = unescape_single c after plain printable in
                    rw (escape_with, is_legible, room, plain, printable, single, rest)
                      (map_legible (is_legible code s) c s)
                | inr control ↦
                    let refused = unescape_control c after control in
                    rw (escape_with, is_legible, room, plain, control, refused) refl
              ]
          | inr (x, special) ↦
              let same = readable.undone c x special in
              let rest = unescape-escape_with s (j + 2) (omega arith) in
              rw (escape_with, is_legible, room, special, two, same, rest)
                (map_legible (is_legible code s) c s)
        ]

-- The escaped output of a task fits its buffer of 16,384 bytes with the terminator, whatever the job
-- has written. If the output has no control characters but line feeds and carriage returns, a reader of
-- JSON takes the escaped text back as the output with some characters left out; an output of up to 8,191
-- characters comes back whole then, and is refused otherwise: a tab, for one, is sent as it is.
pub unescape-escape_output :
    (output : Text)
    → (length (escape_output 16384 output) < 16384)
      × ((is_legible output_code output ≡ false)
          ⊎ ((t : Text) × (unescape (escape_output 16384 output) ≡ some t)
              × IsSubsequence t output))
      × ((ltb 8191 (length output) ≡ true)
          ⊎ (unescape (escape_output 16384 output)
              ≡ (if is_legible output_code output then some output else none)))
unfolding escape_output
unescape-escape_output output = (
  omega (arith, length-escape_with output_code 16384 output 0 (omega arith)),
  elim (Bool-cases (is_legible output_code output)) [
    | inr control ↦ inl control
    | inl legible ↦
        inr (unescape-escape_with_cut output_code 16384 output_code-IsReadable output 0 legible)
  ],
  elim (Bool-cases (ltb 8191 (length output))) [
    | inl long ↦ inl long
    | inr short ↦
        inr (unescape-escape_with output_code 16384 output_code-IsReadable output 0 (ground arith))
  ],
)
