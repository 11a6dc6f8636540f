-- ===== src/TribunalHttp/Escape.antt =====
-- The two loops of src/tribunal_http.c that escape a text for JSON into a buffer of a given size: that of
-- `handle_get_task_output` (lines 258 to 287) and `escape_json_string` (lines 373 to 413). The result is
-- what the buffer holds before its terminator.
pub mod RoundTrip
pub mod Terminated
use mathlib.Core.Option
use code_tribunal.Prelude.{
  ℕ, ◌+◌, ◌-◌, Bool, true, false, ◌&&◌, ◌||◌, ◌==◌, ltb, leb, Option, none, some, List, [], ◌∷◌,
  Text, text, starts_with, if◌then◌else◌,
}

-- The second character of the escape of a character, in a task's output.
unfoldable pub output_code : ℕ → Option ℕ
output_code c =
    if c == b'"'
    then some b'"'
    else if c == 10
    then some b'n'
    else if c == 13
    then some b'r'
    else if c == b'\\'
    then some b'\\'
    else none

-- The loop over the bytes of an output, with `j` bytes written. An escape that does not fit is left out.
unfoldable pub escape_with : (ℕ → Option ℕ) → ℕ → Text → ℕ → Text
escape_with code size [] j = []
escape_with code size (c ∷ s) j =
    let after_pair = escape_with code size s (j + 2) in
    let dropped = escape_with code size s j in
    let single = c ∷ escape_with code size s (j + 1) in
    if ltb j (size - 1)
    then elim (code c) [
      | some x ↦ if ltb (j + 2) size then b'\\' ∷ x ∷ after_pair else dropped
      | none ↦ single
    ]
    else []

unfoldable pub escape_output : ℕ → Text → Text
unfolding escape_with output_code
escape_output size output = escape_with output_code size output 0

-- The same for `escape_json_string`.
unfoldable pub json_code : ℕ → Option ℕ
json_code c =
    if c == b'"'
    then some b'"'
    else if c == b'\\'
    then some b'\\'
    else if c == 10
    then some b'n'
    else if c == 9
    then some b't'
    else if c == 13
    then some b'r'
    else none

-- The loop of `escape_json_string` over the memory at `src`, with `j` bytes written; `skipping` tells
-- whether it is the inner loop that runs, behind the character 0x1b of an ANSI sequence. `none` is a read
-- behind the end of the memory. The inner loop stops at `m` or at the terminator, and the outer one goes
-- on with the byte behind that.
unfoldable pub escape_loop : ℕ → Bool → Text → ℕ → Option Text
unfolding starts_with
escape_loop size skipping [] j = none
escape_loop size true (c ∷ s) j =
    let outer = escape_loop size false s j in
    let inner = escape_loop size true s j in if c == 0 || c == b'm' then outer else inner
escape_loop size false (c ∷ s) j =
    let skip = escape_loop size true s j in
    let after_pair = escape_loop size false s (j + 2) in
    let dropped = escape_loop size false s j in
    let single = Option.map (λ t. c ∷ t) (escape_loop size false s (j + 1)) in
    if c == 0 || leb (size - 1) j
    then some []
    else if c == 27 && starts_with (text "[") s
    then skip
    else elim (json_code c) [
      | some x ↦ if ltb (j + 2) size then Option.map (λ t. b'\\' ∷ x ∷ t) after_pair else dropped
      | none ↦ single
    ]

unfoldable pub escape_json_string : Text → ℕ → Option Text
unfolding escape_loop
escape_json_string src dst_size = escape_loop dst_size false src 0
