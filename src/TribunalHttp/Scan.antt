-- ===== src/TribunalHttp/Scan.antt =====
-- How src/tribunal_http.c reads requests: `strstr`, and `sscanf` with the formats that it uses.
pub mod Numbers
use code_tribunal.Prelude.{
  ℕ, zero, suc, ◌+◌, Bool, true, false, ◌||◌, ◌&&◌, ◌==◌, leb, Option, none, some, List, [], ◌∷◌,
  Text, text, find, starts_with, length, is_empty, take, drop, if◌then◌else◌,
}
use code_tribunal.Prelude.Int.{ℤ}
use code_tribunal.Prelude.Stoi.{is_space, skip_spaces, stoi}

-- The text before the first character that stops.
unfoldable pub up_to : (ℕ → Bool) → Text → Text
up_to stops [] = []
up_to stops (c ∷ s) = let rest = c ∷ up_to stops s in if stops c then [] else rest

-- A buffer read as a string.
unfoldable pub c_string : Text → Text
unfolding up_to
c_string bytes = up_to (λ c. c == 0) bytes

-- `sscanf(s, "\"%<width>[^\"]\"", value)`: a quote, and at least one character before the next quote.
-- Otherwise `value` keeps what it holds.
unfoldable pub scan_quoted : ℕ → Text → Text → Text
unfolding up_to
scan_quoted width value [] = value
scan_quoted width value (c ∷ s) =
    let found = take width (up_to (λ x. x == b'"') s) in
    if c == b'"' then (if is_empty found then value else found) else value

-- The value of a key: `strstr(body, key)`, and `sscanf` behind the key.
unfoldable pub quoted_value : Text → ℕ → Text → Text → Text
unfolding scan_quoted
quoted_value key width value body = elim (find key body) [
  | none ↦ value
  | some p ↦ scan_quoted width value (drop (p + length key) body)
]

unfoldable pub is_digit : ℕ → Bool
is_digit c = leb b'0' c && leb c b'9'

unfoldable pub starts_digit : Text → Bool
unfolding is_digit
starts_digit [] = false
starts_digit (c ∷ s) = is_digit c

unfoldable pub starts_number : Text → Bool
unfolding starts_digit is_digit
starts_number [] = false
starts_number (c ∷ s) = is_digit c || ((c == b'-' || c == b'+') && starts_digit s)

-- `sscanf(s, "%d", &n)`: white space, a sign and digits; `none` if nothing is stored. What is stored for a
-- numeral that no `int` can hold is left open by the C standard: the first argument.
unfoldable pub scan_int : (Text → ℤ) → Text → Option ℤ
unfolding starts_number skip_spaces
scan_int overflow s = elim (stoi 10 s) [
  | some n ↦ some n
  | none ↦ if starts_number (skip_spaces s) then some (overflow s) else none
]

abbrev value_or : ℤ → Option ℤ → ℤ
value_or default none = default
value_or default (some n) = n

unfoldable pub int_value : (Text → ℤ) → Text → ℤ → Text → ℤ
unfolding scan_int
int_value overflow key default body = elim (find key body) [
  | none ↦ default
  | some p ↦ value_or default (scan_int overflow (drop (p + length key) body))
]

-- `sscanf(path, "/api/tasks/%d/…", &id)`: 1 is returned as soon as the number is read, whatever the
-- format has behind it.
unfoldable pub scan_task_id : (Text → ℤ) → Text → Option ℤ
unfolding scan_int starts_with
scan_task_id overflow path =
    if starts_with (text "/api/tasks/") path then scan_int overflow (drop 11 path) else none

-- A word of `sscanf(s, "%15s %255s", method, path)`: the word, or what the variable holds already.
unfoldable pub scan_word : ℕ → Text → Text → Text
unfolding up_to is_space
scan_word width value s =
    let found = take width (up_to is_space s) in if is_empty found then value else found

-- The method and the path. What the first word does not take is left for the second; if there is no
-- first word, the second is not read.
unfoldable pub scan_request : Text → Text → Text → Text × Text
unfolding scan_word skip_spaces
scan_request method path s =
    let rest = skip_spaces s in
    let found = scan_word 15 method rest in
    if is_empty rest
    then (method, path)
    else (found, scan_word 255 path (skip_spaces (drop (length found) rest)))
