-- ===== src/Http/Request.antt =====
-- The texts that a connection carries: `parse_request` and `send_response` of
-- src/http/HttpServer.cpp, with `std::getline` and `operator>>` on the bytes that are left.
pub mod Framing
pub mod Lines
pub mod Message
pub mod RoundTrip
pub mod Reply
use Prim.Native.Nat.{suc, ◌-◌}
use code_tribunal.Prelude.{
  ℕ, zero, ◌+◌, Bool, true, false, ◌||◌, ◌==◌, Option, none, some, List, [], ◌∷◌, ◌++◌, Text, text,
  text_eq, length, is_empty, take, drop, replicate, if◌then◌else◌, to_string,
}
use code_tribunal.Prelude.Int.{ℤ, pos, negsuc}
use code_tribunal.Prelude.Stoi.{is_space, skip_spaces, stoi}

-- The text before the first character that stops, and the text from there on.
unfoldable pub break_at : (ℕ → Bool) → Text → Text × Text
break_at stops [] = ([], [])
break_at stops (c ∷ s) =
    let (a, b) = break_at stops s in if stops c then ([], c ∷ s) else (c ∷ a, b)

-- `none` if no character is left: `getline` fails. The newline is dropped.
unfoldable pub getline : Text → Option (Text × Text)
unfolding break_at
getline [] = none
getline (c ∷ s) = let (a, b) = break_at (λ x. x == 10) (c ∷ s) in some (a, drop 1 b)

unfoldable pub word_of : Text → Option (Text × Text)
unfolding break_at
word_of [] = none
word_of (c ∷ s) = some (break_at is_space (c ∷ s))

-- `stream >> word`: white space is skipped; `none` if no character follows.
unfoldable pub read_word : Text → Option (Text × Text)
unfolding word_of skip_spaces
read_word s = word_of (skip_spaces s)

pub data Headers : Type 0 where
  -- The fuel ran out.
  unfinished : Headers
  -- `std::stoi` throws.
  refused : Headers
  -- The content length, and the text after the headers.
  finished : ℤ → Text → Headers

abbrev pub length_header : Text
length_header = text "Content-Length: "

-- The content length after a header line. `none` is an exception of `std::stoi`.
unfoldable pub header_length : ℤ → Text → Option ℤ
unfolding text_eq stoi
header_length len line =
    if text_eq (take 16 line) length_header then stoi 10 (drop 16 line) else some len

abbrev pub ends_headers : Text → Bool
ends_headers line = is_empty line || text_eq line (text "\r")

-- The loop over the header lines.
unfoldable pub read_headers : ℕ → ℤ → Text → Headers
unfolding getline header_length text_eq
read_headers zero len s = unfinished
read_headers (suc fuel) len s = elim (getline s) [
  | none ↦ finished len s
  | some (line, rest) ↦ elim (ends_headers line) [
    | true ↦ finished len rest
    | false ↦ elim (header_length len line) [ none ↦ refused | some n ↦ read_headers fuel n rest ]
  ]
]

-- `resize`, which fills with NUL, and `read`, which stops at the end of the text.
unfoldable pub read_body : ℤ → Text → Text
read_body (pos n) s = take n s ++ replicate (n - length s) 0
read_body (negsuc n) s = []

pub data Parsed : Type 0 where
  no_fuel : Parsed
  -- An exception leaves the function.
  throws : Parsed
  -- The function returns false.
  malformed : Parsed
  request : (method path body : Text) → Parsed

abbrev pub body_for : Text → Headers → Text → Parsed
body_for method unfinished path = no_fuel
body_for method refused path = throws
body_for method (finished len rest) path =
    request method path (if text_eq method (text "POST") then read_body len rest else [])

-- The method and the path of a request line.
unfoldable pub request_line : Text → Option (Text × Text)
unfolding read_word
request_line line = elim (read_word line) [
  | none ↦ none
  | some (method, rest) ↦ elim (read_word rest) [
    | none ↦ none
    | some (path, _) ↦ some (method, path)
  ]
]

-- A header line takes at least one character, so the characters bound the rounds of the loop.
unfoldable pub parse_request : Text → Parsed
unfolding getline request_line read_headers read_body text_eq
parse_request buffer = elim (getline buffer) [
  | none ↦ malformed
  | some (line, rest) ↦ elim (request_line line) [
    | none ↦ malformed
    | some (method, path) ↦ body_for method (read_headers (suc (length rest)) (pos 0) rest) path
  ]
]

pub record Response : Type 0 where
  pub status_code : ℕ
  pub content_type : Text
  pub body : Text

abbrev pub crlf : Text
crlf = text "\r\n"

-- The bytes that `send_response` sends.
unfoldable pub send_response : Response → Text
unfolding to_string
send_response r =
    text "HTTP/1.1 "
    ++ (to_string r.status_code
        ++ (text " OK\r\nContent-Type: "
            ++ (r.content_type
                ++ (text "\r\nContent-Length: "
                    ++ (to_string (length r.body)
                        ++ (text "\r\nAccess-Control-Allow-Origin: *\r\nConnection: close\r\n\r\n"
                            ++ r.body))))))
