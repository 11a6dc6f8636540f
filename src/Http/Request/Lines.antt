-- ===== src/Http/Request/Lines.antt =====
-- Reading the lines, words and headers of a message whose text is known (`parse_request` in
-- src/http/HttpServer.cpp).
use mathlib.Core.List.{append_assoc}
use code_tribunal.Prelude.{
  ℕ, suc, ◌+◌, ◌≤◌, ◌<◌, ◌-◌, ◌≡◌, refl, ap, sym, ◌∙◌, Bool, true, false, ◌==◌, none, some, List,
  [], ◌∷◌, ◌++◌, Text, text_eq, length, length-append, is_empty, All, All-append, take, arith,
}
use code_tribunal.Prelude.Int.{ℤ}
use code_tribunal.Prelude.Search.{IsFree, none_of-All}
use code_tribunal.Prelude.Stoi.{is_space, skip_spaces, stoi}
use code_tribunal.Http.Request.{
  break_at, getline, word_of, read_word, refused, header_length, length_header, ends_headers,
  read_headers, request_line,
}

break_at_stop :
    (stops : ℕ → Bool) (a : Text) (c : ℕ) (b : Text)
    → All (λ x. stops x ≡ false) a
    → stops c ≡ true
    → break_at stops (a ++ c ∷ b) ≡ (a, c ∷ b)
unfolding break_at
break_at_stop stops [] c b h t = rw t refl
break_at_stop stops (x ∷ a) c b h t = rw (h.0, break_at_stop stops a c b h.1 t) refl

getline_stop : (a b : Text) → IsFree 10 a → getline (a ++ 10 ∷ b) ≡ some (a, b)
unfolding getline
getline_stop [] b h = refl
getline_stop (x ∷ a) b h = rw (break_at_stop (λ c. c == 10) (x ∷ a) 10 b h refl) refl

-- No white space.
abbrev pub IsWord : Text → Type 0
IsWord a = (is_empty a ≡ false) × All (λ c. is_space c ≡ false) a

read_word_stop : (a b : Text) → IsWord a → read_word (a ++ 32 ∷ b) ≡ some (a, 32 ∷ b)
unfolding read_word is_space
read_word_stop [] b h = ground arith
read_word_stop (x ∷ a) b h =
    rw (h.1.0, skip_spaces, break_at_stop is_space (x ∷ a) 32 b h.1 refl) refl

pub request_line_stop :
    (method path rest : Text)
    → IsWord method
    → IsWord path
    → request_line (method ++ 32 ∷ (path ++ 32 ∷ rest)) ≡ some (method, path)
unfolding request_line read_word
request_line_stop method path rest m p =
    let word : word_of (skip_spaces (path ++ 32 ∷ rest)) ≡ some (path, 32 ∷ rest) =
      read_word_stop path rest p in
    rw (read_word_stop method (path ++ 32 ∷ rest) m, request_line) (rw word refl)

-- A header line: not empty, and not a content length.
pub record IsHeader (h : Text) : Type 0 where
  pub one_line : IsFree 10 h
  pub filled : is_empty h ≡ false
  pub other : text_eq (take 16 (h ++ 13 ∷ [])) length_header ≡ false

-- Header lines before a text.
abbrev pub rendered : List Text → Text → Text
rendered [] tail = tail
rendered (h ∷ hs) tail = h ++ 13 ∷ 10 ∷ rendered hs tail

pub length-rendered :
    (hs : List Text) (tail : Text) → length hs + length tail ≤ length (rendered hs tail)
length-rendered [] tail = omega arith
length-rendered (h ∷ hs) tail =
    omega (arith, length-append h (13 ∷ 10 ∷ rendered hs tail), length-rendered hs tail)

-- The line of a header, and what follows.
pub getline_header :
    (h tail : Text) → IsFree 10 h → getline (h ++ 13 ∷ 10 ∷ tail) ≡ some (h ++ 13 ∷ [], tail)
getline_header h tail free =
    ap getline (sym (append_assoc h (13 ∷ []) (10 ∷ tail)))
    ∙ getline_stop (h ++ 13 ∷ []) tail (All-append _ h (13 ∷ []) free (refl, tt))

ends_headers_filled : (h : Text) → is_empty h ≡ false → ends_headers (h ++ 13 ∷ []) ≡ false
unfolding text_eq
ends_headers_filled [] e = ground arith
ends_headers_filled (x ∷ []) e = ground arith
ends_headers_filled (x ∷ y ∷ h) e = ground arith

-- A round of the loop on a line that does not end the headers.
pub read_headers_line :
    (fuel : ℕ) (len n : ℤ) (h tail : Text)
    → IsFree 10 h
    → is_empty h ≡ false
    → header_length len (h ++ 13 ∷ []) ≡ some n
    → read_headers (suc fuel) len (h ++ 13 ∷ 10 ∷ tail) ≡ read_headers fuel n tail
unfolding read_headers
read_headers_line fuel len n h tail free filled e =
    rw (getline_header h tail free, read_headers)
      (rw (ends_headers_filled h filled, read_headers) (rw (e, read_headers) refl))

pub read_headers-rendered :
    (hs : List Text) (fuel : ℕ) (len : ℤ) (tail : Text)
    → All IsHeader hs
    → read_headers (length hs + fuel) len (rendered hs tail) ≡ read_headers fuel len tail
unfolding header_length
read_headers-rendered [] fuel len tail hs = ap (λ k. read_headers k len tail) (omega arith)
read_headers-rendered (h ∷ hs) fuel len tail (p, ps) =
    ap (λ k. read_headers k len (rendered (h ∷ hs) tail)) (omega arith)
    ∙ read_headers_line (length hs + fuel) len len h (rendered hs tail) p.one_line p.filled
        (rw (p.other, header_length) refl)
    ∙ read_headers-rendered hs fuel len tail ps

-- The same with fuel for one more round.
pub read_headers_skip :
    (hs : List Text) (fuel : ℕ) (len : ℤ) (tail : Text)
    → All IsHeader hs
    → length hs < fuel
    → read_headers fuel len (rendered hs tail) ≡ read_headers (suc (fuel - length hs - 1)) len tail
read_headers_skip hs fuel len tail h enough =
    ap (λ k. read_headers k len (rendered hs tail)) (omega arith)
    ∙ read_headers-rendered hs (suc (fuel - length hs - 1)) len tail h

read_headers_refuse :
    (fuel : ℕ) (len : ℤ) (h tail : Text)
    → IsFree 10 h
    → is_empty h ≡ false
    → header_length len (h ++ 13 ∷ []) ≡ none
    → read_headers (suc fuel) len (h ++ 13 ∷ 10 ∷ tail) ≡ refused
unfolding read_headers
read_headers_refuse fuel len h tail free filled e =
    rw (getline_header h tail free, read_headers)
      (rw (ends_headers_filled h filled, read_headers) (rw (e, read_headers) refl))

header_length_refuse :
    (len : ℤ) (value : Text)
    → stoi 10 (value ++ 13 ∷ []) ≡ none
    → header_length len ((length_header ++ value) ++ 13 ∷ []) ≡ none
unfolding header_length text_eq
header_length_refuse len value bad = bad

pub length_line-IsFree : (value : Text) → IsFree 10 value → IsFree 10 (length_header ++ value)
length_line-IsFree value free =
    All-append _ length_header value (none_of-All (λ c. c == 10) length_header refl) free

-- A line with a content length that is no `int`.
pub header_line_refused :
    (fuel : ℕ) (len : ℤ) (value tail : Text)
    → IsFree 10 value
    → stoi 10 (value ++ 13 ∷ []) ≡ none
    → read_headers (suc fuel) len ((length_header ++ value) ++ 13 ∷ 10 ∷ tail) ≡ refused
header_line_refused fuel len value tail free bad =
    read_headers_refuse fuel len (length_header ++ value) tail (length_line-IsFree value free) refl
      (header_length_refuse len value bad)
