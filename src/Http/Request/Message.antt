-- ===== src/Http/Request/Message.antt =====
-- A message with a content length among its headers (`parse_request` in src/http/HttpServer.cpp).
use code_tribunal.Prelude.{
  ℕ, suc, ◌+◌, ◌≤◌, ◌<◌, ◌-◌, ◌≡◌, refl, ap, ◌∙◌, some, List, [], ◌∷◌, ◌++◌, Text, text_eq, length,
  length-append, All, arith, to_string,
}
use code_tribunal.Prelude.Int.{ℤ, pos}
use code_tribunal.Prelude.Numerals.{stoi-to_string, to_string-IsFree}
use code_tribunal.Http.Request.{getline, finished, header_length, length_header, read_headers}
use code_tribunal.Http.Request.Lines.{
  length_line-IsFree, IsHeader, rendered, read_headers_line, read_headers-rendered, length-rendered,
}

-- The head of a message with a content length among its headers, and the text after it.
abbrev pub message : List Text → ℕ → List Text → Text → Text
message before n after body =
    rendered before ((length_header ++ to_string n) ++ 13 ∷ 10 ∷ rendered after (13 ∷ 10 ∷ body))

header_length_read :
    (len : ℤ) (n : ℕ)
    → n ≤ 2147483647
    → header_length len ((length_header ++ to_string n) ++ 13 ∷ []) ≡ some (pos n)
unfolding header_length text_eq
header_length_read len n h = stoi-to_string n (13 ∷ []) h refl

read_headers_end :
    (fuel : ℕ) (len : ℤ) (body : Text)
    → read_headers (suc fuel) len (13 ∷ 10 ∷ body) ≡ finished len body
unfolding read_headers getline
read_headers_end fuel len body = refl

read_headers_after_length :
    (fuel : ℕ) (len : ℤ) (n : ℕ) (after : List Text) (body : Text)
    → All IsHeader after
    → n ≤ 2147483647
    → read_headers
        (suc (length after + suc fuel))
        len
        ((length_header ++ to_string n) ++ 13 ∷ 10 ∷ rendered after (13 ∷ 10 ∷ body))
      ≡ finished (pos n) body
read_headers_after_length fuel len n after body hs h =
    read_headers_line (length after + suc fuel) len (pos n) (length_header ++ to_string n)
      (rendered after (13 ∷ 10 ∷ body))
      (length_line-IsFree (to_string n) (to_string-IsFree 10 n (omega arith))) refl
      (header_length_read len n h)
    ∙ read_headers-rendered after (suc fuel) (pos n) (13 ∷ 10 ∷ body) hs
    ∙ read_headers_end fuel (pos n) body

message-long :
    (before : List Text) (n : ℕ) (after : List Text) (body : Text)
    → length before + length after + 2 ≤ length (message before n after body)
message-long before n after body =
    let line = length_header ++ to_string n in
    let ending = rendered after (13 ∷ 10 ∷ body) in
    omega (
      arith,
      length-rendered before (line ++ 13 ∷ 10 ∷ ending),
      length-append line (13 ∷ 10 ∷ ending),
      length-rendered after (13 ∷ 10 ∷ body),
    )

-- The loop finds the content length and stops before the body.
pub read_headers-message :
    (fuel : ℕ) (len : ℤ) (before : List Text) (n : ℕ) (after : List Text) (body : Text)
    → All IsHeader before
    → All IsHeader after
    → n ≤ 2147483647
    → length (message before n after body) < fuel
    → read_headers fuel len (message before n after body) ≡ finished (pos n) body
read_headers-message fuel len before n after body bs hs h enough =
    let spare = fuel - (length before + length after + 2) in
    ap (λ k. read_headers k len (message before n after body))
      (omega (arith, message-long before n after body))
    ∙ read_headers-rendered before (suc (length after + suc spare)) len _ bs
    ∙ read_headers_after_length spare len n after body hs h
