-- ===== src/Http/Request/Reply.antt =====
-- The responses of `send_response` in src/http/HttpServer.cpp, read by its own header reader.
use mathlib.Core.List.{append_assoc}
use code_tribunal.Prelude.{
  ℕ, suc, ◌≤◌, ◌≡◌, refl, ap, sym, ◌∙◌, true, false, ◌==◌, some, List, [], ◌∷◌, ◌++◌, Text, text,
  text_eq, length, is_empty, All, All-append, take, arith, to_string,
}
use code_tribunal.Prelude.Int.{pos}
use code_tribunal.Prelude.Search.{IsFree, none_of, none_of-All}
use code_tribunal.Prelude.Numerals.{to_string-IsFree}
use code_tribunal.Http.Request.{
  getline, finished, length_header, read_headers, Response, send_response,
}
use code_tribunal.Http.Request.Lines.{IsHeader, getline_header}
use code_tribunal.Http.Request.Message.{message, read_headers-message}

content_type-IsHeader : (t : Text) → IsFree 10 t → IsHeader (text "Content-Type: " ++ t)
unfolding text_eq
content_type-IsHeader t free = record {
  one_line =
      All-append _ (text "Content-Type: ") t
        (none_of-All (λ c. c == 10) (text "Content-Type: ") refl) free;
  filled = refl;
  other = refl;
}

fixed-IsHeader :
    (h : Text)
    → none_of (λ c. c == 10) h ≡ true
    → is_empty h ≡ false
    → text_eq (take 16 (h ++ 13 ∷ [])) length_header ≡ false
    → IsHeader h
fixed-IsHeader h free filled other = record {
  one_line = none_of-All (λ c. c == 10) h free;
  filled = filled;
  other = other;
}

abbrev pub status_line : ℕ → Text
status_line code = text "HTTP/1.1 " ++ (to_string code ++ text " OK")

abbrev closing_headers : List Text
closing_headers = text "Access-Control-Allow-Origin: *" ∷ text "Connection: close" ∷ []

send_response-message :
    (r : Response)
    → send_response r
      ≡ status_line r.status_code
        ++ 13
          ∷ 10
          ∷ message
              ((text "Content-Type: " ++ r.content_type) ∷ [])
              (length r.body)
              closing_headers
              r.body
unfolding send_response
send_response-message r =
    ap (λ t. text "HTTP/1.1 " ++ t) (sym (append_assoc (to_string r.status_code) (text " OK") _))

closing_headers-IsHeader : All IsHeader closing_headers
unfolding text_eq
closing_headers-IsHeader = (
  fixed-IsHeader (text "Access-Control-Allow-Origin: *") refl refl refl,
  (fixed-IsHeader (text "Connection: close") refl refl refl, tt),
)

status_line-IsFree : (code : ℕ) → IsFree 10 (status_line code)
status_line-IsFree code =
    All-append _ (text "HTTP/1.1 ") (to_string code ++ text " OK")
      (none_of-All (λ c. c == 10) (text "HTTP/1.1 ") refl)
      (All-append _ (to_string code) (text " OK") (to_string-IsFree 10 code (omega arith))
        (none_of-All (λ c. c == 10) (text " OK") refl))

-- A response frames its body: it has a status line, and the header lines that follow give the length
-- of the body and end where the body begins.
pub read_headers-send_response :
    (r : Response)
    → IsFree 10 r.content_type
    → length r.body ≤ 2147483647
    → (rest : Text) × (getline (send_response r)
        ≡ some (status_line r.status_code ++ 13 ∷ [], rest))
      × (read_headers (suc (length rest)) (pos 0) rest ≡ finished (pos (length r.body)) r.body)
read_headers-send_response r free h =
    let before = (text "Content-Type: " ++ r.content_type) ∷ [] in
    let rest = message before (length r.body) closing_headers r.body in
    (
      rest,
      ap getline (send_response-message r)
          ∙ getline_header (status_line r.status_code) rest (status_line-IsFree r.status_code),
      read_headers-message (suc (length rest)) (pos 0) before (length r.body) closing_headers r.body
          (content_type-IsHeader r.content_type free, tt) closing_headers-IsHeader h (omega arith),
    )
