-- ===== src/Http/Request/RoundTrip.antt =====
-- Requests in the form that HTTP clients send, read by `parse_request` in src/http/HttpServer.cpp.
use mathlib.Core.List.{append_assoc, append-nil}
use code_tribunal.Prelude.{
  suc, ◌≤◌, ◌-◌, ◌≡◌, refl, ap, ◌∙◌, false, ◌==◌, none, some, List, [], ◌∷◌, ◌++◌, Text, text,
  text_eq, length, length-append, All, All-append, take, replicate, arith,
}
use code_tribunal.Prelude.Int.{pos}
use code_tribunal.Prelude.Search.{IsFree, none_of-All, take_short}
use code_tribunal.Prelude.Stoi.{is_space, stoi}
use code_tribunal.Http.Request.{
  getline, length_header, read_headers, read_body, request, body_for, request_line, parse_request,
}
use code_tribunal.Http.Request.{throws}
use code_tribunal.Http.Request.Lines.{
  IsWord, IsHeader, rendered, getline_header, length-rendered, request_line_stop,
  header_line_refused, read_headers_skip,
}
use code_tribunal.Http.Request.Message.{message, read_headers-message}

read_body_whole : (body : Text) → read_body (pos (length body)) body ≡ body
unfolding read_body
read_body_whole body =
    let none_left : length body - length body ≡ 0 = omega arith in
    ap (λ k. take (length body) body ++ replicate k 0) none_left
    ∙ append-nil (take (length body) body)
    ∙ take_short (length body) body (omega arith)

IsWord-IsFree : (a : Text) → All (λ c. is_space c ≡ false) a → IsFree 10 a
unfolding is_space
IsWord-IsFree [] h = tt
IsWord-IsFree (c ∷ a) h = (ground (arith, h.0), IsWord-IsFree a h.1)

-- The first line of a POST request.
abbrev pub post_line : Text → Text → Text
post_line path version = text "POST" ++ 32 ∷ (path ++ 32 ∷ version)

post_line-IsFree :
    (path version : Text) → IsWord path → IsFree 10 version → IsFree 10 (post_line path version)
post_line-IsFree path version p v =
    let after =
      All-append (λ c. (c == 10) ≡ false) path (32 ∷ version) (IsWord-IsFree path p.1) (refl, v) in
    All-append _ (text "POST ") (path ++ 32 ∷ version)
      (none_of-All (λ c. c == 10) (text "POST ") refl) after

request_line-post :
    (path version : Text)
    → IsWord path
    → request_line (post_line path version ++ 13 ∷ []) ≡ some (text "POST", path)
unfolding is_space
request_line-post path version p =
    ap (λ t. request_line (text "POST" ++ 32 ∷ t)) (append_assoc path (32 ∷ version) (13 ∷ []))
    ∙ request_line_stop (text "POST") path (version ++ 13 ∷ [])
        (refl, none_of-All is_space (text "POST") refl) p

parse_request_read :
    (buffer line rest method path : Text)
    → getline buffer ≡ some (line, rest)
    → request_line line ≡ some (method, path)
    → parse_request buffer ≡ body_for method (read_headers (suc (length rest)) (pos 0) rest) path
unfolding parse_request
parse_request_read buffer line rest method path e f =
    rw (e, parse_request) (rw (f, parse_request) refl)

-- A POST request with a path without white space, header lines before and after its content length,
-- and that many characters of body, is parsed into its path and exactly its body.
pub parse_request-message :
    (path version : Text) (before after : List Text) (body : Text)
    → IsWord path
    → IsFree 10 version
    → All IsHeader before
    → All IsHeader after
    → length body ≤ 2147483647
    → parse_request (post_line path version ++ 13 ∷ 10 ∷ message before (length body) after body)
      ≡ request (text "POST") path body
unfolding text_eq
parse_request-message path version before after body p v bs hs h =
    let head = message before (length body) after body in
    let line = post_line path version in
    parse_request_read (line ++ 13 ∷ 10 ∷ head) (line ++ 13 ∷ []) head (text "POST") path
      (getline_header line head (post_line-IsFree path version p v))
      (request_line-post path version p)
    ∙ ap (λ r. body_for (text "POST") r path)
        (read_headers-message (suc (length head)) (pos 0) before (length body) after body bs hs h
          (omega arith))
    ∙ ap (request (text "POST") path) (read_body_whole body)

-- A POST request whose content length is no `int`, after any headers, makes the parser throw.
pub parse_request-throws :
    (path version : Text) (before : List Text) (value tail : Text)
    → IsWord path
    → IsFree 10 version
    → All IsHeader before
    → IsFree 10 value
    → stoi 10 (value ++ 13 ∷ []) ≡ none
    → parse_request (
        post_line path version
        ++ 13 ∷ 10 ∷ rendered before ((length_header ++ value) ++ 13 ∷ 10 ∷ tail))
      ≡ throws
parse_request-throws path version before value tail p v bs free bad =
    let last = (length_header ++ value) ++ 13 ∷ 10 ∷ tail in
    let line = post_line path version in
    parse_request_read (line ++ 13 ∷ 10 ∷ rendered before last) (line ++ 13 ∷ [])
      (rendered before last) (text "POST") path
      (getline_header line (rendered before last) (post_line-IsFree path version p v))
      (request_line-post path version p)
    ∙ ap (λ r. body_for (text "POST") r path)
        (read_headers_skip before (suc (length (rendered before last))) (pos 0) last bs (
            omega (
              arith,
              length-rendered before last,
              length-append (length_header ++ value) (13 ∷ 10 ∷ tail),
            ))
          ∙ header_line_refused (suc (length (rendered before last)) - length before - 1) (pos 0)
              value tail free bad)
