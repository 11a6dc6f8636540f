-- ===== src/TribunalHttp/Reply.antt =====
-- The responses of src/tribunal_http.c: `snprintf` into a buffer, and `http_response`.
use code_tribunal.Prelude.{ℕ, ◌-◌, List, [], ◌∷◌, ◌++◌, Text, text, length, take, to_string}

pub record Reply : Type 0 where
  pub status : ℕ
  pub content_type : Text
  pub body : Text

-- The pieces of a format, in their order.
abbrev pub concat : List Text → Text
concat [] = []
concat (t ∷ ts) = t ++ concat ts

-- What a buffer of `size` bytes holds after `snprintf`.
unfoldable pub snprintf : ℕ → Text → Text
snprintf size t = take (size - 1) t

abbrev pub json : ℕ → Text → Reply
json status body = record { status = status; content_type = text "application/json"; body = body }

abbrev pub plain : ℕ → Text → Reply
plain status body = record { status = status; content_type = text "text/plain"; body = body }

-- The bytes that are sent. The content length is that of the body, also where the buffer cuts it.
unfoldable pub http_response : Reply → Text
unfolding snprintf
http_response reply = snprintf 32768 (
    concat (
      text "HTTP/1.1 "
      ∷ to_string reply.status
      ∷ text " OK\r\nContent-Type: "
      ∷ reply.content_type
      ∷ text "\r\nContent-Length: "
      ∷ to_string (length reply.body)
      ∷ text "\r\nAccess-Control-Allow-Origin: *\r\n"
      ∷ text "Access-Control-Allow-Methods: GET, POST, OPTIONS\r\n"
      ∷ text "Access-Control-Allow-Headers: Content-Type\r\n"
      ∷ text "Connection: close\r\n\r\n"
      ∷ reply.body
      ∷ []))
