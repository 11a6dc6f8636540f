-- ===== src/Http/Request/Framing.antt =====
-- The lines and words of a request (`parse_request` in src/http/HttpServer.cpp).
use code_tribunal.Prelude.Search.{length-drop}
use code_tribunal.Prelude.{
  ℕ, zero, suc, ◌≤◌, ◌<◌, ◌≡◌, ◌≢◌, inl, inr, refl, Bool, true, false, ◌==◌, some, [], ◌∷◌, Text,
  length, arith, Bool-cases, Option-cases,
}
use code_tribunal.Prelude.Int.{ℤ, pos}
use code_tribunal.Http.Request.{
  break_at, getline, Headers, unfinished, refused, finished, header_length, ends_headers,
  read_headers, no_fuel, body_for, request_line, parse_request,
}

break_at-length : (stops : ℕ → Bool) (s : Text) → length (break_at stops s).1 ≤ length s
unfolding break_at
break_at-length stops [] = omega arith
break_at-length stops (c ∷ s) = ground (arith, break_at-length stops s)

-- A line that was read leaves less text.
getline-length : (s line rest : Text) → getline s ≡ some (line, rest) → length rest < length s
unfolding getline break_at
getline-length [] line rest h = ground arith
getline-length (c ∷ s) line rest h =
    ground (arith, break_at-length (λ x. x == 10) s, length-drop 1 (break_at (λ x. x == 10) s).1)

-- A round on a line that does not end the headers, in one case for each number that it may hold.
read_headers-next :
    (fuel : ℕ) (len : ℤ) (s line rest : Text)
    → getline s ≡ some (line, rest)
    → ends_headers line ≡ false
    → ((n : ℤ) → read_headers fuel n rest ≢ unfinished)
    → read_headers (suc fuel) len s ≢ unfinished
unfolding read_headers
read_headers-next fuel len s line rest e f more =
    rw (e, read_headers)
      (rw (f, read_headers)
        (elim (Option-cases (header_length len line)) [
          | inl none_read ↦ rw (none_read, read_headers) (ground arith)
          | inr (n, read) ↦ rw (read, read_headers) (more n)
        ]))

read_headers-last :
    (fuel : ℕ) (len : ℤ) (s line rest : Text)
    → getline s ≡ some (line, rest)
    → ends_headers line ≡ true
    → read_headers (suc fuel) len s ≡ finished len rest
unfolding read_headers
read_headers-last fuel len s line rest e t = rw (e, read_headers) (rw (t, read_headers) refl)

read_headers-ne-unfinished :
    (fuel : ℕ) (len : ℤ) (s : Text) → length s < fuel → read_headers fuel len s ≢ unfinished
unfolding read_headers
read_headers-ne-unfinished zero len s h = absurd (omega arith)
read_headers-ne-unfinished (suc fuel) len s h = elim (Option-cases (getline s)) [
  | inl e ↦ rw (e, read_headers) (ground arith)
  | inr ((line, rest), e) ↦ elim (Bool-cases (ends_headers line)) [
    | inl t ↦ rw (read_headers-last fuel len s line rest e t) (ground arith)
    | inr f ↦
        let shorter = getline-length s line rest e in
        read_headers-next fuel len s line rest e f
          (λ n. read_headers-ne-unfinished fuel n rest (omega arith))
  ]
]

body_for-ne-no_fuel :
    (method path : Text) (r : Headers) → r ≢ unfinished → body_for method r path ≢ no_fuel
body_for-ne-no_fuel method path unfinished h = absurd (h refl)
body_for-ne-no_fuel method path refused h = ground arith
body_for-ne-no_fuel method path (finished len rest) h = ground arith

-- Whatever bytes a client sends, the loop over the header lines ends: the fuel that the model gives
-- it, the number of the characters, is never used up.
pub parse_request-ne-no_fuel : (buffer : Text) → parse_request buffer ≢ no_fuel
unfolding parse_request
parse_request-ne-no_fuel buffer = elim (Option-cases (getline buffer)) [
  | inl e ↦ rw (e, parse_request) (ground arith)
  | inr ((line, rest), e) ↦
      rw (e, parse_request)
        (elim (Option-cases (request_line line)) [
          | inl e' ↦ rw (e', parse_request) (ground arith)
          | inr ((method, path), e') ↦
              rw (e', parse_request)
                (body_for-ne-no_fuel method path _
                  (read_headers-ne-unfinished (suc (length rest)) (pos 0) rest (omega arith)))
        ])
]
