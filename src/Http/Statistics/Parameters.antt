-- ===== src/Http/Statistics/Parameters.antt =====
-- The parameters of the metrics pages (`handle_metrics_percentiles` and the like in
-- src/http/HttpServer.cpp), read back from a query string.
use mathlib.Core.List.{append-nil}
use code_tribunal.Prelude.{
  ℕ, ◌≤◌, ◌≡◌, ap, sym, ◌∙◌, some, [], ◌∷◌, ◌++◌, Text, text, find, starts_with, length, to_string,
}
use code_tribunal.Prelude.Int.{ℤ, pos}
use code_tribunal.Prelude.Stoi.{stoi}
use code_tribunal.Prelude.Search.{
  IsFree, find_char_stop, take_append, find_stop, IsFree-IsAbsent, drop-append_past,
}
use code_tribunal.Prelude.Numerals.{stoi-to_string}
use code_tribunal.Http.Statistics.{provider_of, up_to_ampersand, or_hours, hours_of}

up_to_ampersand_stop :
    (name rest : Text) → IsFree b'&' name → up_to_ampersand (name ++ b'&' ∷ rest) ≡ name
unfolding up_to_ampersand
up_to_ampersand_stop name rest free =
    rw (find_char_stop b'&' name rest free, up_to_ampersand) (take_append name (b'&' ∷ rest))

-- A provider without an ampersand in its name is read back from the parameters.
pub provider_of_stop :
    (name rest : Text)
    → IsFree b'&' name
    → provider_of (text "?provider=" ++ (name ++ b'&' ∷ rest)) ≡ name
unfolding provider_of find starts_with
provider_of_stop name rest free = up_to_ampersand_stop name rest free

hours_of_found :
    (default : ℤ) (a b : Text) (n : ℕ)
    → find (text "hours=") (a ++ (text "hours=" ++ b)) ≡ some (length a)
    → stoi 10 b ≡ some (pos n)
    → hours_of default (a ++ (text "hours=" ++ b)) ≡ pos n
unfolding hours_of
hours_of_found default a b n e f =
    rw (e, hours_of)
      (ap (λ t. or_hours default (stoi 10 t)) (drop-append_past a (text "hours=" ++ b) 6)
        ∙ ap (or_hours default) f)

-- The hours after parameters in which no `h` occurs are read back.
pub hours_of_stop :
    (default : ℤ) (a : Text) (n : ℕ)
    → IsFree b'h' a
    → n ≤ 2147483647
    → hours_of default (a ++ (text "hours=" ++ to_string n)) ≡ pos n
hours_of_stop default a n free h =
    hours_of_found default a (to_string n) n
      (find_stop (text "hours=") a (to_string n)
        (IsFree-IsAbsent b'h' (text "ours=") a (text "hours=" ++ to_string n) free))
      (ap (stoi 10) (sym (append-nil (to_string n))) ∙ stoi-to_string n [] h tt)
