-- ===== src/Llm/Providers/Ollama/Names.antt =====
-- The answers that src/llm/OllamaClient.cpp reads.
use code_tribunal.Prelude.{
  ℕ, zero, suc, ◌+◌, ◌<◌, ◌≡◌, ◌≢◌, ap, ◌∙◌, inl, inr, none, some, [], ◌∷◌, ◌++◌, Text, text, find,
  starts_with, find_char, take, drop, length, Option-cases, arith,
}
use code_tribunal.Prelude.Search.{
  length-drop, IsFree, IsAbsent, find_stop, find_char_stop, take_append, drop-append_past,
  drop-length,
}
use code_tribunal.Llm.Providers.{quoted_field, or_empty}
use code_tribunal.Llm.Providers.Ollama.{parse_response_json, names_from, available_models}

-- A pattern that was found leaves less text behind it.
find-shorter :
    (p : ℕ) (s : Text) → find (text "\"name\":\"") s ≡ some p → length (drop (p + 8) s) < length s
unfolding find starts_with
find-shorter p [] h = absurd (ground (arith, h))
find-shorter p (c ∷ s) h =
    let more : p + 8 ≡ suc (p + 7) = omega arith in
    let same : length (drop (p + 8) (c ∷ s)) ≡ length (drop (p + 7) s) =
      ap (λ k. length (drop k (c ∷ s))) more in
    omega (arith, same, length-drop (p + 7) s)

names_from-ne-none : (fuel : ℕ) (s : Text) → length s < fuel → names_from fuel s ≢ none
unfolding names_from
names_from-ne-none zero s h = absurd (omega arith)
names_from-ne-none (suc fuel) s h = elim (Option-cases (find (text "\"name\":\"") s)) [
  | inl e ↦ rw (e, names_from) (ground arith)
  | inr (p, e) ↦
      let shorter = find-shorter p s e in
      elim (Option-cases (find_char b'"' (drop (p + 8) s))) [
        | inl f ↦
            rw (e, names_from)
              (rw (f, names_from) (names_from-ne-none fuel (drop (p + 8) s) (omega arith)))
        | inr (q, f) ↦
            let rest = drop (suc q) (drop (p + 8) s) in
            let less = length-drop (suc q) (drop (p + 8) s) in
            elim (Option-cases (names_from fuel rest)) [
              | inl g ↦ absurd (names_from-ne-none fuel rest (omega arith) g)
              | inr (names, g) ↦
                  rw (e, names_from) (rw (f, names_from) (rw (g, names_from) (ground arith)))
            ]
      ]
]

-- The loop over the names of the models ends for any answer of the service.
pub available_models-ne-none : (response : Text) → available_models response ≢ none
unfolding available_models
available_models-ne-none response =
    names_from-ne-none (suc (length response)) response (omega arith)

quoted_field_at :
    (pattern s content after : Text) (p : ℕ)
    → find pattern s ≡ some p
    → drop (p + length pattern) s ≡ content ++ b'"' ∷ after
    → IsFree b'"' content
    → quoted_field pattern s ≡ some content
unfolding quoted_field
quoted_field_at pattern s content after p e f free =
    let mark = ap (find_char b'"') f ∙ find_char_stop b'"' content after free in
    rw (e, quoted_field)
      (rw (mark, quoted_field)
        (ap some (ap (take (length content)) f ∙ take_append content (b'"' ∷ after))))

-- The field after a pattern is read back, if the pattern stands nowhere before it.
quoted_field_stop :
    (pattern before content after : Text)
    → IsAbsent pattern before (pattern ++ (content ++ b'"' ∷ after))
    → IsFree b'"' content
    → quoted_field pattern (before ++ (pattern ++ (content ++ b'"' ∷ after))) ≡ some content
quoted_field_stop pattern before content after absent free =
    let tail = content ++ b'"' ∷ after in
    quoted_field_at pattern (before ++ (pattern ++ tail)) content after (length before)
      (find_stop pattern before tail absent)
      (drop-append_past before (pattern ++ tail) (length pattern) ∙ drop-length pattern tail) free

-- A content without quotation marks is read back from an answer, whatever stands around it, if the
-- name of the field does not stand before it.
pub parse_response_json_content :
    (before content after : Text)
    → IsAbsent (text "\"content\":\"") before (text "\"content\":\"" ++ (content ++ b'"' ∷ after))
    → IsFree b'"' content
    → parse_response_json (before ++ (text "\"content\":\"" ++ (content ++ b'"' ∷ after))) ≡ content
unfolding parse_response_json
parse_response_json_content before content after absent free =
    ap or_empty (quoted_field_stop (text "\"content\":\"") before content after absent free)
