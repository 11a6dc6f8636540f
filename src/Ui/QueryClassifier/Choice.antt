-- ===== src/Ui/QueryClassifier/Choice.antt =====
-- Which type a question is given (src/ui/QueryClassifier.cpp).
use code_tribunal.Prelude.{
  ℕ, ◌≤◌, ◌≡◌, refl, sym, subst, ltb→lt, ap, true, false, ltb, List, [], ◌∷◌, Text, find, map, All,
  Bool-cases, inl, inr, arith,
}
use code_tribunal.Core.Types.{QueryType}
use code_tribunal.Ui.QueryClassifier.{
  KeywordSet, keyword_sets, to_lower, is_found, contains_keyword, score_keywords, score_sets,
  score_query_for_type, best_from, classify,
}

to_lower-to_lower : (c : ℕ) → to_lower (to_lower c) ≡ to_lower c
unfolding to_lower
to_lower-to_lower c = ground arith

map-to_lower : (s : Text) → map to_lower (map to_lower s) ≡ map to_lower s
map-to_lower [] = refl
map-to_lower (c ∷ s) = rw (to_lower-to_lower c, map-to_lower s) refl

contains-to_lower : (s k : Text) → contains_keyword (map to_lower s) k ≡ contains_keyword s k
unfolding contains_keyword
contains-to_lower s k = ap (λ t. is_found (find (map to_lower k) t)) (map-to_lower s)

score_keywords-to_lower :
    (s : Text) (w : ℕ) (ks : List Text)
    → score_keywords (map to_lower s) w ks ≡ score_keywords s w ks
unfolding score_keywords
score_keywords-to_lower s w [] = refl
score_keywords-to_lower s w (k ∷ ks) =
    rw (contains-to_lower s k, score_keywords-to_lower s w ks) refl

score_sets-to_lower :
    (s : Text) (type : QueryType) (sets : List KeywordSet)
    → score_sets (map to_lower s) type sets ≡ score_sets s type sets
unfolding score_sets
score_sets-to_lower s type [] = refl
score_sets-to_lower s type (set ∷ sets) =
    rw (score_keywords-to_lower s (set.weight) (set.keywords), score_sets-to_lower s type sets) refl

score-to_lower :
    (s : Text) (type : QueryType)
    → score_query_for_type (map to_lower s) type ≡ score_query_for_type s type
unfolding score_query_for_type
score-to_lower s type = score_sets-to_lower s type keyword_sets

best_from-to_lower :
    (s : Text) (m : ℕ) (type : QueryType) (sets : List KeywordSet)
    → best_from (map to_lower s) m type sets ≡ best_from s m type sets
unfolding best_from
best_from-to_lower s m type [] = refl
best_from-to_lower s m type (set ∷ sets) =
    rw
      (
        score-to_lower s (set.type),
        best_from-to_lower s (score_query_for_type s (set.type)) (set.type) sets,
        best_from-to_lower s m type sets,
      )
      refl

-- Upper and lower case make no difference to the classification.
pub classify-to_lower : (query : Text) → classify (map to_lower query) ≡ classify query
unfolding classify
classify-to_lower query = rw (best_from-to_lower query 0 QueryType.code_review keyword_sets) refl

abbrev HasBest : Text → ℕ → List KeywordSet → ℕ × QueryType → Type 0
HasBest query m sets (max, best) =
    (max ≤ score_query_for_type query best)
    × (m ≤ max)
    × All (λ set. score_query_for_type query (set.type) ≤ max) sets

best_from_higher :
    (query : Text) (m : ℕ) (type : QueryType) (set : KeywordSet) (sets : List KeywordSet)
    → ltb m (score_query_for_type query (set.type)) ≡ true
    → best_from query m type (set ∷ sets)
      ≡ best_from query (score_query_for_type query (set.type)) (set.type) sets
unfolding best_from
best_from_higher query m type set sets e = rw e refl

best_from_rest :
    (query : Text) (m : ℕ) (type : QueryType) (set : KeywordSet) (sets : List KeywordSet)
    → ltb m (score_query_for_type query (set.type)) ≡ false
    → best_from query m type (set ∷ sets) ≡ best_from query m type sets
unfolding best_from
best_from_rest query m type set sets e = rw e refl

best_from_nil : (query : Text) (m : ℕ) (type : QueryType) → best_from query m type [] ≡ (m, type)
unfolding best_from
best_from_nil query m type = refl

best_from-HasBest :
    (query : Text) (m : ℕ) (type : QueryType) (sets : List KeywordSet)
    → m ≤ score_query_for_type query type
    → HasBest query m sets (best_from query m type sets)
best_from-HasBest query m type [] h =
    subst (HasBest query m []) (sym (best_from_nil query m type)) (h, omega arith, tt)
best_from-HasBest query m type (set ∷ sets) h =
    elim (Bool-cases (ltb m (score_query_for_type query (set.type)))) [
      | inl e ↦
          (let (a, b, c) =
              best_from-HasBest query (score_query_for_type query (set.type)) (set.type) sets
                (omega arith) in
            let lower = ltb→lt m (score_query_for_type query (set.type)) e in
            subst (HasBest query m (set ∷ sets)) (sym (best_from_higher query m type set sets e))
              (a, omega (arith, b, lower), (b, c)))
      | inr e ↦
          (let (a, b, c) = best_from-HasBest query m type sets h in
            let lower : score_query_for_type query (set.type) ≤ m = ground (arith, e) in
            subst (HasBest query m (set ∷ sets)) (sym (best_from_rest query m type set sets e))
              (a, b, (omega (arith, b, lower), c)))
    ]

-- At least this score has the chosen type.
All-le :
    (query : Text) (m n : ℕ) (sets : List KeywordSet)
    → m ≤ n
    → All (λ set. score_query_for_type query (set.type) ≤ m) sets
    → All (λ set. score_query_for_type query (set.type) ≤ n) sets
All-le query m n [] h a = tt
All-le query m n (set ∷ sets) h a = (omega (arith, h, a.0), All-le query m n sets h a.1)

-- No type of a keyword set scores more on a question than the type that the question is given.
pub classify-IsHighest :
    (query : Text)
    → All
        (λ set.
          score_query_for_type query (set.type)
          ≤ score_query_for_type query ((classify query).primary_type))
        keyword_sets
unfolding classify
classify-IsHighest query =
    let (a, b, c) = best_from-HasBest query 0 QueryType.code_review keyword_sets (omega arith) in
    All-le query _ _ keyword_sets a c
