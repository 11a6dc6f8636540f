-- ===== src/Ui/QueryClassifier.antt =====
-- The classification of a question: src/ui/QueryClassifier.h and QueryClassifier.cpp.
-- The weights 1.5 and 1.0 are counted in halves and the confidence
-- in twentieths, which the binary fractions of the source represent exactly or round to;
-- the percentage is exact for all of them.
pub mod Choice
use code_tribunal.Prelude.{
  ℕ, ◌+◌, ◌-◌, Bool, true, false, ◌&&◌, ltb, leb, Option, none, some, List, [], ◌∷◌, Text, text,
  find, map, ◌*◌, ◌++◌, to_string, length, if◌then◌else◌,
}
use code_tribunal.Core.Types.{AnalystRole, QueryType}

pub record KeywordSet : Type 0 where
  pub type : QueryType
  pub keywords : List Text
  pub weight : ℕ

abbrev pub keyword_sets : List KeywordSet
keyword_sets =
    record {
      type = QueryType.security_audit;
      keywords =
          text "security"
          ∷ text "vulnerability"
          ∷ text "exploit"
          ∷ text "attack"
          ∷ text "breach"
          ∷ text "unsafe"
          ∷ text "injection"
          ∷ text "xss"
          ∷ text "csrf"
          ∷ text "overflow"
          ∷ text "buffer"
          ∷ text "leak"
          ∷ text "risk"
          ∷ [];
      weight = 3;
    }
    ∷ record {
      type = QueryType.performance;
      keywords =
          text "performance"
          ∷ text "speed"
          ∷ text "fast"
          ∷ text "slow"
          ∷ text "optimize"
          ∷ text "efficient"
          ∷ text "latency"
          ∷ text "throughput"
          ∷ text "memory"
          ∷ text "cpu"
          ∷ text "bottleneck"
          ∷ text "profile"
          ∷ [];
      weight = 3;
    }
    ∷ record {
      type = QueryType.correctness;
      keywords =
          text "correct"
          ∷ text "logic"
          ∷ text "bug"
          ∷ text "error"
          ∷ text "logic"
          ∷ text "edge case"
          ∷ text "spec"
          ∷ text "specification"
          ∷ text "invariant"
          ∷ text "precondition"
          ∷ text "postcondition"
          ∷ [];
      weight = 3;
    }
    ∷ record {
      type = QueryType.style;
      keywords =
          text "style"
          ∷ text "readable"
          ∷ text "maintainable"
          ∷ text "clean"
          ∷ text "refactor"
          ∷ text "naming"
          ∷ text "convention"
          ∷ text "pattern"
          ∷ text "structure"
          ∷ text "design"
          ∷ [];
      weight = 3;
    }
    ∷ record {
      type = QueryType.code_review;
      keywords =
          text "review"
          ∷ text "analyze"
          ∷ text "check"
          ∷ text "assess"
          ∷ text "evaluate"
          ∷ text "quality"
          ∷ [];
      weight = 2;
    }
    ∷ []

-- `std::tolower` in the C locale.
unfoldable pub to_lower : ℕ → ℕ
to_lower c = if leb b'A' c && leb c b'Z' then c + 32 else c

abbrev pub is_found : Option ℕ → Bool
is_found none = false
is_found (some p) = true

unfoldable pub contains_keyword : Text → Text → Bool
unfolding to_lower
contains_keyword text keyword = is_found (find (map to_lower keyword) (map to_lower text))

abbrev pub same_type : QueryType → QueryType → Bool
same_type QueryType.code_review QueryType.code_review = true
same_type QueryType.security_audit QueryType.security_audit = true
same_type QueryType.performance QueryType.performance = true
same_type QueryType.correctness QueryType.correctness = true
same_type QueryType.style QueryType.style = true
same_type QueryType.refactoring QueryType.refactoring = true
same_type QueryType.unknown QueryType.unknown = true
same_type _ _ = false

-- The inner loop over the keywords of a set.
unfoldable pub score_keywords : Text → ℕ → List Text → ℕ
unfolding contains_keyword
score_keywords query weight [] = 0
score_keywords query weight (k ∷ ks) =
    let rest = score_keywords query weight ks in
    if contains_keyword query k then weight + rest else rest

unfoldable pub score_sets : Text → QueryType → List KeywordSet → ℕ
unfolding score_keywords
score_sets query type [] = 0
score_sets query type (set ∷ sets) =
    let rest = score_sets query type sets in
    if same_type (set.type) type
    then score_keywords query (set.weight) (set.keywords) + rest
    else rest

unfoldable pub score_query_for_type : Text → QueryType → ℕ
unfolding score_sets
score_query_for_type query type = score_sets query type keyword_sets

-- The loop over the sets, from a highest score and its type on.
unfoldable pub best_from : Text → ℕ → QueryType → List KeywordSet → ℕ × QueryType
best_from query max_score best_type [] = (max_score, best_type)
best_from query max_score best_type (set ∷ sets) =
    let score = score_query_for_type query (set.type) in
    let higher = best_from query score (set.type) sets in
    let rest = best_from query max_score best_type sets in
    if ltb max_score score then higher else rest

unfoldable pub get_roles_for_type : QueryType → List AnalystRole
get_roles_for_type QueryType.security_audit = AnalystRole.security ∷ AnalystRole.correctness ∷ []
get_roles_for_type QueryType.performance = AnalystRole.performance ∷ AnalystRole.correctness ∷ []
get_roles_for_type QueryType.correctness = AnalystRole.correctness ∷ AnalystRole.performance ∷ []
get_roles_for_type QueryType.style = AnalystRole.style ∷ AnalystRole.correctness ∷ []
get_roles_for_type _ =
    AnalystRole.security ∷ AnalystRole.performance ∷ AnalystRole.correctness ∷ AnalystRole.style
    ∷ []

unfoldable pub label_of : QueryType → Text
label_of QueryType.security_audit = text "Security Audit"
label_of QueryType.performance = text "Performance Analysis"
label_of QueryType.correctness = text "Correctness Verification"
label_of QueryType.style = text "Style & Maintainability"
label_of _ = text "Code Review"

pub record QueryClassification : Type 0 where
  pub primary_type : QueryType
  pub relevant_roles : List AnalystRole
  pub classified_as : Text
  pub confidence_twentieths : ℕ
  pub analysis : Text

abbrev analysis_of : QueryType → ℕ → Text
analysis_of type twentieths =
    text "Query classified as "
    ++ (label_of type
        ++ (text " (confidence: "
            ++ (to_string (twentieths * 5)
                ++ (text "%). "
                    ++ (to_string (length (get_roles_for_type type))
                        ++ text " analysts will focus on this type.")))))

unfoldable pub classify : Text → QueryClassification
unfolding best_from get_roles_for_type label_of to_string
classify query_text =
    let (max_score, best_type) = best_from query_text 0 QueryType.code_review keyword_sets in
    let confidence = if ltb max_score 20 then max_score else 20 in
    record {
      primary_type = best_type;
      relevant_roles = get_roles_for_type best_type;
      classified_as = label_of best_type;
      confidence_twentieths = confidence;
      analysis = analysis_of best_type confidence;
    }

unfoldable pub get_system_prompt_for_type : QueryType → Text
get_system_prompt_for_type QueryType.security_audit =
    text "You are analyzing code for security vulnerabilities. Look for: "
    ++ (text "buffer overflows, SQL injection, XSS, authentication/authorization flaws, "
        ++ text "unsafe memory operations, and other security risks.")
get_system_prompt_for_type QueryType.performance =
    text "You are analyzing code for performance and efficiency. Look for: "
    ++ (text "inefficient algorithms, unnecessary allocations, cache misses, "
        ++ text "locking contention, and optimization opportunities.")
get_system_prompt_for_type QueryType.correctness =
    text "You are analyzing code for correctness. Look for: "
    ++ (text "logic errors, edge cases not handled, violations of specifications, "
        ++ text "incorrect invariants, and flawed algorithms.")
get_system_prompt_for_type QueryType.style =
    text "You are analyzing code for style and maintainability. Look for: "
    ++ (text "naming consistency, code organization, clarity, adherence to patterns, "
        ++ text "and opportunities to improve readability.")
get_system_prompt_for_type _ =
    text "You are performing a general code review. Analyze the code for quality, "
    ++ text "correctness, security, performance, and maintainability issues."
