-- ===== src/Http/Routes/Reach.antt =====
-- The handlers that `handle_request` in src/http/HttpServer.cpp can reach.
use code_tribunal.Prelude.{
  ℕ, suc, ◌≤◌, ◌<◌, ◌≡◌, refl, sym, subst, ◌∙◌, inl, inr, Bool, true, false, ◌||◌, ◌&&◌, Option,
  none, some, [], ◌∷◌, Text, text, text_eq, eq_of_text_eq, find, length, take, drop, ◌+◌,
  starts_with, arith, if◌then◌else◌, Option-cases,
}
use code_tribunal.Prelude.Int.{ℤ}
use code_tribunal.Prelude.Stoi.{stoi}
use code_tribunal.Prelude.Search.{length-take_le, take_full}
use code_tribunal.Http.Routes.{
  Route, begins, status_of, status_route, search_route, debate_route, metrics_route, route,
}

-- Whether a request can end there.
unfoldable pub is_live : Route → Bool
is_live (Route.history_search q) = false
is_live (Route.debate_progress id) = false
is_live (Route.debate_visualization id) = false
is_live (Route.metrics_trends p) = false
is_live (Route.metrics_percentiles p) = false
is_live (Route.metrics_tokens p) = false
is_live (Route.metrics_models p) = false
is_live (Route.metrics_timeseries p) = false
is_live _ = true

pub record IsLive (r : Route) : Type 0 where
  pub live : is_live r ≡ true

text_eq-length : (s t : Text) → length s < length t → text_eq s t ≡ false
unfolding text_eq
text_eq-length [] [] h = absurd (omega arith)
text_eq-length [] (y ∷ ys) h = refl
text_eq-length (x ∷ xs) [] h = refl
text_eq-length (x ∷ xs) (y ∷ ys) h = ground (arith, text_eq-length xs ys)

-- A cut that is shorter than the pattern never equals it.
cut_too_short : (n : ℕ) (pat path : Text) → n < length pat → text_eq (take n path) pat ≡ false
cut_too_short n pat path h = text_eq-length (take n path) pat (omega (arith, length-take_le n path))

-- A cut that is longer than the pattern equals it only if the pattern is all there is.
cut_too_long :
    (n : ℕ) (pat path : Text) → length pat < n → text_eq (take n path) pat ≡ true → path ≡ pat
cut_too_long n pat path h e =
    let same = eq_of_text_eq (take n path) pat e in
    sym (take_full n path (subst (λ t. suc (length t) ≤ n) (sym same) (omega arith))) ∙ same

IsLive-if :
    (b : Bool) (x y : Route) → (b ≡ true → IsLive x) → IsLive y → IsLive (if b then x else y)
IsLive-if true x y h k = h refl
IsLive-if false x y h k = k

status_of-IsLive : (o : Option ℤ) → IsLive (status_of o)
unfolding is_live
status_of-IsLive none = record { live = refl }
status_of-IsLive (some id) = record { live = refl }

and_left : (a b : Bool) → (a && b) ≡ true → a ≡ true
and_left a b h = ground arith

and_false : (a b : Bool) → a ≡ false → (a && b) ≡ true → ⊥
and_false a b h k = ground arith

status_route-IsLive : (path : Text) → IsLive (status_route path)
unfolding status_route is_live
status_route-IsLive path = elim (Option-cases (find (text "job_id=") path)) [
  | inl e ↦ rw (e, status_route) (record { live = refl })
  | inr (p, e) ↦ rw (e, status_route) (status_of-IsLive (stoi 10 (drop (p + 7) path)))
]

-- Only the bare path passes the test of the debate pages and of the metrics pages.
debate_route-IsLive :
    (path : Text) → begins 15 (text "/api/debate/") path ≡ true → IsLive (debate_route path)
unfolding debate_route find starts_with is_live
debate_route-IsLive path e =
    let bare : path ≡ text "/api/debate/" =
      cut_too_long 15 (text "/api/debate/") path (omega arith) e in
    rw bare (record { live = refl })

metrics_route-IsLive :
    (path : Text) → begins 14 (text "/api/metrics/") path ≡ true → IsLive (metrics_route path)
unfolding metrics_route find starts_with is_live
metrics_route-IsLive path e =
    let bare : path ≡ text "/api/metrics/" =
      cut_too_long 14 (text "/api/metrics/") path (omega arith) e in
    rw bare (record { live = refl })

-- No request, whatever its method, path and body, reaches the search of the history, the progress or
-- the visualization of a debate, or the trends, percentiles, tokens, models and time series of the
-- metrics: the tests of their paths compare texts of different lengths.
pub route-IsLive : (method path body : Text) → IsLive (route method path body)
unfolding route is_live
route-IsLive method path body =
    let is_get = text_eq method (text "GET") in
    IsLive-if (text_eq path (text "/") || text_eq path (text "/index.html")) Route.root _
      (λ _. record { live = refl })
      (IsLive-if (text_eq path (text "/api/tasks") && is_get) Route.tasks _
        (λ _. record { live = refl })
        (IsLive-if (text_eq path (text "/api/query") && text_eq method (text "POST"))
          (Route.query body) _ (λ _. record { live = refl })
          (IsLive-if (begins 11 (text "/api/query?") path && is_get) (status_route path) _
            (λ _. status_route-IsLive path)
            (IsLive-if (text_eq path (text "/metrics") && is_get) Route.metrics _
              (λ _. record { live = refl })
              (IsLive-if (text_eq path (text "/api/stats") && is_get) Route.stats _
                (λ _. record { live = refl })
                (IsLive-if (text_eq path (text "/api/history") && is_get) Route.history _
                  (λ _. record { live = refl })
                  (IsLive-if (begins 18 (text "/api/history/search") path && is_get)
                    (search_route path) _
                    (λ e. absurd (
                      and_false _ is_get
                        (cut_too_short 18 (text "/api/history/search") path (omega arith)) e))
                    (IsLive-if (begins 15 (text "/api/debate/") path && is_get) (debate_route path)
                      _ (λ e. debate_route-IsLive path (and_left _ is_get e))
                      (IsLive-if (begins 14 (text "/api/metrics/") path && is_get)
                        (metrics_route path) _
                        (λ e. metrics_route-IsLive path (and_left _ is_get e))
                        (record { live = refl }))))))))))
