-- ===== src/Llm/MultiEndpoint/RoundRobin.antt =====
-- How the queries go round the endpoints (src/llm/MultiEndpointOllamaClient.cpp).
use mathlib.Core.Option
use native.Mathlib.Nat
use code_tribunal.Prelude.{
  ℕ, zero, suc, ◌+◌, ◌-◌, ◌%◌, ◌<◌, ◌≡◌, ◌≢◌, refl, sym, ap, ◌∙◌, false, ◌==◌, some, List, [], ◌∷◌,
  Text, text, length, get_elem?, arith,
}
use code_tribunal.Prelude.Int.{pos, negsuc}
use code_tribunal.Core.Analyst.{PromptRequest, PromptResponse, Reply, returns, throws, LlmClient}
use code_tribunal.Llm.MultiEndpoint.{
  MultiEndpointOllamaClient, connect_all, new_client, increment, minus, remainder, select_endpoint,
  get_client, error_response, deliver, ask, query,
}

-- The client after some queries.
pub query_all : MultiEndpointOllamaClient → List PromptRequest → MultiEndpointOllamaClient
query_all c [] = c
query_all c (r ∷ requests) = query_all ((query c r).1) requests

-- The answer that a reply of an endpoint's client makes.
pub answer_of : Reply → PromptResponse
answer_of (returns r) = r
answer_of (throws message) = error_response message

error_after : Text → Reply → Text
error_after e (returns r) = e
error_after e (throws message) = message

-- A client over these endpoints that has made `n` queries.
abbrev at : List LlmClient → ℕ → Text → MultiEndpointOllamaClient
at clients n e = record {
  clients = clients;
  endpoint_count = length clients;
  query_count = pos n;
  last_error = e;
}

deliver-at :
    (clients : List LlmClient) (n : ℕ) (e : Text) (reply : Reply)
    → deliver (at clients n e) reply ≡ (answer_of reply, at clients n (error_after e reply))
unfolding deliver answer_of error_after
deliver-at clients n e (returns r) = refl
deliver-at clients n e (throws m) = refl

-- A query goes to the endpoint that the count selects, and is counted.
query-at :
    (client : LlmClient) (clients : List LlmClient) (n : ℕ) (e : Text) (request : PromptRequest)
    (g : LlmClient)
    → n < 2147483647
    → get_elem? (client ∷ clients) (n % suc (length clients)) ≡ some g
    → query (at (client ∷ clients) n e) request
      ≡ (answer_of (g request), at (client ∷ clients) (suc n) (error_after e (g request)))
unfolding query select_endpoint get_client ask increment remainder
query-at client clients n e request g b h =
    let small : (n == 2147483647) ≡ false = ground arith in
    let some_endpoint : (suc (length clients) == 0) ≡ false = ground arith in
    rw (some_endpoint, small, h) (deliver-at (client ∷ clients) (suc n) e (g request))

length-connect_all :
    (connect : Text → LlmClient) (urls : List Text)
    → length (connect_all connect urls) ≡ length urls
unfolding connect_all
length-connect_all connect [] = refl
length-connect_all connect (u ∷ urls) = ap suc (length-connect_all connect urls)

get_elem?-connect_all :
    (connect : Text → LlmClient) (urls : List Text) (i : ℕ) (u : Text)
    → get_elem? urls i ≡ some u
    → get_elem? (connect_all connect urls) i ≡ some (connect u)
unfolding connect_all
get_elem?-connect_all connect [] i u h = cc
get_elem?-connect_all connect (v ∷ urls) zero u h = ap (Option.map connect) h
get_elem?-connect_all connect (v ∷ urls) (suc i) u h = get_elem?-connect_all connect urls i u h

get_elem?-some {ℓ} :
    {A : Type ℓ} (xs : List A) (i : ℕ) → i < length xs → (x : A) × (get_elem? xs i ≡ some x)
get_elem?-some [] i h = absurd (omega arith)
get_elem?-some (x ∷ xs) zero h = (x, refl)
get_elem?-some (x ∷ xs) (suc i) h = get_elem?-some xs i (omega arith)

query_all-at :
    (client : LlmClient) (clients : List LlmClient) (n : ℕ) (e : Text)
    (requests : List PromptRequest)
    → n + length requests < 2147483647
    → (e' : Text) × (query_all (at (client ∷ clients) n e) requests
        ≡ at (client ∷ clients) (n + length requests) e')
unfolding query_all
query_all-at client clients n e [] b = (e, ap (λ k. at (client ∷ clients) k e) (omega arith))
query_all-at client clients n e (r ∷ requests) b =
    let (g, found) =
      get_elem?-some (client ∷ clients) (n % suc (length clients)) (Nat.mod-lt n (omega arith)) in
    let first = query-at client clients n e r g (omega arith) found in
    let (e', rest) =
      query_all-at client clients (suc n) (error_after e (g r)) requests (omega arith) in
    (
      e',
      ap (λ p. query_all (p.1) requests) first
          ∙ rest
          ∙ ap (λ k. at (client ∷ clients) k e') (omega arith),
    )

new_client-at :
    (connect : Text → LlmClient) (url : Text) (urls : List Text)
    → new_client connect (url ∷ urls) ≡ at (connect url ∷ connect_all connect urls) 0 []
unfolding new_client connect_all
new_client-at connect url urls =
    ap
      (λ k. record {
        clients = connect url ∷ connect_all connect urls;
        endpoint_count = suc k;
        query_count = pos 0;
        last_error = [];
      })
      (sym (length-connect_all connect urls))

-- The queries go to the endpoints in turn: after n queries, fewer than 2147483647, a client over k
-- endpoints sends its next query to the endpoint number n % k and gives that endpoint's answer, whichever
-- analyst it is for.
pub query-round_robin :
    (connect : Text → LlmClient) (url : Text) (urls : List Text) (requests : List PromptRequest)
    (request : PromptRequest) (u : Text)
    → length requests < 2147483647
    → get_elem? (url ∷ urls) (length requests % length (url ∷ urls)) ≡ some u
    → (query (query_all (new_client connect (url ∷ urls)) requests) request).0
      ≡ answer_of (connect u request)
unfolding new_client connect_all
query-round_robin connect url urls requests request u b h =
    let same : 0 + length requests ≡ length requests = omega arith in
    let (e, state) =
      query_all-at (connect url) (connect_all connect urls) 0 [] requests (omega arith) in
    let found : get_elem? (connect_all connect (url ∷ urls))
          (length requests % suc (length (connect_all connect urls)))
        ≡ some (connect u) =
      ap (λ k. get_elem? (connect_all connect (url ∷ urls)) (length requests % suc k))
        (length-connect_all connect urls)
      ∙ get_elem?-connect_all connect (url ∷ urls) (length requests % length (url ∷ urls)) u h in
    ap (λ c. (query (query_all c requests) request).0) (new_client-at connect url urls)
    ∙ ap (λ c. (query c request).0) state
    ∙ ap (λ k. (query (at (connect url ∷ connect_all connect urls) k e) request).0) same
    ∙ ap (λ p. p.0)
        (query-at (connect url) (connect_all connect urls) (length requests) e request (connect u) b
          found)

minus_negative : (m : ℕ) → m ≢ 0 → minus m ≡ negsuc (m - 1)
minus_negative zero h = absurd (h refl)
minus_negative (suc m) h = ap negsuc (omega arith)

remainder_negative : (n k : ℕ) → suc n % k ≢ 0 → remainder (negsuc n) k ≡ negsuc (suc n % k - 1)
unfolding remainder
remainder_negative n k h = minus_negative (suc n % k) h

-- Once the counter has wrapped around to a negative number, a query fails whenever that number is no
-- multiple of the number of endpoints, though there are endpoints: none of them is asked.
pub query-wrapped :
    (client : LlmClient) (clients : List LlmClient) (n : ℕ) (e : Text) (request : PromptRequest)
    → suc n % suc (length clients) ≢ 0
    → (query
        (record {
          clients = client ∷ clients;
          endpoint_count = suc (length clients);
          query_count = negsuc n;
          last_error = e;
        })
        request).0
      ≡ error_response (text "Invalid endpoint selection")
unfolding query select_endpoint get_client ask
query-wrapped client clients n e request h =
    let some_endpoint : (suc (length clients) == 0) ≡ false = ground arith in
    rw (some_endpoint, remainder_negative n (suc (length clients)) h) refl
