-- ===== src/TribunalHttp/Routes/Reach.antt =====
-- Which routes of src/tribunal_http.c a request reaches.
use code_tribunal.Prelude.{
  ℕ, ◌≤◌, ◌≡◌, refl, inl, inr, Option-cases, Bool, true, false, ◌||◌, some, ◌++◌, Text, text,
  text_eq, starts_with, to_string, if◌then◌else◌,
}
use code_tribunal.Prelude.Int.{ℤ, pos}
use code_tribunal.Prelude.Numerals.{EndsNumber, stoi-to_string}
use code_tribunal.TribunalHttp.Scan.{scan_task_id}
use code_tribunal.TribunalHttp.Scan.Numbers.{scan_int-stoi}
use code_tribunal.TribunalHttp.Routes.{
  Route, task_output, set_progress, run_task, get_route, post_route, route,
}

-- Is it one of the routes other than that for the progress of a task?
unfoldable pub is_live : Route → Bool
is_live (set_progress task_id) = false
is_live _ = true

if_live :
    (b : Bool) (x y : Route)
    → is_live x ≡ true
    → is_live y ≡ true
    → is_live (if b then x else y) ≡ true
if_live true x y hx hy = hx
if_live false x y hx hy = hy

post_route_live : (overflow : Text → ℤ) (path : Text) → is_live (post_route overflow path) ≡ true
unfolding post_route is_live
post_route_live overflow path = if_live (text_eq path (text "/api/tasks")) _ _ refl (
    if_live (text_eq path (text "/api/query")) _ _ refl (
      if_live (text_eq path (text "/api/code/suggest")) _ _ refl (
        if_live (text_eq path (text "/api/code/apply")) _ _ refl
          (elim (Option-cases (scan_task_id overflow path)) [
            | inl none_read ↦ rw (none_read, none_read) refl
            | inr (n, e) ↦ rw e refl
          ]))))

get_route_live : (overflow : Text → ℤ) (path : Text) → is_live (get_route overflow path) ≡ true
unfolding get_route is_live
get_route_live overflow path =
    if_live (text_eq path (text "/api/tasks")) _ _ refl
      (elim (Option-cases (scan_task_id overflow path)) [
        | inl none_read ↦ rw none_read (
            if_live (text_eq path (text "/") || text_eq path (text "/index.html")) _ _ refl
              (if_live (text_eq path (text "/app.js")) _ _ refl refl))
        | inr (n, e) ↦ rw e refl
      ])

-- No request reaches the handler for the progress of a task, whatever its method and its path are.
pub route_live :
    (overflow : Text → ℤ) (method path : Text) → is_live (route overflow method path) ≡ true
unfolding route is_live
route_live overflow method path =
    if_live (text_eq method (text "GET")) _ _ (get_route_live overflow path) (
      if_live (text_eq method (text "POST")) _ _ (post_route_live overflow path)
        (if_live (text_eq method (text "OPTIONS")) _ _ refl refl))

scan_task_id-to_string :
    (overflow : Text → ℤ) (n : ℕ) (rest : Text)
    → n ≤ 2147483647
    → EndsNumber rest
    → scan_task_id overflow (text "/api/tasks/" ++ (to_string n ++ rest)) ≡ some (pos n)
unfolding scan_task_id starts_with
scan_task_id-to_string overflow n rest h ends =
    scan_int-stoi overflow (to_string n ++ rest) (pos n) (stoi-to_string n rest h ends)

-- A request for a task with a number that an `int` holds runs the task if its method is POST and asks for
-- the output of a job if it is GET, whatever follows its digits: also `/progress`, or nothing.
pub route-task :
    (overflow : Text → ℤ) (n : ℕ) (rest : Text)
    → n ≤ 2147483647
    → EndsNumber rest
    → let path = text "/api/tasks/" ++ (to_string n ++ rest) in
      (route overflow (text "POST") path ≡ run_task (pos n))
      × (route overflow (text "GET") path ≡ task_output (pos n))
unfolding route get_route post_route text_eq
route-task overflow n rest h ends =
    let found = scan_task_id-to_string overflow n rest h ends in (rw found refl, rw found refl)
