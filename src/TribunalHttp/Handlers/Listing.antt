-- ===== src/TribunalHttp/Handlers/Listing.antt =====
-- The list of tasks in src/tribunal_http.c: when it fits its buffer.
use code_tribunal.Prelude.{
  ℕ, ◌+◌, ◌≤◌, ◌≡◌, refl, sym, ap, ◌∙◌, inl, inr, Bool-cases, Option-cases, true, false, leb, none,
  some, List, [], ◌∷◌, ◌++◌, Text, text, length, length-append, is_empty, if◌then◌else◌, arith,
}
use mathlib.Core.List.{append_assoc, append-nil}
use code_tribunal.TribunalHttp.Surroundings.{Task}
use code_tribunal.TribunalHttp.Reply.{json}
use code_tribunal.TribunalHttp.Handlers.{task_text, write_tasks, handle_get_tasks}

-- The objects of the tasks with commas between them.
unfoldable pub list_text : List Task → Text
list_text [] = []
list_text (t ∷ ts) = task_text t (is_empty ts) ++ list_text ts

write_tasks-some :
    (size : ℕ) (ts : List Task) (written : Text)
    → length (written ++ list_text ts) ≤ size
    → write_tasks size ts written ≡ some (written ++ list_text ts)
unfolding write_tasks list_text
write_tasks-some size [] written h = ap some (sym (append-nil written))
write_tasks-some size (t ∷ ts) written h =
    let object = task_text t (is_empty ts) in
    let whole = append_assoc written object (list_text ts) in
    let fits : leb (length written) size ≡ true =
      ground (arith, h, length-append written (object ++ list_text ts)) in
    rw (fits, write_tasks-some size ts (written ++ object) (rw whole h)) (ap some whole)

write_tasks-result :
    (size : ℕ) (ts : List Task) (written w : Text)
    → write_tasks size ts written ≡ some w
    → w ≡ written ++ list_text ts
unfolding write_tasks list_text
write_tasks-result size [] written w h = rw append-nil (ground (arith, h))
write_tasks-result size (t ∷ ts) written w h =
    let object = task_text t (is_empty ts) in
    elim (Bool-cases (leb (length written) size)) [
      | inl fits ↦
          write_tasks-result size ts (written ++ object) w (rw fits at h)
          ∙ append_assoc written object (list_text ts)
      | inr past ↦ absurd (ground (arith, h, past))
    ]

-- The tasks are listed, all of them between brackets, exactly if their objects have at most 16,381
-- characters together; with more, the handler writes outside its buffer.
pub handle_get_tasks-list_text :
    (ts : List Task)
    → handle_get_tasks ts ≡ (
        if leb (length (list_text ts)) 16381
        then some (json 200 ((text "[" ++ list_text ts) ++ text "]"))
        else none)
unfolding handle_get_tasks
handle_get_tasks-list_text ts =
    let count = length-append (text "[") (list_text ts) in
    elim (Bool-cases (leb (length (list_text ts)) 16381)) [
      | inl short ↦
          let room : leb (length (text "[" ++ list_text ts) + 2) 16384 ≡ true =
            ground (arith, count) in
          rw
            (
              short,
              handle_get_tasks,
              write_tasks-some 16384 ts (text "[") (ground (arith, count)),
              room,
            )
            refl
      | inr long ↦ elim (Option-cases (write_tasks 16384 ts (text "["))) [
        | inl fault ↦ rw (long, handle_get_tasks, fault) refl
        | inr (w, e) ↦
            let room : leb (length w + 2) 16384 ≡ false =
              ground (arith, count, ap length (write_tasks-result 16384 ts (text "[") w e)) in
            rw (long, handle_get_tasks, e, room) refl
      ]
    ]
