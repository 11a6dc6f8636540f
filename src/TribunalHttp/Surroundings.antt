-- ===== src/TribunalHttp/Surroundings.antt =====
-- What src/tribunal_http.c uses from other files: the structs of its headers, as far as they are read, and
-- the functions that the repository only declares, as a record over a type of files on disk.
use code_tribunal.Prelude.{ℕ, Bool, Option, List, Text}
use code_tribunal.Prelude.Int.{ℤ}

pub data TaskStatus : Type 0 where
  task_pending : TaskStatus
  task_running : TaskStatus
  task_done : TaskStatus
  task_failed : TaskStatus
  task_paused : TaskStatus

-- The members of `Task` that the server reads. A `TaskList` is the list of its first `count` tasks.
pub record Task : Type 0 where
  pub id : ℤ
  pub name : Text
  pub status : TaskStatus
  pub progress_percent : ℤ
  pub priority : ℤ

-- `intent` is the number of the enumerator.
pub record Query : Type 0 where
  pub intent : ℕ
  pub query : Text
  pub context : Text
  pub metric : Text
  pub subject : Text
  pub week : ℤ
  pub round : ℤ
  pub confidence : ℤ
  pub debug_info : Text

-- `content` is the whole memory of the array, with its terminator; the other texts are what is before
-- theirs. The `float` is as `%.2f` prints it.
pub record Response : Type 0 where
  pub content : Text
  pub source : Text
  pub confidence : Text
  pub execution_time_ms : ℤ

-- The members that are read; `diff` is the whole memory of the array.
pub record PatchResult : Type 0 where
  pub diff : Text
  pub success : Bool
  pub error_message : Text

-- The members that are read; `test_output` is the whole memory of the array.
pub record ApplyResult : Type 0 where
  pub test_passed : Bool
  pub test_output : Text

-- `patch_run_tests` gives whether it returned non-zero, and the memory of its buffer. `scan_overflow` is
-- what `%d` stores for a numeral that no `int` can hold.
pub record Surroundings (F : Type 0) : Type 0 where
  pub task_create : List Task → Text → ℤ → ℤ × List Task
  pub task_get : List Task → ℤ → Option Task
  pub task_start : List Task → ℤ → List Task
  pub task_set_progress : List Task → ℤ → ℤ → List Task
  pub parse_query : Text → Query
  pub generate_response : Query → Option Response
  pub patch_generate : Text → Text → F → PatchResult × F
  pub patch_apply : Text → Text → F → ApplyResult × F
  pub patch_rollback : Text → F → F
  pub patch_run_tests : F → Bool × Text × F
  pub patch_commit_to_git : Text → Text → F → ℤ × F
  pub scan_overflow : Text → ℤ
