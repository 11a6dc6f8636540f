-- ===== src/TribunalHttp/Code.antt =====
-- The handlers of src/tribunal_http.c that suggest and apply patches. The files on disk are passed through
-- the calls in their order; a reply of `none` is a read outside a buffer.
use mathlib.Core.Option
use code_tribunal.Prelude.{
  Bool, ◌||◌, Option, some, [], ◌∷◌, ◌++◌, Text, text, is_empty, if◌then◌else◌,
}
use code_tribunal.Prelude.Int.{pos, eqb_ℤ}
use code_tribunal.TribunalHttp.Escape.{escape_json_string}
use code_tribunal.TribunalHttp.Scan.{quoted_value}
use code_tribunal.TribunalHttp.Surroundings.{PatchResult, Surroundings}
use code_tribunal.TribunalHttp.Reply.{Reply, concat, snprintf, json}

abbrev pub file_path_of : Text → Text
unfolding quoted_value
file_path_of body = quoted_value (text "\"file_path\":") 511 [] body

abbrev pub patch_of : Text → Text
unfolding quoted_value
patch_of body = quoted_value (text "\"patch\":") 32767 [] body

-- The reply for tests that failed, with the memory of their output.
unfoldable pub failure_reply : Text → Text → Option Reply
unfolding escape_json_string snprintf
failure_reply error test_output =
    Option.map
      (λ escaped. json 400 (
        snprintf 4096 (
          concat (
            text "{\"success\":false,\"error\":\""
            ∷ error
            ∷ text "\",\"test_output\":\""
            ∷ escaped
            ∷ text "\",\"rolled_back\":true}"
            ∷ []))))
      (escape_json_string test_output 2048)

unfoldable pub success_reply : Text → Bool → Reply
unfolding snprintf
success_reply file_path committed = json 200 (
    snprintf 2048 (
      concat (
        text "{\"success\":true,\"file_path\":\""
        ∷ file_path
        ∷ text "\",\"tests_passed\":true,\"committed\":"
        ∷ (if committed then text "true" else text "false")
        ∷ text "}"
        ∷ [])))

unfoldable pub commit_message : Text → Text
unfolding snprintf
commit_message file_path = snprintf 256 (text "Apply code modification to " ++ file_path)

module _ {F : Type 0} (outside : Surroundings F) where
  unfoldable pub suggestion_reply : Text → PatchResult → Option Reply
  unfolding escape_json_string snprintf
  suggestion_reply file_path result =
      if result.success
      then Option.map
          (λ escaped. json 200 (
            snprintf 40960 (
              concat (
                text "{\"file_path\":\""
                ∷ file_path
                ∷ text "\",\"diff\":\""
                ∷ escaped
                ∷ text "\",\"success\":true}"
                ∷ []))))
          (escape_json_string result.diff 32768)
      else some (
          json 500 (
            snprintf 1024 (concat (text "{\"error\":\"" ∷ result.error_message ∷ text "\"}" ∷ []))))

  unfoldable pub handle_code_suggest : Text → F → Option Reply × F
  unfolding quoted_value suggestion_reply
  handle_code_suggest body files =
      let file_path = file_path_of body in
      let modification = quoted_value (text "\"modification\":") 511 [] body in
      let (result, after) = outside.patch_generate file_path modification files in
      if is_empty file_path
      then (some (json 400 (text "{\"error\":\"No file_path provided\"}")), files)
      else (suggestion_reply file_path result, after)

  -- The second tests, once the patch is applied and has passed the first.
  unfoldable pub validate_patch : Text → F → Option Reply × F
  unfolding failure_reply success_reply commit_message
  validate_patch file_path files =
      let (passed, test_output, tested) = outside.patch_run_tests files in
      let (git_result, committed) =
        outside.patch_commit_to_git file_path (commit_message file_path) tested in
      if passed then (some (success_reply file_path (eqb_ℤ git_result (pos 0))), committed) else (
        failure_reply (text "Tests failed after patch") test_output,
        outside.patch_rollback file_path tested,
      )

  unfoldable pub handle_code_apply : Text → F → Option Reply × F
  unfolding quoted_value failure_reply validate_patch
  handle_code_apply body files =
      let file_path = file_path_of body in
      let patch_content = patch_of body in
      let (result, applied) = outside.patch_apply file_path patch_content files in
      if is_empty file_path || is_empty patch_content
      then (some (json 400 (text "{\"error\":\"Missing file_path or patch\"}")), files)
      else if result.test_passed
      then validate_patch file_path applied
      else (
        failure_reply (text "Tests failed") result.test_output,
        outside.patch_rollback file_path applied,
      )
