-- ===== src/Tools/Failure.antt =====
-- The classes of tool failure, and the model-facing text of each:
-- internal/runtime/base/tool_error.go.
pub mod Boundary
mod Tests
use temporal_go_agent_sdk.Prelude.{
  Bool, true, false, ◌||◌, List, [], ◌∷◌, ◌++◌, Option, none, some, Text, codes, if◌then◌else◌,
}
use temporal_go_agent_sdk.Strings.{contains, to_lower}
use temporal_go_agent_sdk.Tools.Envelope.{ToolResultStatus, render_tool_result_envelope}

-- An error and the errors that it wraps. `execution` is a `ToolExecutionError`.
pub data Failure : Type 0 where
  tool_panicked : Failure
  deadline_exceeded : Failure
  plain : Text → Failure
  wrapped : Text → Failure → Failure
  execution : Text → Text → Text → Bool → Failure → Failure

abbrev pub msg_tool_failed : Text
msg_tool_failed = codes "The tool failed to execute; check the arguments and try again."

abbrev pub msg_tool_unavailable : Text
msg_tool_unavailable =
    codes
      "The tool could not be executed because of a temporary system problem; try again, or continue without this tool."

abbrev pub msg_tool_timed_out : Text
msg_tool_timed_out =
    codes
      "The tool did not finish within its execution time limit; try again, narrowing the request if possible."

abbrev pub msg_tool_panicked : Text
msg_tool_panicked =
    codes
      "The tool encountered an internal error and could not complete; do not retry with the same arguments."

abbrev pub panicked_text : Text
panicked_text = codes "tool execution panicked"

abbrev pub deadline_text : Text
deadline_text = codes "context deadline exceeded"

-- `Error()`. A wrapping error puts its words before those of the error that it wraps.
unfoldable pub error_text : Failure → Text
error_text tool_panicked = panicked_text
error_text deadline_exceeded = deadline_text
error_text (plain t) = t
error_text (wrapped t f) = t ++ error_text f
error_text (execution tool_name call_id message is_fatal f) =
    codes "tool execution error: " ++ (tool_name ++ (codes ": " ++ message))

-- `errors.Is` for the two sentinels.
unfoldable pub is_panicked : Failure → Bool
is_panicked tool_panicked = true
is_panicked deadline_exceeded = false
is_panicked (plain t) = false
is_panicked (wrapped t f) = is_panicked f
is_panicked (execution tool_name call_id message is_fatal f) = is_panicked f

unfoldable pub is_deadline : Failure → Bool
is_deadline tool_panicked = false
is_deadline deadline_exceeded = true
is_deadline (plain t) = false
is_deadline (wrapped t f) = is_deadline f
is_deadline (execution tool_name call_id message is_fatal f) = is_deadline f

abbrev pub contains_any : List Text → Text → Bool
contains_any [] s = false
contains_any (p ∷ ps) s = contains p s || contains_any ps s

abbrev pub fatal_patterns : List Text
fatal_patterns =
    codes "connection refused"
    ∷ codes "connection reset"
    ∷ codes "connection timeout"
    ∷ codes "dial tcp"
    ∷ codes "i/o timeout"
    ∷ codes "network unreachable"
    ∷ codes "unreachable"
    ∷ codes "no route to host"
    ∷ codes "broken pipe"
    ∷ codes "eof"
    ∷ codes "context deadline exceeded"
    ∷ codes "context canceled"
    ∷ codes "service unavailable"
    ∷ codes "bad gateway"
    ∷ codes "gateway timeout"
    ∷ codes "502"
    ∷ codes "503"
    ∷ codes "504"
    ∷ []

unfoldable pub is_infrastructure_error : Text → Bool
unfolding contains to_lower
is_infrastructure_error msg = contains_any fatal_patterns (to_lower msg)

-- The cases of the switch, on the two sentinel tests and the text in lower case.
unfoldable pub text_by_class : Bool → Bool → Text → Text
unfolding is_infrastructure_error
text_by_class panicked deadline msg =
    if panicked || contains panicked_text msg
    then msg_tool_panicked
    else if deadline || contains deadline_text msg
    then msg_tool_timed_out
    else if is_infrastructure_error msg
    then msg_tool_unavailable
    else if contains (codes "timeout") msg || contains (codes "timed out") msg
    then msg_tool_timed_out
    else msg_tool_failed

unfoldable pub model_facing_tool_error_text : Option Failure → Text
unfolding text_by_class is_panicked is_deadline error_text
model_facing_tool_error_text none = []
model_facing_tool_error_text (some f) =
    text_by_class (is_panicked f) (is_deadline f) (to_lower (error_text f))

unfoldable pub classify_tool_error : Text → Text → Failure → Failure
unfolding is_infrastructure_error
classify_tool_error tool_name call_id f =
    execution tool_name call_id (error_text f) (is_infrastructure_error (error_text f)) f

unfoldable pub wrap_tool_error : Text → Text → Option Failure → Option Failure
unfolding classify_tool_error
wrap_tool_error tool_name call_id none = none
wrap_tool_error tool_name call_id (some (execution n c m b f)) = some (execution n c m b f)
wrap_tool_error tool_name call_id (some f) = some (classify_tool_error tool_name call_id f)

abbrev pub is_fatal : Failure → Bool
is_fatal (execution n c m fatal f) = fatal
is_fatal _ = false

unfoldable pub tool_failure_content : Text → Option Failure → Text
unfolding render_tool_result_envelope model_facing_tool_error_text
tool_failure_content tool_name f =
    render_tool_result_envelope tool_name ToolResultStatus.error (model_facing_tool_error_text f)
