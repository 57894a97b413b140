-- ===== src/Tools/Envelope/Delimiter.antt =====
-- How often the closing delimiter stands in an envelope.
use temporal_go_agent_sdk.Prelude.{◌+◌, ◌≡◌, ◌∙◌, refl, ap, ◌∷◌, ◌++◌, arith, Text, codes}
use temporal_go_agent_sdk.Strings.{has_prefix, occurs, replace_all}
use temporal_go_agent_sdk.Strings.Search.{Lacks, occurs-skip, occurs-append}
use temporal_go_agent_sdk.Strings.Replace.{occurs-replace_all}
use temporal_go_agent_sdk.Tools.Envelope.Quoting.{AllPlain, occurs-quote}
use temporal_go_agent_sdk.Tools.Envelope.{
  ToolResultStatus, ok, error, status_text, quote, close_tail, tool_result_close,
  tool_result_close_escaped, render_tool_result_envelope,
}

close-AllPlain : AllPlain tool_result_close
close-AllPlain = ground arith

tail-Lacks : Lacks 60 close_tail
tail-Lacks = omega arith

occurs-safe :
    (content : Text)
    → occurs tool_result_close (replace_all tool_result_close tool_result_close_escaped content) ≡ 0
unfolding has_prefix
occurs-safe content =
    occurs-replace_all 60 92 close_tail tail-Lacks (omega arith) (λ b. refl) content

occurs-body :
    (content : Text)
    → occurs tool_result_close (
        codes ">"
        ++ (10
            ∷ (replace_all tool_result_close tool_result_close_escaped content
                ++ (10 ∷ tool_result_close))))
      ≡ 1
unfolding occurs has_prefix
occurs-body content =
    rw
      (occurs-append 10 60 close_tail
        (replace_all tool_result_close tool_result_close_escaped content) tool_result_close
        (omega arith))
      (ground (arith, occurs-safe content))

occurs-status : (status : ToolResultStatus) → occurs tool_result_close (status_text status) ≡ 0
unfolding occurs has_prefix
occurs-status ok = refl
occurs-status error = refl

occurs-opening :
    (rest : Text)
    → occurs tool_result_close (codes "<tool_result name=" ++ rest) ≡ occurs tool_result_close rest
unfolding occurs has_prefix
occurs-opening rest = ground arith

-- Whatever the tool put out, the envelope holds the closing delimiter once, and once more for each
-- place where it stands in the tool's name.
pub occurs-render_tool_result_envelope :
    (tool_name : Text) (status : ToolResultStatus) (content : Text)
    → occurs tool_result_close (render_tool_result_envelope tool_name status content)
      ≡ occurs tool_result_close tool_name + 1
unfolding render_tool_result_envelope
occurs-render_tool_result_envelope tool_name status content =
    let body : Text =
      codes ">"
      ++ (10
          ∷ (replace_all tool_result_close tool_result_close_escaped content
              ++ (10 ∷ tool_result_close))) in
    let rest : Text = codes " status=" ++ (quote (status_text status) ++ body) in
    occurs-opening (quote tool_name ++ rest)
    ∙ occurs-quote close_tail tool_name rest close-AllPlain
    ∙ ap (◌+◌ (occurs tool_result_close tool_name)) (
        occurs-skip 60 close_tail (codes " status=") (quote (status_text status) ++ body)
          (omega arith)
        ∙ occurs-quote close_tail (status_text status) body close-AllPlain
        ∙ omega (arith, occurs-status status, occurs-body content))
