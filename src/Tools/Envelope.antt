-- ===== src/Tools/Envelope.antt =====
-- The tool-result envelope of internal/runtime/base/tool_envelope.go.
pub mod Quoting
pub mod Delimiter
mod Tests
use temporal_go_agent_sdk.Prelude.{
  ℕ, ◌+◌, ◌/◌, ◌%◌, Bool, true, false, not, ◌&&◌, ◌||◌, List, [], ◌∷◌, ◌++◌, Text, codes, ltb, leb,
  ◌==◌, if◌then◌else◌,
}
use temporal_go_agent_sdk.Strings.{replace_all}

pub data ToolResultStatus : Type 0 where
  ok error : ToolResultStatus

abbrev pub status_text : ToolResultStatus → Text
status_text ok = codes "ok"
status_text error = codes "error"

-- Bytes that `%q` copies. Bytes from 128 on are taken to be printable UTF-8, which it copies too.
abbrev pub is_plain : ℕ → Bool
is_plain c = leb 32 c && not (c == 34) && not (c == 92) && not (c == 127)

abbrev pub hex_digit : ℕ → ℕ
hex_digit d = if ltb d 10 then 48 + d else 87 + d

-- What follows the backslash.
unfoldable pub escape_tail : ℕ → Text
escape_tail c =
    if c == 34 || c == 92
    then c ∷ []
    else if c == 7
    then b'a' ∷ []
    else if c == 8
    then b'b' ∷ []
    else if c == 9
    then b't' ∷ []
    else if c == 10
    then b'n' ∷ []
    else if c == 11
    then b'v' ∷ []
    else if c == 12
    then b'f' ∷ []
    else if c == 13
    then b'r' ∷ []
    else b'x' ∷ hex_digit (c / 16) ∷ hex_digit (c % 16) ∷ []

unfoldable pub quote_body : Text → Text
unfolding escape_tail
quote_body [] = []
quote_body (c ∷ s) = (if is_plain c then c ∷ [] else 92 ∷ escape_tail c) ++ quote_body s

-- The verb `%q` of `fmt`.
unfoldable pub quote : Text → Text
unfolding quote_body
quote s = 34 ∷ (quote_body s ++ 34 ∷ [])

-- `</tool_result>` behind its first byte.
abbrev pub close_tail : Text
close_tail = codes "/tool_result>"

abbrev pub tool_result_close : Text
tool_result_close = 60 ∷ close_tail

-- `<\/tool_result>`.
abbrev pub tool_result_close_escaped : Text
tool_result_close_escaped = 60 ∷ 92 ∷ close_tail

unfoldable pub render_tool_result_envelope : Text → ToolResultStatus → Text → Text
unfolding quote replace_all
render_tool_result_envelope tool_name status content =
    codes "<tool_result name="
    ++ (quote tool_name
        ++ (codes " status="
            ++ (quote (status_text status)
                ++ (codes ">"
                    ++ (10
                        ∷ (replace_all tool_result_close tool_result_close_escaped content
                            ++ (10 ∷ tool_result_close)))))))
