-- ===== src/Base/Generate.antt =====
-- One call of the model, at once or as a stream, and the events that it sends: ExecuteLLM and
-- ExecuteLLMStream of internal/runtime/base/runtime.go. The client, the hooks and `uuid.New` act on a
-- world that is passed on. A stream is the list of what `Current` returns after each `Next`, with the
-- answers of `Err` and `GetResult`; `Generate` without an error returns a response. Logs, metrics
-- and spans are left out.
pub mod Protocol
pub mod Content
mod Tests
use temporal_go_agent_sdk.Prelude.{
  Bool, true, false, List, [], ◌∷◌, Option, none, some, Text, codes, Result, ok, err, if◌then◌else◌,
}
use temporal_go_agent_sdk.Interfaces.{LlmResponse}
use temporal_go_agent_sdk.Interfaces.Requests.{LlmRequest}
use temporal_go_agent_sdk.Tools.Failure.{Failure, plain}
use temporal_go_agent_sdk.Local.Types.{ExecuteLlmInput, LlmResult}
use temporal_go_agent_sdk.Hooks.{RunMeta, HookGroup}
use temporal_go_agent_sdk.Hooks.Run.{run_before_llm, run_after_llm}
use temporal_go_agent_sdk.Base.Request.{
  Tool, RequestConfig, build_llm_request, llm_response_to_result,
}

-- The events of a message and of its reasoning; the first argument is the message's id.
pub data StreamEvent : Type 0 where
  text_message_start : Text → StreamEvent
  text_message_content : Text → Text → StreamEvent
  text_message_end : Text → StreamEvent
  reasoning_start : Text → StreamEvent
  reasoning_message_start : Text → StreamEvent
  reasoning_message_content : Text → Text → StreamEvent
  reasoning_message_end : Text → StreamEvent
  reasoning_end : Text → StreamEvent

pub record LlmStreamChunk : Type 0 where
  pub content_delta : Text
  pub thinking_delta : Text

pub record LlmStream : Type 0 where
  pub chunks : List (Option LlmStreamChunk)
  pub failure : Option Failure
  pub final : Option LlmResponse

pub record LlmClient (W : Type 0) : Type 0 where
  pub is_stream_supported : Bool
  pub generate : LlmRequest → W → Result Failure LlmResponse × W
  pub generate_stream : LlmRequest → W → Result Failure LlmStream × W

pub record Runtime (W : Type 0) : Type 0 where
  pub config : RequestConfig
  pub hooks : List (HookGroup W)
  pub client : LlmClient W
  pub new_uuid : W → Text × W

-- The variables of a call that the closures share; `emitted` has the last event first.
pub record Emission (W : Type 0) : Type 0 where
  pub text_msg_open : Bool
  pub reasoning_mid : Text
  pub reasoning_phase_open : Bool
  pub reasoning_msg_open : Bool
  pub emitted : List StreamEvent
  pub world : W

abbrev pub emit_event : {W : Type 0} → StreamEvent → Emission W → Emission W
emit_event e s = record s { emitted = e ∷ s.emitted }

unfoldable pub open_text_msg : {W : Type 0} → Text → Emission W → Emission W
open_text_msg id s = elim s.text_msg_open [
  | true ↦ s
  | false ↦ record (emit_event (text_message_start id) s) { text_msg_open = true }
]

unfoldable pub close_text_msg : {W : Type 0} → Text → Emission W → Emission W
close_text_msg id s = elim s.text_msg_open [
  | true ↦ record (emit_event (text_message_end id) s) { text_msg_open = false }
  | false ↦ s
]

unfoldable pub finalize_assistant_text : {W : Type 0} → Text → LlmResult → Emission W → Emission W
unfolding open_text_msg close_text_msg
finalize_assistant_text id result s = elim s.text_msg_open [
  | true ↦ close_text_msg id s
  | false ↦
      close_text_msg id (emit_event (text_message_content id result.content) (open_text_msg id s))
]

abbrev end_reasoning_message : {W : Type 0} → Emission W → Emission W
end_reasoning_message s = elim s.reasoning_msg_open [
  | true ↦ record (emit_event (reasoning_message_end s.reasoning_mid) s) {
    reasoning_msg_open = false;
  }
  | false ↦ s
]

abbrev end_reasoning_phase : {W : Type 0} → Emission W → Emission W
end_reasoning_phase s = elim s.reasoning_phase_open [
  | true ↦ record (emit_event (reasoning_end s.reasoning_mid) s) { reasoning_phase_open = false }
  | false ↦ s
]

unfoldable pub flush_reasoning : {W : Type 0} → Emission W → Emission W
flush_reasoning s = end_reasoning_phase (end_reasoning_message s)

abbrev pub begin_reasoning : {W : Type 0} → Text × W → Emission W → Emission W
begin_reasoning (mid, w) s = record s {
  reasoning_mid = mid;
  reasoning_phase_open = true;
  reasoning_msg_open = true;
  emitted = reasoning_message_start mid ∷ reasoning_start mid ∷ s.emitted;
  world = w;
}

unfoldable pub open_reasoning : {W : Type 0} → Runtime W → Emission W → Emission W
open_reasoning rt s = elim s.reasoning_phase_open [
  | true ↦ s
  | false ↦ begin_reasoning (rt.new_uuid s.world) s
]

unfoldable pub on_content : {W : Type 0} → Text → Text → Emission W → Emission W
unfolding flush_reasoning open_text_msg
on_content id [] s = s
on_content id (c ∷ delta) s =
    emit_event (text_message_content id (c ∷ delta)) (open_text_msg id (flush_reasoning s))

abbrev thinking : {W : Type 0} → Text → Emission W → Emission W
thinking delta s = emit_event (reasoning_message_content s.reasoning_mid delta) s

unfoldable pub on_thinking : {W : Type 0} → Runtime W → Text → Emission W → Emission W
unfolding open_reasoning
on_thinking rt [] s = s
on_thinking rt (c ∷ delta) s = thinking (c ∷ delta) (open_reasoning rt s)

-- The loop `for stream.Next()`.
unfoldable pub run_chunks :
    {W : Type 0} → Runtime W → Text → List (Option LlmStreamChunk) → Emission W → Emission W
run_chunks rt id [] s = s
run_chunks rt id (none ∷ chunks) s = run_chunks rt id chunks s
run_chunks rt id (some chunk ∷ chunks) s =
    run_chunks rt id chunks
      (on_thinking rt chunk.thinking_delta (on_content id chunk.content_delta s))

abbrev pub hook_run_meta : ExecuteLlmInput → RunMeta
hook_run_meta input = record {
  run_id = input.run_id;
  iteration = input.iteration;
  hooks_group = [];
}

unfoldable pub run_before_llm_request :
    {W : Type 0} → Runtime W → ExecuteLlmInput → LlmRequest → W → Result Failure LlmRequest × W
unfolding run_before_llm
run_before_llm_request rt input req w = elim rt.hooks [
  | [] ↦ (ok req, w)
  | _ ∷ _ ↦ run_before_llm rt.hooks (hook_run_meta input) req w
]

unfoldable pub run_after_llm_response :
    {W : Type 0} → Runtime W → ExecuteLlmInput → LlmResponse → W → Result Failure LlmResponse × W
unfolding run_after_llm
run_after_llm_response rt input resp w = elim rt.hooks [
  | [] ↦ (ok resp, w)
  | _ ∷ _ ↦ run_after_llm rt.hooks (hook_run_meta input) resp w
]

-- The result, with what was sent and done on the way.
abbrev pub Outcome : Type 0 → Type 0
Outcome W = Result Failure LlmResult × Emission W

abbrev pub fresh : {W : Type 0} → W → Emission W
fresh w = record {
  text_msg_open = false;
  reasoning_mid = [];
  reasoning_phase_open = false;
  reasoning_msg_open = false;
  emitted = [];
  world = w;
}

unfoldable pub finish : {W : Type 0} → Text → Result Failure LlmResult → Emission W → Outcome W
unfolding finalize_assistant_text
finish id (ok result) s = (ok result, finalize_assistant_text id result s)
finish id (err f) s = (err f, s)

abbrev pub in_world : {W : Type 0} → W → Emission W → Emission W
in_world w s = record s { world = w }

-- The end that all three ways share, from the model's response on.
unfoldable pub after_hooks :
    {W : Type 0}
    → Runtime W
    → ExecuteLlmInput
    → List Tool
    → Emission W
    → Result Failure LlmResponse × W
    → Outcome W
unfolding llm_response_to_result
after_hooks rt input tools s (ok resp, w) =
    finish input.message_id (llm_response_to_result rt.config resp tools) (in_world w s)
after_hooks rt input tools s (err f, w) = (err f, in_world w s)

unfoldable pub after_generate :
    {W : Type 0}
    → Runtime W
    → ExecuteLlmInput
    → List Tool
    → Result Failure LlmResponse × W
    → Outcome W
unfolding run_after_llm_response
after_generate rt input tools (ok resp, w) =
    after_hooks rt input tools (fresh w) (run_after_llm_response rt input resp w)
after_generate rt input tools (err f, w) = (err f, fresh w)

-- `Err` and `GetResult` at the end of the stream.
unfoldable pub end_of_stream :
    {W : Type 0}
    → Runtime W
    → ExecuteLlmInput
    → List Tool
    → Option Failure
    → Option LlmResponse
    → Emission W
    → Outcome W
unfolding run_after_llm_response
end_of_stream rt input tools (some f) final s = (err f, s)
end_of_stream rt input tools none none s =
    (err (plain (codes "stream completed without result")), s)
end_of_stream rt input tools none (some resp) s =
    after_hooks rt input tools s (run_after_llm_response rt input resp s.world)

unfoldable pub after_stream :
    {W : Type 0}
    → Runtime W
    → ExecuteLlmInput
    → List Tool
    → Result Failure LlmStream × W
    → Outcome W
unfolding run_chunks flush_reasoning
after_stream rt input tools (ok stream, w) =
    end_of_stream rt input tools stream.failure stream.final
      (flush_reasoning (run_chunks rt input.message_id stream.chunks (fresh w)))
after_stream rt input tools (err f, w) = (err f, fresh w)

abbrev pub with_request :
    {W : Type 0} → (LlmRequest → W → Outcome W) → Result Failure LlmRequest × W → Outcome W
with_request go (ok req, w) = go req w
with_request go (err f, w) = (err f, fresh w)

module _ {W : Type 0} (rt : Runtime W) (input : ExecuteLlmInput) (tools : List Tool) where
  unfoldable pub request_of : W → Result Failure LlmRequest × W
  unfolding build_llm_request run_before_llm_request
  request_of w =
      run_before_llm_request rt input
        (build_llm_request rt.config input.messages input.skip_tools input.memory_context
          input.retriever_context tools)
        w

  -- The three events at its end are those of `finalizeAssistantText` on a message not yet open.
  unfoldable pub execute_llm : W → Outcome W
  unfolding request_of after_generate
  execute_llm w =
      with_request (λ req v. after_generate rt input tools (rt.client.generate req v))
        (request_of w)

  unfoldable pub execute_llm_stream : W → Outcome W
  unfolding request_of after_generate after_stream
  execute_llm_stream w =
      with_request
        (λ req v. elim rt.client.is_stream_supported [
          | true ↦ after_stream rt input tools (rt.client.generate_stream req v)
          | false ↦ after_generate rt input tools (rt.client.generate req v)
        ])
        (request_of w)
