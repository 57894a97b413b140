-- ===== src/Base/Generate/Tests.antt =====
-- A stream with thinking and text, and one that breaks off after its first text.
use temporal_go_agent_sdk.Prelude.{
  ℕ, ◌+◌, true, false, [], ◌∷◌, Option, none, some, Text, codes, ◌≡◌, refl, ok,
}
use temporal_go_agent_sdk.Interfaces.{LlmResponse}
use temporal_go_agent_sdk.Tools.Failure.{Failure, plain}
use temporal_go_agent_sdk.Local.Types.{ExecuteLlmInput}
use temporal_go_agent_sdk.Base.Request.{RequestConfig, build_llm_request}
use temporal_go_agent_sdk.Base.Generate.{
  after_hooks, finish, LlmStreamChunk, LlmStream, Runtime, text_message_start, text_message_content,
  text_message_end, reasoning_start, reasoning_message_start, reasoning_message_content,
  reasoning_message_end, reasoning_end, execute_llm, execute_llm_stream, request_of, on_content,
  on_thinking, end_of_stream,
}
use temporal_go_agent_sdk.Base.Generate.Protocol.{IsInOrder, execute_llm-IsInOrder}
use temporal_go_agent_sdk.Base.Generate.Content.{HasSaid, execute_llm_stream-HasSaid}

abbrev config : RequestConfig
config = record {
  system_prompt = codes "Be brief.";
  response_format = none;
  sampling = none;
  tool_approval_policy = none;
}

abbrev said : LlmResponse
said = record { content = codes "hi"; usage = none; tool_calls = [] }

abbrev chunk : Text → Text → Option LlmStreamChunk
chunk text thought = some (record { content_delta = text; thinking_delta = thought })

abbrev stream_of : Option Failure → LlmStream
stream_of e = record {
  chunks = chunk [] (codes "so") ∷ none ∷ chunk (codes "h") [] ∷ chunk (codes "i") [] ∷ [];
  failure = e;
  final = some said;
}

-- Its world counts the ids that were drawn.
abbrev runtime : Option Failure → Runtime ℕ
runtime e = record {
  config = config;
  hooks = [];
  client = record {
    is_stream_supported = true;
    generate = λ req w. (ok said, w);
    generate_stream = λ req w. (ok (stream_of e), w);
  };
  new_uuid = λ w. (codes "r", w + 1);
}

abbrev late_thinking : Runtime ℕ
late_thinking = record (runtime none) {
  client = record {
    is_stream_supported = true;
    generate = λ req w. (ok said, w);
    generate_stream = λ req w. (
      ok (record {
        chunks = chunk (codes "hi") [] ∷ chunk [] (codes "so") ∷ [];
        failure = none;
        final = some said;
      }),
      w,
    );
  };
}

abbrev input : ExecuteLlmInput
input = record {
  agent_name = codes "agent";
  message_id = codes "m";
  run_id = codes "run";
  iteration = 0;
  messages = [];
  skip_tools = false;
  memory_context = [];
  retriever_context = [];
  streaming = true;
}

execute_llm-IsInOrder_example :
    IsInOrder (codes "m") (execute_llm (runtime none) input [] 0)
    × IsInOrder (codes "m") (execute_llm_stream (runtime none) input [] 0)
execute_llm-IsInOrder_example = execute_llm-IsInOrder (runtime none) input [] 0

-- The stream fails after two text events: the message is left open.
unended_message :
    (execute_llm_stream (runtime (some (plain (codes "reset")))) input [] 0).1.emitted
    ≡ text_message_content (codes "m") (codes "i")
      ∷ text_message_content (codes "m") (codes "h")
      ∷ text_message_start (codes "m")
      ∷ reasoning_end (codes "r")
      ∷ reasoning_message_end (codes "r")
      ∷ reasoning_message_content (codes "r") (codes "so")
      ∷ reasoning_message_start (codes "r")
      ∷ reasoning_start (codes "r")
      ∷ []
unfolding execute_llm_stream on_content on_thinking end_of_stream
unended_message = refl

-- Thinking after the first text comes inside the open message.
reasoning_inside_message :
    (execute_llm_stream late_thinking input [] 0).1.emitted
    ≡ text_message_end (codes "m")
      ∷ reasoning_end (codes "r")
      ∷ reasoning_message_end (codes "r")
      ∷ reasoning_message_content (codes "r") (codes "so")
      ∷ reasoning_message_start (codes "r")
      ∷ reasoning_start (codes "r")
      ∷ text_message_content (codes "m") (codes "hi")
      ∷ text_message_start (codes "m")
      ∷ []
unfolding execute_llm_stream on_content on_thinking end_of_stream request_of after_hooks finish
reasoning_inside_message = refl

execute_llm_stream-HasSaid_example :
    HasSaid (codes "hi") (codes "so") (execute_llm_stream (runtime none) input [] 0)
unfolding request_of
execute_llm_stream-HasSaid_example =
    execute_llm_stream-HasSaid (runtime none) input [] 0 0 0
      (build_llm_request config [] false [] [] []) (stream_of none) refl refl refl
