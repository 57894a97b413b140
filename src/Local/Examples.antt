-- ===== src/Local/Examples.antt =====
-- A concrete agent with a sub-agent, and the answers of its surroundings, to run the loop of
-- internal/runtime/local/agent_loop.go on.
use temporal_go_agent_sdk.Prelude.{ℕ, zero, suc, true, false, [], ◌∷◌, none, some, codes, pos, ok}
use temporal_go_agent_sdk.Interfaces.{ToolKind, approved, str}
use temporal_go_agent_sdk.Local.Types.{
  Call, Answer, new_id, llm, authorize, execute, emit, register, unregister, handle, await,
  fetch_messages, add_message, recall, retrieve, store_memory, schedule, ToolCallRequest, LlmResult,
  ToolExecutionMode, RetrieverMode, AgentConfig, AgentLoopInput,
}
use temporal_go_agent_sdk.Local.Program.{Program, ret, call}
use temporal_go_agent_sdk.Local.Loop.Run.{Routes, no_routes, entry, route}

-- The result of a program, given what answers each call.
abbrev pub evaluate : {A : Type 0} → ((q : Call) → Answer q) → Program A → A
evaluate answer (ret a) = a
evaluate answer (call q k) = evaluate answer (k (answer q))

abbrev pub lead : AgentConfig
lead = record {
  name = codes "lead";
  max_iterations = pos 2;
  max_tokens = pos 0;
  tool_execution_mode = ToolExecutionMode.unset;
  has_conversation = true;
  conversation_save_on_iteration = true;
  recall_enabled = false;
  run_end_memory_store = true;
  retriever_mode = RetrieverMode.agentic;
  has_retrievers = false;
}

abbrev pub helper : AgentConfig
helper = record lead { name = codes "helper"; has_conversation = false }

abbrev pub helper_routes : Routes
helper_routes =
    entry (codes "ask_helper") (route (codes "helper") (some helper) no_routes) no_routes

abbrev pub lead_input : AgentLoopInput
lead_input = record {
  user_prompt = codes "What is new?";
  conversation_id = codes "c1";
  streaming_enabled = false;
  channel_name = codes "events";
  has_approval_handler = true;
  sub_agent_depth = pos 0;
  max_sub_agent_depth = pos 2;
  memory_scope = record {
    tenant_id = [];
    user_id = codes "u1";
    agent_id = codes "lead";
    tags = [];
  };
  run_id = codes "r1";
}

abbrev pub search_call : ToolCallRequest
search_call = record {
  tool_call_id = codes "t1";
  tool_name = codes "search";
  tool_display_name = codes "Search";
  tool_kind = ToolKind.native;
  args = (codes "q", str (codes "news")) ∷ [];
  needs_approval = true;
}

abbrev pub helper_call : ToolCallRequest
helper_call = record {
  tool_call_id = codes "t2";
  tool_name = codes "ask_helper";
  tool_display_name = codes "Helper";
  tool_kind = ToolKind.sub_agent;
  args = (codes "query", str (codes "help")) ∷ [];
  needs_approval = false;
}

-- Both agents ask for the two tools at first, and then answer.
abbrev answer_at : ℕ → LlmResult
answer_at zero = record {
  content = codes "Looking.";
  tool_calls = search_call ∷ (helper_call ∷ []);
  usage = none;
}
answer_at (suc n) = record { content = codes "Done."; tool_calls = []; usage = none }

-- Everything succeeds, and the calls of a batch alternate.
abbrev pub answers : (q : Call) → Answer q
answers new_id = codes "id"
answers (llm i) = ok (answer_at i.iteration)
answers (authorize a n x) = ok (record { allowed = true; reason = [] })
answers (execute a i) = ok (codes "nothing")
answers (emit c e) = tt
answers (register t) = tt
answers (unregister t) = tt
answers (handle t c) = tt
answers (await t c) = ok approved
answers (fetch_messages a c) = ok []
answers (add_message a c m) = none
answers (recall a s q) = ok (record { context = []; total_recalls = 0; failed_recalls = 0 })
answers (retrieve a q) = ok (record { context = []; total_searches = 0; failed_searches = 0 })
answers (store_memory a s m) = none
answers (schedule n) = 0 ∷ (1 ∷ (0 ∷ (1 ∷ [])))
