-- ===== src/Lib.antt =====
-- A verification library for the agent SDK: the file-system guard of its tools, what the model sees of
-- a tool's output and errors, budgets and telemetry, hooks, the calls of the model, and the agent loop
-- that joins them, in process and as a Temporal workflow.
--
-- How the parts interact. The loop (internal/runtime/local/agent_loop.go) sends a run's messages to the
-- model, and executes the tool calls of the answer: each is authorized, approved where it needs approval,
-- and then run, or delegated to a sub-agent, whose loop is the same code. Output and errors of tools reach
-- the model as envelopes and fixed texts (internal/runtime/base/tool_*.go); token counts and calls are
-- charged to a budget and to telemetry. File tools keep a guard (pkg/tools/fsguard/fsguard.go) that lets
-- them write or edit only what was read.
--
-- Which file models which part:
--   Prelude          Results, lists, texts (lists of bytes), maps as association lists, and int64 as
--                    integers with the wrap-around written out; library names are passed on.
--   Interfaces       pkg/interfaces/conversation.go and llm.go, internal/types/llm.go, tool.go, approval.go.
--   Effects          Code that makes calls on its surroundings, as a tree of calls with a continuation for
--                    each answer: Logic says what every call and result satisfies, Yields what is returned,
--                    and Frame how both pass through tests and errors.
--   Strings          The functions of Go's package strings that the code calls, on ASCII where case or
--                    space matters.
--   FsGuard/Ranges   LineRange and mergeRanges of pkg/tools/fsguard/fsguard.go: merge_ranges sorts by
--                    insertion and then absorbs.
--   FsGuard/Guard    Guard and its operations: MarkRead is mark_read, CheckEditable is check_editable,
--                    CommitWrite is commit_write, and so on. The file system and the hash are parameters;
--                    each operation runs under the guard's locks, so it is one step, and commit_write
--                    takes what other processes do between its re-read and its write. Commit states what
--                    the theorems rely on of a file system (Contract); Invariant has the calls as a step
--                    relation.
--   Tools/Envelope   internal/runtime/base/tool_envelope.go, with the quoting of %q.
--   Tools/Failure    internal/runtime/base/tool_error.go: an error is a data type of the wrappings that
--                    the code tells apart.
--   Tools/Truncation internal/runtime/base/tool_truncation.go.
--   Tools/Results    internal/runtime/base/tool_executor.go and the message builders of tool_envelope.go.
--   Base/Budget      internal/runtime/base/token_budget.go and the usage sums of utils.go.
--   Base/Telemetry   internal/types/telemetry.go.
--   Base/Approvals   internal/runtime/base/approval_store.go, each operation with the reading of its clock.
--   Conversation/Store pkg/conversation/inmem/conversation.go; Window is about what it holds, Listing about
--                    what ListMessages returns.
--   Local/Types      The data of internal/runtime/base/types.go that the loop uses, and the calls that the
--                    loop makes on the model, the tools, the approval channel, the stores and the bus.
--   Local/Program    A loop is a program in the sense of Effects, on these calls. Goroutines
--                    of a batch are programs side by side, which make their calls in the order of a schedule; the schedule is one more answer, so a theorem for all answers is one
--                    for all interleavings of calls.
--   Local/Delegation and Local/SingleTool: executeSingleTool and publishEventToChannel of
--                    internal/runtime/local/agent_loop.go, and SubAgentQuery and SubAgentScope of
--                    internal/runtime/base/utils.go.
--   Local/Batch      executeToolsParallel and executeToolsSequential.
--   Local/Loop       RunAgentLoop: Loop has its variables and updates, Start what stands before and after
--                    the iterations, Run the iterations, the whole, and the routes to sub-agents.
--   Local/Safety     The promises about each call of a run. Local/Counts: the number of calls of the model.
--   Local/Examples   A concrete agent to apply the theorems to; files named Tests do so.
--
--   Hooks            internal/hooks: Hooks has the data, Merge (merge) and the two nested loops that all runners
--                    share (run_groups), Run the ten runners. A hook acts on a world, which is passed on,
--                    and on the Tags map of a memory scope, which it shares.
--   Base/Request     BuildLLMRequest, RequiresApproval and llmResponseToResult of internal/runtime/base/runtime.go,
--                    with FindToolByName and ApplyLLMSampling of utils.go.
--   Base/Generate    ExecuteLLM and ExecuteLLMStream of internal/runtime/base/runtime.go: the closures that open
--                    and close messages are functions on the shared variables (Emission), which hold the
--                    events sent so far.
--   Base/Retriever   The names of retriever tools and their query: internal/types/retriever.go.
--   Base/Execution   executeTool and executeRetrieverTool of internal/runtime/base/runtime.go with the hooks of
--                    hooks.go, FormatRetrieverDocs of utils.go; Authorize has AuthorizeTool. World and Once
--                    follow what runs, Permission what is allowed.
--   Base/Retrieval   ExecuteRetrievers of internal/runtime/base/runtime.go: the goroutines of the retrievers as
--                    programs under a schedule, Sections what each contributes, Gather the whole.
--   Temporal/Types   The data of internal/runtime/temporal/agent_workflow.go and subagent.go, and the activities,
--                    side effects and child workflows that the workflow starts, as calls. The variable
--                    streamingUnavailable, which coroutines share, is read and set by calls as well, and
--                    any answer to a read is admitted. The answer of a call of the model is what
--                    the variable llmResult holds after Get, which decodes into the value before.
--   Temporal/Events, Temporal/ToolCall and Temporal/Batch: emitAgentEvent, executeAgentToolCall,
--                    delegateToSubAgent, and the two modes of a batch.
--   Temporal/Workflow AgentWorkflow: Workflow has the iterations, Run one run, Chain the runs that
--                    continue-as-new makes of it (run_chain), Counts the calls of the model.
--   Temporal/Safety  The promises about each activity and child workflow that is started.
--
-- Bounds and fuel. The iterations of the loop recur on the number that is left, and delegation on the tree
-- of routes, so no run needs fuel. A chain of workflow runs has fuel, one for each run, and Results says how
-- much is enough. The digits of a number n are computed in n + 1 rounds, more than it has
-- digits. A schedule may be too short or name a program that has ended: what is left over runs in order,
-- and such an entry is passed over, so every interleaving of the calls has a schedule.
--
-- Not modelled: logging, spans and the times of a run, which nothing else depends on; the operating-system file
-- system (a parameter), the model, the tools, the stores and the event bus (answers of calls, or functions on a world); the contents
-- of events beyond what names the call; the bodies of the Temporal activities, and Temporal itself; registries, the
-- Redis conversation store and protocol clients. A tool execution's panic and timeout are errors in the answers.
pub mod Prelude
pub mod Interfaces
pub mod Effects
pub mod Strings
pub mod FsGuard
pub mod Tools
pub mod Base
pub mod Conversation
pub mod Hooks
pub mod Local
pub mod Temporal
