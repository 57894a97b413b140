-- ===== src/Base/Generate/Protocol.antt =====
-- The order of the events that one call of the model sends: each block is opened, filled and closed.
-- The comment at AgentLLMStreamActivity wants more, that all reasoning comes before the message is
-- started; the code does not see to that, and no more is asked here. ExecuteLLM and ExecuteLLMStream of internal/runtime/base/runtime.go.
use temporal_go_agent_sdk.Prelude.{
  Bool, true, false, List, [], ◌∷◌, Option, none, some, Text, ◌≡◌, ◌⊎◌, inl, inr, refl, ◌≢◌, Result,
  ok, err,
}
use temporal_go_agent_sdk.Interfaces.{LlmResponse}
use temporal_go_agent_sdk.Interfaces.Requests.{LlmRequest}
use temporal_go_agent_sdk.Tools.Failure.{Failure}
use temporal_go_agent_sdk.Local.Types.{ExecuteLlmInput, LlmResult}
use temporal_go_agent_sdk.Base.Request.{Tool, llm_response_to_result}
use temporal_go_agent_sdk.Base.Generate.{
  StreamEvent, text_message_start, text_message_content, text_message_end, reasoning_start,
  reasoning_message_start, reasoning_message_content, reasoning_message_end, reasoning_end,
  LlmStreamChunk, LlmStream, Runtime, Emission, Outcome, emit_event, finalize_assistant_text,
  flush_reasoning, open_text_msg, close_text_msg, open_reasoning, begin_reasoning, on_content,
  on_thinking, run_chunks, fresh, finish, in_world, after_hooks, after_generate, end_of_stream,
  after_stream, with_request, request_of, execute_llm, execute_llm_stream, run_after_llm_response,
}

pub data TextPhase : Type 0 where
  unsent opened done : TextPhase

pub data ReasoningPhase : Type 0 where
  closed : ReasoningPhase
  started in_message message_done : Text → ReasoningPhase

pub data Track : Type 0 where
  track : TextPhase → ReasoningPhase → Track

-- What may come next in the message of that id. Text is sent only while no reasoning is open, but
-- reasoning may start while the message is.
pub data Step (id : Text) : Track → StreamEvent → Track → Type 0 where
  text_starts : Step id (track unsent closed) (text_message_start id) (track opened closed)
  text_goes_on :
      (d : Text) → Step id (track opened closed) (text_message_content id d) (track opened closed)
  text_ends : Step id (track opened closed) (text_message_end id) (track done closed)
  reasoning_starts :
      (t : TextPhase) (m : Text)
      → t ≢ done
      → Step id (track t closed) (reasoning_start m) (track t (started m))
  message_starts :
      (t : TextPhase) (m : Text)
      → Step id (track t (started m)) (reasoning_message_start m) (track t (in_message m))
  message_goes_on :
      (t : TextPhase) (m d : Text)
      → Step id (track t (in_message m)) (reasoning_message_content m d) (track t (in_message m))
  message_ends :
      (t : TextPhase) (m : Text)
      → Step id (track t (in_message m)) (reasoning_message_end m) (track t (message_done m))
  reasoning_ends :
      (t : TextPhase) (m : Text)
      → Step id (track t (message_done m)) (reasoning_end m) (track t closed)

-- Events, the last one first, each of which may come after those before it.
pub data Follows (id : Text) : List StreamEvent → Track → Type 0 where
  nothing : Follows id [] (track unsent closed)
  after :
      (es : List StreamEvent) (t u : Track) (e : StreamEvent)
      → Follows id es t
      → Step id t e u
      → Follows id (e ∷ es) u

abbrev text_phase : Bool → TextPhase
text_phase true = opened
text_phase false = unsent

abbrev reasoning_phase : Bool → Text → ReasoningPhase
reasoning_phase true m = in_message m
reasoning_phase false m = closed

-- While the chunks come in: the flags say where the message stands.
abbrev pub IsInStep : {W : Type 0} → Text → Emission W → Type 0
IsInStep id s =
    (s.reasoning_msg_open ≡ s.reasoning_phase_open)
    × Follows id s.emitted (
        track (text_phase s.text_msg_open) (reasoning_phase s.reasoning_phase_open s.reasoning_mid))

abbrev emission : {W : Type 0} → Bool → Text → Bool → Bool → List StreamEvent → W → Emission W
emission b m p q es w = record {
  text_msg_open = b;
  reasoning_mid = m;
  reasoning_phase_open = p;
  reasoning_msg_open = q;
  emitted = es;
  world = w;
}

not_done : (b : Bool) → text_phase b ≢ done
not_done true = λ p. cc
not_done false = λ p. cc

-- No reasoning is left open.
abbrev IsFlushed : {W : Type 0} → Text → Emission W → Type 0
IsFlushed id s =
    (s.reasoning_phase_open ≡ false)
    × (s.reasoning_msg_open ≡ false)
    × Follows id s.emitted (track (text_phase s.text_msg_open) closed)

module _ {W : Type 0} (id : Text) where
  flush_by_case :
      (b : Bool) (m : Text) (p q : Bool) (es : List StreamEvent) (w : W)
      → IsInStep id (emission b m p q es w)
      → IsFlushed id (flush_reasoning (emission b m p q es w))
  unfolding flush_reasoning
  flush_by_case b m true true es w h = (
    refl,
    refl,
    after _ _ _ _ (after _ _ _ _ h.1 (message_ends (text_phase b) m))
        (reasoning_ends (text_phase b) m),
  )
  flush_by_case b m false false es w h = (refl, refl, h.1)
  flush_by_case b m true false es w h = let e = h.0 in cc
  flush_by_case b m false true es w h = let e = h.0 in cc

  pub flush_reasoning-IsFlushed :
      (s : Emission W) → IsInStep id s → IsFlushed id (flush_reasoning s)
  flush_reasoning-IsFlushed s h =
      flush_by_case s.text_msg_open s.reasoning_mid s.reasoning_phase_open s.reasoning_msg_open
        s.emitted s.world h

  content_by_case :
      (d : Text) (b : Bool) (m : Text) (p q : Bool) (es : List StreamEvent) (w : W)
      → IsFlushed id (emission b m p q es w)
      → IsInStep id
          (emit_event (text_message_content id d) (open_text_msg id (emission b m p q es w)))
  unfolding open_text_msg
  content_by_case d true m false false es w h = (refl, after _ _ _ _ h.2 (text_goes_on d))
  content_by_case d false m false false es w h =
      (refl, after _ _ _ _ (after _ _ _ _ h.2 text_starts) (text_goes_on d))
  content_by_case d b m true q es w h = let e = h.0 in cc
  content_by_case d b m false true es w h = let e = h.1 in cc

  on_content-IsInStep :
      (d : Text) (s : Emission W) → IsInStep id s → IsInStep id (on_content id d s)
  unfolding on_content
  on_content-IsInStep [] s h = h
  on_content-IsInStep (c ∷ d) s h =
      let f = flush_reasoning s in
      content_by_case (c ∷ d) f.text_msg_open f.reasoning_mid f.reasoning_phase_open
        f.reasoning_msg_open f.emitted f.world (flush_reasoning-IsFlushed s h)

  thinking_by_case :
      (rt : Runtime W) (c : _) (d : Text) (b : Bool) (m : Text) (p q : Bool) (es : List StreamEvent)
      (w : W)
      → IsInStep id (emission b m p q es w)
      → IsInStep id (on_thinking rt (c ∷ d) (emission b m p q es w))
  unfolding open_reasoning on_thinking
  thinking_by_case rt c d b m true true es w h =
      (refl, after _ _ _ _ h.1 (message_goes_on (text_phase b) m (c ∷ d)))
  thinking_by_case rt c d b m false false es w h = begun (rt.new_uuid w)
    where
      begun :
          (x : Text × W)
          → IsInStep id (
              emit_event
                (reasoning_message_content
                  (begin_reasoning x (emission b m false false es w)).reasoning_mid
                  (c ∷ d))
                (begin_reasoning x (emission b m false false es w)))
      begun (n, v) = (
        refl,
        after _ _ _ _
            (after _ _ _ _ (after _ _ _ _ h.1 (reasoning_starts (text_phase b) n (not_done b)))
              (message_starts (text_phase b) n))
            (message_goes_on (text_phase b) n (c ∷ d)),
      )
  thinking_by_case rt c d b m true false es w h = let e = h.0 in cc
  thinking_by_case rt c d b m false true es w h = let e = h.0 in cc

  on_thinking-IsInStep :
      (rt : Runtime W) (d : Text) (s : Emission W)
      → IsInStep id s
      → IsInStep id (on_thinking rt d s)
  unfolding on_thinking
  on_thinking-IsInStep rt [] s h = h
  on_thinking-IsInStep rt (c ∷ d) s h =
      thinking_by_case rt c d s.text_msg_open s.reasoning_mid s.reasoning_phase_open
        s.reasoning_msg_open s.emitted s.world h

  run_chunks-IsInStep :
      (rt : Runtime W) (chunks : List (Option LlmStreamChunk)) (s : Emission W)
      → IsInStep id s
      → IsInStep id (run_chunks rt id chunks s)
  unfolding run_chunks
  run_chunks-IsInStep rt [] s h = h
  run_chunks-IsInStep rt (none ∷ chunks) s h = run_chunks-IsInStep rt chunks s h
  run_chunks-IsInStep rt (some chunk ∷ chunks) s h =
      run_chunks-IsInStep rt chunks _ (
        on_thinking-IsInStep rt chunk.thinking_delta _
          (on_content-IsInStep chunk.content_delta s h))

-- Whether the events of a call are in order, by its outcome.
abbrev pub IsInOrder : {W : Type 0} → Text → Outcome W → Type 0
IsInOrder id (ok r, s) = Follows id s.emitted (track done closed)
IsInOrder id (err f, s) =
    Follows id s.emitted (track unsent closed) ⊎ Follows id s.emitted (track opened closed)

final_by_case :
    {W : Type 0} (id : Text) (r : LlmResult) (b : Bool) (m : Text) (p q : Bool)
    (es : List StreamEvent) (w : W)
    → Follows id es (track (text_phase b) closed)
    → Follows id (finalize_assistant_text id r (emission b m p q es w)).emitted (track done closed)
unfolding finalize_assistant_text open_text_msg close_text_msg
final_by_case id r true m p q es w h = after _ _ _ _ h text_ends
final_by_case id r false m p q es w h =
    after _ _ _ _ (after _ _ _ _ (after _ _ _ _ h text_starts) (text_goes_on r.content)) text_ends

left_open :
    (id : Text) (b : Bool) (es : List StreamEvent)
    → Follows id es (track (text_phase b) closed)
    → Follows id es (track unsent closed) ⊎ Follows id es (track opened closed)
left_open id true es h = inr h
left_open id false es h = inl h

module _ {W : Type 0} (rt : Runtime W) (input : ExecuteLlmInput) (tools : List Tool) where
  finish-IsInOrder :
      (r : Result Failure LlmResult) (s : Emission W)
      → Follows input.message_id s.emitted (track (text_phase s.text_msg_open) closed)
      → IsInOrder input.message_id (finish input.message_id r s)
  unfolding finish
  finish-IsInOrder (ok r) s h =
      final_by_case input.message_id r s.text_msg_open s.reasoning_mid s.reasoning_phase_open
        s.reasoning_msg_open s.emitted s.world h
  finish-IsInOrder (err f) s h = left_open input.message_id s.text_msg_open s.emitted h

  after_hooks-IsInOrder :
      (s : Emission W) (x : Result Failure LlmResponse × W)
      → Follows input.message_id s.emitted (track (text_phase s.text_msg_open) closed)
      → IsInOrder input.message_id (after_hooks rt input tools s x)
  unfolding after_hooks
  after_hooks-IsInOrder s (ok resp, w) h =
      finish-IsInOrder (llm_response_to_result rt.config resp tools) (in_world w s) h
  after_hooks-IsInOrder s (err f, w) h = left_open input.message_id s.text_msg_open s.emitted h

  after_generate-IsInOrder :
      (x : Result Failure LlmResponse × W)
      → IsInOrder input.message_id (after_generate rt input tools x)
  unfolding after_generate
  after_generate-IsInOrder (ok resp, w) =
      after_hooks-IsInOrder (fresh w) (run_after_llm_response rt input resp w) nothing
  after_generate-IsInOrder (err f, w) = inl nothing

  end_of_stream-IsInOrder :
      (e : Option Failure) (final : Option LlmResponse) (s : Emission W)
      → Follows input.message_id s.emitted (track (text_phase s.text_msg_open) closed)
      → IsInOrder input.message_id (end_of_stream rt input tools e final s)
  unfolding end_of_stream
  end_of_stream-IsInOrder (some f) final s h =
      left_open input.message_id s.text_msg_open s.emitted h
  end_of_stream-IsInOrder none none s h = left_open input.message_id s.text_msg_open s.emitted h
  end_of_stream-IsInOrder none (some resp) s h =
      after_hooks-IsInOrder s (run_after_llm_response rt input resp s.world) h

  after_stream-IsInOrder :
      (x : Result Failure LlmStream × W)
      → IsInOrder input.message_id (after_stream rt input tools x)
  unfolding after_stream
  after_stream-IsInOrder (ok stream, w) =
      end_of_stream-IsInOrder stream.failure stream.final _
        (flush_reasoning-IsFlushed input.message_id _
          (run_chunks-IsInStep input.message_id rt stream.chunks (fresh w) (refl, nothing))).2
  after_stream-IsInOrder (err f, w) = inl nothing

  with_request-IsInOrder :
      (go : LlmRequest → W → Outcome W) (x : Result Failure LlmRequest × W)
      → ((req : LlmRequest) (w : W) → IsInOrder input.message_id (go req w))
      → IsInOrder input.message_id (with_request go x)
  with_request-IsInOrder go (ok req, w) h = h req w
  with_request-IsInOrder go (err f, w) h = inl nothing

  -- A call of the model, at once or streamed, sends its events in blocks, whatever the client and
  -- the hooks answer: with a result the message has been started once and ended once, with its
  -- text in between; each block of reasoning is started, filled and ended under one id, with no
  -- text inside it, but it may stand between two texts of the open message; and no reasoning is
  -- left open, with an error either. With an error the message was never started, or it was
  -- started and is never ended.
  pub execute_llm-IsInOrder :
      (w : W)
      → IsInOrder input.message_id (execute_llm rt input tools w)
        × IsInOrder input.message_id (execute_llm_stream rt input tools w)
  unfolding execute_llm execute_llm_stream
  execute_llm-IsInOrder w = (
    with_request-IsInOrder _ (request_of rt input tools w)
        (λ req v. after_generate-IsInOrder (rt.client.generate req v)),
    with_request-IsInOrder _ (request_of rt input tools w)
        (λ req v. by_support req v rt.client.is_stream_supported),
  )
    where
      by_support :
          (req : LlmRequest) (v : W) (b : Bool)
          → IsInOrder input.message_id (elim b [
            | true ↦ after_stream rt input tools (rt.client.generate_stream req v)
            | false ↦ after_generate rt input tools (rt.client.generate req v)
          ])
      by_support req v true = after_stream-IsInOrder (rt.client.generate_stream req v)
      by_support req v false = after_generate-IsInOrder (rt.client.generate req v)
