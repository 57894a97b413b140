-- ===== src/Base/Generate/Content.antt =====
-- The text that a streamed call of the model sends: ExecuteLLMStream of
-- internal/runtime/base/runtime.go.
use temporal_go_agent_sdk.Prelude.{
  Bool, true, false, List, [], ◌∷◌, ◌++◌, Option, none, some, Text, ◌≡◌, ◌⊎◌, inl, inr, refl, ap,
  sym, ◌∙◌, ◌≢◌, subst, Result, ok, err,
}
use temporal_go_agent_sdk.Interfaces.{LlmResponse}
use temporal_go_agent_sdk.Interfaces.Requests.{LlmRequest}
use temporal_go_agent_sdk.Tools.Failure.{Failure}
use temporal_go_agent_sdk.Local.Types.{ExecuteLlmInput, LlmResult}
use temporal_go_agent_sdk.Base.Request.{Tool, llm_response_to_result}
use temporal_go_agent_sdk.Base.Generate.{
  StreamEvent, text_message_content, reasoning_message_content, LlmStreamChunk, LlmStream, Runtime,
  Emission, Outcome, finalize_assistant_text, flush_reasoning, open_text_msg, close_text_msg,
  open_reasoning, on_content, on_thinking, run_chunks, fresh, finish, in_world, after_hooks,
  end_of_stream, after_stream, request_of, execute_llm_stream, run_after_llm_response,
}

-- All text sent, in order; the events stand with the last one first.
abbrev pub sent_text : List StreamEvent → Text
sent_text [] = []
sent_text (text_message_content id d ∷ es) = sent_text es ++ d
sent_text (_ ∷ es) = sent_text es

abbrev pub sent_reasoning : List StreamEvent → Text
sent_reasoning [] = []
sent_reasoning (reasoning_message_content m d ∷ es) = sent_reasoning es ++ d
sent_reasoning (_ ∷ es) = sent_reasoning es

-- What the chunks hold.
abbrev pub content_of : List (Option LlmStreamChunk) → Text
content_of [] = []
content_of (none ∷ cs) = content_of cs
content_of (some c ∷ cs) = c.content_delta ++ content_of cs

abbrev pub thinking_of : List (Option LlmStreamChunk) → Text
thinking_of [] = []
thinking_of (none ∷ cs) = thinking_of cs
thinking_of (some c ∷ cs) = c.thinking_delta ++ thinking_of cs

-- So much text and reasoning was sent, and the message is open exactly if it is not empty.
abbrev HasSent : {W : Type 0} → Text → Text → Emission W → Type 0
HasSent text reasoning s =
    (sent_text s.emitted ≡ text)
    × (sent_reasoning s.emitted ≡ reasoning)
    × (((s.text_msg_open ≡ true) × (text ≢ [])) ⊎ ((s.text_msg_open ≡ false) × (text ≡ [])))

abbrev emission : {W : Type 0} → Bool → Text → Bool → Bool → List StreamEvent → W → Emission W
emission b m p q es w = record {
  text_msg_open = b;
  reasoning_mid = m;
  reasoning_phase_open = p;
  reasoning_msg_open = q;
  emitted = es;
  world = w;
}

append_nil : (s : Text) → s ++ [] ≡ s
append_nil [] = refl
append_nil (c ∷ s) = ap (◌∷◌ c) (append_nil s)

append_assoc : (s t u : Text) → (s ++ t) ++ u ≡ s ++ (t ++ u)
append_assoc [] t u = refl
append_assoc (c ∷ s) t u = ap (◌∷◌ c) (append_assoc s t u)

append_cons-nonempty : (c : _) (s t : Text) → s ++ (c ∷ t) ≢ []
append_cons-nonempty c [] t = λ p. cc
append_cons-nonempty c (d ∷ s) t = λ p. cc

module _ {W : Type 0} (id : Text) where
  flush_by_case :
      (x y : Text) (b : Bool) (m : Text) (p q : Bool) (es : List StreamEvent) (w : W)
      → HasSent x y (emission b m p q es w)
      → HasSent x y (flush_reasoning (emission b m p q es w))
  unfolding flush_reasoning
  flush_by_case x y b m true true es w h = h
  flush_by_case x y b m false true es w h = h
  flush_by_case x y b m true false es w h = h
  flush_by_case x y b m false false es w h = h

  flush_reasoning-HasSent :
      (x y : Text) (s : Emission W) → HasSent x y s → HasSent x y (flush_reasoning s)
  flush_reasoning-HasSent x y s h =
      flush_by_case x y s.text_msg_open s.reasoning_mid s.reasoning_phase_open s.reasoning_msg_open
        s.emitted s.world h

  content_by_case :
      (x y : Text) (c : _) (d : Text) (b : Bool) (m : Text) (p q : Bool) (es : List StreamEvent)
      (w : W)
      → HasSent x y (emission b m p q es w)
      → HasSent (x ++ (c ∷ d)) y (record (open_text_msg id (emission b m p q es w)) {
        emitted =
            text_message_content id (c ∷ d) ∷ (open_text_msg id (emission b m p q es w)).emitted;
      })
  unfolding open_text_msg
  content_by_case x y c d true m p q es w h =
      (ap (λ t. t ++ (c ∷ d)) h.0, h.1, inl (refl, append_cons-nonempty c x d))
  content_by_case x y c d false m p q es w h =
      (ap (λ t. t ++ (c ∷ d)) h.0, h.1, inl (refl, append_cons-nonempty c x d))

  on_content-HasSent :
      (x y d : Text) (s : Emission W) → HasSent x y s → HasSent (x ++ d) y (on_content id d s)
  unfolding on_content
  on_content-HasSent x y [] s h = subst (λ t. HasSent t y s) (sym (append_nil x)) h
  on_content-HasSent x y (c ∷ d) s h =
      let f = flush_reasoning s in
      content_by_case x y c d f.text_msg_open f.reasoning_mid f.reasoning_phase_open
        f.reasoning_msg_open f.emitted f.world (flush_reasoning-HasSent x y s h)

  thinking_by_case :
      (x y : Text) (rt : Runtime W) (c : _) (d : Text) (b : Bool) (m : Text) (p q : Bool)
      (es : List StreamEvent) (w : W)
      → HasSent x y (emission b m p q es w)
      → HasSent x (y ++ (c ∷ d)) (on_thinking rt (c ∷ d) (emission b m p q es w))
  unfolding on_thinking open_reasoning
  thinking_by_case x y rt c d b m true q es w h = (h.0, ap (λ t. t ++ (c ∷ d)) h.1, h.2)
  thinking_by_case x y rt c d b m false q es w h = (h.0, ap (λ t. t ++ (c ∷ d)) h.1, h.2)

  on_thinking-HasSent :
      (x y : Text) (rt : Runtime W) (d : Text) (s : Emission W)
      → HasSent x y s
      → HasSent x (y ++ d) (on_thinking rt d s)
  unfolding on_thinking
  on_thinking-HasSent x y rt [] s h = subst (λ t. HasSent x t s) (sym (append_nil y)) h
  on_thinking-HasSent x y rt (c ∷ d) s h =
      thinking_by_case x y rt c d s.text_msg_open s.reasoning_mid s.reasoning_phase_open
        s.reasoning_msg_open s.emitted s.world h

  run_chunks-HasSent :
      (x y : Text) (rt : Runtime W) (chunks : List (Option LlmStreamChunk)) (s : Emission W)
      → HasSent x y s
      → HasSent (x ++ content_of chunks) (y ++ thinking_of chunks) (run_chunks rt id chunks s)
  unfolding run_chunks
  run_chunks-HasSent x y rt [] s h =
      subst (λ t. HasSent t (y ++ []) s) (sym (append_nil x))
        (subst (λ t. HasSent x t s) (sym (append_nil y)) h)
  run_chunks-HasSent x y rt (none ∷ chunks) s h = run_chunks-HasSent x y rt chunks s h
  run_chunks-HasSent x y rt (some k ∷ chunks) s h =
      let s1 = on_content id k.content_delta s in
      let s2 = on_thinking rt k.thinking_delta s1 in
      let r = run_chunks-HasSent (x ++ k.content_delta) (y ++ k.thinking_delta) rt chunks s2 (
        on_thinking-HasSent (x ++ k.content_delta) y rt k.thinking_delta s1
          (on_content-HasSent x y k.content_delta s h)) in
      subst
        (λ t.
          HasSent t (y ++ (k.thinking_delta ++ thinking_of chunks)) (run_chunks rt id chunks s2))
        (append_assoc x k.content_delta (content_of chunks))
        (subst
          (λ t.
            HasSent ((x ++ k.content_delta) ++ content_of chunks) t (run_chunks rt id chunks s2))
          (append_assoc y k.thinking_delta (thinking_of chunks)) r)

-- What an outcome has sent, of so much text and reasoning in the chunks.
abbrev pub HasSaid : {W : Type 0} → Text → Text → Outcome W → Type 0
HasSaid text reasoning (ok r, s) =
    (sent_reasoning s.emitted ≡ reasoning)
    × (((text ≢ []) × (sent_text s.emitted ≡ text))
        ⊎ ((text ≡ []) × (sent_text s.emitted ≡ r.content)))
HasSaid text reasoning (err f, s) =
    (sent_reasoning s.emitted ≡ reasoning) × (sent_text s.emitted ≡ text)

module _ {W : Type 0} (x y : Text) (rt : Runtime W) (input : ExecuteLlmInput)
    (tools : List Tool) where
  final_by_case :
      (r : LlmResult) (b : Bool) (m : Text) (p q : Bool) (es : List StreamEvent) (w : W)
      → HasSent x y (emission b m p q es w)
      → HasSaid x y (ok r, finalize_assistant_text input.message_id r (emission b m p q es w))
  unfolding finalize_assistant_text open_text_msg close_text_msg
  final_by_case r true m p q es w h = elim h.2 [
    | inl o ↦ (h.1, inl (o.1, h.0))
    | inr o ↦ let e = o.0 in cc
  ]
  final_by_case r false m p q es w h = elim h.2 [
    | inl o ↦ let e = o.0 in cc
    | inr o ↦ (h.1, inr (o.1, ap (λ t. t ++ r.content) (h.0 ∙ o.1)))
  ]

  finish-HasSaid :
      (r : Result Failure LlmResult) (s : Emission W)
      → HasSent x y s
      → HasSaid x y (finish input.message_id r s)
  unfolding finish
  finish-HasSaid (ok r) s h =
      final_by_case r s.text_msg_open s.reasoning_mid s.reasoning_phase_open s.reasoning_msg_open
        s.emitted s.world h
  finish-HasSaid (err f) s h = (h.1, h.0)

  after_hooks-HasSaid :
      (s : Emission W) (r : Result Failure LlmResponse × W)
      → HasSent x y s
      → HasSaid x y (after_hooks rt input tools s r)
  unfolding after_hooks
  after_hooks-HasSaid s (ok resp, w) h =
      finish-HasSaid (llm_response_to_result rt.config resp tools) (in_world w s) h
  after_hooks-HasSaid s (err f, w) h = (h.1, h.0)

  end_of_stream-HasSaid :
      (e : Option Failure) (final : Option LlmResponse) (s : Emission W)
      → HasSent x y s
      → HasSaid x y (end_of_stream rt input tools e final s)
  unfolding end_of_stream
  end_of_stream-HasSaid (some f) final s h = (h.1, h.0)
  end_of_stream-HasSaid none none s h = (h.1, h.0)
  end_of_stream-HasSaid none (some resp) s h =
      after_hooks-HasSaid s (run_after_llm_response rt input resp s.world) h

-- When the hooks let a request through and the client answers it with a stream, what is sent is what
-- the chunks hold: joined in order, the reasoning events are all thinking deltas and the text events
-- all content deltas; where there is no content at all, a successful call sends the text of the
-- result instead.
pub execute_llm_stream-HasSaid :
    {W : Type 0} (rt : Runtime W) (input : ExecuteLlmInput) (tools : List Tool) (w v u : W)
    (req : LlmRequest) (stream : LlmStream)
    → request_of rt input tools w ≡ (ok req, v)
    → rt.client.is_stream_supported ≡ true
    → rt.client.generate_stream req v ≡ (ok stream, u)
    → HasSaid
        (content_of stream.chunks)
        (thinking_of stream.chunks)
        (execute_llm_stream rt input tools w)
unfolding execute_llm_stream after_stream
execute_llm_stream-HasSaid rt input tools w v u req stream p q r =
    rw (p, q, r)
      (end_of_stream-HasSaid (content_of stream.chunks) (thinking_of stream.chunks) rt input tools
        stream.failure stream.final _
        (flush_reasoning-HasSent input.message_id (content_of stream.chunks)
          (thinking_of stream.chunks) (run_chunks rt input.message_id stream.chunks (fresh u))
          (run_chunks-HasSent input.message_id [] [] rt stream.chunks (fresh u)
            (refl, refl, inr (refl, refl)))))
