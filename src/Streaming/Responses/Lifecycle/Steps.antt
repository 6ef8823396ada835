-- ===== src/Streaming/Responses/Lifecycle/Steps.antt =====
-- The parts of the buffer's methods continue a stream.
use plano.Prelude.{
  ℕ, Bool, true, false, Option, none, some, List, [], ◌∷◌, ◌++◌, append_assoc, String, ◌≡◌, ◌∙◌,
  refl, sym, get, number_key, string_key, Option-cases, inl, inr,
}
use plano.Streaming.ResponsesApi.{ResponsesApiStreamEvent}
use plano.State.Outputs.{OutputItem}
use plano.Streaming.Sse.{SseEvent}
use plano.Streaming.Responses.{
  Outside, ResponsesApiStreamBuffer, Work, emit, get_or_create_item_id, with_metadata, add_item,
  on_text_delta, on_arguments_delta,
}
use plano.Streaming.Responses.Finalize.{text_done, arguments_done, emit_completed}
use plano.Streaming.Responses.Lifecycle.{Stream, numbered, closed, number_of}

-- A method's work that continues the events before it to an opened stream.
pub record Continues (before : List ResponsesApiStreamEvent) (is_closed is_final : Bool)
    (waiting : List SseEvent) (w : Work) : Type 0 where
  pub stream : Stream w.buffer.sequence_number true is_closed (before ++ w.events)
  pub created : w.buffer.created_emitted ≡ true
  pub in_progress : w.buffer.in_progress_emitted ≡ true
  pub final : w.buffer.finalized ≡ is_final
  pub unsent : w.buffer.buffered_events ≡ waiting

-- The fields of the buffer that a stream depends on are the same.
abbrev Alike : ResponsesApiStreamBuffer → ResponsesApiStreamBuffer → Type 0
Alike b b' =
    (b.sequence_number ≡ b'.sequence_number)
    × (b.created_emitted ≡ b'.created_emitted)
    × (b.in_progress_emitted ≡ b'.in_progress_emitted)
    × (b.finalized ≡ b'.finalized)
    × (b.buffered_events ≡ b'.buffered_events)

get_or_create_item_id-Alike :
    (o : Outside) (output_index : ℕ) (prefix : String) (b : ResponsesApiStreamBuffer)
    → Alike b (get_or_create_item_id o output_index prefix b)
unfolding get_or_create_item_id
get_or_create_item_id-Alike o output_index prefix b =
    elim (Option-cases (get b.item_ids output_index)) [
      | inl e ↦ rw e (refl, refl, refl, refl, refl)
      | inr (id, e) ↦ rw e (refl, refl, refl, refl, refl)
    ]

with_metadata-Alike :
    (o : Outside) (call_id name : Option String) (output_index : ℕ) (b : ResponsesApiStreamBuffer)
    → Alike b (with_metadata o call_id name output_index b)
with_metadata-Alike o (some c) (some n) output_index b = (refl, refl, refl, refl, refl)
with_metadata-Alike o (some c) none output_index b = (refl, refl, refl, refl, refl)
with_metadata-Alike o none name output_index b = (refl, refl, refl, refl, refl)

module _ {before : List ResponsesApiStreamEvent} {is_closed is_final : Bool}
    {waiting : List SseEvent} where
  with_buffer-Continues :
      (w : Work) (b : ResponsesApiStreamBuffer)
      → Alike w.buffer b
      → Continues before is_closed is_final waiting w
      → Continues before is_closed is_final waiting (record w { buffer = b })
  with_buffer-Continues w b (n, created, progress, final, unsent) c = record {
    stream = rw (← n) c.stream;
    created = sym created ∙ c.created;
    in_progress = sym progress ∙ c.in_progress;
    final = sym final ∙ c.final;
    unsent = sym unsent ∙ c.unsent;
  }

  emit-Continues :
      (event : ℕ → ResponsesApiStreamEvent) (w : Work)
      → ((n : ℕ) → number_of (event n) ≡ some n)
      → Continues before is_closed is_final waiting w
      → Continues before is_closed is_final waiting (emit event w)
  unfolding emit
  emit-Continues event w h c = record {
    stream =
        numbered c.stream (event w.buffer.sequence_number) (h w.buffer.sequence_number) refl
          (sym (append_assoc before w.events (event w.buffer.sequence_number ∷ [])));
    created = c.created;
    in_progress = c.in_progress;
    final = c.final;
    unsent = c.unsent;
  }

  add_item-Continues :
      (o : Outside) (old : Option String) (output_index : ℕ) (item_id : String) (item : OutputItem)
      (w : Work)
      → Continues before is_closed is_final waiting w
      → Continues before is_closed is_final waiting (add_item o old output_index item_id item w)
  add_item-Continues o (some old) output_index item_id item w c = c
  add_item-Continues o none output_index item_id item w c =
      emit-Continues _ _ (λ n. refl) (with_buffer-Continues w _ (refl, refl, refl, refl, refl) c)

  pub on_text_delta-Continues :
      (o : Outside) (output_index content_index : ℕ) (delta : String) (logprobs : List String)
      (obfuscation : Option String) (w : Work)
      → Continues before is_closed is_final waiting w
      → Continues before is_closed is_final waiting
          (on_text_delta o output_index content_index delta logprobs obfuscation w)
  unfolding on_text_delta
  on_text_delta-Continues o output_index content_index delta logprobs obfuscation w c =
      emit-Continues _ _ (λ n. refl)
        (with_buffer-Continues _ _ (refl, refl, refl, refl, refl)
          (add_item-Continues o _ output_index _ _ _ (
            with_buffer-Continues w _ (get_or_create_item_id-Alike o output_index "msg" w.buffer)
              c)))

  pub on_arguments_delta-Continues :
      (o : Outside) (output_index : ℕ) (delta : String) (call_id name : Option String) (w : Work)
      → Continues before is_closed is_final waiting w
      → Continues before is_closed is_final waiting
          (on_arguments_delta o output_index delta call_id name w)
  unfolding on_arguments_delta
  on_arguments_delta-Continues o output_index delta call_id name w c =
      let with_id =
        with_buffer-Continues w _ (get_or_create_item_id-Alike o output_index "fc" w.buffer) c in
      emit-Continues _ _ (λ n. refl)
        (with_buffer-Continues _ _ (refl, refl, refl, refl, refl)
          (add_item-Continues o _ output_index _ _ _ (
            with_buffer-Continues
              (record w { buffer = get_or_create_item_id o output_index "fc" w.buffer }) _
              (with_metadata-Alike o call_id name output_index _) with_id)))

  pub text_done-Continues :
      (o : Outside) (items : List (String × String)) (w : Work)
      → Continues before is_closed is_final waiting w
      → Continues before is_closed is_final waiting (text_done o items w)
  unfolding text_done
  text_done-Continues o [] w c = c
  text_done-Continues o ((item_id, content) ∷ items) w c =
      text_done-Continues o items _
        (emit-Continues _ _ (λ n. refl) (emit-Continues _ w (λ n. refl) c))

  pub arguments_done-Continues :
      (o : Outside) (items : List (String × String)) (w : Work)
      → Continues before is_closed is_final waiting w
      → Continues before is_closed is_final waiting (arguments_done o items w)
  unfolding arguments_done
  arguments_done-Continues o [] w c = c
  arguments_done-Continues o ((item_id, arguments) ∷ items) w c =
      arguments_done-Continues o items _
        (emit-Continues _ _ (λ n. refl) (emit-Continues _ w (λ n. refl) c))

pub emit_completed-Continues :
    (o : Outside) {before : List ResponsesApiStreamEvent} {is_final : Bool}
    {waiting : List SseEvent} (w : Work)
    → Continues before false is_final waiting w
    → Continues before true is_final waiting (emit_completed o w)
unfolding emit_completed emit
emit_completed-Continues o {before} w c = record {
  stream = closed c.stream _ refl (sym (append_assoc before w.events _));
  created = c.created;
  in_progress = c.in_progress;
  final = c.final;
  unsent = c.unsent;
}
