-- ===== src/Streaming/Responses/Lifecycle/Prelude.antt =====
-- The first two events of a stream.
use plano.Prelude.{
  ℕ, ◌+◌, Bool, true, false, Option, none, some, List, [], ◌∷◌, ◌++◌, append-nil, ◌≡◌, ◌∙◌, refl,
  arith, Bool-cases, inl, inr, String,
}
use plano.Streaming.ResponsesApi.{
  ResponseStatus, ResponsesApiResponse, ResponsesApiStreamEvent, response_created,
  response_in_progress,
}
use plano.Streaming.Responses.{
  Outside, ResponsesApiStreamBuffer, Work, emit, emit_created, emit_in_progress, emit_prelude,
  with_identity, build_response,
}
use plano.Streaming.Responses.Finalize.{begin}
use plano.Streaming.Responses.Lifecycle.{Stream, unopened, opened, numbered, closed}
use plano.Streaming.Responses.Lifecycle.Steps.{Continues}

-- An unopened stream is empty.
Stream-unopened :
    {n : ℕ} {is_opened is_closed : Bool} {events : List ResponsesApiStreamEvent}
    → Stream n is_opened is_closed events
    → is_opened ≡ false
    → (n ≡ 0) × (is_closed ≡ false) × (events ≡ [])
Stream-unopened unopened h = (refl, refl, refl)
Stream-unopened (opened a b) h = absurd (ground (arith, h))
Stream-unopened (numbered s e k m l) h = absurd (ground (arith, h))
Stream-unopened (closed s r m l) h = absurd (ground (arith, h))

with_identity_kept :
    (o : Outside) (id : Option String) (b : ResponsesApiStreamBuffer)
    → ((with_identity o id b).sequence_number ≡ b.sequence_number)
      × ((with_identity o id b).in_progress_emitted ≡ b.in_progress_emitted)
      × ((with_identity o id b).finalized ≡ b.finalized)
      × ((with_identity o id b).buffered_events ≡ b.buffered_events)
with_identity_kept o (some id) b = (refl, refl, refl, refl)
with_identity_kept o none b = (refl, refl, refl, refl)

-- The two steps, by their flags.
module _ (o : Outside) (w : Work) where
  emit_created_old : w.buffer.created_emitted ≡ true → emit_created o w ≡ w
  unfolding emit_created
  emit_created_old h = simp h

  emit_in_progress_old : w.buffer.in_progress_emitted ≡ true → emit_in_progress o w ≡ w
  unfolding emit_in_progress
  emit_in_progress_old h = simp h

  identified : ResponsesApiStreamBuffer
  identified = with_identity o w.buffer.response_id w.buffer

  created_work : Work
  unfolding identified
  created_work =
      let w' =
        emit (response_created (build_response ResponseStatus.in_progress identified))
          (record w { buffer = identified }) in
      record w' { buffer = record w'.buffer { created_emitted = true } }

  emit_created_new : w.buffer.created_emitted ≡ false → emit_created o w ≡ created_work
  unfolding emit_created created_work
  emit_created_new h = simp h

  in_progress_work : Work
  in_progress_work =
      let w' = emit (response_in_progress (build_response ResponseStatus.in_progress w.buffer)) w in
      record w' { buffer = record w'.buffer { in_progress_emitted = true } }

  emit_in_progress_new :
      w.buffer.in_progress_emitted ≡ false → emit_in_progress o w ≡ in_progress_work
  unfolding emit_in_progress in_progress_work
  emit_in_progress_new h = simp h

created_work-in_progress :
    (o : Outside) (b : ResponsesApiStreamBuffer)
    → b.in_progress_emitted ≡ false
    → (created_work o (begin o b)).buffer.in_progress_emitted ≡ false
unfolding created_work emit
created_work-in_progress o b h =
    let (same_number, same_progress, same_final, same_unsent) =
      with_identity_kept o b.response_id b in
    same_progress ∙ h

opening :
    {n : ℕ} {is_closed : Bool} {before : List ResponsesApiStreamEvent}
    (first second : ResponsesApiResponse)
    → n ≡ 0
    → is_closed ≡ false
    → before ≡ []
    → Stream
        (n + 1 + 1)
        true
        is_closed
        (before ++ response_created first n ∷ response_in_progress second (n + 1) ∷ [])
opening first second zero_number not_closed nothing =
    rw (zero_number, not_closed, nothing) (opened first second)

module _ (o : Outside) {before : List ResponsesApiStreamEvent} {is_closed : Bool} where
  opened_work-Continues :
      (b : ResponsesApiStreamBuffer)
      → Stream b.sequence_number b.created_emitted is_closed before
      → b.created_emitted ≡ false
      → Continues before is_closed b.finalized b.buffered_events
          (in_progress_work o (created_work o (begin o b)))
  unfolding in_progress_work created_work emit
  opened_work-Continues b s new =
      let (zero_number, not_closed, nothing) = Stream-unopened s new in
      let (same_number, same_progress, same_final, same_unsent) =
        with_identity_kept o b.response_id b in
      record {
        stream = opening _ _ (same_number ∙ zero_number) not_closed nothing;
        created = refl;
        in_progress = refl;
        final = same_final;
        unsent = same_unsent;
      }

  pub emit_prelude-Continues :
      (b : ResponsesApiStreamBuffer)
      → Stream b.sequence_number b.created_emitted is_closed before
      → b.in_progress_emitted ≡ b.created_emitted
      → Continues before is_closed b.finalized b.buffered_events (emit_prelude o (begin o b))
  unfolding emit_prelude
  emit_prelude-Continues b s together = elim (Bool-cases b.created_emitted) [
    | inl old ↦
        rw (emit_created_old o (begin o b) old, emit_in_progress_old o (begin o b) (together ∙ old))
          (record {
            stream = rw (append-nil before, ← old) s;
            created = old;
            in_progress = together ∙ old;
            final = refl;
            unsent = refl;
          })
    | inr new ↦
        rw
          (
            emit_created_new o (begin o b) new,
            emit_in_progress_new o (created_work o (begin o b))
                (created_work-in_progress o b (together ∙ new)),
          )
          (opened_work-Continues b s new)
  ]
