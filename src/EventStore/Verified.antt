-- ===== src/EventStore/Verified.antt =====
-- crates/event-store/src/store.rs: the streams that `verify_stream` accepts.
use zmodbit.Prelude.{
  ◌≡◌, refl, sym, ap, ◌∙◌, none, some, All-map, subst, true, List, [], ◌∷◌, ℕ, suc, Text, All,
  All-push, All-retain, Map, ok, Result-cases, inl, inr, arith,
}
use zmodbit.EventStore.Envelope.{EventEnvelope, External, verify_integrity}
use zmodbit.EventStore.Tables.{Store}
use zmodbit.EventStore.Append.{
  of_aggregate, load_stream, insert_event, append_one, append_loop, append,
}
use zmodbit.EventStore.Rebuild.{RowReader, with_ids, reconstruct_envelope}
use zmodbit.EventStore.Rebuilt.{IsTyped, reconstruct_envelope-with_ids}
use zmodbit.EventStore.Written.{kept}
use zmodbit.Domain.Events.{AggregateType, session, task, run, turn, run_step}
use zmodbit.EventStore.Numbering.{IsGapless, Numbered, by_sequence-Numbered}
use zmodbit.EventStore.Rounds.{append_one-Round}
use zmodbit.EventStore.Streams.{append-IsGapless}
use zmodbit.EventStore.Verify.{reconstruct_all, load, verify_loop, verify_stream}

module _ (x : External) where
  abbrev pub IsSealed : EventEnvelope → Type 0
  IsSealed e = verify_integrity x e ≡ true

  insert_event-IsSealed : (e : EventEnvelope) (s t : Store) → insert_event x e s ≡ ok t → IsSealed e
  unfolding insert_event
  insert_event-IsSealed e s t h = ground arith

  append_one-IsSealed :
      (seqs : Map ℕ) (e : EventEnvelope) (s : Store) (r : Map ℕ × Store)
      → append_one x seqs e s ≡ ok r
      → IsSealed e
  unfolding append_one
  append_one-IsSealed seqs e s r h = elim (Result-cases (insert_event x e s)) [
    | inr (f, q) ↦ absurd (ground arith)
    | inl (t, q) ↦ insert_event-IsSealed e s t q
  ]

  append_loop-IsSealed :
      (seqs : Map ℕ) (es : List EventEnvelope) (s t : Store)
      → All IsSealed s.events
      → append_loop x seqs es s ≡ ok t
      → All IsSealed t.events
  unfolding append_loop
  append_loop-IsSealed seqs [] s t a h =
      subst (λ u. All IsSealed u.events) {x = s} {y = t} (ground arith) a
  append_loop-IsSealed seqs (e ∷ es) s t a h = elim (Result-cases (append_one x seqs e s)) [
    | inr (f, q) ↦ absurd (ground arith)
    | inl ((seqs', s'), q) ↦
        let (_, pushed, _) = append_one-Round x seqs e s (seqs', s') q in
        let kept = All-push IsSealed s.events e a (append_one-IsSealed seqs e s (seqs', s') q) in
        append_loop-IsSealed seqs' es s' t (rw (pushed) kept) (ground arith)
  ]

  -- Every row of a log that the appends made carries its own hash.
  pub append-IsSealed :
      (es : List EventEnvelope) (s t : Store)
      → All IsSealed s.events
      → append x es s ≡ ok t
      → All IsSealed t.events
  unfolding append
  append-IsSealed es s t a h = append_loop-IsSealed [] es s t a h

  module _ (row : RowReader) where
    -- The row gives the envelope that was stored.
    abbrev pub IsCanonical : EventEnvelope → Type 0
    IsCanonical e = reconstruct_envelope row e ≡ ok e

    reconstruct_all-IsCanonical :
        (es : List EventEnvelope) → All IsCanonical es → reconstruct_all x row es ≡ ok es
    reconstruct_all-IsCanonical [] h = refl
    reconstruct_all-IsCanonical (e ∷ es) h = rw (h.0, reconstruct_all-IsCanonical es h.1) refl

    verify_loop-Numbered :
        (id : Text) (next : ℕ) (es : List EventEnvelope)
        → Numbered next es
        → All IsSealed es
        → verify_loop x row id next es ≡ ok tt
    verify_loop-Numbered id next [] n a = refl
    verify_loop-Numbered id next (e ∷ es) n a =
        ground (arith, verify_loop-Numbered id (suc next) es n.1 a.1)

    stored-verify_stream :
        (t : Store) (id : Text)
        → IsGapless t.events
        → All IsSealed t.events
        → All IsCanonical t.events
        → verify_stream x row t.events id ≡ ok tt
    unfolding verify_stream load load_stream
    stored-verify_stream t id n a c =
        let sealed = All-retain IsSealed _ t.events a in
        let stream =
          reconstruct_all-IsCanonical (of_aggregate id t.events)
            (All-retain IsCanonical _ t.events c) in
        rw (by_sequence-Numbered 1 (of_aggregate id t.events) (n id), stream)
          (verify_loop-Numbered id 1 (of_aggregate id t.events) (n id) sealed)

    -- A log whose streams are gapless, whose rows carry their hashes and give their envelopes back
    -- verifies after every committed append.
    pub append-verify_stream :
        (es : List EventEnvelope) (s t : Store) (id : Text)
        → IsGapless s.events
        → All IsSealed s.events
        → append x es s ≡ ok t
        → All IsCanonical t.events
        → verify_stream x row t.events id ≡ ok tt
    append-verify_stream es s t id g a h c =
        stored-verify_stream t id (append-IsGapless x es s t g h).0 (append-IsSealed es s t a h) c

    -- The typed ids of an envelope are those of its aggregate.
    abbrev pub own_ids : EventEnvelope → AggregateType → EventEnvelope
    own_ids e session = record e { task_id = none; run_id = none; turn_id = none; step_id = none }
    own_ids e task = record e {
      task_id = some e.aggregate_id;
      run_id = none;
      turn_id = none;
      step_id = none;
    }
    own_ids e run = record e {
      task_id = none;
      run_id = some e.aggregate_id;
      turn_id = none;
      step_id = none;
    }
    own_ids e turn = record e {
      task_id = none;
      run_id = none;
      turn_id = some e.aggregate_id;
      step_id = none;
    }
    own_ids e run_step = record e {
      task_id = none;
      run_id = none;
      turn_id = none;
      step_id = some e.aggregate_id;
    }

    -- The row has UUIDs, a payload that decodes to what was stored, and the typed ids of its aggregate.
    abbrev pub IsReadable : EventEnvelope → Type 0
    IsReadable e = IsTyped row e × (own_ids e e.aggregate_type ≡ e)

    with_ids-own_ids :
        (e : EventEnvelope) (t : AggregateType)
        → row.parse_id e.aggregate_id ≡ some e.aggregate_id
        → with_ids row e t ≡ ok (own_ids e t)
    with_ids-own_ids e session h = refl
    with_ids-own_ids e task h = rw (h) refl
    with_ids-own_ids e run h = rw (h) refl
    with_ids-own_ids e turn h = rw (h) refl
    with_ids-own_ids e run_step h = rw (h) refl

    IsReadable-IsCanonical : (e : EventEnvelope) → IsReadable e → IsCanonical e
    IsReadable-IsCanonical e (typed, own) =
        reconstruct_envelope-with_ids row e typed
        ∙ with_ids-own_ids e e.aggregate_type typed.1
        ∙ ap (λ d. ok d) own

    -- What a list of appends leaves; one that fails drops its transaction.
    abbrev pub run_appends : List (List EventEnvelope) → Store → Store
    run_appends [] s = s
    run_appends (es ∷ ess) s = run_appends ess (kept s (append x es s))

    -- The log is gapless and its rows carry their hashes.
    abbrev IsSound : Store → Type 0
    IsSound s = IsGapless s.events × All IsSealed s.events

    append-IsSound :
        (es : List EventEnvelope) (s : Store) → IsSound s → IsSound (kept s (append x es s))
    append-IsSound es s (g, a) = elim (Result-cases (append x es s)) [
      | inr (f, q) ↦ subst (λ r. IsSound (kept s r)) (sym q) (g, a)
      | inl (t, q) ↦
          subst (λ r. IsSound (kept s r)) (sym q)
            ((append-IsGapless x es s t g q).0, append-IsSealed es s t a q)
    ]

    run_appends-IsSound :
        (ess : List (List EventEnvelope)) (s : Store) → IsSound s → IsSound (run_appends ess s)
    run_appends-IsSound [] s h = h
    run_appends-IsSound (es ∷ ess) s h =
        run_appends-IsSound ess (kept s (append x es s)) (append-IsSound es s h)

    -- After any appends to an empty log, every stream verifies when the rows of the log are readable.
    pub run_appends-verify_stream :
        (ess : List (List EventEnvelope)) (s : Store) (id : Text)
        → s.events ≡ []
        → All IsReadable (run_appends ess s).events
        → verify_stream x row (run_appends ess s).events id ≡ ok tt
    run_appends-verify_stream ess s id new readable =
        let start : IsSound s = rw (new) (λ id. tt, tt) in
        let (g, a) = run_appends-IsSound ess s start in
        stored-verify_stream (run_appends ess s) id g a (
          All-map IsReadable IsCanonical IsReadable-IsCanonical (run_appends ess s).events readable)
