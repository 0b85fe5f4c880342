-- ===== src/EventStore/Leaks.antt =====
-- crates/event-store/src/commands.rs: a rejected command whose event stays in the log, since the transaction is
-- committed after the error.
use zmodbit.Prelude.{
  ◌≡◌, refl, ℕ, suc, ◌≤◌, ap, ◌∙◌, true, false, none, some, List, [], ◌∷◌, map, Text, Result, ok,
  err, arith, any, length, ◌+◌, get, push, text_eq, ◌==◌,
}
use zmodbit.Domain.Events.{InputMode, task_input_queued}
use zmodbit.Domain.Task.{TaskState, fold_task}
use zmodbit.Domain.InputQueue.{input_effect, queued_after_current}
use zmodbit.Domain.Commands.{Command, queue_task_input}
use zmodbit.EventStore.Envelope.{
  EventEnvelope, External, Fresh, seal, envelope_for, verify_integrity, verify_integrity-seal,
}
use zmodbit.EventStore.Tables.{SqlError, Store, project, duplicate_input}
use zmodbit.EventStore.Append.{
  load_stream, insert_event, sqlite, of_aggregate, next_sequence, breaks_key, breaks_unique,
}
use zmodbit.EventStore.Numbering.{
  IsGapless, Numbered, next_sequence-IsGapless, by_sequence-Numbered,
}
use zmodbit.EventStore.Reads.{load_task_events, task_session, Reason, rejected, storage}
use zmodbit.EventStore.Plan.{plan}
use zmodbit.EventStore.Commands.{append_planned, plan_and_append, execute, run_new}
use zmodbit.EventStore.Replay.{execute-new}
use zmodbit.EventStore.Hazards.{first_session_of_folded, plan_input-ok, input_event}

unique_Numbered :
    (k n : ℕ) (l : List EventEnvelope)
    → Numbered k l
    → k + length l ≤ n
    → any (λ d. d.sequence == n) l ≡ false
unique_Numbered k n [] h le = refl
unique_Numbered k n (d ∷ ds) h le = ground (arith, unique_Numbered (suc k) n ds h.1 (omega arith))

breaks_unique-of_aggregate :
    (e : EventEnvelope) (l : List EventEnvelope)
    → any (breaks_unique e) l ≡ any (λ d. d.sequence == e.sequence) (of_aggregate e.aggregate_id l)
breaks_unique-of_aggregate e [] = refl
breaks_unique-of_aggregate e (d ∷ ds) = ground (arith, breaks_unique-of_aggregate e ds)

-- The number after the last one is free in a numbered stream.
next_sequence_free :
    (e : EventEnvelope) (l : List EventEnvelope)
    → IsGapless l
    → e.sequence ≡ next_sequence l e.aggregate_id
    → any (breaks_unique e) l ≡ false
next_sequence_free e l g h =
    breaks_unique-of_aggregate e l
    ∙ unique_Numbered 1 e.sequence (of_aggregate e.aggregate_id l) (g e.aggregate_id)
        (omega (arith, next_sequence-IsGapless l e.aggregate_id g))

length-map {ℓ κ} : {A : Type ℓ} {B : Type κ} (f : A → B) (l : List A) → length (map f l) ≡ length l
length-map f [] = refl
length-map f (a ∷ l) = omega (arith, length-map f l)

next_sequence_history :
    (l : List EventEnvelope) (id : Text)
    → IsGapless l
    → length (load_task_events l id) + 1 ≡ next_sequence l id
unfolding load_stream
next_sequence_history l id g = omega (
  arith,
  length-map (λ (e : EventEnvelope). e.payload) (load_stream l id),
  ap length (by_sequence-Numbered 1 (of_aggregate id l) (g id)),
  next_sequence-IsGapless l id g,
)

insert_event_free :
    (x : External) (e : EventEnvelope) (st : Store)
    → any (breaks_key e) st.events ≡ false
    → any (breaks_unique e) st.events ≡ false
    → verify_integrity x e ≡ true
    → insert_event x e st ≡ ok (record st { events = push st.events e })
unfolding insert_event
insert_event_free x e st key unique sealed = rw (sealed, key, unique, insert_event)

-- The one event is in order and free to be inserted, and its projection fails: the run ends with the error and keeps
-- the row.
append_planned_leak :
    (x : External) (f : Fresh) (e : EventEnvelope) (st : Store) (r : SqlError)
    → IsGapless st.events
    → e.sequence ≡ next_sequence st.events e.aggregate_id
    → any (breaks_key e) st.events ≡ false
    → verify_integrity x e ≡ true
    → project e (record st { events = push st.events e }) ≡ err r
    → append_planned x f st (ok (e ∷ []))
      ≡ (err (storage (sqlite r)), record st { events = push st.events e })
unfolding append_planned get
append_planned_leak x f e st r g num key sealed bad =
    ground (arith, num, insert_event_free x e st key (next_sequence_free e st.events g num) sealed)

module _ (x : External) (f : Fresh) (c : Command) (st : Store) (id i t sid : Text) (m : InputMode)
    (s : TaskState) where
  abbrev staged : EventEnvelope
  staged = input_event x f st.events id i t sid m

  abbrev leaked : Result Reason (List Text) × Store
  leaked = (err (storage (sqlite duplicate_input)), record st { events = push st.events staged })

  staged-append_planned :
      IsGapless st.events
      → any (λ d. text_eq d.event_id f.first_event) st.events ≡ false
      → any (λ r. text_eq r.input_id i) st.task_inputs ≡ true
      → append_planned x f st (ok (staged ∷ [])) ≡ leaked
  unfolding seal envelope_for project
  staged-append_planned gap fresh used =
      append_planned_leak x f staged st duplicate_input gap (next_sequence_history st.events id gap)
        fresh (verify_integrity-seal x _) (rw used refl)

  staged-plan :
      c.payload ≡ queue_task_input id i m t
      → fold_task (load_task_events st.events id) ≡ some (ok s)
      → input_effect s m ≡ ok queued_after_current
      → task_session st.events id ≡ ok sid
      → plan x f st.events c.payload ≡ ok (staged ∷ [])
  unfolding plan
  staged-plan pay now e sess =
      rw pay (plan_input-ok x f st.events id i t s m queued_after_current sid now e sess)

  staged-execute :
      get c.command_id st.command_log ≡ none
      → plan x f st.events c.payload ≡ ok (staged ∷ [])
      → append_planned x f st (ok (staged ∷ [])) ≡ leaked
      → execute x f c st ≡ run_new c leaked
  unfolding plan_and_append
  staged-execute new planned run =
      execute-new x f c st new ∙ ap (run_new c) (ap (append_planned x f st) planned ∙ run)

-- A collected or a follow-up input whose id was used before is rejected; its event stays in the log all the same.
pub rejected_input_stays :
    (x : External) (f : Fresh) (c : Command) (st : Store) (id i t : Text) (m : InputMode)
    (s : TaskState)
    → c.payload ≡ queue_task_input id i m t
    → get c.command_id st.command_log ≡ none
    → fold_task (load_task_events st.events id) ≡ some (ok s)
    → input_effect s m ≡ ok queued_after_current
    → IsGapless st.events
    → any (λ d. text_eq d.event_id f.first_event) st.events ≡ false
    → any (λ r. text_eq r.input_id i) st.task_inputs ≡ true
    → ((execute x f c st).0 ≡ rejected (storage (sqlite duplicate_input)))
      × ((e : EventEnvelope) × (e.payload ≡ task_input_queued i m t)
          × ((execute x f c st).1.events ≡ push st.events e))
rejected_input_stays x f c st id i t m s pay new now e gap fresh used =
    let (sid, sess) = first_session_of_folded (load_stream st.events id) s now in
    let run =
      staged-execute x f c st id i t sid m s new
        (staged-plan x f c st id i t sid m s pay now e sess)
        (staged-append_planned x f c st id i t sid m s gap fresh used) in
    (
      ap (λ p. p.0) run,
      (
        input_event x f st.events id i t sid m,
        unfold seal envelope_for in refl,
        ap (λ p. p.1.events) run,
      ),
    )
