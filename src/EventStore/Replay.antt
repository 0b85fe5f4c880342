-- ===== src/EventStore/Replay.antt =====
-- crates/event-store/src/commands.rs: idempotence of the processor, and who may complete a goal-mode task.
use zmodbit.Prelude.{
  ◌≡◌, refl, true, false, none, some, List, Text, text_eq_iff, get, insert, get-insert, Result, ok,
  err, Option-cases, inl, inr, arith, any,
}
use zmodbit.Domain.Task.{TaskState, fold_task}
use zmodbit.Domain.Commands.{Command, complete_task, target_aggregate}
use zmodbit.EventStore.Envelope.{EventEnvelope, External, Fresh}
use zmodbit.EventStore.Tables.{Store, LogEntry, LogStatus, logged_applied, logged_rejected}
use zmodbit.EventStore.Reads.{
  Reason, Outcome, applied, replayed, rejected, rejected_before, load_task_events, is_goal,
  self_certified,
}
use zmodbit.EventStore.Plan.{plan, plan_lifecycle}
use zmodbit.EventStore.Commands.{plan_and_append, execute, logged, run_new, replay}

-- What a retry of a command reports, from what the first execution reported.
abbrev pub retried : Outcome → Outcome
retried (applied ids) = replayed ids
retried (replayed ids) = replayed ids
retried (rejected r) = rejected_before
retried rejected_before = rejected_before

execute-replays :
    (x : External) (f : Fresh) (c : Command) (s : Store) (entry : LogEntry)
    → get c.command_id s.command_log ≡ some entry
    → execute x f c s ≡ (replay entry.status entry.result_event_ids, s)
unfolding execute
execute-replays x f c s entry h = rw (h, execute)

get-insert_self {ℓ} :
    {V : Type ℓ} (k : Text) (v : V) (m : List (Text × V)) → get k (insert k v m) ≡ some v
get-insert_self k v m = ground (arith, get-insert k k v m, text_eq_iff k k)

retried-replay :
    (status : LogStatus) (ids : List Text) → retried (replay status ids) ≡ replay status ids
retried-replay logged_applied ids = refl
retried-replay logged_rejected ids = refl

execute-run_new :
    (x : External) (g : Fresh) (c d : Command) (r : Result Reason (List Text) × Store)
    → d.command_id ≡ c.command_id
    → execute x g d (run_new c r).1 ≡ (retried (run_new c r).0, (run_new c r).1)
execute-run_new x g c d (ok ids, s) same =
    execute-replays x g d (run_new c (ok ids, s)).1 (logged c.payload (ok ids))
      (rw same (get-insert_self c.command_id _ s.command_log))
execute-run_new x g c d (err e, s) same =
    execute-replays x g d (run_new c (err e, s)).1 (logged c.payload (err e))
      (rw same (get-insert_self c.command_id _ s.command_log))

pub execute-new :
    (x : External) (f : Fresh) (c : Command) (s : Store)
    → get c.command_id s.command_log ≡ none
    → execute x f c s ≡ run_new c (plan_and_append x f c.payload s)
unfolding execute
execute-new x f c s h = rw (h, execute)

-- A command is executed once: executing a command of the same id again, whatever it asks for, leaves the store as
-- the first execution left it, and reports the recorded outcome.
pub execute-execute :
    (x : External) (f g : Fresh) (c d : Command) (s : Store)
    → d.command_id ≡ c.command_id
    → execute x g d (execute x f c s).1 ≡ (retried (execute x f c s).0, (execute x f c s).1)
execute-execute x f g c d s same = elim (Option-cases (get c.command_id s.command_log)) [
  | inr (entry, seen) ↦
      rw (execute-replays x f c s entry seen, retried-replay entry.status entry.result_event_ids)
        (execute-replays x g d s entry (rw same seen))
  | inl new ↦
      rw (execute-new x f c s new) (execute-run_new x g c d (plan_and_append x f c.payload s) same)
]

-- In goal mode, a completion that the host has not verified is refused in every state of the task that its stream
-- folds to.
pub unverified_completion_refused :
    (x : External) (f : Fresh) (events : List EventEnvelope) (id summary : Text) (s : TaskState)
    → any is_goal (load_task_events events id) ≡ true
    → fold_task (load_task_events events id) ≡ some (ok s)
    → plan x f events (complete_task id summary false) ≡ err self_certified
unfolding plan target_aggregate
unverified_completion_refused x f events id summary s goal now = rw (now, goal, plan_lifecycle)
