-- ===== src/EventStore/Written.antt =====
-- crates/event-store/src/store.rs and commands.rs: the tables after any appends and commands.
use zmodbit.Prelude.{
  ◌≡◌, subst, List, [], ◌∷◌, Text, Map, get, push, Result, ok, err, Result-cases, Option-cases, inl,
  inr,
}
use zmodbit.Domain.Commands.{Command}
use zmodbit.EventStore.Envelope.{EventEnvelope, External, Fresh}
use zmodbit.EventStore.Tables.{Store, LogEntry, project}
use zmodbit.EventStore.Append.{StoreError, insert_event, append}
use zmodbit.EventStore.Reads.{
  Reason, Outcome, storage, applied, replayed, rejected, rejected_before,
}
use zmodbit.EventStore.Plan.{plan}
use zmodbit.EventStore.Commands.{
  insert_all, check_continuity, append_planned, plan_and_append, outcome_of, execute,
}
use zmodbit.EventStore.Rounds.{insert_event-ok}
use zmodbit.EventStore.Projected.{project_all-frame}
use zmodbit.EventStore.Built.{cleared, IsBuilt, IsBuilt-project, append-IsBuilt}

-- A write of a client: an append, or a command with the identifiers and the time that it takes.
pub data Write : Type 0 where
  appends : (es : List EventEnvelope) → Write
  executes : (fresh : Fresh) (c : Command) → Write

-- An append that fails drops its transaction.
abbrev pub kept : Store → Result StoreError Store → Store
kept s (ok t) = t
kept s (err f) = s

abbrev pub IsStored : Result Reason (List Text) → Type 0
IsStored (ok ids) = Unit
IsStored (err (storage f)) = ⊥
IsStored (err _) = Unit

-- The command was not rejected with an error of the store.
abbrev pub HasStored : Outcome → Type 0
HasStored (applied ids) = Unit
HasStored (replayed ids) = Unit
HasStored (rejected r) = IsStored (err r)
HasStored rejected_before = Unit

module _ (x : External) where
  abbrev pub run_write : Write → Store → Store
  run_write (appends es) s = kept s (append x es s)
  run_write (executes fresh c) s = (execute x fresh c s).1

  abbrev pub run_writes : List Write → Store → Store
  run_writes [] s = s
  run_writes (w ∷ ws) s = run_writes ws (run_write w s)

  -- No command on the way is rejected with an error of the store.
  abbrev pub AreStored : List Write → Store → Type 0
  AreStored [] s = Unit
  AreStored (appends es ∷ ws) s = AreStored ws (run_write (appends es) s)
  AreStored (executes fresh c ∷ ws) s =
      HasStored (execute x fresh c s).0 × AreStored ws (run_write (executes fresh c) s)

  insert_all-IsBuilt :
      (fresh : Fresh) (es : List EventEnvelope) (ids : List Text) (s : Store)
      → IsBuilt s
      → IsStored (insert_all x fresh es ids s).0
      → IsBuilt (insert_all x fresh es ids s).1
  unfolding insert_all
  insert_all-IsBuilt fresh [] ids s b h = b
  insert_all-IsBuilt fresh (e ∷ es) ids s b h = elim (Result-cases (insert_event x e s)) [
    | inr (f, q) ↦ absurd (rw (insert_all, q) at h)
    | inl (t, q) ↦ elim (Result-cases (project e t)) [
      | inr (f, p) ↦ absurd (rw (insert_all, q, p) at h)
      | inl (u, p) ↦
          let row = insert_event-ok x e s t q in
          let built = IsBuilt-project e s u b (subst (λ v. project e v ≡ ok u) row p) in
          rw (insert_all, q, p)
            (insert_all-IsBuilt fresh es (push ids e.event_id) u built (rw (insert_all, q, p) at h))
    ]
  ]

  append_planned-IsBuilt :
      (fresh : Fresh) (s : Store) (planned : Result Reason (List EventEnvelope))
      → IsBuilt s
      → IsStored (append_planned x fresh s planned).0
      → IsBuilt (append_planned x fresh s planned).1
  unfolding append_planned
  append_planned-IsBuilt fresh s (err r) b h = b
  append_planned-IsBuilt fresh s (ok es) b h =
      elim (Result-cases (check_continuity x fresh s.events [] es)) [
        | inr (f, q) ↦ rw (append_planned, q) b
        | inl (u, q) ↦
            rw (append_planned, q)
              (insert_all-IsBuilt fresh es [] s b (rw (append_planned, q) at h))
      ]

  -- The command log is no part of the projection.
  logged-IsBuilt :
      (s : Store) (log : Map LogEntry) → IsBuilt s → IsBuilt (record s { command_log = log })
  logged-IsBuilt s log b = project_all-frame s.events s.events log (cleared s) s b

  IsStored-outcome : (r : Result Reason (List Text)) → HasStored (outcome_of r) → IsStored r
  IsStored-outcome (ok ids) h = tt
  IsStored-outcome (err r) h = h

  execute-IsBuilt :
      (fresh : Fresh) (c : Command) (s : Store)
      → IsBuilt s
      → HasStored (execute x fresh c s).0
      → IsBuilt (execute x fresh c s).1
  unfolding execute plan_and_append
  execute-IsBuilt fresh c s b h = elim (Option-cases (get c.command_id s.command_log)) [
    | inr (entry, q) ↦ rw (execute, q) b
    | inl q ↦
        let planned = plan x fresh s.events c.payload in
        let stored = IsStored-outcome (append_planned x fresh s planned).0 (rw (execute, q) at h) in
        rw (execute, q)
          (logged-IsBuilt (append_planned x fresh s planned).1 _
            (append_planned-IsBuilt fresh s planned b stored))
  ]

  append-kept : (es : List EventEnvelope) (s : Store) → IsBuilt s → IsBuilt (kept s (append x es s))
  append-kept es s b = elim (Result-cases (append x es s)) [
    | inr (f, q) ↦ rw (q) b
    | inl (t, q) ↦ rw (q) (append-IsBuilt x es s t b q)
  ]

  -- Over any appends, successful or not, and any commands of which none is rejected with an error of the store, the
  -- tables stay the projection of the whole log.
  pub run_writes-IsBuilt :
      (ws : List Write) (s : Store) → IsBuilt s → AreStored ws s → IsBuilt (run_writes ws s)
  run_writes-IsBuilt [] s b h = b
  run_writes-IsBuilt (appends es ∷ ws) s b h =
      run_writes-IsBuilt ws (run_write (appends es) s) (append-kept es s b) h
  run_writes-IsBuilt (executes fresh c ∷ ws) s b (h, hs) =
      run_writes-IsBuilt ws (run_write (executes fresh c) s) (execute-IsBuilt fresh c s b h) hs
