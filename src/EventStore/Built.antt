-- ===== src/EventStore/Built.antt =====
-- crates/event-store/src/store.rs and projections.rs: the tables that the appends leave, against the log.
use zmodbit.Prelude.{
  ◌≡◌, sym, ap, ◌∙◌, subst, List, [], ◌∷◌, ℕ, Map, push, ok, Result-cases, inl, inr, arith,
}
use zmodbit.EventStore.Envelope.{EventEnvelope, External}
use zmodbit.EventStore.Tables.{Store, project}
use zmodbit.EventStore.Append.{insert_event, append_one, append_loop, append}
use zmodbit.EventStore.Rounds.{insert_event-ok}
use zmodbit.EventStore.Projected.{
  frame, project-frame, project_all, project_all-frame, project_all-push,
}

-- The store with its log and without a row of the derived tables.
abbrev pub cleared : Store → Store
cleared s = record s { sessions = []; tasks = []; task_inputs = [] }

-- Projecting the whole log onto empty tables gives the tables that the store has.
abbrev pub IsBuilt : Store → Type 0
IsBuilt s = project_all s.events (cleared s) ≡ ok s

project-own_frame :
    (e : EventEnvelope) (s t : Store) → project e s ≡ ok t → frame s.events s.command_log t ≡ t
project-own_frame e s t h = ground (arith, project-frame e s.events s.command_log s)

pub IsBuilt-project :
    (e : EventEnvelope) (s u : Store)
    → IsBuilt s
    → project e (record s { events = push s.events e }) ≡ ok u
    → IsBuilt u
IsBuilt-project e s u b p =
    let t = record s { events = push s.events e } in
    let own = project-own_frame e t u p in
    let over = project_all-frame s.events t.events t.command_log (cleared s) s b in
    let whole = project_all-push s.events e (cleared t) t over ∙ p in
    subst IsBuilt own (whole ∙ ap (λ v. ok v) (sym own))

module _ (x : External) where
  IsBuilt-append_one :
      (seqs : Map ℕ) (e : EventEnvelope) (s : Store) (r : Map ℕ × Store)
      → IsBuilt s
      → append_one x seqs e s ≡ ok r
      → IsBuilt r.1
  unfolding append_one
  IsBuilt-append_one seqs e s (seqs', s') b h = elim (Result-cases (insert_event x e s)) [
    | inr (f, q) ↦ absurd (ground arith)
    | inl (t, q) ↦ elim (Result-cases (project e t)) [
      | inr (f, p) ↦ absurd (ground arith)
      | inl (u, p) ↦
          let row = insert_event-ok x e s t q in
          let built = IsBuilt-project e s u b (subst (λ v. project e v ≡ ok u) row p) in
          subst IsBuilt (ground arith) built
    ]
  ]

  IsBuilt-append_loop :
      (seqs : Map ℕ) (es : List EventEnvelope) (s t : Store)
      → IsBuilt s
      → append_loop x seqs es s ≡ ok t
      → IsBuilt t
  unfolding append_loop
  IsBuilt-append_loop seqs [] s t b h = subst IsBuilt (ground arith) b
  IsBuilt-append_loop seqs (e ∷ es) s t b h = elim (Result-cases (append_one x seqs e s)) [
    | inr (f, q) ↦ absurd (ground arith)
    | inl ((seqs', s'), q) ↦
        IsBuilt-append_loop seqs' es s' t (IsBuilt-append_one seqs e s (seqs', s') b q)
          (ground arith)
  ]

  -- A committed append leaves tables that are the projection of the whole log when they were it before.
  pub append-IsBuilt :
      (es : List EventEnvelope) (s t : Store) → IsBuilt s → append x es s ≡ ok t → IsBuilt t
  unfolding append
  append-IsBuilt es s t b h = IsBuilt-append_loop [] es s t b h
