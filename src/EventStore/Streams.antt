-- ===== src/EventStore/Streams.antt =====
-- crates/event-store/src/store.rs: every aggregate's stream is numbered 1, 2, 3, …, and an append continues it.
use mathlib.Core.List.{append-nil, append_assoc}
use zmodbit.Prelude.{
  ◌≡◌, refl, sym, ap, subst, ◌∙◌, some, List, [], ◌∷◌, ◌++◌, ℕ, ◌+◌, true, false, Text, text_eq,
  text_eq_iff, Map, get, insert, get-insert, push, length, length-append, arith, ok, Result-cases,
  inl, inr, Bool-cases, Option-cases,
}
use zmodbit.EventStore.Envelope.{EventEnvelope, External}
use zmodbit.EventStore.Tables.{Store}
use zmodbit.EventStore.Append.{
  of_aggregate, next_sequence, load_stream, expected_in, append_one, append_loop, append,
}
use zmodbit.EventStore.Numbering.{
  IsGapless, next_sequence-IsGapless, by_sequence-Numbered, Numbered-push, of_aggregate-append,
}
use zmodbit.EventStore.Rounds.{Round, append_one-Round}

-- The map of staged numbers agrees with the table.
Tracks : List EventEnvelope → Map ℕ → Type 0
Tracks events seqs = (id : Text) (n : ℕ) → get id seqs ≡ some n → n ≡ next_sequence events id

expected_in-Tracks :
    (seqs : Map ℕ) (e : EventEnvelope) (s : Store)
    → Tracks s.events seqs
    → expected_in seqs e s ≡ next_sequence s.events e.aggregate_id
unfolding Tracks
expected_in-Tracks seqs e s k = elim (Option-cases (get e.aggregate_id seqs)) [
  | inl none_yet ↦ rw none_yet refl
  | inr (n, staged) ↦ rw staged (k e.aggregate_id n staged)
]

of_aggregate-push_self :
    (id : Text) (es : List EventEnvelope) (e : EventEnvelope)
    → text_eq e.aggregate_id id ≡ true
    → of_aggregate id (push es e) ≡ push (of_aggregate id es) e
of_aggregate-push_self id es e h = of_aggregate-append id es (e ∷ []) ∙ rw h refl

of_aggregate-push_other :
    (id : Text) (es : List EventEnvelope) (e : EventEnvelope)
    → text_eq e.aggregate_id id ≡ false
    → of_aggregate id (push es e) ≡ of_aggregate id es
of_aggregate-push_other id es e h = of_aggregate-append id es (e ∷ []) ∙ rw h (append-nil _)

push-IsGapless :
    (es : List EventEnvelope) (e : EventEnvelope)
    → IsGapless es
    → e.sequence ≡ next_sequence es e.aggregate_id
    → IsGapless (push es e)
push-IsGapless es e g h id = elim (Bool-cases (text_eq e.aggregate_id id)) [
  | inr other ↦ rw (of_aggregate-push_other id es e other) (g id)
  | inl same ↦ rw (of_aggregate-push_self id es e same) (
      Numbered-push 1 (of_aggregate id es) e (g id) (
        omega (
          arith,
          next_sequence-IsGapless es id g,
          ap (next_sequence es) ((text_eq_iff e.aggregate_id id).0 same),
        )))
]

next_sequence-push_self :
    (es : List EventEnvelope) (e : EventEnvelope) (id : Text)
    → IsGapless es
    → e.sequence ≡ next_sequence es e.aggregate_id
    → text_eq e.aggregate_id id ≡ true
    → next_sequence (push es e) id ≡ next_sequence es id + 1
next_sequence-push_self es e id g h same = omega (
  arith,
  next_sequence-IsGapless es id g,
  next_sequence-IsGapless (push es e) id (push-IsGapless es e g h),
  ap length (of_aggregate-push_self id es e same),
  length-append (of_aggregate id es) (e ∷ []),
)

next_sequence-push_other :
    (es : List EventEnvelope) (e : EventEnvelope) (id : Text)
    → text_eq e.aggregate_id id ≡ false
    → next_sequence (push es e) id ≡ next_sequence es id
unfolding next_sequence
next_sequence-push_other es e id other = rw (of_aggregate-push_other id es e other)

push-Tracks :
    (es : List EventEnvelope) (e : EventEnvelope) (seqs : Map ℕ)
    → IsGapless es
    → e.sequence ≡ next_sequence es e.aggregate_id
    → Tracks es seqs
    → Tracks (push es e) (insert e.aggregate_id (next_sequence es e.aggregate_id + 1) seqs)
unfolding Tracks
push-Tracks es e seqs g h k id n q = elim (Bool-cases (text_eq e.aggregate_id id)) [
  | inl same ↦ ground (
    arith,
    get-insert id e.aggregate_id (next_sequence es e.aggregate_id + 1) seqs,
    next_sequence-push_self es e id g h same,
    (text_eq_iff e.aggregate_id id).0 same,
  )
  | inr other ↦ ground (
    arith,
    get-insert id e.aggregate_id (next_sequence es e.aggregate_id + 1) seqs,
    next_sequence-push_other es e id other,
    k id n,
  )
]

Round-invariant :
    (x : External) (seqs : Map ℕ) (e : EventEnvelope) (s : Store) (r : Map ℕ × Store)
    → IsGapless s.events
    → Tracks s.events seqs
    → Round x seqs e s r
    → IsGapless r.1.events × Tracks r.1.events r.0
Round-invariant x seqs e s (seqs', s') g k (num, evs, staged) =
    let next : expected_in seqs e s ≡ next_sequence s.events e.aggregate_id =
      expected_in-Tracks seqs e s k in
    let here : e.sequence ≡ next_sequence s.events e.aggregate_id = num ∙ next in
    let map_now = staged ∙ ap (λ (n : ℕ). insert e.aggregate_id (n + 1) seqs) next in
    (
      subst IsGapless (sym evs) (push-IsGapless s.events e g here),
      subst (λ l. Tracks l seqs') (sym evs)
          (subst (Tracks (push s.events e)) (sym map_now) (push-Tracks s.events e seqs g here k)),
    )

-- The loop appends all its envelopes, in their order, and keeps every stream numbered.
append_loop-IsGapless :
    (x : External) (seqs : Map ℕ) (es : List EventEnvelope) (s t : Store)
    → IsGapless s.events
    → Tracks s.events seqs
    → append_loop x seqs es s ≡ ok t
    → (t.events ≡ s.events ++ es) × IsGapless t.events
unfolding append_loop
append_loop-IsGapless x seqs [] s t g k h =
    let same : t.events ≡ s.events = cc in (rw append-nil same, subst IsGapless (sym same) g)
append_loop-IsGapless x seqs (e ∷ es) s t g k h = elim (Result-cases (append_one x seqs e s)) [
  | inr (f, q) ↦ absurd (ground arith)
  | inl ((seqs', s'), q) ↦
      let r : Round x seqs e s (seqs', s') = append_one-Round x seqs e s (seqs', s') q in
      let inv = Round-invariant x seqs e s (seqs', s') g k r in
      let ih = append_loop-IsGapless x seqs' es s' t inv.0 inv.1 (rw (q, append_loop) at h) in
      (
        ih.0 ∙ ap (λ (l : List EventEnvelope). l ++ es) r.1 ∙ append_assoc s.events (e ∷ []) es,
        ih.1,
      )
]

empty-Tracks : (events : List EventEnvelope) → Tracks events []
unfolding Tracks get
empty-Tracks events id n h = cc

-- A successful append adds its envelopes, in their order, behind the stored ones; every aggregate that was
-- numbered 1, 2, 3, … is so afterwards, and its stream is the old stream followed by its new envelopes.
pub append-IsGapless :
    (x : External) (es : List EventEnvelope) (s t : Store)
    → IsGapless s.events
    → append x es s ≡ ok t
    → IsGapless t.events
      × ((id : Text) → load_stream t.events id ≡ load_stream s.events id ++ of_aggregate id es)
unfolding append load_stream
append-IsGapless x es s t g h =
    let done = append_loop-IsGapless x [] es s t g (empty-Tracks s.events) h in
    (
      done.1,
      λ id.
          by_sequence-Numbered 1 (of_aggregate id t.events) (done.1 id)
          ∙ ap (of_aggregate id) done.0
          ∙ of_aggregate-append id s.events es
          ∙ ap (λ (l : List EventEnvelope). l ++ of_aggregate id es)
              (sym (by_sequence-Numbered 1 (of_aggregate id s.events) (g id))),
    )
