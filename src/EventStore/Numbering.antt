-- ===== src/EventStore/Numbering.antt =====
-- crates/event-store/src/store.rs: streams that are numbered 1, 2, 3, …, and the next number of each.
use zmodbit.Prelude.{◌≡◌, refl, some, List, [], ◌∷◌, ◌++◌, ℕ, suc, ◌+◌, Text, push, length, arith}
use zmodbit.EventStore.Envelope.{EventEnvelope}
use zmodbit.EventStore.Append.{of_aggregate, after, max_sequence, next_sequence, by_sequence}

-- The envelopes carry the numbers k, k + 1, k + 2, ….
abbrev pub Numbered : ℕ → List EventEnvelope → Type 0
Numbered k [] = Unit
Numbered k (e ∷ es) = (e.sequence ≡ k) × Numbered (suc k) es

-- Every aggregate's rows are numbered from 1, in the order of their insertion.
abbrev pub IsGapless : List EventEnvelope → Type 0
IsGapless events = (id : Text) → Numbered 1 (of_aggregate id events)

pub max_sequence-Numbered :
    (k : ℕ) (e : EventEnvelope) (es : List EventEnvelope)
    → Numbered k (e ∷ es)
    → max_sequence (e ∷ es) ≡ some (k + length es)
unfolding max_sequence
max_sequence-Numbered k e [] n = ground arith
max_sequence-Numbered k e (d ∷ ds) n = ground (arith, max_sequence-Numbered (suc k) d ds n.1)

pub after-max_sequence :
    (es : List EventEnvelope) → Numbered 1 es → after (max_sequence es) ≡ length es + 1
unfolding max_sequence
after-max_sequence [] n = refl
after-max_sequence (e ∷ es) n = ground (arith, max_sequence-Numbered 1 e es n)

pub next_sequence-IsGapless :
    (events : List EventEnvelope) (id : Text)
    → IsGapless events
    → next_sequence events id ≡ length (of_aggregate id events) + 1
unfolding next_sequence
next_sequence-IsGapless events id g = after-max_sequence (of_aggregate id events) (g id)

pub by_sequence-Numbered : (k : ℕ) (es : List EventEnvelope) → Numbered k es → by_sequence es ≡ es
unfolding by_sequence
by_sequence-Numbered k [] n = refl
by_sequence-Numbered k (e ∷ []) n = refl
by_sequence-Numbered k (e ∷ d ∷ ds) n =
    rw (by_sequence-Numbered (suc k) (d ∷ ds) n.1) (ground arith)

pub Numbered-push :
    (k : ℕ) (es : List EventEnvelope) (e : EventEnvelope)
    → Numbered k es
    → e.sequence ≡ k + length es
    → Numbered k (push es e)
Numbered-push k [] e n h = (omega arith, tt)
Numbered-push k (d ∷ ds) e n h = (n.0, Numbered-push (suc k) ds e n.1 (omega arith))

pub of_aggregate-append :
    (id : Text) (es fs : List EventEnvelope)
    → of_aggregate id (es ++ fs) ≡ of_aggregate id es ++ of_aggregate id fs
of_aggregate-append id [] fs = refl
of_aggregate-append id (e ∷ es) fs = ground (arith, of_aggregate-append id es fs)
