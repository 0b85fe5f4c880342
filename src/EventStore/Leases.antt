-- ===== src/EventStore/Leases.antt =====
-- crates/event-store/src/leases.rs, and `append_with_lease` of store.rs.
use zmodbit.Prelude.{
  ◌≡◌, refl, false, some, none, List, [], ◌∷◌, ℕ, ◌+◌, Option, Bool, Text, text_eq, text_eq_iff,
  Map, get, insert, get-insert, retain, length, if◌then◌else◌, Result, ok, err, ◌>>◌, ensure,
  Bool-cases, inl, inr, arith,
}
use zmodbit.EventStore.Envelope.{EventEnvelope, External}
use zmodbit.EventStore.Tables.{Store}
use zmodbit.EventStore.Append.{StoreError, stale_lease, append_loop, append}

pub record LeaseRow : Type 0 where
  pub lease_id : Text
  pub owner : Text
  pub generation : ℕ

pub record Lease : Type 0 where
  pub lease_id : Text
  pub generation : ℕ

-- The rows of `session_leases` by session.
abbrev pub LeaseTable : Type 0
LeaseTable = Map LeaseRow

abbrev next_generation : Option LeaseRow → ℕ
next_generation none = 1
next_generation (some r) = r.generation + 1

unfoldable pub acquire : LeaseTable → Text → Text → Text → Lease × LeaseTable
acquire leases session_id lease_id owner =
    let generation = next_generation (get session_id leases) in
    (
      record { lease_id = lease_id; generation = generation },
      insert session_id (record { lease_id = lease_id; owner = owner; generation = generation })
          leases,
    )

abbrev lease_of : Option LeaseRow → Option Lease
lease_of none = none
lease_of (some r) = some (record { lease_id = r.lease_id; generation = r.generation })

unfoldable pub current : LeaseTable → Text → Option Lease
current leases session_id = lease_of (get session_id leases)

abbrev holds : Option Lease → Text → Bool
holds none lease_id = false
holds (some l) lease_id = text_eq l.lease_id lease_id

unfoldable pub is_current : LeaseTable → Text → Text → Bool
unfolding current
is_current leases session_id lease_id = holds (current leases session_id) lease_id

unfoldable pub append_with_lease :
    External → LeaseTable → Text → Text → List EventEnvelope → Store → Result StoreError Store
append_with_lease x leases session_id lease_id [] s = ok s
append_with_lease x leases session_id lease_id (e ∷ es) s =
    ensure (is_current leases session_id lease_id) (stale_lease session_id lease_id)
    >> append_loop x [] (e ∷ es) s

-- One acquisition: the session, the lease and its owner.
pub record Acquisition : Type 0 where
  pub session_id : Text
  pub lease_id : Text
  pub owner : Text

abbrev acquire_step : Acquisition → LeaseTable → LeaseTable
acquire_step a leases = (acquire leases a.session_id a.lease_id a.owner).1

-- The table that a history of acquisitions, the newest first, leaves.
unfoldable pub acquire_all : List Acquisition → LeaseTable
acquire_all [] = []
acquire_all (a ∷ hs) = acquire_step a (acquire_all hs)

abbrev pub of_session : Text → List Acquisition → List Acquisition
of_session id = retain λ a. text_eq a.session_id id

-- The newest acquisition, numbered by their count.
abbrev pub newest : List Acquisition → Option Lease
newest [] = none
newest (a ∷ hs) = some (record { lease_id = a.lease_id; generation = length (a ∷ hs) })

next_generation-newest :
    (r : Option LeaseRow) (hs : List Acquisition)
    → lease_of r ≡ newest hs
    → next_generation r ≡ length hs + 1
next_generation-newest none [] h = refl
next_generation-newest none (a ∷ hs) h = absurd (ground arith)
next_generation-newest (some r) [] h = absurd (ground arith)
next_generation-newest (some r) (a ∷ hs) h = ground arith

abbrev acquired : LeaseTable → Acquisition → LeaseRow
acquired leases a = record {
  lease_id = a.lease_id;
  owner = a.owner;
  generation = next_generation (get a.session_id leases);
}

pub current-acquire_all :
    (id : Text) (hs : List Acquisition) → current (acquire_all hs) id ≡ newest (of_session id hs)
unfolding current acquire_all acquire get
current-acquire_all id [] = refl
current-acquire_all id (a ∷ hs) =
    let row = acquired (acquire_all hs) a in
    let stored = get-insert id a.session_id row (acquire_all hs) in
    elim (Bool-cases (text_eq a.session_id id)) [
      | inl q ↦
          let same = (text_eq_iff a.session_id id).0 q in
          let count =
            next_generation-newest (get id (acquire_all hs)) (of_session id hs)
              (current-acquire_all id hs) in
          ground (arith, stored, same, count)
      | inr q ↦ ground (arith, stored, current-acquire_all id hs)
    ]

abbrev pub is_newest : Text → List Acquisition → Bool
is_newest lease_id [] = false
is_newest lease_id (a ∷ hs) = text_eq a.lease_id lease_id

is_current-acquire_all :
    (id lease_id : Text) (hs : List Acquisition)
    → is_current (acquire_all hs) id lease_id ≡ is_newest lease_id (of_session id hs)
unfolding is_current
is_current-acquire_all id lease_id hs =
    rw (current-acquire_all id hs) (holds-newest lease_id (of_session id hs))
  where
    holds-newest : (l : Text) (ls : List Acquisition) → holds (newest ls) l ≡ is_newest l ls
    holds-newest l [] = refl
    holds-newest l (a ∷ ls) = refl

-- After any history of acquisitions, the current lease of a session is the one of its newest acquisition, with the
-- number of its acquisitions as generation; the id of that lease appends as `append` does, and every other id is
-- refused. Only the id is compared: an older acquisition of the same id appends too.
pub append_with_lease-acquire_all :
    (x : External) (id lease_id : Text) (hs : List Acquisition) (e : EventEnvelope)
    (es : List EventEnvelope) (s : Store)
    → (current (acquire_all hs) id ≡ newest (of_session id hs))
      × (append_with_lease x (acquire_all hs) id lease_id (e ∷ es) s ≡ (
          if is_newest lease_id (of_session id hs)
          then append x (e ∷ es) s
          else err (stale_lease id lease_id)))
unfolding append_with_lease append
append_with_lease-acquire_all x id lease_id hs e es s =
    (current-acquire_all id hs, ground (arith, is_current-acquire_all id lease_id hs))
