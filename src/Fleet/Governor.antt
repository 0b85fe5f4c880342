-- ===== src/Fleet/Governor.antt =====
-- crates/core-runtime/src/fleet_admission.rs: capacity tickets, and the admission that binds them. The decimal
-- rendering of the counter is the parameter `print`; its u64 wrap-around is left out.
use zmodbit.Prelude.{
  Option, none, some, List, [], ◌∷◌, ◌++◌, ℕ, ◌+◌, Bool, false, Text, text_eq, bytes, Map, get,
  insert, unwrap_or, push, length, leb, Result, ok, err, if◌then◌else◌,
}

pub record CapacityTicket : Type 0 where
  pub ticket_id : Text
  pub tenant : Text

pub data TicketError : Type 0 where
  exhausted : (tenant : Text) (active capacity : ℕ) → TicketError
  unknown_ticket : (ticket_id : Text) → TicketError

pub record ResourceGovernor : Type 0 where
  pub capacity : Map ℕ
  pub active : Map (List CapacityTicket)
  pub counter : ℕ

unfoldable pub set_capacity : Text → ℕ → ResourceGovernor → ResourceGovernor
set_capacity tenant capacity g = record g { capacity = insert tenant capacity g.capacity }

abbrev pub capacity_of : Text → ResourceGovernor → ℕ
capacity_of tenant g = unwrap_or (get tenant g.capacity) 0

-- `entry(tenant).or_default()`.
abbrev pub tickets_of : Text → ResourceGovernor → List CapacityTicket
tickets_of tenant g = unwrap_or (get tenant g.active) []

-- `position` and `remove`.
unfoldable pub remove_ticket : Text → List CapacityTicket → Option (List CapacityTicket)
remove_ticket ticket_id [] = none
remove_ticket ticket_id (t ∷ ts) =
    if text_eq t.ticket_id ticket_id
    then some ts
    else elim (remove_ticket ticket_id ts) [ none ↦ none | some rest ↦ some (t ∷ rest) ]

unfoldable pub release_in : Text → Map (List CapacityTicket) → Option (Map (List CapacityTicket))
release_in ticket_id [] = none
release_in ticket_id ((tenant, tickets) ∷ active) = elim (remove_ticket ticket_id tickets) [
  | some rest ↦ some ((tenant, rest) ∷ active)
  | none ↦ elim (release_in ticket_id active) [
    | none ↦ none
    | some later ↦ some ((tenant, tickets) ∷ later)
  ]
]

unfoldable pub release : Text → ResourceGovernor → Result TicketError (Unit {0}) × ResourceGovernor
unfolding release_in
release ticket_id g = elim (release_in ticket_id g.active) [
  | some active ↦ (ok tt, record g { active = active })
  | none ↦ (err (unknown_ticket ticket_id), g)
]

pub record Admission : Type 0 where
  pub child_id : Text
  pub ticket : CapacityTicket
  pub worktree : Text
  pub write_set : List Text
  pub capability_ceiling : Text

pub data AdmissionError : Type 0 where
  ticket : TicketError → AdmissionError
  injected_failure : (step : Text) → AdmissionError

module _ (print : ℕ → Text) where
  abbrev pub ticket_name : Text → ℕ → Text
  ticket_name tenant counter = (bytes "ticket-" ++ tenant) ++ (bytes "-" ++ print counter)

  abbrev pub new_ticket : Text → ResourceGovernor → CapacityTicket
  new_ticket tenant g = record { ticket_id = ticket_name tenant (g.counter + 1); tenant = tenant }

  -- The tenant's entry is there afterwards, also when its pool is exhausted.
  unfoldable pub consume :
      Text → ResourceGovernor → Result TicketError CapacityTicket × ResourceGovernor
  consume tenant g =
      if leb (capacity_of tenant g) (length (tickets_of tenant g))
      then (
        err (exhausted tenant (length (tickets_of tenant g)) (capacity_of tenant g)),
        record g { active = insert tenant (tickets_of tenant g) g.active },
      )
      else (
        ok (new_ticket tenant g),
        record g {
          active = insert tenant (push (tickets_of tenant g) (new_ticket tenant g)) g.active;
          counter = g.counter + 1;
        },
      )

  abbrev pub Admitting : Type 0
  Admitting = Option (Result AdmissionError Admission) × ResourceGovernor

  -- `release(…).unwrap()` before an injected failure is returned: none when it panics.
  abbrev pub unwrapped : Text → Result TicketError (Unit {0}) × ResourceGovernor → Admitting
  unwrapped step (ok u, g) = (some (err (injected_failure step)), g)
  unwrapped step (err e, g) = (none, g)

  abbrev pub roll_back : Text → CapacityTicket → ResourceGovernor → Admitting
  roll_back step t g = unwrapped step (release t.ticket_id g)

  abbrev pub fails_at : Option Text → Text → Bool
  fails_at none step = false
  fails_at (some s) step = text_eq s step

  abbrev pub bind_resources :
      Text
      → Text
      → List Text
      → Text
      → Option Text
      → Result TicketError CapacityTicket × ResourceGovernor
      → Admitting
  bind_resources child_id worktree write_set ceiling failure (err e, g) = (some (err (ticket e)), g)
  bind_resources child_id worktree write_set ceiling failure (ok t, g) =
      if fails_at failure (bytes "after_ticket")
      then roll_back (bytes "after_ticket") t g
      else if fails_at failure (bytes "after_worktree")
      then roll_back (bytes "after_worktree") t g
      else if fails_at failure (bytes "after_write_set")
      then roll_back (bytes "after_write_set") t g
      else (
        some (
            ok (record {
              child_id = child_id;
              ticket = t;
              worktree = worktree;
              write_set = write_set;
              capability_ceiling = ceiling;
            })),
        g,
      )

  unfoldable pub admit_subagent :
      Text → Text → Text → List Text → Text → Option Text → ResourceGovernor → Admitting
  admit_subagent tenant child_id worktree write_set ceiling inject_failure_at g =
      bind_resources child_id worktree write_set ceiling inject_failure_at (consume tenant g)
