-- ===== src/Fleet/Capacity.antt =====
-- crates/core-runtime/src/fleet_admission.rs: the capacity of the pools over any calls.
use zmodbit.Prelude.{
  ◌≡◌, Option, none, some, List, [], ◌∷◌, ℕ, ◌≤◌, Text, text_eq, text_eq_iff, Map, get, unwrap_or,
  length, length-append, ok, err, Bool-cases, Option-cases, inl, inr, arith,
}
use zmodbit.Fleet.Governor.{
  CapacityTicket, ResourceGovernor, tickets_of, capacity_of, remove_ticket, release_in, release,
  admit_subagent, Admitting,
}
use zmodbit.Fleet.Issued.{IsNumeral, release_in-AllTickets}
use zmodbit.Fleet.Admissions.{
  Named, IsIssued, Kept, release-found, release-missing, admit_subagent-Kept,
}

-- No tenant has more tickets than its capacity.
abbrev pub IsBounded : ResourceGovernor → Type 0
IsBounded g = (j : Text) → length (tickets_of j g) ≤ capacity_of j g

remove_ticket-length_le :
    (id : Text) (ts rest : List CapacityTicket)
    → remove_ticket id ts ≡ some rest
    → length rest ≤ length ts
unfolding remove_ticket
remove_ticket-length_le id [] rest q = absurd (ground arith)
remove_ticket-length_le id (t ∷ ts) rest q = elim (Option-cases (remove_ticket id ts)) [
  | inl none_left ↦ ground arith
  | inr (r, found) ↦ ground (arith, remove_ticket-length_le id ts r found)
]

release_in-length_le :
    (id j : Text) (active left : Map (List CapacityTicket))
    → release_in id active ≡ some left
    → length (unwrap_or (get j left) []) ≤ length (unwrap_or (get j active) [])
unfolding release_in get
release_in-length_le id j [] left q = absurd (ground arith)
release_in-length_le id j ((tenant, ts) ∷ active) left q =
    elim (Option-cases (remove_ticket id ts)) [
      | inr (r, found) ↦ ground (arith, remove_ticket-length_le id ts r found)
      | inl none_here ↦ elim (Option-cases (release_in id active)) [
        | inl none_left ↦ absurd (ground arith)
        | inr (m, found) ↦ ground (arith, release_in-length_le id j active m found)
      ]
    ]

pub data GovernorCall : Type 0 where
  admitting :
      (tenant child_id worktree : Text) (write_set : List Text) (ceiling : Text)
      (failure : Option Text)
      → GovernorCall
  releasing : (ticket_id : Text) → GovernorCall

module _ (print : ℕ → Text) where
  abbrev pub run_call : GovernorCall → ResourceGovernor → ResourceGovernor
  run_call (admitting tenant child_id worktree write_set ceiling failure) g =
      (admit_subagent print tenant child_id worktree write_set ceiling failure g).1
  run_call (releasing ticket_id) g = (release ticket_id g).1

  abbrev pub run_calls : List GovernorCall → ResourceGovernor → ResourceGovernor
  run_calls [] g = g
  run_calls (c ∷ cs) g = run_calls cs (run_call c g)

  abbrev IsSafe : ResourceGovernor → Type 0
  IsSafe g = IsBounded g × IsIssued print g

  Kept-IsSafe :
      (tenant : Text) (g : ResourceGovernor) (r : Admitting print)
      → IsSafe g
      → Kept print tenant g r
      → IsSafe (r.1)
  Kept-IsSafe tenant g (none, g') s k = absurd k
  Kept-IsSafe tenant g (some (err e), g') s k = (λ j. ground (arith, s.0 j, k.0 j, k.1), k.2)
  Kept-IsSafe tenant g (some (ok a), g') s k = (
    λ j. elim (Bool-cases (text_eq tenant j)) [
      | inr q ↦ ground (arith, s.0 j, k.1 j, k.2)
      | inl q ↦ ground (
        arith,
        k.0,
        k.1 j,
        k.2,
        (text_eq_iff tenant j).0 q,
        length-append (tickets_of tenant g) (a.ticket ∷ []),
      )
    ],
    k.3,
  )

  release-IsSafe : (id : Text) (g : ResourceGovernor) → IsSafe g → IsSafe (release id g).1
  release-IsSafe id g s = elim (Option-cases (release_in id g.active)) [
    | inl q ↦ rw (release-missing id g q) s
    | inr (left, q) ↦ rw (release-found id g left q) (
      λ j. omega (arith, s.0 j, release_in-length_le id j g.active left q),
      release_in-AllTickets (Named print g.counter) id g.active left (s.1) q,
    )
  ]

  module _ (digits : (n : ℕ) → IsNumeral (print n))
      (printed : (m n : ℕ) → print m ≡ print n → m ≡ n) where
    run_calls-IsSafe :
        (cs : List GovernorCall) (g : ResourceGovernor) → IsSafe g → IsSafe (run_calls cs g)
    run_calls-IsSafe [] g s = s
    run_calls-IsSafe (admitting tenant child worktree write_set ceiling failure ∷ cs) g s =
        run_calls-IsSafe cs _ (
          Kept-IsSafe tenant g _ s (
            admit_subagent-Kept print digits printed tenant child worktree write_set ceiling failure
              g (s.1)))
    run_calls-IsSafe (releasing id ∷ cs) g s = run_calls-IsSafe cs _ (release-IsSafe id g s)

    -- Over any admissions and releases no tenant ever has more tickets than its capacity.
    pub run_calls-IsBounded :
        (cs : List GovernorCall) (g : ResourceGovernor)
        → IsBounded g
        → IsIssued print g
        → (tenant : Text)
        → length (tickets_of tenant (run_calls cs g)) ≤ capacity_of tenant (run_calls cs g)
    run_calls-IsBounded cs g b i = (run_calls-IsSafe cs g (b, i)).0
