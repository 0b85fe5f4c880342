-- ===== src/Fleet/Admissions.antt =====
-- crates/core-runtime/src/fleet_admission.rs: the pools across admissions and releases.
use zmodbit.Prelude.{
  ◌≡◌, refl, sym, subst, ◌∙◌, Option, none, some, List, [], ◌++◌, ℕ, ◌+◌, ◌≤◌, ◌<◌, false, Text,
  text_eq, text_eq_iff, bytes, Map, get, insert, get-insert, unwrap_or, push, length, All, All-map,
  All-push, leb, ok, err, if◌then◌else◌, Bool-cases, inl, inr, arith,
}
use zmodbit.Fleet.Governor.{
  CapacityTicket, ResourceGovernor, tickets_of, capacity_of, release_in, release, ticket_name,
  new_ticket, consume, unwrapped, roll_back, fails_at, bind_resources, admit_subagent, Admitting,
}
use zmodbit.Fleet.Issued.{
  IsNumeral, numeral_unique, IsFreshIn, AllTickets, release_in-insert, insert-AllTickets,
  tickets_of-All,
}

-- Putting back what was there changes no pool.
tickets_of-insert_same :
    (tenant j : Text) (g : ResourceGovernor)
    → unwrap_or (get j (insert tenant (tickets_of tenant g) g.active)) [] ≡ tickets_of j g
tickets_of-insert_same tenant j g =
    ground (arith, get-insert j tenant (tickets_of tenant g) g.active, text_eq_iff tenant j)

pub release-found :
    (id : Text) (g : ResourceGovernor) (left : Map (List CapacityTicket))
    → release_in id g.active ≡ some left
    → release id g ≡ (ok tt, record g { active = left })
unfolding release
release-found id g left h = ground arith

pub release-missing :
    (id : Text) (g : ResourceGovernor) → release_in id g.active ≡ none → (release id g).1 ≡ g
unfolding release
release-missing id g h = ground arith

module _ (print : ℕ → Text) where
  abbrev pub Named : ℕ → CapacityTicket → Type 0
  Named counter t =
      (tenant : Text) × (n : ℕ) × (t.ticket_id ≡ ticket_name print tenant n) × (n ≤ counter)

  -- The active tickets carry numbers up to the counter.
  abbrev pub IsIssued : ResourceGovernor → Type 0
  IsIssued g = AllTickets (Named g.counter) g.active

  Named-later : (m n : ℕ) → m ≤ n → (t : CapacityTicket) → Named m t → Named n t
  Named-later m n le t (tenant, k, q, b) = (tenant, k, q, omega (arith, le, b))

  AllTickets-later :
      (m n : ℕ)
      → m ≤ n
      → (active : Map (List CapacityTicket)) → AllTickets (Named m) active
      → AllTickets (Named n) active
  AllTickets-later m n le active h =
      All-map (λ (e : Text × List CapacityTicket). All (Named m) (e.1)) (λ e. All (Named n) (e.1))
        (λ e a. All-map (Named m) (Named n) (Named-later m n le) (e.1) a) active h

  put_back-IsIssued :
      (tenant : Text) (ts : List CapacityTicket) (g : ResourceGovernor) (c : ℕ)
      → g.counter ≤ c
      → IsIssued g
      → All (Named c) ts
      → IsIssued (record g { active = insert tenant ts g.active; counter = c })
  put_back-IsIssued tenant ts g c le i a =
      insert-AllTickets (Named c) tenant ts g.active a (AllTickets-later g.counter c le g.active i)

  tickets_of-Named :
      (tenant : Text) (g : ResourceGovernor) (c : ℕ)
      → g.counter ≤ c
      → IsIssued g
      → All (Named c) (tickets_of tenant g)
  tickets_of-Named tenant g c le i =
      tickets_of-All (Named c) tenant g.active (AllTickets-later g.counter c le g.active i)

  abbrev pub Kept : Text → ResourceGovernor → Admitting print → Type 0
  Kept tenant g (none, g') = ⊥
  Kept tenant g (some (err e), g') =
      ((j : Text) → tickets_of j g' ≡ tickets_of j g) × (g'.capacity ≡ g.capacity) × IsIssued g'
  Kept tenant g (some (ok a), g') =
      (length (tickets_of tenant g) < capacity_of tenant g)
      × ((j : Text)
          → tickets_of j g'
            ≡ (if text_eq tenant j then push (tickets_of tenant g) a.ticket else tickets_of j g))
      × (g'.capacity ≡ g.capacity)
      × IsIssued g'

  module _ (digits : (n : ℕ) → IsNumeral (print n))
      (printed : (m n : ℕ) → print m ≡ print n → m ≡ n) where
    Named-fresh :
        (tenant : Text) (c : ℕ) (t : CapacityTicket)
        → Named c t
        → text_eq t.ticket_id (ticket_name print tenant (c + 1)) ≡ false
    Named-fresh tenant c t (k, n, q, le) =
        elim (Bool-cases (text_eq t.ticket_id (ticket_name print tenant (c + 1)))) [
          | inr other ↦ other
          | inl same ↦
              let equal = sym q ∙ (text_eq_iff _ _).0 same in
              let numerals =
                numeral_unique (bytes "ticket-" ++ k) (bytes "ticket-" ++ tenant) (print n)
                  (print (c + 1)) (digits n) (digits (c + 1)) equal in
              absurd (omega (arith, printed n (c + 1) numerals, le))
        ]

    abbrev taken : Text → ResourceGovernor → ResourceGovernor
    taken tenant g = record g {
      active = insert tenant (push (tickets_of tenant g) (new_ticket print tenant g)) g.active;
      counter = g.counter + 1;
    }

    release-taken :
        (tenant : Text) (g : ResourceGovernor)
        → IsIssued g
        → release (new_ticket print tenant g).ticket_id (taken tenant g) ≡ (
          ok tt,
          record (taken tenant g) { active = insert tenant (tickets_of tenant g) g.active },
        )
    release-taken tenant g i =
        let fresh =
          All-map (λ (e : Text × List CapacityTicket). All (Named g.counter) (e.1))
            (λ e. IsFreshIn (new_ticket print tenant g).ticket_id (e.1))
            (λ e a. All-map (Named g.counter) _ (Named-fresh tenant g.counter) (e.1) a) g.active
            i in
        release-found (new_ticket print tenant g).ticket_id (taken tenant g)
          (insert tenant (tickets_of tenant g) g.active)
          (release_in-insert (new_ticket print tenant g) tenant (tickets_of tenant g) g.active
            (tickets_of-All _ tenant g.active fresh) fresh)

    rolled-Kept :
        (step tenant : Text) (g : ResourceGovernor)
        → IsIssued g
        → Kept tenant g (roll_back print step (new_ticket print tenant g) (taken tenant g))
    rolled-Kept step tenant g i =
        subst (λ r. Kept tenant g (unwrapped print step r)) (sym (release-taken tenant g i))
          (
            λ j. tickets_of-insert_same tenant j g,
            refl,
            put_back-IsIssued tenant (tickets_of tenant g) g (g.counter + 1) (omega arith) i
                (tickets_of-Named tenant g (g.counter + 1) (omega arith) i),
          )

    new_ticket-Named :
        (tenant : Text) (g : ResourceGovernor) → Named (g.counter + 1) (new_ticket print tenant g)
    new_ticket-Named tenant g = (tenant, g.counter + 1, refl, omega arith)

    bound-Kept :
        (tenant child_id worktree : Text) (write_set : List Text) (ceiling : Text)
        (failure : Option Text) (g : ResourceGovernor)
        → IsIssued g
        → length (tickets_of tenant g) < capacity_of tenant g
        → Kept tenant g (
            bind_resources print child_id worktree write_set ceiling failure
              (ok (new_ticket print tenant g), taken tenant g))
    bound-Kept tenant child_id worktree write_set ceiling failure g i room =
        let earlier = tickets_of-Named tenant g (g.counter + 1) (omega arith) i in
        let issued =
          put_back-IsIssued tenant (push (tickets_of tenant g) (new_ticket print tenant g)) g
            (g.counter + 1) (omega arith) i
            (All-push (Named (g.counter + 1)) (tickets_of tenant g) (new_ticket print tenant g)
              earlier (new_ticket-Named tenant g)) in
        elim (Bool-cases (fails_at print failure (bytes "after_ticket"))) [
          | inl a ↦ rw (a) (rolled-Kept (bytes "after_ticket") tenant g i)
          | inr a ↦ elim (Bool-cases (fails_at print failure (bytes "after_worktree"))) [
            | inl b ↦ rw (a, b) (rolled-Kept (bytes "after_worktree") tenant g i)
            | inr b ↦ elim (Bool-cases (fails_at print failure (bytes "after_write_set"))) [
              | inl c ↦ rw (a, b, c) (rolled-Kept (bytes "after_write_set") tenant g i)
              | inr c ↦
                  rw (a, b, c)
                    (
                      room,
                      λ j. ground (
                        arith,
                        get-insert j tenant (push (tickets_of tenant g) (new_ticket print tenant g))
                            g.active,
                      ),
                      refl,
                      issued,
                    )
            ]
          ]
        ]

    -- An admission that fails, at any step, leaves every pool as it was and never panics; one that succeeds had room
    -- and adds its ticket to the tenant's pool alone.
    pub admit_subagent-Kept :
        (tenant child_id worktree : Text) (write_set : List Text) (ceiling : Text)
        (failure : Option Text) (g : ResourceGovernor)
        → IsIssued g
        → Kept tenant g (admit_subagent print tenant child_id worktree write_set ceiling failure g)
    unfolding admit_subagent consume
    admit_subagent-Kept tenant child_id worktree write_set ceiling failure g i =
        elim (Bool-cases (leb (capacity_of tenant g) (length (tickets_of tenant g)))) [
          | inl full ↦ rw (full) (
            λ j. tickets_of-insert_same tenant j g,
            refl,
            put_back-IsIssued tenant (tickets_of tenant g) g g.counter (omega arith) i
                (tickets_of-Named tenant g g.counter (omega arith) i),
          )
          | inr room ↦
              rw (room)
                (bound-Kept tenant child_id worktree write_set ceiling failure g i (ground arith))
        ]
