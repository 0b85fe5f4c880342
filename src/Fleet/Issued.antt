-- ===== src/Fleet/Issued.antt =====
-- crates/core-runtime/src/fleet_admission.rs: the tickets that a governor has issued.
use zmodbit.Prelude.{
  ◌≡◌, ◌≢◌, refl, sym, subst, none, some, List, [], ◌∷◌, ◌++◌, ℕ, false, Text, text_eq, text_eq_iff,
  text_lt, Map, get, insert, unwrap_or, push, All, Bool-cases, Option-cases, inl, inr, arith,
}
use zmodbit.Fleet.Governor.{CapacityTicket, remove_ticket, release_in}

-- The ticket of that id is in none of the pools.
abbrev pub IsFreshIn : Text → List CapacityTicket → Type 0
IsFreshIn id ts = All (λ t. text_eq t.ticket_id id ≡ false) ts

abbrev pub IsFresh : Text → Map (List CapacityTicket) → Type 0
IsFresh id active = All (λ e. IsFreshIn id (e.1)) active

remove_ticket-fresh :
    (id : Text) (ts : List CapacityTicket) → IsFreshIn id ts → remove_ticket id ts ≡ none
unfolding remove_ticket
remove_ticket-fresh id [] h = refl
remove_ticket-fresh id (t ∷ ts) h = rw (h.0, remove_ticket-fresh id ts (h.1)) refl

remove_ticket-push :
    (t : CapacityTicket) (ts : List CapacityTicket)
    → IsFreshIn t.ticket_id ts
    → remove_ticket t.ticket_id (push ts t) ≡ some ts
unfolding remove_ticket
remove_ticket-push t [] h = ground (arith, text_eq_iff t.ticket_id t.ticket_id)
remove_ticket-push t (r ∷ ts) h = rw (h.0, remove_ticket-push t ts (h.1)) refl

-- Releasing a ticket that is only in its own pool takes it out of there.
pub release_in-insert :
    (t : CapacityTicket) (tenant : Text) (ts : List CapacityTicket)
    (active : Map (List CapacityTicket))
    → IsFreshIn t.ticket_id ts
    → IsFresh t.ticket_id active
    → release_in t.ticket_id (insert tenant (push ts t) active) ≡ some (insert tenant ts active)
unfolding release_in insert
release_in-insert t tenant ts [] h f = ground (arith, remove_ticket-push t ts h)
release_in-insert t tenant ts ((j, w) ∷ active) h f = elim (Bool-cases (text_eq j tenant)) [
  | inl q ↦ ground (arith, remove_ticket-push t ts h)
  | inr q ↦ elim (Bool-cases (text_lt tenant j)) [
    | inl l ↦ ground (arith, remove_ticket-push t ts h)
    | inr l ↦ ground (
      arith,
      remove_ticket-fresh t.ticket_id w (f.0),
      release_in-insert t tenant ts active h (f.1),
    )
  ]
]

-- `-` and a numeral that has none: the numeral is what follows the last one.
abbrev pub IsNumeral : Text → Type 0
IsNumeral p = All (λ c. c ≢ 45) p

dash-IsNumeral : (xs q : Text) → IsNumeral (xs ++ 45 ∷ q) → ⊥
dash-IsNumeral [] q n = n.0 refl
dash-IsNumeral (x ∷ xs) q n = dash-IsNumeral xs q (n.1)

tail_eq : {x y : ℕ} {xs ys : List ℕ} → x ∷ xs ≡ y ∷ ys → xs ≡ ys
tail_eq h = ground arith

pub numeral_unique :
    (xs ys p q : Text) → IsNumeral p → IsNumeral q → xs ++ 45 ∷ p ≡ ys ++ 45 ∷ q → p ≡ q
numeral_unique [] [] p q np nq h = tail_eq h
numeral_unique [] (y ∷ ys) p q np nq h =
    absurd (dash-IsNumeral ys q (subst IsNumeral (tail_eq h) np))
numeral_unique (x ∷ xs) [] p q np nq h =
    absurd (dash-IsNumeral xs p (subst IsNumeral (sym (tail_eq h)) nq))
numeral_unique (x ∷ xs) (y ∷ ys) p q np nq h = numeral_unique xs ys p q np nq (tail_eq h)

remove_ticket-All :
    (P : CapacityTicket → Type 0) (id : Text) (ts rest : List CapacityTicket)
    → All P ts
    → remove_ticket id ts ≡ some rest
    → All P rest
unfolding remove_ticket
remove_ticket-All P id [] rest h q = absurd (ground arith)
remove_ticket-All P id (t ∷ ts) rest h q = elim (Bool-cases (text_eq t.ticket_id id)) [
  | inl same ↦ subst (All P) (ground arith) (h.1)
  | inr other ↦ elim (Option-cases (remove_ticket id ts)) [
    | inl none_left ↦ absurd (ground arith)
    | inr (r, found) ↦
        subst (All P) {x = t ∷ r} (ground arith) (h.0, remove_ticket-All P id ts r (h.1) found)
  ]
]

abbrev pub AllTickets : (CapacityTicket → Type 0) → Map (List CapacityTicket) → Type 0
AllTickets P active = All (λ e. All P (e.1)) active

pub release_in-AllTickets :
    (P : CapacityTicket → Type 0) (id : Text) (active left : Map (List CapacityTicket))
    → AllTickets P active
    → release_in id active ≡ some left
    → AllTickets P left
unfolding release_in
release_in-AllTickets P id [] left h q = absurd (ground arith)
release_in-AllTickets P id ((tenant, ts) ∷ active) left h q =
    elim (Option-cases (remove_ticket id ts)) [
      | inr (r, found) ↦
          subst (AllTickets P) {x = (tenant, r) ∷ active} (ground arith)
            (remove_ticket-All P id ts r (h.0) found, h.1)
      | inl none_here ↦ elim (Option-cases (release_in id active)) [
        | inl none_left ↦ absurd (ground arith)
        | inr (m, found) ↦
            subst (AllTickets P) {x = (tenant, ts) ∷ m} (ground arith)
              (h.0, release_in-AllTickets P id active m (h.1) found)
      ]
    ]

pub insert-AllTickets :
    (P : CapacityTicket → Type 0) (k : Text) (ts : List CapacityTicket)
    (active : Map (List CapacityTicket))
    → All P ts
    → AllTickets P active
    → AllTickets P (insert k ts active)
unfolding insert
insert-AllTickets P k ts [] p h = (p, tt)
insert-AllTickets P k ts ((j, w) ∷ active) p h = elim (Bool-cases (text_eq j k)) [
  | inl q ↦ rw (q) (p, h.1)
  | inr q ↦ elim (Bool-cases (text_lt k j)) [
    | inl l ↦ rw (q, l) (p, (h.0, h.1))
    | inr l ↦ rw (q, l) (h.0, insert-AllTickets P k ts active p (h.1))
  ]
]

pub tickets_of-All :
    (P : CapacityTicket → Type 0) (k : Text) (active : Map (List CapacityTicket))
    → AllTickets P active
    → All P (unwrap_or (get k active) [])
unfolding get
tickets_of-All P k [] h = tt
tickets_of-All P k ((j, w) ∷ active) h = elim (Bool-cases (text_eq j k)) [
  | inl q ↦ rw (q) (h.0)
  | inr q ↦ rw (q) (tickets_of-All P k active (h.1))
]
