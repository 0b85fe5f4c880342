-- ===== src/Approvals/Decided.antt =====
-- crates/event-store/src/approvals.rs: the first decision on an approval is the last.
use zmodbit.Prelude.{
  ◌≡◌, refl, ap, ◌∙◌, Bool, true, false, ◌||◌, Bool-cases, inl, inr, List, [], ◌∷◌, Text, bytes,
  text_eq, text_eq_iff, any, find, map, push, arith,
}
use zmodbit.Approvals.Table.{
  PendingApproval, ApprovalRow, has_approval_id, is_open, insert_approval, resolve_row,
  resolve_approval,
}
use zmodbit.Approvals.Gate.{TableCall, asked, answered, apply_call, apply_all}

pub any-push :
    (p : ApprovalRow → Bool) (rows : List ApprovalRow) (r : ApprovalRow)
    → any p (push rows r) ≡ (any p rows || p r)
any-push p [] r = ground arith
any-push p (q ∷ rows) r = ground (arith, any-push p rows r)

find-push :
    (p : ApprovalRow → Bool) (rows : List ApprovalRow) (r : ApprovalRow)
    → any p rows ≡ true
    → find p (push rows r) ≡ find p rows
find-push p [] r h = cc
find-push p (q ∷ rows) r h = ground (arith, find-push p rows r)

-- The approval is in the table, and it is not pending.
abbrev IsClosed : Text → List ApprovalRow → Type 0
IsClosed id rows = (any (has_approval_id id) rows ≡ true) × (any (is_open id) rows ≡ false)

module _ (id : Text) (other state resolved_by now : Text) where
  has-resolve_row :
      (r : ApprovalRow)
      → has_approval_id id (resolve_row other state resolved_by now r) ≡ has_approval_id id r
  has-resolve_row r = ground arith

  open-resolve_row :
      (r : ApprovalRow)
      → is_open id r ≡ false
      → is_open id (resolve_row other state resolved_by now r) ≡ false
  open-resolve_row r h =
      ground
        (arith, text_eq_iff r.approval.approval_id id, text_eq_iff r.approval.approval_id other)

  any_has-resolved :
      (rows : List ApprovalRow)
      → any (has_approval_id id) (map (resolve_row other state resolved_by now) rows)
        ≡ any (has_approval_id id) rows
  any_has-resolved [] = refl
  any_has-resolved (r ∷ rows) = ground (arith, has-resolve_row r, any_has-resolved rows)

  any_open-resolved :
      (rows : List ApprovalRow)
      → any (is_open id) rows ≡ false
      → any (is_open id) (map (resolve_row other state resolved_by now) rows) ≡ false
  any_open-resolved [] h = refl
  any_open-resolved (r ∷ rows) h = ground (arith, open-resolve_row r, any_open-resolved rows)

  resolve_row-closed :
      (r : ApprovalRow)
      → has_approval_id id r ≡ true
      → is_open id r ≡ false
      → resolve_row other state resolved_by now r ≡ r
  resolve_row-closed r h c = ground arith

  find-resolved :
      (rows : List ApprovalRow)
      → any (is_open id) rows ≡ false
      → find (has_approval_id id) (map (resolve_row other state resolved_by now) rows)
        ≡ find (has_approval_id id) rows
  find-resolved [] h = refl
  find-resolved (r ∷ rows) h = elim (Bool-cases (has_approval_id id r)) [
    | inl q ↦ ground (arith, has-resolve_row r, resolve_row-closed r q)
    | inr q ↦ ground (arith, has-resolve_row r, find-resolved rows)
  ]

-- A row that was just resolved to another state than pending is not pending.
resolved_now :
    (id state resolved_by now : Text)
    → text_eq state (bytes "pending") ≡ false
    → (rows : List ApprovalRow)
    → any (is_open id) (map (resolve_row id state resolved_by now) rows) ≡ false
resolved_now id state resolved_by now h [] = refl
resolved_now id state resolved_by now h (r ∷ rows) =
    ground (arith, resolved_now id state resolved_by now h rows)

open-has :
    (id : Text) (rows : List ApprovalRow)
    → any (is_open id) rows ≡ true
    → any (has_approval_id id) rows ≡ true
open-has id [] h = h
open-has id (r ∷ rows) h = ground (arith, open-has id rows)

new_closed :
    (id : Text) (a : PendingApproval) (rows : List ApprovalRow)
    → any (has_approval_id id) rows ≡ true
    → any (is_open id) rows ≡ false
    → any (has_approval_id a.approval_id) rows ≡ false
    → (any (is_open id) rows
        || is_open id (record { approval = a; resolved_at = []; resolved_by = [] }))
      ≡ false
new_closed id a rows h c q = elim (Bool-cases (text_eq a.approval_id id)) [
  | inl e ↦
      absurd (
        ground (arith, ap (λ j. any (has_approval_id j) rows) ((text_eq_iff a.approval_id id).0 e)))
  | inr e ↦ ground arith
]

apply_call-IsClosed :
    (id : Text) (c : TableCall) (rows : List ApprovalRow)
    → IsClosed id rows
    → IsClosed id (apply_call c rows)
      × (find (has_approval_id id) (apply_call c rows) ≡ find (has_approval_id id) rows)
unfolding apply_call insert_approval resolve_approval
apply_call-IsClosed id (asked a) rows (h, c) =
    let row : ApprovalRow = record { approval = a; resolved_at = []; resolved_by = [] } in
    elim (Bool-cases (any (has_approval_id a.approval_id) rows)) [
      | inl q ↦ rw (q) ((h, c), refl)
      | inr q ↦ rw (q) (
        (
          any-push (has_approval_id id) rows row ∙ ground arith,
          any-push (is_open id) rows row ∙ new_closed id a rows h c q,
        ),
        find-push (has_approval_id id) rows row h,
      )
    ]
apply_call-IsClosed id (answered other state resolved_by now) rows (h, c) = (
  (
    any_has-resolved id other state resolved_by now rows ∙ h,
    any_open-resolved id other state resolved_by now rows c,
  ),
  find-resolved id other state resolved_by now rows c,
)

apply_all-IsClosed :
    (id : Text) (calls : List TableCall) (rows : List ApprovalRow)
    → IsClosed id rows
    → IsClosed id (apply_all calls rows)
      × (find (has_approval_id id) (apply_all calls rows) ≡ find (has_approval_id id) rows)
unfolding apply_all
apply_all-IsClosed id [] rows h = (h, refl)
apply_all-IsClosed id (c ∷ calls) rows h =
    let (closed, same) = apply_call-IsClosed id c rows h in
    let (kept, found) = apply_all-IsClosed id calls (apply_call c rows) closed in
    (kept, found ∙ same)

-- The first decision wins: once an approval is resolved to a state other than pending, its row stays as it is
-- through every later request and resolution, and a later resolution of it answers false.
pub resolved_once :
    (id state resolved_by now : Text) (rows : List ApprovalRow)
    → text_eq state (bytes "pending") ≡ false
    → (resolve_approval id state resolved_by now rows).0 ≡ true
    → (calls : List TableCall) (state' resolved_by' now' : Text)
    → let decided = (resolve_approval id state resolved_by now rows).1 in
      let after = apply_all calls decided in
      (find (has_approval_id id) after ≡ find (has_approval_id id) decided)
      × ((resolve_approval id state' resolved_by' now' after).0 ≡ false)
unfolding resolve_approval
resolved_once id state resolved_by now rows h o calls state' resolved_by' now' =
    let decided = map (resolve_row id state resolved_by now) rows in
    let (kept, found) = apply_all-IsClosed id calls decided (
      any_has-resolved id id state resolved_by now rows ∙ open-has id rows o,
      resolved_now id state resolved_by now h rows,
    ) in
    (found, kept.1)
