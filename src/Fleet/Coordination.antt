-- ===== src/Fleet/Coordination.antt =====
-- crates/core-runtime/src/fleet_admission.rs: task contracts, isolation bundles, the parallel change coordinator and
-- the attention list.
use zmodbit.Prelude.{
  ◌≡◌, refl, ap, ◌∙◌, Option, none, some, List, [], ◌∷◌, ℕ, Bool, not, ◌&&◌, Text, text_eq,
  text_eq_iff, Map, get, insert, get-insert, unwrap_or, push, any, find, retain, length, ◌==◌,
  starts_with, Result, ok, err, if◌then◌else◌, Option-cases, inl, inr, arith,
}

pub record TaskContract : Type 0 where
  pub contract_id : Text
  pub builder : Text
  pub write_scope : List Text
  pub objective : Text

pub data ContractError : Type 0 where
  out_of_scope : (path contract : Text) → ContractError

unfoldable pub enforce_contract : TaskContract → Text → Result ContractError (Unit {0})
enforce_contract contract write_path =
    if any (λ p. starts_with write_path p) contract.write_scope
    then ok tt
    else err (out_of_scope write_path contract.contract_id)

pub record IsolationBundle : Type 0 where
  pub task_id : Text
  pub worktree : Text
  pub sandbox_id : Text
  pub context_namespace : Text
  pub lease_epoch : ℕ
  pub credential_ref : Text
  pub capability_snapshot : List Text
  pub evidence_namespace : Text

unfoldable pub bundles_isolated : IsolationBundle → IsolationBundle → Bool
bundles_isolated a b =
    not (text_eq a.task_id b.task_id)
    && not (text_eq a.worktree b.worktree)
    && not (text_eq a.sandbox_id b.sandbox_id)
    && not (text_eq a.context_namespace b.context_namespace)
    && not (a.lease_epoch == b.lease_epoch)
    && not (text_eq a.evidence_namespace b.evidence_namespace)

pub record ProposedWrite : Type 0 where
  pub task_id : Text
  pub path : Text

pub data WriteAdmission : Type 0 where
  approved : (path : Text) → WriteAdmission
  conflict_denied : (path : Text) (holders : List Text) → WriteAdmission

-- What the loop does for a write with the holders of its path.
abbrev admit_write : ProposedWrite → List Text → Map (List Text) → WriteAdmission × Map (List Text)
admit_write write [] held = (approved write.path, insert write.path (write.task_id ∷ []) held)
admit_write write (h ∷ hs) held =
    (conflict_denied write.path (h ∷ hs), insert write.path (h ∷ hs) held)

abbrev coordinate_loop : Map (List Text) → List ProposedWrite → List WriteAdmission
coordinate_loop held [] = []
coordinate_loop held (write ∷ writes) =
    let (admission, held') = admit_write write (unwrap_or (get write.path held) []) held in
    admission ∷ coordinate_loop held' writes

unfoldable pub coordinate_writes : List ProposedWrite → List WriteAdmission
coordinate_writes writes = coordinate_loop [] writes

pub record AttentionItem : Type 0 where
  pub reason : Text
  pub subject : Text
  pub action : Text
  pub event_id : Text

unfoldable pub raise : AttentionItem → List AttentionItem → List AttentionItem
raise item items = push items item

-- The items left, and whether one was cleared.
unfoldable pub clear : Text → List AttentionItem → Bool × List AttentionItem
clear event_id items =
    let kept = retain (λ i. not (text_eq i.event_id event_id)) items in
    (not (length items == length kept), kept)

-- `entry(reason).or_default().push(item)` over the items.
abbrev group_by : List AttentionItem → Map (List AttentionItem) → Map (List AttentionItem)
group_by [] out = out
group_by (i ∷ items) out =
    group_by items (insert i.reason (push (unwrap_or (get i.reason out) []) i) out)

unfoldable pub by_reason : List AttentionItem → Map (List AttentionItem)
by_reason items = group_by items []

-- The first of the writes before to the path holds it.
abbrev pub first_holder : List ProposedWrite → Text → Option ProposedWrite
first_holder earlier path = find (λ w. text_eq w.path path) earlier

abbrev verdict : ProposedWrite → Option ProposedWrite → WriteAdmission
verdict write none = approved write.path
verdict write (some holder) = conflict_denied write.path (holder.task_id ∷ [])

-- Each write judged by the writes before it.
abbrev pub judged : List ProposedWrite → List ProposedWrite → List WriteAdmission
judged earlier [] = []
judged earlier (write ∷ writes) =
    verdict write (first_holder earlier write.path) ∷ judged (push earlier write) writes

abbrev holders_of : Option ProposedWrite → List Text
holders_of none = []
holders_of (some w) = w.task_id ∷ []

-- The table holds the first writer of each path.
abbrev Tracks : Map (List Text) → List ProposedWrite → Type 0
Tracks held earlier =
    (path : Text) → unwrap_or (get path held) [] ≡ holders_of (first_holder earlier path)

find-push :
    {A : Type 0} (p : A → Bool) (xs : List A) (a : A)
    → find p (push xs a)
      ≡ elim (find p xs) [ some x ↦ some x | none ↦ (if p a then some a else none) ]
find-push p [] a = refl
find-push p (x ∷ xs) a = ground (arith, find-push p xs a)

Tracks-free :
    (held : Map (List Text)) (earlier : List ProposedWrite) (write : ProposedWrite)
    → Tracks held earlier
    → first_holder earlier write.path ≡ none
    → Tracks (insert write.path (write.task_id ∷ []) held) (push earlier write)
Tracks-free held earlier write t q path = ground (
  arith,
  t path,
  get-insert path write.path (write.task_id ∷ []) held,
  text_eq_iff write.path path,
  find-push (λ w. text_eq w.path path) earlier write,
)

Tracks-taken :
    (held : Map (List Text)) (earlier : List ProposedWrite) (write holder : ProposedWrite)
    → Tracks held earlier
    → first_holder earlier write.path ≡ some holder
    → Tracks (insert write.path (holder.task_id ∷ []) held) (push earlier write)
Tracks-taken held earlier write holder t q path = ground (
  arith,
  t path,
  get-insert path write.path (holder.task_id ∷ []) held,
  text_eq_iff write.path path,
  find-push (λ w. text_eq w.path path) earlier write,
)

coordinate_loop-judged :
    (writes : List ProposedWrite) (held : Map (List Text)) (earlier : List ProposedWrite)
    → Tracks held earlier
    → coordinate_loop held writes ≡ judged earlier writes
coordinate_loop-judged [] held earlier t = refl
coordinate_loop-judged (write ∷ writes) held earlier t =
    elim (Option-cases (first_holder earlier write.path)) [
      | inl q ↦
          let nobody = t write.path ∙ ap holders_of q in
          rw (nobody, q)
            (ap (λ rest. approved write.path ∷ rest)
              (coordinate_loop-judged writes _ (push earlier write)
                (Tracks-free held earlier write t q)))
      | inr (holder, q) ↦
          let somebody = t write.path ∙ ap holders_of q in
          rw (somebody, q)
            (ap (λ rest. conflict_denied write.path (holder.task_id ∷ []) ∷ rest)
              (coordinate_loop-judged writes _ (push earlier write)
                (Tracks-taken held earlier write holder t q)))
    ]

-- The coordinator approves exactly the first write of each path, and denies every later one in the name of the first.
pub coordinate_writes-judged :
    (writes : List ProposedWrite) → coordinate_writes writes ≡ judged [] writes
unfolding coordinate_writes get
coordinate_writes-judged writes = coordinate_loop-judged writes [] [] (λ path. refl)
