-- ===== src/Workspace/Revisions.antt =====
-- crates/workspace/src/lib.rs: the revisions that the ledger records, over any operations.
use zmodbit.Prelude.{
  ◌≡◌, refl, sym, ap, ◌∙◌, inl, inr, true, false, Bool, Bool-cases, Option, none, some, List, [],
  ◌∷◌, ℕ, ◌+◌, ◌≤◌, ◌==◌, Text, text_eq, text_eq_iff, Map, get, insert, get-insert, unwrap_or,
  lines, length, Result, ok, err, if◌then◌else◌, arith,
}
use zmodbit.Workspace.Paths.{resolve}
use zmodbit.Workspace.Files.{
  FileRecord, RevisionMap, Service, is_directory, is_below_file, is_writable, file_revision,
  new_record, record_file, create_at, create_in, create, read, replace_in, replace, adopt_at,
  adopt_from, adopt_in, adopt, delete_at, delete_in, delete, rename, move_tree, move_in, move_file,
  commit_staged,
}
use zmodbit.Workspace.Patch.{
  PatchHunk, apply_patch, patch_of, patched, join_lines, apply_hunks, bottom_up,
}
use zmodbit.Workspace.Engine.{
  EditOp, TransactionError, commit_all, committed_after, renamed_after, applied, apply_transaction,
  plan_edits, stage_all, rename_all,
}

-- The revision that is recorded under a path, also for a deleted file; 0 where there is no record.
abbrev pub recorded : Text → Map FileRecord → ℕ
recorded path files = (unwrap_or (get path files) new_record).revision

pub data Operation : Type 0 where
  creates : (path content : Text) → Operation
  replaces : (path content : Text) (expected : ℕ) → Operation
  patches : (path : Text) (expected : ℕ) (hunks : List PatchHunk) → Operation
  adopts deletes : (path : Text) → Operation
  moves : (from to : Text) → Operation
  transacts : (edits : List EditOp) → Operation

-- No move in the list has the path as its destination.
abbrev pub IsNotMovedTo : Text → List Operation → Type 0
IsNotMovedTo path [] = Unit
IsNotMovedTo path (moves from to ∷ os) = (text_eq to path ≡ false) × IsNotMovedTo path os
IsNotMovedTo path (o ∷ os) = IsNotMovedTo path os

module _ (sha : Text → Text) where
  abbrev pub run_operation : Operation → Service → Service
  run_operation (creates p b) s = (create sha p b s).1
  run_operation (replaces p b e) s = (replace sha p b e s).1
  run_operation (patches p e hs) s = (apply_patch sha p e hs s).1
  run_operation (adopts p) s = (adopt sha p s).1
  run_operation (deletes p) s = (delete p s).1
  run_operation (moves from to) s = (move_file from to s).1
  run_operation (transacts es) s = (apply_transaction sha es s).1

  abbrev pub run_operations : List Operation → Service → Service
  run_operations [] s = s
  run_operations (o ∷ os) s = run_operations os (run_operation o s)

  module _ (path : Text) where
    abbrev Later : Service → Service → Type 0
    Later s s' = recorded path s.revisions.files ≤ recorded path s'.revisions.files

    -- A record that is put at a path with a revision that is not lower.
    recorded-insert :
        (p : Text) (r : FileRecord) (files : Map FileRecord)
        → recorded p files ≤ r.revision
        → recorded path files ≤ recorded path (insert p r files)
    recorded-insert p r files h =
        let e =
          ap (λ (o : Option FileRecord). (unwrap_or o new_record).revision)
            (get-insert path p r files) in
        elim (Bool-cases (text_eq p path)) [
          | inl q ↦
              let same : recorded path files ≡ recorded p files =
                ap (λ x. recorded x files) (sym ((text_eq_iff p path).0 q)) in
              let put : recorded path (insert p r files) ≡ r.revision =
                e
                ∙ ap
                    (λ (t : Bool).
                      (unwrap_or (if t then some r else get path files) new_record).revision)
                    q in
              omega (arith, same, put)
          | inr q ↦
              let kept : recorded path (insert p r files) ≡ recorded path files =
                e
                ∙ ap
                    (λ (t : Bool).
                      (unwrap_or (if t then some r else get path files) new_record).revision)
                    q in
              omega (arith, kept)
        ]

    record_file-Later :
        (p b : Text) (m : RevisionMap)
        → recorded path m.files ≤ recorded path (record_file sha p b m).0.files
    unfolding record_file
    record_file-Later p b m =
        recorded-insert p
          (record {
            revision = recorded p m.files + 1;
            sha256 = sha b;
            byte_length = length b;
            deleted = false;
          })
          m.files (omega arith)

    create-Later : (p b : Text) (s : Service) → Later s (create sha p b s).1
    unfolding create
    create-Later p b s = elim (resolve p) as (λ o. Later s (create_in sha o p b s).1) [
      | none ↦ omega arith
      | some r ↦ elim (get r s.tree) as (λ o. Later s (create_at sha o r p b s).1) [
        | some old ↦ omega arith
        | none ↦ elim (Bool-cases (is_directory r s.tree)) [
          | inl q ↦ rw (q) (omega arith)
          | inr q ↦ elim (Bool-cases (is_below_file r s.tree)) [
            | inl t ↦ rw (q, t) (omega arith)
            | inr t ↦ rw (q, t) (record_file-Later p b s.revisions)
          ]
        ]
      ]
    ]

    replace-Later : (p b : Text) (e : ℕ) (s : Service) → Later s (replace sha p b e s).1
    unfolding replace
    replace-Later p b e s = elim (resolve p) as (λ o. Later s (replace_in sha o p b e s).1) [
      | none ↦ omega arith
      | some r ↦ elim (Bool-cases (unwrap_or (file_revision p s.revisions) 0 == e)) [
        | inr q ↦ rw (q) (omega arith)
        | inl q ↦ elim (Bool-cases (is_writable r s.tree)) [
          | inl w ↦ rw (q, w) (record_file-Later p b s.revisions)
          | inr w ↦ rw (q, w) (omega arith)
        ]
      ]
    ]

    patch-Later :
        (p : Text) (e : ℕ) (hs : List PatchHunk) (s : Service)
        → Later s (apply_patch sha p e hs s).1
    unfolding apply_patch
    patch-Later p e hs s = elim (read p s) as (λ o. Later s (patch_of sha p e hs o s).1) [
      | err x ↦ omega arith
      | ok (b, rev) ↦
          elim (apply_hunks (bottom_up hs) (lines b)) as (λ o. Later s (patched sha p e o s).1) [
            | err l ↦ omega arith
            | ok ls ↦ replace-Later p (join_lines ls) e s
          ]
    ]

    adopt-Later : (p : Text) (s : Service) → Later s (adopt sha p s).1
    unfolding adopt
    adopt-Later p s = elim (resolve p) as (λ o. Later s (adopt_in sha o p s).1) [
      | none ↦ omega arith
      | some r ↦ elim (get r s.tree) as (λ o. Later s (adopt_from sha o p s).1) [
        | none ↦ omega arith
        | some b ↦ elim (file_revision p s.revisions) as (λ o. Later s (adopt_at sha o p b s).1) [
          | some rev ↦ omega arith
          | none ↦ record_file-Later p b s.revisions
        ]
      ]
    ]

    delete-Later : (p : Text) (s : Service) → Later s (delete p s).1
    unfolding delete
    delete-Later p s = elim (resolve p) as (λ o. Later s (delete_in o p s).1) [
      | none ↦ omega arith
      | some r ↦ elim (get r s.tree) as (λ o. Later s (delete_at o r p s).1) [
        | none ↦ omega arith
        | some b ↦
            recorded-insert p
              (record {
                revision = recorded p s.revisions.files + 1;
                sha256 = [];
                byte_length = 0;
                deleted = true;
              })
              s.revisions.files (omega arith)
      ]
    ]

    move-Later :
        (from to : Text) (s : Service) → text_eq to path ≡ false → Later s (move_file from to s).1
    unfolding move_file
    move-Later from to s other =
        elim (resolve from) as (λ o. Later s (move_in o (resolve to) from to s).1) [
          | none ↦ omega arith
          | some r ↦ elim (resolve to) as (λ o. Later s (move_in (some r) o from to s).1) [
            | none ↦ omega arith
            | some r' ↦ elim (rename r r' s.tree) as (λ o. Later s (move_tree o from to s).1) [
              | none ↦ omega arith
              | some tree ↦
                  let old = unwrap_or (get from s.revisions.files) new_record in
                  let gone : FileRecord = record old {
                    revision = old.revision + 1;
                    deleted = true;
                  } in
                  let live : FileRecord = record gone { deleted = false } in
                  let grown = recorded-insert from gone s.revisions.files (omega arith) in
                  let e : get path (insert to live (insert from gone s.revisions.files))
                      ≡ get path (insert from gone s.revisions.files) =
                    rw (get-insert path to live (insert from gone s.revisions.files), other) refl in
                  let kept = ap (λ (o : Option FileRecord). (unwrap_or o new_record).revision) e in
                  omega (arith, grown, kept)
            ]
          ]
        ]

    commit_all-Later : (ps : List (Text × Text)) (s : Service) → Later s (commit_all sha ps s).1
    unfolding commit_all commit_staged
    commit_all-Later [] s = omega arith
    commit_all-Later ((p, b) ∷ ps) s =
        omega (
          arith,
          record_file-Later p b s.revisions,
          commit_all-Later ps (commit_staged sha p b s).1,
        )

    committed_after-Later :
        (ps : List (Text × Text)) (s : Service) (o : Result TransactionError (Unit {0}) × Map Text)
        → Later s (committed_after sha ps s o).1
    committed_after-Later ps s (err e, tree) = omega arith
    committed_after-Later ps s (ok u, tree) = commit_all-Later ps (record s { tree = tree })

    renamed_after-Later :
        (ps : List (Text × Text)) (s : Service)
        (o : Result TransactionError (List (Text × Text)) × Map Text)
        → Later s (renamed_after sha ps s o).1
    renamed_after-Later ps s (err e, tree) = omega arith
    renamed_after-Later ps s (ok staged, tree) = committed_after-Later ps s (rename_all staged tree)

    transaction-Later : (es : List EditOp) (s : Service) → Later s (apply_transaction sha es s).1
    unfolding apply_transaction
    transaction-Later es s = elim (plan_edits es s) as (λ o. Later s (applied sha o s).1) [
      | err e ↦ omega arith
      | ok planned ↦ renamed_after-Later planned s (stage_all planned s.tree)
    ]

    -- Over any operations of which no move has the path as its destination, the revision recorded for the path never
    -- goes down, also when the file is deleted and created again.
    pub run_operations-grows :
        (os : List Operation) (s : Service)
        → IsNotMovedTo path os
        → recorded path s.revisions.files ≤ recorded path (run_operations os s).revisions.files
    run_operations-grows [] s h = omega arith
    run_operations-grows (creates p b ∷ os) s h =
        omega (arith, create-Later p b s, run_operations-grows os (create sha p b s).1 h)
    run_operations-grows (replaces p b e ∷ os) s h =
        omega (arith, replace-Later p b e s, run_operations-grows os (replace sha p b e s).1 h)
    run_operations-grows (patches p e hs ∷ os) s h =
        omega (arith, patch-Later p e hs s, run_operations-grows os (apply_patch sha p e hs s).1 h)
    run_operations-grows (adopts p ∷ os) s h =
        omega (arith, adopt-Later p s, run_operations-grows os (adopt sha p s).1 h)
    run_operations-grows (deletes p ∷ os) s h =
        omega (arith, delete-Later p s, run_operations-grows os (delete p s).1 h)
    run_operations-grows (moves from to ∷ os) s (n, h) =
        omega (arith, move-Later from to s n, run_operations-grows os (move_file from to s).1 h)
    run_operations-grows (transacts es ∷ os) s h =
        omega
          (arith, transaction-Later es s, run_operations-grows os (apply_transaction sha es s).1 h)
