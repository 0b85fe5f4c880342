-- ===== src/Workspace/Failures.antt =====
-- crates/workspace/src/lib.rs: change_engine. Transactions that panic, that mix up the bytes of two files, and that lose
-- an edit.
use zmodbit.Prelude.{
  ◌≡◌, refl, true, false, none, some, List, [], ◌∷◌, ℕ, ◌<◌, ==_iff, ltb, Text, text_eq,
  text_eq_refl, lines, length, get, insert, remove, get-insert, get-remove, ok, err, arith,
}
use zmodbit.Workspace.Paths.{resolve}
use zmodbit.Workspace.Files.{Service, read}
use zmodbit.Workspace.Patch.{PatchHunk, bottom_up, match_ladder}
use zmodbit.Workspace.Engine.{
  EditOp, io_failed, panicked, ladder_hunks, plan_edit, plan_edits, staging_file, stage_all,
  rename_all, apply_transaction,
}
use zmodbit.Workspace.Staging.{text_eq-swap}

ladder-panics :
    (file old : List Text) (anchor : ℕ) (path : Text) (new : List Text)
    → length file < length old
    → ladder_hunks path
        (record { anchor_line = anchor; old_lines = old; new_lines = new } ∷ [])
        file
      ≡ err panicked
unfolding ladder_hunks match_ladder
ladder-panics file [] anchor path new h = absurd (omega arith)
ladder-panics file (o ∷ os) anchor path new h =
    let longer : ltb (length file) (length (o ∷ os)) ≡ true = ground arith in rw (longer) refl

-- A transaction whose first edit has the current revision and one hunk with more old lines than the file has panics,
-- whatever the other edits are.
pub transaction-panics :
    (sha : Text → Text) (path content : Text) (rev : ℕ) (hunk : PatchHunk) (edits : List EditOp)
    (s : Service)
    → read path s ≡ ok (content, rev)
    → length (lines content) < length hunk.old_lines
    → let edit : EditOp = record { path = path; expected_revision = rev; hunks = hunk ∷ [] } in
      apply_transaction sha (edit ∷ edits) s ≡ (err panicked, s)
unfolding apply_transaction plan_edits plan_edit bottom_up
transaction-panics sha path content rev hunk edits s found longer =
    rw
      (
        found,
        (==_iff rev rev).1 refl,
        ladder-panics (lines content) hunk.old_lines hunk.anchor_line path hunk.new_lines longer,
      )
      refl

-- When the targets of the two edits of a planned transaction have one staging file, as two edits of one path have, the
-- transaction fails after it wrote the bytes of the second edit to the target of the first. The second target, if it is
-- another file, and the ledger keep what they had.
pub transaction-mixes_up :
    (sha : Text → Text) (edits : List EditOp) (p q b c r r' : Text) (s : Service)
    → plan_edits edits s ≡ ok ((p, b) ∷ (q, c) ∷ [])
    → resolve p ≡ some r
    → resolve q ≡ some r'
    → staging_file r' ≡ staging_file r
    → text_eq (staging_file r) r ≡ false
    → text_eq (staging_file r) r' ≡ false
    → let (result, s') = apply_transaction sha edits s in
      (result ≡ err io_failed)
      × (get r s'.tree ≡ some c)
      × (text_eq r r' ≡ false → get r' s'.tree ≡ get r' s.tree)
      × (s'.revisions ≡ s.revisions)
unfolding apply_transaction stage_all rename_all
transaction-mixes_up sha edits p q b c r r' s planned at at' same apart apart' =
    let tmp = staging_file r in
    let one = insert tmp b s.tree in
    let two = insert tmp c one in
    let three = insert r c (remove tmp two) in
    let there : get tmp two ≡ some c = rw (get-insert tmp tmp c one, text_eq_refl tmp) refl in
    let gone : get tmp three ≡ none =
      rw
        (
          get-insert tmp r c (remove tmp two),
          text_eq-swap tmp r apart,
          get-remove tmp tmp two,
          text_eq_refl tmp,
        )
        refl in
    let wrong : get r three ≡ some c =
      rw (get-insert r r c (remove tmp two), text_eq_refl r) refl in
    let kept : text_eq r r' ≡ false → get r' three ≡ get r' s.tree = λ other.
      rw
        (
          get-insert r' r c (remove tmp two),
          other,
          get-remove r' tmp two,
          apart',
          get-insert r' tmp c one,
          apart',
          get-insert r' tmp b s.tree,
          apart',
        )
        refl in
    rw (planned, at, at', same, there, gone) (refl, wrong, kept, refl)
