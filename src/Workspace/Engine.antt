-- ===== src/Workspace/Engine.antt =====
-- crates/workspace/src/lib.rs: change_engine::apply_transaction. The journal note, which the source drops, is left out.
use zmodbit.Prelude.{
  Option, none, some, List, [], ◌∷◌, ℕ, ◌==◌, Text, bytes, Map, insert, lines, length, Result, ok,
  err, ◌>>=◌, if◌then◌else◌,
}
use zmodbit.Workspace.Paths.{resolve, with_extension}
use zmodbit.Workspace.Files.{
  WorkspaceError, outside_root, path_not_found, already_exists, stale_revision, patch_mismatch, io,
  Service, read, rename, commit_staged,
}
use zmodbit.Workspace.Patch.{
  PatchHunk, bottom_up, splice, join_lines, MatchTier, MatchError, no_match, ambiguous,
  out_of_range, match_ladder,
}

pub record EditOp : Type 0 where
  pub path : Text
  pub expected_revision : ℕ
  pub hunks : List PatchHunk

-- `panicked` stands for the panic of the match ladder.
pub data TransactionError : Type 0 where
  precondition : (path : Text) (expected actual : ℕ) → TransactionError
  no_match_in ambiguous_in : (path : Text) (anchor : ℕ) → TransactionError
  io_failed panicked : TransactionError

abbrev pub match_error : Text → MatchError → TransactionError
match_error path (no_match anchor) = no_match_in path anchor
match_error path (ambiguous anchor) = ambiguous_in path anchor
match_error path out_of_range = panicked

abbrev pub read_error : ℕ → WorkspaceError → TransactionError
read_error expected (path_not_found p) = precondition p expected 0
read_error expected (outside_root p) = io_failed
read_error expected (already_exists p) = io_failed
read_error expected (stale_revision p e a) = io_failed
read_error expected (patch_mismatch p l) = io_failed
read_error expected io = io_failed

abbrev pub ladder_one :
    Text
    → PatchHunk
    → List Text
    → (List Text → Result TransactionError (List Text))
    → Result MatchError (ℕ × MatchTier)
    → Result TransactionError (List Text)
ladder_one path h lines later (err e) = err (match_error path e)
ladder_one path h lines later (ok (start, tier)) =
    later (splice start (length h.old_lines) h.new_lines lines)

-- The loop over the sorted hunks.
unfoldable pub ladder_hunks :
    Text → List PatchHunk → List Text → Result TransactionError (List Text)
unfolding match_ladder
ladder_hunks path [] lines = ok lines
ladder_hunks path (h ∷ hs) lines =
    ladder_one path h lines (λ ls. ladder_hunks path hs ls)
      (match_ladder lines h.anchor_line h.old_lines)

abbrev pub joined_bytes :
    Text → Result TransactionError (List Text) → Result TransactionError (Text × Text)
joined_bytes path (ok ls) = ok (path, join_lines ls)
joined_bytes path (err e) = err e

abbrev pub plan_read :
    EditOp → Result WorkspaceError (Text × ℕ) → Result TransactionError (Text × Text)
plan_read edit (err e) = err (read_error edit.expected_revision e)
plan_read edit (ok (original, current)) =
    if current == edit.expected_revision
    then joined_bytes edit.path (ladder_hunks edit.path (bottom_up edit.hunks) (lines original))
    else err (precondition edit.path edit.expected_revision current)

-- The path of an edit with its new bytes.
unfoldable pub plan_edit : EditOp → Service → Result TransactionError (Text × Text)
unfolding read ladder_hunks bottom_up join_lines
plan_edit edit s = plan_read edit (read edit.path s)

-- The first phase.
unfoldable pub plan_edits : List EditOp → Service → Result TransactionError (List (Text × Text))
unfolding plan_edit
plan_edits [] s = ok []
plan_edits (e ∷ es) s = let rest = plan_edits es s in do p ← plan_edit e s; ps ← rest; ok (p ∷ ps)

abbrev pub staging_file : Text → Text
staging_file r = with_extension (bytes "txn-tmp") r

abbrev pub Staged : Type 0
Staged = Result TransactionError (List (Text × Text)) × Map Text

abbrev pub add_staged : Text × Text → Staged → Staged
add_staged p (ok ps, tree) = (ok (p ∷ ps), tree)
add_staged p (err e, tree) = (err e, tree)

abbrev pub stage_one : Option Text → Text → Text → (Map Text → Staged) → Map Text → Staged
stage_one none path b later tree = (err (no_match_in path 0), tree)
stage_one (some r) path b later tree =
    add_staged (staging_file r, r) (later (insert (staging_file r) b tree))

-- All temporary files are written, with the pairs of each and its target.
unfoldable pub stage_all : List (Text × Text) → Map Text → Staged
stage_all [] tree = (ok [], tree)
stage_all ((path, b) ∷ ps) tree = stage_one (resolve path) path b (λ t. stage_all ps t) tree

abbrev pub rename_one :
    Option (Map Text)
    → (Map Text → Result TransactionError (Unit {0}) × Map Text)
    → Map Text
    → Result TransactionError (Unit {0}) × Map Text
rename_one none later tree = (err io_failed, tree)
rename_one (some tree') later tree = later tree'

unfoldable pub rename_all :
    List (Text × Text) → Map Text → Result TransactionError (Unit {0}) × Map Text
rename_all [] tree = (ok tt, tree)
rename_all ((tmp, target) ∷ ps) tree =
    rename_one (rename tmp target tree) (λ t. rename_all ps t) tree

module _ (sha : Text → Text) where
  -- The third phase.
  unfoldable pub commit_all : List (Text × Text) → Service → List (Text × ℕ) × Service
  unfolding commit_staged
  commit_all [] s = ([], s)
  commit_all ((path, b) ∷ ps) s =
      let (rev, s') = commit_staged sha path b s in
      let (revs, s'') = commit_all ps s' in ((path, rev) ∷ revs, s'')

  abbrev pub committed_after :
      List (Text × Text)
      → Service
      → Result TransactionError (Unit {0}) × Map Text
      → Result TransactionError (List (Text × ℕ)) × Service
  committed_after planned s (err e, tree) = (err e, record s { tree = tree })
  committed_after planned s (ok u, tree) =
      let (revs, s') = commit_all planned (record s { tree = tree }) in (ok revs, s')

  abbrev pub renamed_after :
      List (Text × Text)
      → Service
      → Result TransactionError (List (Text × Text)) × Map Text
      → Result TransactionError (List (Text × ℕ)) × Service
  renamed_after planned s (err e, tree) = (err e, record s { tree = tree })
  renamed_after planned s (ok staged, tree) = committed_after planned s (rename_all staged tree)

  abbrev pub applied :
      Result TransactionError (List (Text × Text))
      → Service
      → Result TransactionError (List (Text × ℕ)) × Service
  applied (err e) s = (err e, s)
  applied (ok planned) s = renamed_after planned s (stage_all planned s.tree)

  unfoldable pub apply_transaction :
      List EditOp → Service → Result TransactionError (List (Text × ℕ)) × Service
  unfolding plan_edits stage_all rename_all commit_all
  apply_transaction edits s = applied (plan_edits edits s) s
