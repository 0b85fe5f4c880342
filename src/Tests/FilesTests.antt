-- ===== src/Tests/FilesTests.antt =====
-- Runs of the file service and of transactions, with the identity for SHA-256.
use zmodbit.Prelude.{
  ◌≡◌, ◌≢◌, refl, false, none, some, List, [], ◌∷◌, ◌++◌, ℕ, ◌≤◌, Text, text_eq, starts_with, bytes,
  map, newline, get, length, lines, unwrap_or, ok, err, whitespace_normalized,
}
use zmodbit.Workspace.Paths.{resolve, with_extension}
use zmodbit.Prelude.{◌⊎◌, true, text_lt, insert, remove, ◌+◌}
use zmodbit.Workspace.Files.{
  FileRecord, Service, file_revision, read, replace, stale_revision, io, is_writable, create,
  move_file, record_file,
}
use zmodbit.Workspace.Patch.{whitespace_remap, match_ladder, bottom_up, apply_hunks}
use zmodbit.Workspace.Engine.{
  EditOp, io_failed, plan_edits, plan_edit, ladder_hunks, apply_transaction,
}
use zmodbit.Workspace.Writes.{replace-guarded}
use zmodbit.Workspace.Revisions.{Operation, recorded, creates, moves, run_operations}
use zmodbit.Workspace.Rewrites.{run_operations-replace}
use zmodbit.Workspace.Ladder.{Placed, match_ladder-Placed}
use zmodbit.Workspace.Staging.{Planned, IsNoStaging, written, transaction-written}
use zmodbit.Workspace.Failures.{transaction-mixes_up}

abbrev plain : Text → Text
plain b = b

abbrev at_revision : ℕ → FileRecord
at_revision n = record { revision = n; sha256 = []; byte_length = 2; deleted = false }

abbrev text_x : Text
text_x = bytes "x" ++ newline ∷ []

abbrev text_y : Text
text_y = bytes "y" ++ newline ∷ []

abbrev two_files : Service
two_files = record {
  tree = (bytes "a.rs", text_x) ∷ (bytes "a.toml", text_y) ∷ (bytes "b.rs", text_y) ∷ [];
  revisions = record {
    workspace_revision = 5;
    files =
        (bytes "a.rs", at_revision 1)
        ∷ (bytes "a.toml", at_revision 2)
        ∷ (bytes "b.rs", at_revision 1)
        ∷ [];
  };
  saved = none;
  changes = [];
}

resolves_dots : resolve (bytes "./a//b") ≡ some (bytes "a/b")
unfolding resolve text_eq starts_with
resolves_dots = refl

refuses_parent : resolve (bytes "a/../b") ≡ none
unfolding resolve text_eq starts_with
refuses_parent = refl

one_extension : with_extension (bytes "txn-tmp") (bytes "d.x/a.rs") ≡ bytes "d.x/a.txn-tmp"
unfolding with_extension
one_extension = refl

hidden_file : with_extension (bytes "txn-tmp") (bytes ".env") ≡ bytes ".env.txn-tmp"
unfolding with_extension
hidden_file = refl

patch_runs :
    apply_hunks
      (bottom_up (
        record {
          anchor_line = 1;
          old_lines = bytes "x" ∷ [];
          new_lines = bytes "p" ∷ bytes "q" ∷ [];
        }
        ∷ record { anchor_line = 2; old_lines = bytes "y" ∷ []; new_lines = [] }
        ∷ []))
      (bytes "x" ∷ bytes "y" ∷ [])
    ≡ ok (bytes "p" ∷ bytes "q" ∷ [])
unfolding apply_hunks bottom_up text_eq
patch_runs = refl

replace-guarded_example :
    let (result, s') = replace plain (bytes "a.rs") text_y 1 two_files in
    let current = unwrap_or (file_revision (bytes "a.rs") two_files.revisions) 0 in
    ((current ≢ 1) × (result ≡ err (stale_revision (bytes "a.rs") 1 current)) × (s' ≡ two_files))
    ⊎ ((current ≡ 1)
        × (is_writable (bytes "a.rs") two_files.tree ≡ false)
        × (result ≡ err io)
        × (s'.revisions ≡ two_files.revisions)
        × (s'.saved ≡ two_files.saved)
        × (s'.changes ≡ two_files.changes))
    ⊎ ((current ≡ 1)
        × (is_writable (bytes "a.rs") two_files.tree ≡ true)
        × ((rev : ℕ) × (result ≡ ok rev)
            × (read (bytes "a.rs") s' ≡ ok (text_y, rev))
            × (s'.saved ≡ some s'.revisions)))
unfolding resolve text_eq starts_with
replace-guarded_example =
    replace-guarded plain (bytes "a.rs") text_y (bytes "a.rs") 1 two_files refl refl

-- Below the file `a.rs` nothing is written.
replace_below_file : (replace plain (bytes "a.rs/b") text_y 0 two_files).0 ≡ err io
unfolding replace file_revision resolve text_eq starts_with get
replace_below_file = refl

abbrev some_operations : List Operation
some_operations = moves (bytes "a.rs") (bytes "b.rs") ∷ creates (bytes "a.rs") text_x ∷ []

run_operations-replace_example :
    let s' = run_operations plain some_operations two_files in
    (recorded (bytes "a.rs") two_files.revisions.files ≤ recorded (bytes "a.rs") s'.revisions.files)
    × (4 ≡ recorded (bytes "a.rs") s'.revisions.files + 1)
    × (recorded (bytes "a.rs") (replace plain (bytes "a.rs") text_y 3 s').1.revisions.files ≡ 4)
unfolding text_eq text_lt move_file create record_file replace file_revision resolve starts_with get
    insert remove with_extension
run_operations-replace_example =
    run_operations-replace plain (bytes "a.rs") some_operations two_files text_y 3 4 (refl, tt) refl

match_ladder-Placed_example :
    (length (bytes "p  q" ∷ []) ≤ length (bytes "x" ∷ bytes "p q" ∷ []))
    × Placed whitespace_remap (bytes "x" ∷ bytes "p q" ∷ []) (bytes "p  q" ∷ []) 1
unfolding match_ladder text_eq whitespace_normalized
match_ladder-Placed_example =
    match_ladder-Placed (bytes "x" ∷ bytes "p q" ∷ []) (bytes "p  q" ∷ []) 7 1 whitespace_remap refl

abbrev to_y : Text → ℕ → EditOp
to_y path rev = record {
  path = path;
  expected_revision = rev;
  hunks = record { anchor_line = 1; old_lines = bytes "x" ∷ []; new_lines = bytes "y" ∷ [] } ∷ [];
}

abbrev to_z : Text → ℕ → EditOp
to_z path rev = record {
  path = path;
  expected_revision = rev;
  hunks = record { anchor_line = 1; old_lines = bytes "y" ∷ []; new_lines = bytes "z" ∷ [] } ∷ [];
}

abbrev text_z : Text
text_z = bytes "z" ++ newline ∷ []

transaction-written_example :
    let (result, s') =
      apply_transaction plain (to_y (bytes "a.rs") 1 ∷ to_z (bytes "b.rs") 1 ∷ []) two_files in
    Planned two_files
      (to_y (bytes "a.rs") 1 ∷ to_z (bytes "b.rs") 1 ∷ [])
      ((bytes "a.rs", text_y) ∷ (bytes "b.rs", text_z) ∷ [])
    × ((revs : List (Text × ℕ)) × (result ≡ ok revs)
        × (map (λ (x : Text × ℕ). x.0) revs ≡ bytes "a.rs" ∷ bytes "b.rs" ∷ []))
    × ((k : Text)
        → IsNoStaging k ((bytes "a.rs", text_y) ∷ (bytes "b.rs", text_z) ∷ [])
        → get k s'.tree
          ≡ written ((bytes "a.rs", text_y) ∷ (bytes "b.rs", text_z) ∷ []) k (get k two_files.tree))
unfolding plan_edits plan_edit ladder_hunks match_ladder resolve read lines text_eq starts_with get
    bottom_up with_extension
transaction-written_example =
    transaction-written plain (to_y (bytes "a.rs") 1 ∷ to_z (bytes "b.rs") 1 ∷ [])
      ((bytes "a.rs", text_y) ∷ (bytes "b.rs", text_z) ∷ [])
      ((bytes "a.rs", text_y) ∷ (bytes "b.rs", text_z) ∷ []) two_files refl
      (refl, refl, (refl, refl, tt)) (((refl, refl, refl), tt), (tt, tt))

transaction-mixes_up_example :
    let (result, s') =
      apply_transaction plain (to_y (bytes "a.rs") 1 ∷ to_z (bytes "a.toml") 2 ∷ []) two_files in
    (result ≡ err io_failed)
    × (get (bytes "a.rs") s'.tree ≡ some text_z)
    × (text_eq (bytes "a.rs") (bytes "a.toml") ≡ false
        → get (bytes "a.toml") s'.tree ≡ get (bytes "a.toml") two_files.tree)
    × (s'.revisions ≡ two_files.revisions)
unfolding plan_edits plan_edit ladder_hunks match_ladder resolve read lines text_eq starts_with get
    bottom_up with_extension
transaction-mixes_up_example =
    transaction-mixes_up plain (to_y (bytes "a.rs") 1 ∷ to_z (bytes "a.toml") 2 ∷ []) (bytes "a.rs")
      (bytes "a.toml") text_y text_z (bytes "a.rs") (bytes "a.toml") two_files refl refl refl refl
      refl refl
