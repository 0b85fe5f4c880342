-- ===== src/Workspace/Files.antt =====
-- crates/workspace/src/lib.rs: WorkspaceFileService. The tree is a map from resolved paths to the bytes of files; its
-- directories are those that its files need. The ledger and the journal of changes are their decoded contents, SHA-256
-- is a parameter, and the disk takes every write that the tree allows: a directory is not written over, and nothing is
-- made below a file. The service's own directory `.modbit` is outside the tree.
use zmodbit.Prelude.{
  Option, none, some, Bool, true, false, List, [], ℕ, ◌+◌, ◌==◌, Text, bytes, Map, get, insert,
  remove, unwrap_or, push, length, not, ◌||◌, is_filled, any, starts_with, Result, ok, err,
  if◌then◌else◌,
}
use zmodbit.Workspace.Paths.{slash, resolve, with_extension}

pub record FileRecord : Type 0 where
  pub revision : ℕ
  pub sha256 : Text
  pub byte_length : ℕ
  pub deleted : Bool

pub record RevisionMap : Type 0 where
  pub workspace_revision : ℕ
  pub files : Map FileRecord

pub data FileChangeKind : Type 0 where
  created modified deleted : FileChangeKind

pub record FileChangeEvent : Type 0 where
  pub path : Text
  pub change_kind : FileChangeKind
  pub file_revision : ℕ
  pub workspace_revision : ℕ
  pub sha256 : Text
  pub prev_sha256 : Text

pub data WorkspaceError : Type 0 where
  outside_root path_not_found already_exists : (path : Text) → WorkspaceError
  stale_revision : (path : Text) (expected actual : ℕ) → WorkspaceError
  patch_mismatch : (path : Text) (line : ℕ) → WorkspaceError
  io : WorkspaceError

-- The service with what it keeps on disk: the tree, the ledger file if there is one, and the journal.
pub record Service : Type 0 where
  pub tree : Map Text
  pub revisions : RevisionMap
  pub saved : Option RevisionMap
  pub changes : List FileChangeEvent

abbrev pub empty_revisions : RevisionMap
empty_revisions = record { workspace_revision = 0; files = [] }

-- `open` on what is on disk.
unfoldable pub open_workspace : Map Text → Option RevisionMap → List FileChangeEvent → Service
open_workspace tree saved changes = record {
  tree = tree;
  revisions = unwrap_or saved empty_revisions;
  saved = saved;
  changes = changes;
}

-- `files.get(path).filter(|r| !r.deleted)`.
abbrev pub undeleted : Option FileRecord → Option FileRecord
undeleted none = none
undeleted (some r) = if r.deleted then none else some r

abbrev pub revision_in : Option FileRecord → Option ℕ
revision_in none = none
revision_in (some r) = some r.revision

abbrev pub sha_in : Option FileRecord → Text
sha_in none = []
sha_in (some r) = r.sha256

unfoldable pub file_revision : Text → RevisionMap → Option ℕ
file_revision path m = revision_in (undeleted (get path m.files))

abbrev pub new_record : FileRecord
new_record = record { revision = 0; sha256 = []; byte_length = 0; deleted = false }

-- `fs::rename`; none for a file that is not there.
abbrev pub rename_from : Option Text → Text → Text → Map Text → Option (Map Text)
rename_from none from to tree = none
rename_from (some b) from to tree = some (insert to b (remove from tree))

abbrev pub rename : Text → Text → Map Text → Option (Map Text)
rename from to tree = rename_from (get from tree) from to tree

abbrev pub with_revision : Text → Text → Option ℕ → Result WorkspaceError (Text × ℕ)
with_revision path b none = err (path_not_found path)
with_revision path b (some rev) = ok (b, rev)

abbrev pub read_at : Option Text → Text → Service → Result WorkspaceError (Text × ℕ)
read_at none path s = err io
read_at (some b) path s = with_revision path b (file_revision path s.revisions)

abbrev pub read_in : Option Text → Text → Service → Result WorkspaceError (Text × ℕ)
read_in none path s = err (outside_root path)
read_in (some r) path s = read_at (get r s.tree) path s

unfoldable pub read : Text → Service → Result WorkspaceError (Text × ℕ)
unfolding file_revision
read path s = read_in (resolve path) path s

unfoldable pub stat : Text → Service → Option (ℕ × Text × ℕ)
stat path s = elim (undeleted (get path s.revisions.files)) [
  | none ↦ none
  | some r ↦ some (r.revision, r.sha256, r.byte_length)
]

-- A directory of the tree: the root, or one that a file lies in.
abbrev pub is_directory : Text → Map Text → Bool
is_directory p tree =
    not (is_filled p) || any (λ (e : Text × Text). starts_with e.0 (push p slash)) tree

-- A path that leads through a file, so that its directories cannot be made.
abbrev pub is_below_file : Text → Map Text → Bool
is_below_file p tree = any (λ (e : Text × Text). starts_with p (push e.0 slash)) tree

abbrev pub temporary : Text → Text
temporary r = with_extension (bytes "modbit-tmp") r

-- The directories can be made, and neither the file nor the temporary file beside it is a directory.
abbrev pub is_writable : Text → Map Text → Bool
is_writable r tree =
    not (is_below_file r tree || is_directory r tree || is_directory (temporary r) tree)

-- The temporary file is written and renamed over the file.
abbrev pub replace_tree : Text → Text → Map Text → Map Text
replace_tree r b tree = insert r b (remove (temporary r) (insert (temporary r) b tree))

-- What a failed write leaves: a rename onto a directory of the tree keeps the temporary file; that of the root would be
-- outside the tree.
abbrev pub failed_tree : Text → Text → Map Text → Map Text
failed_tree r b tree =
    if not (is_filled r) || is_below_file r tree || is_directory (temporary r) tree
    then tree
    else insert (temporary r) b tree

-- The ledger of a move: a tombstone at the source, and its record, alive, at the destination.
abbrev pub move_records : Text → Text → RevisionMap → RevisionMap
move_records from to m =
    let old = unwrap_or (get from m.files) new_record in
    let gone = record old { revision = old.revision + 1; deleted = true } in
    record {
      workspace_revision = m.workspace_revision + 1;
      files = insert to (record gone { deleted = false }) (insert from gone m.files);
    }

abbrev pub with_record : Text → FileRecord → RevisionMap → RevisionMap
with_record path r m = record {
  workspace_revision = m.workspace_revision + 1;
  files = insert path r m.files;
}

abbrev pub event_of : Text → FileChangeKind → ℕ → Text → RevisionMap → FileChangeEvent
event_of path kind rev prev m = record {
  path = path;
  change_kind = kind;
  file_revision = rev;
  workspace_revision = m.workspace_revision;
  sha256 = sha_in (get path m.files);
  prev_sha256 = prev;
}

-- `save_revisions` and then `emit_event`.
abbrev pub published : Text → FileChangeKind → ℕ → Text → RevisionMap → Service → Service
published path kind rev prev m s = record s {
  revisions = m;
  saved = some m;
  changes = push s.changes (event_of path kind rev prev m);
}

abbrev pub delete_at : Option Text → Text → Text → Service → Result WorkspaceError ℕ × Service
delete_at none r path s = (err io, s)
delete_at (some b) r path s =
    let old = unwrap_or (get path s.revisions.files) new_record in
    let gone : FileRecord = record {
      revision = old.revision + 1;
      sha256 = [];
      byte_length = 0;
      deleted = true;
    } in
    (
      ok (old.revision + 1),
      published path deleted (old.revision + 1) (sha_in (get path s.revisions.files))
          (with_record path gone s.revisions) (record s { tree = remove r s.tree }),
    )

abbrev pub delete_in : Option Text → Text → Service → Result WorkspaceError ℕ × Service
delete_in none path s = (err (outside_root path), s)
delete_in (some r) path s = delete_at (get r s.tree) r path s

unfoldable pub delete : Text → Service → Result WorkspaceError ℕ × Service
delete path s = delete_in (resolve path) path s

abbrev pub move_tree : Option (Map Text) → Text → Text → Service → Result WorkspaceError ℕ × Service
move_tree none from to s = (err io, s)
move_tree (some tree) from to s =
    let old = unwrap_or (get from s.revisions.files) new_record in
    let m = move_records from to s.revisions in
    (
      ok (old.revision + 1),
      published to created (old.revision + 1) [] m
          (published from deleted (old.revision + 1) old.sha256 m (record s { tree = tree })),
    )

abbrev pub move_in :
    Option Text → Option Text → Text → Text → Service → Result WorkspaceError ℕ × Service
move_in none to' from to s = (err (outside_root from), s)
move_in (some r) none from to s = (err (outside_root to), s)
move_in (some r) (some r') from to s = move_tree (rename r r' s.tree) from to s

unfoldable pub move_file : Text → Text → Service → Result WorkspaceError ℕ × Service
move_file from to s = move_in (resolve from) (resolve to) from to s

module _ (sha : Text → Text) where
  unfoldable pub record_file : Text → Text → RevisionMap → RevisionMap × ℕ
  record_file path b m =
      let r = unwrap_or (get path m.files) new_record in
      (
        record {
          workspace_revision = m.workspace_revision + 1;
          files =
              insert path
                (record {
                  revision = r.revision + 1;
                  sha256 = sha b;
                  byte_length = length b;
                  deleted = false;
                })
                m.files;
        },
        r.revision + 1,
      )

  -- The bytes stand in the tree; the new revision is recorded, saved and published.
  abbrev pub committed :
      Text → FileChangeKind → Text → Text → Service → Result WorkspaceError ℕ × Service
  committed path kind b prev s =
      let (m, rev) = record_file path b s.revisions in (ok rev, published path kind rev prev m s)

  unfoldable pub commit_staged : Text → Text → Service → ℕ × Service
  unfolding record_file
  commit_staged path b s =
      let (m, rev) = record_file path b s.revisions in
      (rev, record s { revisions = m; saved = some m })

  abbrev pub create_at :
      Option Text → Text → Text → Text → Service → Result WorkspaceError ℕ × Service
  create_at (some old) r path b s = (err (already_exists path), s)
  create_at none r path b s =
      if is_directory r s.tree
      then (err (already_exists path), s)
      else if is_below_file r s.tree
      then (err io, s)
      else committed path created b [] (record s { tree = insert r b s.tree })

  abbrev pub create_in : Option Text → Text → Text → Service → Result WorkspaceError ℕ × Service
  create_in none path b s = (err (outside_root path), s)
  create_in (some r) path b s = create_at (get r s.tree) r path b s

  unfoldable pub create : Text → Text → Service → Result WorkspaceError ℕ × Service
  unfolding record_file
  create path b s = create_in (resolve path) path b s

  abbrev pub replace_in :
      Option Text → Text → Text → ℕ → Service → Result WorkspaceError ℕ × Service
  replace_in none path b expected s = (err (outside_root path), s)
  replace_in (some r) path b expected s =
      let current = unwrap_or (file_revision path s.revisions) 0 in
      if not (current == expected)
      then (err (stale_revision path expected current), s)
      else if is_writable r s.tree
      then committed path modified b (sha_in (undeleted (get path s.revisions.files)))
          (record s { tree = replace_tree r b s.tree })
      else (err io, record s { tree = failed_tree r b s.tree })

  unfoldable pub replace : Text → Text → ℕ → Service → Result WorkspaceError ℕ × Service
  unfolding record_file file_revision
  replace path b expected s = replace_in (resolve path) path b expected s

  abbrev pub adopt_at : Option ℕ → Text → Text → Service → Result WorkspaceError ℕ × Service
  adopt_at (some rev) path b s = (ok rev, s)
  adopt_at none path b s =
      let (m, rev) = record_file path b s.revisions in
      (ok rev, record s { revisions = m; saved = some m })

  abbrev pub adopt_from : Option Text → Text → Service → Result WorkspaceError ℕ × Service
  adopt_from none path s = (err io, s)
  adopt_from (some b) path s = adopt_at (file_revision path s.revisions) path b s

  abbrev pub adopt_in : Option Text → Text → Service → Result WorkspaceError ℕ × Service
  adopt_in none path s = (err (outside_root path), s)
  adopt_in (some r) path s = adopt_from (get r s.tree) path s

  unfoldable pub adopt : Text → Service → Result WorkspaceError ℕ × Service
  unfolding record_file file_revision
  adopt path s = adopt_in (resolve path) path s
