-- ===== src/Workspace/Rewrites.antt =====
-- crates/workspace/src/lib.rs: the revisions that later replaces give.
use zmodbit.Prelude.{
  ◌≡◌, sym, ap, ◌∙◌, inl, inr, false, Bool-cases, Option-cases, Option, List, ℕ, ◌+◌, ◌≤◌, ◌==◌,
  Text, unwrap_or, length, ok,
}
use zmodbit.Workspace.Paths.{resolve}
use zmodbit.Workspace.Files.{
  FileRecord, Service, is_writable, file_revision, new_record, record_file, replace,
}
use zmodbit.Workspace.Writes.{get-insert_self}
use zmodbit.Workspace.Revisions.{
  Operation, recorded, IsNotMovedTo, run_operations, run_operations-grows,
}

module _ (sha : Text → Text) (path : Text) where
  replaced :
      (b : Text) (e rev : ℕ) (s : Service)
      → (replace sha path b e s).0 ≡ ok rev
      → (rev ≡ recorded path s.revisions.files + 1)
        × (recorded path (replace sha path b e s).1.revisions.files ≡ rev)
  unfolding replace record_file
  replaced b e rev s h = elim (Option-cases (resolve path)) [
    | inl none_such ↦ cc (rw (replace, none_such) at h)
    | inr (r, at) ↦ elim (Bool-cases (unwrap_or (file_revision path s.revisions) 0 == e)) [
      | inr q ↦ cc (rw (replace, at, q) at h)
      | inl q ↦ elim (Bool-cases (is_writable r s.tree)) [
        | inr w ↦ cc (rw (replace, at, q, w) at h)
        | inl w ↦
            let next : FileRecord = record {
              revision = recorded path s.revisions.files + 1;
              sha256 = sha b;
              byte_length = length b;
              deleted = false;
            } in
            let found = get-insert_self path next s.revisions.files in
            let given : recorded path s.revisions.files + 1 ≡ rev =
              cc (rw (replace, at, q, w) at h) in
            (
              sym given,
              rw (replace, at, q, w)
                  (ap (λ (o : Option FileRecord). (unwrap_or o new_record).revision) found ∙ given),
            )
      ]
    ]
  ]

  -- Over any operations of which no move has the path as its destination, the revision recorded for the path never
  -- goes down, also when the file is deleted and created again; and a replace of the path that succeeds after them
  -- gives a revision above all that were recorded, which is then the recorded one.
  pub run_operations-replace :
      (os : List Operation) (s : Service) (b : Text) (e rev : ℕ)
      → IsNotMovedTo path os
      → let s' = run_operations sha os s in
        (replace sha path b e s').0 ≡ ok rev
        → (recorded path s.revisions.files ≤ recorded path s'.revisions.files)
          × (rev ≡ recorded path s'.revisions.files + 1)
          × (recorded path (replace sha path b e s').1.revisions.files ≡ rev)
  run_operations-replace os s b e rev n h =
      let (above, now) = replaced b e rev (run_operations sha os s) h in
      (run_operations-grows sha path os s n, above, now)
