-- ===== src/Workspace/Writes.antt =====
-- crates/workspace/src/lib.rs: what the revision precondition of `replace` gives, and where it fails to.
use zmodbit.Prelude.{
  ◌≡◌, ◌≢◌, ◌⊎◌, ◌||◌, Bool, starts_with, refl, sym, ap, inl, inr, true, false, Bool-cases, none,
  some, List, ℕ, ◌+◌, ◌==◌, ==_iff, Text, text_eq, text_eq_iff, text_eq_refl, bytes, get, insert,
  remove, get-insert, unwrap_or, length, ok, err,
}
use zmodbit.Workspace.Paths.{resolve}
use zmodbit.Workspace.Files.{
  FileRecord, Service, stale_revision, io, is_writable, temporary, replace_tree, file_revision,
  new_record, record_file, read, replace, move_file,
}

-- What is under a key right after it was inserted.
pub get-insert_self {ℓ} :
    {V : Type ℓ} (k : Text) (v : V) (m : List (Text × V)) → get k (insert k v m) ≡ some v
get-insert_self k v m = rw (get-insert k k v m, text_eq_refl k) refl

-- The service's own directory, where the ledger and the journal are.
abbrev pub is_own : Text → Bool
is_own r = text_eq r (bytes ".modbit") || starts_with r (bytes ".modbit/")

module _ (sha : Text → Text) (path b r : Text) (expected : ℕ) (s : Service) where
  abbrev pub current_revision : ℕ
  current_revision = unwrap_or (file_revision path s.revisions) 0

  -- A replace of a path within the root and outside the service's own directory ends in one of three ways. The expected
  -- revision is not the one of the ledger, 0 where it has none: the error has both and nothing changes. It is, and the
  -- path cannot be written: an Io error, and the ledger and the journal of changes stay. It is, and the path can be
  -- written: a revision, which a read gives with the bytes, and the ledger is saved.
  pub replace-guarded :
      resolve path ≡ some r
      → is_own r ≡ false
      → let (result, s') = replace sha path b expected s in
        ((current_revision ≢ expected)
          × (result ≡ err (stale_revision path expected current_revision))
          × (s' ≡ s))
        ⊎ ((current_revision ≡ expected)
            × (is_writable r s.tree ≡ false)
            × (result ≡ err io)
            × (s'.revisions ≡ s.revisions)
            × (s'.saved ≡ s.saved)
            × (s'.changes ≡ s.changes))
        ⊎ ((current_revision ≡ expected)
            × (is_writable r s.tree ≡ true)
            × ((rev : ℕ) × (result ≡ ok rev)
                × (read path s' ≡ ok (b, rev))
                × (s'.saved ≡ some s'.revisions)))
  unfolding replace read record_file file_revision
  replace-guarded at outside =
      let r' : FileRecord = unwrap_or (get path s.revisions.files) new_record in
      let next : FileRecord = record {
        revision = r'.revision + 1;
        sha256 = sha b;
        byte_length = length b;
        deleted = false;
      } in
      elim (Bool-cases (current_revision == expected)) [
        | inr q ↦ inl (
          λ e. let same = (==_iff current_revision expected).1 e in cc (q, same),
          rw (at, q) refl,
          rw (at, q) refl,
        )
        | inl q ↦
            let now = (==_iff current_revision expected).0 q in
            elim (Bool-cases (is_writable r s.tree)) [
              | inr w ↦ inr (
                  inl (
                    now,
                    w,
                    rw (at, q, w) refl,
                    rw (at, q, w) refl,
                    rw (at, q, w) refl,
                    rw (at, q, w) refl,
                  ))
              | inl w ↦ inr (
                  inr (
                    now,
                    w,
                    (
                      r'.revision + 1,
                      rw (at, q, w) refl,
                      rw
                          (
                            at,
                            q,
                            w,
                            get-insert_self r b
                                (remove (temporary r) (insert (temporary r) b s.tree)),
                            get-insert_self path next s.revisions.files,
                          )
                          refl,
                      rw (at, q, w) refl,
                    ),
                  ))
            ]
      ]

-- When a live file is moved onto another, which can be written and is one revision further, a read of the destination gives the moved bytes
-- under the very revision that the destination had, so a write that expects this revision is accepted.
pub move-accepts_stale :
    (sha : Text → Text) (from to r r' content b : Text) (f t : FileRecord) (s : Service)
    → resolve from ≡ some r
    → resolve to ≡ some r'
    → get r s.tree ≡ some content
    → get from s.revisions.files ≡ some f
    → get to s.revisions.files ≡ some t
    → t.deleted ≡ false
    → t.revision ≡ f.revision + 1
    → is_writable r' (insert r' content (remove r s.tree)) ≡ true
    → let s' = (move_file from to s).1 in
      (file_revision to s.revisions ≡ some t.revision)
      × (read to s' ≡ ok (content, t.revision))
      × ((replace sha to b t.revision s').0 ≡ ok (t.revision + 1))
unfolding move_file read replace record_file file_revision
move-accepts_stale sha from to r r' content b f t s at at' there source target alive one free =
    let gone : FileRecord = record f { revision = f.revision + 1; deleted = true } in
    let live : FileRecord = record f { revision = f.revision + 1; deleted = false } in
    let found = get-insert_self r' content (remove r s.tree) in
    let moved = get-insert_self to live (insert from gone s.revisions.files) in
    let accepted : (f.revision + 1 == t.revision) ≡ true =
      (==_iff (f.revision + 1) t.revision).1 (sym one) in
    (
      rw (target, alive) refl,
      rw (at, at', there, source, found, moved, one) refl,
      rw (at, at', there, source, moved, accepted, one, free) refl,
    )

-- When two spellings resolve to one writable file and the ledger knows only the first, a write by the second that expects
-- revision 0 is accepted; then the first still has its revision, reads the new bytes under it, and a write that expects
-- it is accepted too.
pub replace-by_other_spelling :
    (sha : Text → Text) (p q r b c : Text) (f : FileRecord) (s : Service)
    → resolve p ≡ some r
    → resolve q ≡ some r
    → get p s.revisions.files ≡ some f
    → f.deleted ≡ false
    → get q s.revisions.files ≡ none
    → is_writable r s.tree ≡ true
    → is_writable r (replace_tree r c s.tree) ≡ true
    → let (first, s') = replace sha q c 0 s in
      (first ≡ ok 1)
      × (read p s' ≡ ok (c, f.revision))
      × ((replace sha p b f.revision s').0 ≡ ok (f.revision + 1))
unfolding replace read record_file file_revision
replace-by_other_spelling sha p q r b c f s at at' known alive unknown free still =
    let other : text_eq q p ≡ false = elim (Bool-cases (text_eq q p)) [
      | inl same ↦
          absurd (let e = ap (λ x. get x s.revisions.files) ((text_eq_iff q p).0 same) in cc)
      | inr n ↦ n
    ] in
    let tmp = temporary r in
    let next : FileRecord = record {
      revision = 1;
      sha256 = sha c;
      byte_length = length c;
      deleted = false;
    } in
    let found = get-insert_self r c (remove tmp (insert tmp c s.tree)) in
    let kept : get p (insert q next s.revisions.files) ≡ some f =
      rw (get-insert p q next s.revisions.files, other) known in
    let accepted : (f.revision == f.revision) ≡ true = (==_iff f.revision f.revision).1 refl in
    (
      rw (at', unknown, free) refl,
      rw (at, at', unknown, free, found, kept, alive) refl,
      rw (at, at', unknown, free, kept, alive, accepted, still) refl,
    )
