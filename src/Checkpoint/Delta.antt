-- ===== src/Checkpoint/Delta.antt =====
-- crates/checkpoint/src/delta.rs: the delta journal. The surface metadata, which `restore` does not read, is left
-- out.
use zmodbit.Prelude.{
  ◌≡◌, refl, ap, sym, ◌∙◌, Option, none, some, List, [], ◌∷◌, ◌++◌, ℕ, Text, text_eq, Map, get,
  insert, remove, get-insert, get-remove, push, Result, ok, err, if◌then◌else◌, Option-cases, inl,
  inr, arith,
}

pub record WorktreeDelta : Type 0 where
  pub path : Text
  pub content : Option Text

pub record Cursors : Type 0 where
  pub runtime_seq : ℕ
  pub evidence_seq : ℕ

pub record DeltaJournal : Type 0 where
  pub baseline : Map Text
  pub deltas : List WorktreeDelta
  pub cursors : Cursors

pub data JournalError : Type 0 where
  missing_baseline : (path : Text) → JournalError

pub record RestoredState : Type 0 where
  pub files : Map Text
  pub cursors : Cursors

unfoldable pub from_baseline : Map Text → Cursors → DeltaJournal
from_baseline files cursors = record { baseline = files; deltas = []; cursors = cursors }

unfoldable pub push_delta : WorktreeDelta → DeltaJournal → DeltaJournal
push_delta delta j = record j { deltas = push j.deltas delta }

unfoldable pub set_cursors : ℕ → ℕ → DeltaJournal → DeltaJournal
set_cursors runtime_seq evidence_seq j = record j {
  cursors = record { runtime_seq = runtime_seq; evidence_seq = evidence_seq };
}

-- One round of the loop; a deletion must find its file.
abbrev removed : Text → Map Text → Option Text → Result JournalError (Map Text)
removed path files none = err (missing_baseline path)
removed path files (some bytes) = ok (remove path files)

abbrev pub apply_delta : WorktreeDelta → Map Text → Option Text → Result JournalError (Map Text)
apply_delta delta files (some bytes) = ok (insert delta.path bytes files)
apply_delta delta files none = removed delta.path files (get delta.path files)

unfoldable pub apply_deltas : List WorktreeDelta → Map Text → Result JournalError (Map Text)
apply_deltas [] files = ok files
apply_deltas (d ∷ ds) files = elim (apply_delta d files d.content) [
  | ok files' ↦ apply_deltas ds files'
  | err e ↦ err e
]

abbrev restored : Cursors → Result JournalError (Map Text) → Result JournalError RestoredState
restored cursors (ok files) = ok (record { files = files; cursors = cursors })
restored cursors (err e) = err e

unfoldable pub restore : DeltaJournal → Result JournalError RestoredState
restore j = restored j.cursors (apply_deltas j.deltas j.baseline)

-- What a path holds after the deltas, given what it held before.
abbrev pub content_after : List WorktreeDelta → Text → Option Text → Option Text
content_after [] path before = before
content_after (d ∷ ds) path before =
    content_after ds path (if text_eq d.path path then d.content else before)

-- The deltas start with some after which a deletion finds no file at its path.
abbrev pub Dangling : List WorktreeDelta → Map Text → Text → Type 0
Dangling ds files path =
    (earlier : List WorktreeDelta) × (d : WorktreeDelta) × (later : List WorktreeDelta) × (ds
      ≡ earlier ++ d ∷ later)
    × (d.path ≡ path)
    × (d.content ≡ none)
    × (content_after earlier path (get path files) ≡ none)

abbrev pub Applied : List WorktreeDelta → Map Text → Result JournalError (Map Text) → Type 0
Applied ds files (ok files') =
    (path : Text) → get path files' ≡ content_after ds path (get path files)
Applied ds files (err (missing_baseline path)) = Dangling ds files path

Applied-step :
    (d : WorktreeDelta) (ds : List WorktreeDelta) (files files' : Map Text)
    (r : Result JournalError (Map Text))
    → ((path : Text)
        → get path files' ≡ (if text_eq d.path path then d.content else get path files))
    → Applied ds files' r
    → Applied (d ∷ ds) files r
Applied-step d ds files files' (ok out) step h =
    λ path. h path ∙ ap (content_after ds path) (step path)
Applied-step d ds files files' (err (missing_baseline path)) step
      (earlier, e, later, split, at, deleted, gone) =
    (
      d ∷ earlier,
      e,
      later,
      ap (λ xs. d ∷ xs) split,
      at,
      deleted,
      ap (content_after earlier path) (sym (step path)) ∙ gone,
    )

apply_deltas-ok :
    (d : WorktreeDelta) (ds : List WorktreeDelta) (files files' : Map Text)
    → apply_delta d files d.content ≡ ok files'
    → apply_deltas (d ∷ ds) files ≡ apply_deltas ds files'
unfolding apply_deltas
apply_deltas-ok d ds files files' h = ground (arith, h)

apply_deltas-err :
    (d : WorktreeDelta) (ds : List WorktreeDelta) (files : Map Text) (e : JournalError)
    → apply_delta d files d.content ≡ err e
    → apply_deltas (d ∷ ds) files ≡ err e
unfolding apply_deltas
apply_deltas-err d ds files e h = ground (arith, h)

apply_deltas-Applied :
    (ds : List WorktreeDelta) (files : Map Text) → Applied ds files (apply_deltas ds files)
unfolding apply_deltas
apply_deltas-Applied [] files = λ path. refl
apply_deltas-Applied (d ∷ ds) files = elim (Option-cases d.content) [
  | inr (bytes, edit) ↦
      let edited = insert d.path bytes files in
      rw (apply_deltas-ok d ds files edited (ground arith)) (
        Applied-step d ds files edited _
          (λ path. ground (arith, edit, get-insert path d.path bytes files))
          (apply_deltas-Applied ds edited))
  | inl deletion ↦ elim (Option-cases (get d.path files)) [
    | inr (bytes, found) ↦
        let left = remove d.path files in
        rw (apply_deltas-ok d ds files left (ground arith)) (
          Applied-step d ds files left _
            (λ path. ground (arith, deletion, get-remove path d.path files))
            (apply_deltas-Applied ds left))
    | inl gone ↦
        rw (apply_deltas-err d ds files (missing_baseline d.path) (ground arith))
          ([], d, ds, refl, refl, deletion, gone)
  ]
]

abbrev pub Restored : DeltaJournal → Result JournalError RestoredState → Type 0
Restored j (ok state) =
    ((path : Text) → get path state.files ≡ content_after j.deltas path (get path j.baseline))
    × (state.cursors ≡ j.cursors)
Restored j (err (missing_baseline path)) = Dangling j.deltas j.baseline path

restored-Restored :
    (j : DeltaJournal) (r : Result JournalError (Map Text))
    → Applied j.deltas j.baseline r
    → Restored j (restored j.cursors r)
restored-Restored j (ok files) h = (h, refl)
restored-Restored j (err (missing_baseline path)) h = h

-- Restoring gives every path its last content, or no file, and the journal's cursors; it fails only when a deletion
-- finds no file at its path.
pub restore-Restored : (j : DeltaJournal) → Restored j (restore j)
unfolding restore
restore-Restored j = restored-Restored j _ (apply_deltas-Applied j.deltas j.baseline)
