-- ===== src/Workspace/Patch.antt =====
-- crates/workspace/src/lib.rs: WorkspaceFileService::apply_patch and the match ladder of change_engine. The bytes of
-- a file are valid UTF-8.
use zmodbit.Prelude.{
  Bool, true, false, not, ◌&&◌, List, [], ◌∷◌, ◌++◌, ℕ, zero, suc, ◌+◌, ◌-◌, ◌==◌, leb, ltb, Text,
  text_eq, map, newline, whitespace_normalized, lines, take, drop, length, Result, ok, err,
  if◌then◌else◌,
}
use zmodbit.Workspace.Files.{WorkspaceError, patch_mismatch, Service, read, replace}

pub record PatchHunk : Type 0 where
  pub anchor_line : ℕ
  pub old_lines : List Text
  pub new_lines : List Text

-- `sort_by_key(Reverse(anchor_line))`, which is stable.
abbrev pub insert_hunk : PatchHunk → List PatchHunk → List PatchHunk
insert_hunk h [] = h ∷ []
insert_hunk h (g ∷ gs) =
    let later = insert_hunk h gs in
    if leb g.anchor_line h.anchor_line then h ∷ g ∷ gs else g ∷ later

unfoldable pub bottom_up : List PatchHunk → List PatchHunk
bottom_up [] = []
bottom_up (h ∷ hs) = insert_hunk h (bottom_up hs)

unfoldable pub lines_eq : List Text → List Text → Bool
lines_eq [] [] = true
lines_eq (a ∷ as') (b ∷ bs) = text_eq a b && lines_eq as' bs
lines_eq _ _ = false

-- `lines[start..start + old.len()] == old[..]`, where the slice is in range.
unfoldable pub matches_at : List Text → List Text → ℕ → Bool
unfolding lines_eq
matches_at lines old start = lines_eq (take (length old) (drop start lines)) old

-- `lines.splice(start..start + count, new_lines)`.
abbrev pub splice : ℕ → ℕ → List Text → List Text → List Text
splice start count new_lines lines = take start lines ++ (new_lines ++ drop (start + count) lines)

-- `lines.join("\n") + "\n"`.
unfoldable pub join_lines : List Text → Text
join_lines [] = newline ∷ []
join_lines (l ∷ []) = l ++ newline ∷ []
join_lines (l ∷ m ∷ ls) = l ++ newline ∷ join_lines (m ∷ ls)

unfoldable pub hunk_fits : PatchHunk → List Text → Bool
unfolding matches_at
hunk_fits h lines =
    not (h.anchor_line == 0)
    && leb h.anchor_line (length lines)
    && leb (h.anchor_line - 1 + length h.old_lines) (length lines)
    && matches_at lines h.old_lines (h.anchor_line - 1)

-- The loop over the sorted hunks; the error is the anchor of a hunk that does not fit.
unfoldable pub apply_hunks : List PatchHunk → List Text → Result ℕ (List Text)
unfolding hunk_fits
apply_hunks [] lines = ok lines
apply_hunks (h ∷ hs) lines =
    let rest = apply_hunks hs (splice (h.anchor_line - 1) (length h.old_lines) h.new_lines lines) in
    if hunk_fits h lines then rest else err h.anchor_line

module _ (sha : Text → Text) where
  abbrev pub patched : Text → ℕ → Result ℕ (List Text) → Service → Result WorkspaceError ℕ × Service
  patched path expected (err line) s = (err (patch_mismatch path line), s)
  patched path expected (ok lines) s = replace sha path (join_lines lines) expected s

  abbrev pub patch_of :
      Text
      → ℕ
      → List PatchHunk
      → Result WorkspaceError (Text × ℕ)
      → Service
      → Result WorkspaceError ℕ × Service
  patch_of path expected hunks (err e) s = (err e, s)
  patch_of path expected hunks (ok (original, rev)) s =
      patched path expected (apply_hunks (bottom_up hunks) (lines original)) s

  unfoldable pub apply_patch :
      Text → ℕ → List PatchHunk → Service → Result WorkspaceError ℕ × Service
  unfolding replace read bottom_up apply_hunks join_lines
  apply_patch path expected hunks s = patch_of path expected hunks (read path s) s

pub data MatchTier : Type 0 where
  exact whitespace_remap : MatchTier

-- `out_of_range` stands for the panic of a slice that is longer than the file.
pub data MatchError : Type 0 where
  no_match : (anchor : ℕ) → MatchError
  ambiguous : (anchor : ℕ) → MatchError
  out_of_range : MatchError

-- All of `0..=last` where the lines match, from the first.
unfoldable pub matches_from : List Text → List Text → ℕ → ℕ → List ℕ
unfolding matches_at
matches_from lines old zero start = if matches_at lines old start then start ∷ [] else []
matches_from lines old (suc n) start =
    let rest = matches_from lines old n (suc start) in
    if matches_at lines old start then start ∷ rest else rest

abbrev pub all_matches : List Text → List Text → List ℕ
all_matches lines old = matches_from lines old (length lines - length old) 0

abbrev pub remapped : ℕ → List ℕ → Result MatchError (ℕ × MatchTier)
remapped anchor [] = err (no_match anchor)
remapped anchor (s ∷ []) = ok (s, whitespace_remap)
remapped anchor (s ∷ t ∷ ss) = err (ambiguous anchor)

abbrev pub laddered : ℕ → List ℕ → List ℕ → Result MatchError (ℕ × MatchTier)
laddered anchor [] remap = remapped anchor remap
laddered anchor (s ∷ []) remap = ok (s, exact)
laddered anchor (s ∷ t ∷ ss) remap = err (ambiguous anchor)

-- The whitespace remap compares lines after `whitespace_normalized`.
unfoldable pub match_ladder : List Text → ℕ → List Text → Result MatchError (ℕ × MatchTier)
unfolding matches_from
match_ladder lines anchor [] = err (no_match 0)
match_ladder lines anchor (o ∷ os) =
    if ltb (length lines) (length (o ∷ os))
    then err out_of_range
    else laddered anchor (all_matches lines (o ∷ os))
        (all_matches (map whitespace_normalized lines) (map whitespace_normalized (o ∷ os)))
