-- ===== src/Workspace/Paths.antt =====
-- crates/workspace/src/lib.rs: WorkspaceFileService::resolve on a tree without symbolic links, where canonicalization
-- gives every path back. A resolved path is the text of its components below the root, joined by "/".
use zmodbit.Prelude.{
  Option, none, some, List, [], ◌∷◌, ◌++◌, ℕ, ◌==◌, Text, text_eq, bytes, push, starts_with,
  if◌then◌else◌,
}

abbrev pub slash : ℕ
slash = 47

unfoldable pub split_path : Text → Text → List Text
split_path piece [] = piece ∷ []
split_path piece (c ∷ t) =
    let next = split_path [] t in
    let longer = split_path (push piece c) t in if c == slash then piece ∷ next else longer

-- The loop over `Path::components`: empty pieces and "." are skipped, and ".." is refused; none is OutsideRoot.
unfoldable pub normal_parts : List Text → Option (List Text)
normal_parts [] = some []
normal_parts (p ∷ ps) =
    let rest = normal_parts ps in
    if text_eq p []
    then rest
    else if text_eq p (bytes ".")
    then rest
    else if text_eq p (bytes "..")
    then none
    else elim rest [ none ↦ none | some qs ↦ some (p ∷ qs) ]

abbrev pub join_parts : List Text → Text
join_parts [] = []
join_parts (p ∷ []) = p
join_parts (p ∷ q ∷ ps) = p ++ slash ∷ join_parts (q ∷ ps)

abbrev pub joined : Option (List Text) → Option Text
joined none = none
joined (some ps) = some (join_parts ps)

unfoldable pub resolve : Text → Option Text
unfolding split_path normal_parts
resolve relative =
    if starts_with relative (slash ∷ [])
    then none
    else joined (normal_parts (split_path [] relative))

-- What stands before and after the last of a character.
unfoldable pub rsplit_at : ℕ → Text → Option (Text × Text)
rsplit_at c [] = none
rsplit_at c (d ∷ t) = elim (rsplit_at c t) [
  | some (before, after) ↦ some (d ∷ before, after)
  | none ↦ if d == c then some ([], t) else none
]

-- `Path::file_stem`: a name that only starts with a dot is its own stem.
abbrev pub stem_of : Text → Option (Text × Text) → Text
stem_of name none = name
stem_of name (some ([], after)) = name
stem_of name (some (c ∷ before, after)) = c ∷ before

abbrev pub renamed : Text → Text → Option (Text × Text) → Text
renamed extension path none = stem_of path (rsplit_at 46 path) ++ 46 ∷ extension
renamed extension path (some (dir, name)) =
    dir ++ slash ∷ (stem_of name (rsplit_at 46 name) ++ 46 ∷ extension)

-- `Path::with_extension`; the root, which has no name, stays.
unfoldable pub with_extension : Text → Text → Text
unfolding rsplit_at
with_extension extension [] = []
with_extension extension (c ∷ t) = renamed extension (c ∷ t) (rsplit_at slash (c ∷ t))
