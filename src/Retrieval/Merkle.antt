-- ===== src/Retrieval/Merkle.antt =====
-- crates/retrieval/src/merkle.rs. SHA-256 in hexadecimal is the parameter `sha256_hex`.
use zmodbit.Prelude.{
  Option, none, some, List, [], ◌∷◌, ◌++◌, map, ℕ, zero, suc, Bool, true, false, not, ◌&&◌, ◌||◌,
  Text, text_eq, text_lt, Map, get, insert, remove, push, length, any, retain, ◌==◌, if◌then◌else◌,
}

pub data Recomputed : Type 0 where
  file_leaf : (path : Text) → Recomputed
  dir_node : (dir : Text) → Recomputed

pub record MerkleIndex : Type 0 where
  pub leaves : Map Text
  pub dirs : Map Text
  pub revision : ℕ

-- `rsplit_once('/')`: what stands before and after the last slash.
abbrev split_before : ℕ → Text → Option (Text × Text) → Option (Text × Text)
split_before c t (some (dir, name)) = some (c ∷ dir, name)
split_before c t none = if c == 47 then some ([], t) else none

abbrev pub rsplit_once : Text → Option (Text × Text)
rsplit_once [] = none
rsplit_once (c ∷ t) = split_before c t (rsplit_once t)

unfoldable pub dir_of : Text → Text
dir_of path = elim (rsplit_once path) [ some (dir, name) ↦ dir | none ↦ [] ]

-- `path.rsplit('/').next()`.
unfoldable pub name_of : Text → Text
name_of path = elim (rsplit_once path) [ some (dir, name) ↦ name | none ↦ path ]

-- The directories above a path; each is shorter than the one before it, so a path's length is enough fuel.
unfoldable pub chain_from : ℕ → Text → List Text
chain_from zero dir = []
chain_from (suc fuel) [] = []
chain_from (suc fuel) (c ∷ t) = (c ∷ t) ∷ chain_from fuel (dir_of (c ∷ t))

unfoldable pub ancestor_chain : Text → List Text
unfolding chain_from
ancestor_chain path = chain_from (length path) (dir_of path)

abbrev pub Child : Type 0
Child = Text × Text

-- The derived order of pairs of strings.
abbrev child_lt : Child → Child → Bool
child_lt (m, d) (n, e) = text_lt m n || (text_eq m n && text_lt d e)

abbrev place {ℓ} : {A : Type ℓ} → (A → A → Bool) → A → List A → List A
place lt a [] = a ∷ []
place lt a (b ∷ bs) = if lt b a then b ∷ place lt a bs else a ∷ b ∷ bs

abbrev pub sort {ℓ} : {A : Type ℓ} → (A → A → Bool) → List A → List A
sort lt [] = []
sort lt (a ∷ xs) = place lt a (sort lt xs)

abbrev pub sort_children : List Child → List Child
sort_children = sort child_lt

abbrev drop_repeats : Text → List Text → List Text
drop_repeats t [] = []
drop_repeats t (u ∷ us) = if text_eq t u then drop_repeats t us else u ∷ drop_repeats u us

abbrev dedup : List Text → List Text
dedup [] = []
dedup (t ∷ ts) = t ∷ drop_repeats t ts

abbrev reverse : List Text → List Text
reverse [] = []
reverse (t ∷ ts) = push (reverse ts) t

-- `sort`, `dedup` and `reverse`: the deepest first.
abbrev pub deepest_first : List Text → List Text
deepest_first dirs = reverse (dedup (sort text_lt dirs))

abbrev flat_map : {A : Type 0} → (A → List Text) → List A → List Text
flat_map f [] = []
flat_map f (a ∷ xs) = f a ++ flat_map f xs

-- The chain of a path, and its directory, which the chain holds too unless it is the root.
abbrev pub touched_by : Text → List Text
touched_by path = push (ancestor_chain path) (dir_of path)

abbrev children_in : Text → Map Text → List Child
children_in dir entries =
    map (λ e. (name_of (e.0), e.1)) (retain (λ e. text_eq (dir_of (e.0)) dir) entries)

module _ (sha256_hex : Text → Text) where
  -- What the hasher is fed after the directory.
  abbrev pub children_bytes : List Child → Text
  children_bytes [] = []
  children_bytes ((name, digest) ∷ children) =
      0 ∷ (name ++ (0 ∷ (digest ++ children_bytes children)))

  abbrev pub combine : Text → List Child → Text
  combine dir children = sha256_hex (dir ++ children_bytes children)

  unfoldable pub compute_dir : Text → MerkleIndex → Text
  compute_dir dir index =
      combine dir (sort_children (children_in dir index.leaves ++ children_in dir index.dirs))

  abbrev leaves_of : Map Text → Map Text
  leaves_of [] = []
  leaves_of ((path, bytes) ∷ files) = insert path (sha256_hex bytes) (leaves_of files)

  abbrev pub build_dirs : List Text → MerkleIndex → MerkleIndex
  build_dirs [] index = index
  build_dirs (dir ∷ dirs) index =
      build_dirs dirs (record index { dirs = insert dir (compute_dir dir index) index.dirs })

  -- The files come in key order, so the order of their insertion does not matter.
  unfoldable pub build : Map Text → ℕ → MerkleIndex
  build files revision =
      build_dirs (deepest_first (flat_map (λ e. touched_by (e.0)) (leaves_of files)))
        (record { leaves = leaves_of files; dirs = []; revision = revision })

  unfoldable pub root_digest : MerkleIndex → Text
  root_digest index = compute_dir [] index

  -- The index with the paths touched and the evidence so far.
  pub record Progress : Type 0 where
    pub index : MerkleIndex
    pub touched : List Text
    pub recomputed : List Recomputed

  abbrev is_same : Option Text → Text → Bool
  is_same none digest = false
  is_same (some old) digest = text_eq old digest

  abbrev evidence : Bool → Recomputed → List Recomputed → List Recomputed
  evidence true r rs = push rs r
  evidence false r rs = rs

  abbrev is_present : Option Text → Bool
  is_present none = false
  is_present (some t) = true

  abbrev delete_paths : List Text → Progress → Progress
  delete_paths [] p = p
  delete_paths (path ∷ paths) p = delete_paths paths (record {
    index = record p.index { leaves = remove path p.index.leaves };
    touched = p.touched ++ touched_by path;
    recomputed = evidence (is_present (get path p.index.leaves)) (file_leaf path) p.recomputed;
  })

  abbrev change_paths : Map Text → Progress → Progress
  change_paths [] p = p
  change_paths ((path, bytes) ∷ changed) p = change_paths changed (record {
    index = record p.index { leaves = insert path (sha256_hex bytes) p.index.leaves };
    touched = p.touched ++ touched_by path;
    recomputed =
        evidence (not (is_same (get path p.index.leaves) (sha256_hex bytes))) (file_leaf path)
          p.recomputed;
  })

  abbrev holds_something : Text → MerkleIndex → Bool
  holds_something dir index =
      any (λ e. text_eq (dir_of (e.0)) dir) index.leaves
      || any (λ e. not (text_eq (e.0) dir) && text_eq (dir_of (e.0)) dir) index.dirs

  -- The four arms of the source's match.
  abbrev refresh :
      Text
      → Text
      → Bool
      → Option Text
      → MerkleIndex × List Recomputed
      → MerkleIndex × List Recomputed
  refresh dir digest false (some old) (index, rs) =
      (record index { dirs = remove dir index.dirs }, push rs (dir_node dir))
  refresh dir digest false none (index, rs) = (index, rs)
  refresh dir digest true existing (index, rs) =
      if is_same existing digest
      then (index, rs)
      else (record index { dirs = insert dir digest index.dirs }, push rs (dir_node dir))

  abbrev refresh_dirs : List Text → MerkleIndex × List Recomputed → MerkleIndex × List Recomputed
  refresh_dirs [] state = state
  refresh_dirs (dir ∷ dirs) (index, rs) = refresh_dirs dirs (
      refresh dir (compute_dir dir index) (holds_something dir index) (get dir index.dirs)
        (index, rs))

  abbrev finish : ℕ → MerkleIndex × List Recomputed → List Recomputed × MerkleIndex
  finish new_revision (index, rs) = (rs, record index { revision = new_revision })

  unfoldable pub apply_changes :
      Map Text → List Text → ℕ → MerkleIndex → List Recomputed × MerkleIndex
  apply_changes changed deleted new_revision index =
      let p =
        change_paths changed
          (delete_paths deleted (record { index = index; touched = []; recomputed = [] })) in
      finish new_revision (refresh_dirs (deepest_first p.touched) (p.index, p.recomputed))
