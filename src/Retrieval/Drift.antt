-- ===== src/Retrieval/Drift.antt =====
-- crates/retrieval/src/merkle.rs: an index of a file at the top of the tree, updated and rebuilt.
use zmodbit.Prelude.{◌≡◌, [], ◌∷◌, ℕ, Text}
use zmodbit.Retrieval.Merkle.{MerkleIndex, dir_of, name_of, combine}

module _ (sha256_hex : Text → Text) (path : Text) (c : ℕ) (cs : Text) (top : dir_of path ≡ [])
    (named : name_of path ≡ c ∷ cs) where
  -- The digest of the root with the file alone, and over a digest that stands for the root itself.
  abbrev lone : Text → Text
  lone bytes = combine sha256_hex [] ((c ∷ cs, sha256_hex bytes) ∷ [])

  abbrev over : Text → Text → Text
  over below bytes = combine sha256_hex [] (([], below) ∷ (c ∷ cs, sha256_hex bytes) ∷ [])

  abbrev index_with : Text → Text → ℕ → MerkleIndex
  index_with bytes digest revision = record {
    leaves = (path, sha256_hex bytes) ∷ [];
    dirs = ([], digest) ∷ [];
    revision = revision;
  }
