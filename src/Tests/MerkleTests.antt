-- ===== src/Tests/MerkleTests.antt =====
-- A repository of one file at its top, and the instance of the theorem on its index.
