-- ===== src/Tally/Laws.antt =====
-- What the component relies on in @iden3/js-merkletree: a sparse Merkle tree is a map from keys of 64
-- bits to values, with a root of 256 bits. An insertion of a present key is ErrEntryIndexAlreadyExists, an update of a present
-- key and a proof do not throw, and the root depends on nothing but the map.
use mootvote.Base.{ℕ, ◌^◌, ◌<◌, ◌≡◌, Option, none, some, ◌==◌, if◌then◌else◌}
use mootvote.Tally.Defs.{CircomProof, done, already_exists, Library}

pub record Lawful (lib : Library) : Type 0 where
  pub get : lib.Tree → ℕ → Option ℕ
  pub get-empty_tree : (k : ℕ) → get lib.empty_tree k ≡ none
  pub add_fresh :
      (t : lib.Tree) (k v : ℕ)
      → k < 2 ^ 64
      → get t k ≡ none
      → (t' : lib.Tree) × (lib.add t k v ≡ done t')
        × ((j : ℕ) → get t' j ≡ (if k == j then some v else get t j))
  pub add_present : (t : lib.Tree) (k v u : ℕ) → get t k ≡ some u → lib.add t k v ≡ already_exists
  pub add_and_get_fresh :
      (t : lib.Tree) (k v : ℕ)
      → k < 2 ^ 64
      → get t k ≡ none
      → (t' : lib.Tree) × (p : CircomProof) × (lib.add_and_get_circom_proof t k v ≡ done (t', p))
        × ((j : ℕ) → get t' j ≡ (if k == j then some v else get t j))
  pub add_and_get_present :
      (t : lib.Tree) (k v u : ℕ)
      → get t k ≡ some u
      → lib.add_and_get_circom_proof t k v ≡ already_exists
  pub update_present :
      (t : lib.Tree) (k v u : ℕ)
      → get t k ≡ some u
      → (t' : lib.Tree) × (p : CircomProof) × (lib.update t k v ≡ some (t', p))
        × ((j : ℕ) → get t' j ≡ (if k == j then some v else get t j))
  pub generate_total :
      (t : lib.Tree) (k : ℕ) → (p : CircomProof) × (lib.generate_circom_verifier_proof t k ≡ some p)
  pub root_ext : (s t : lib.Tree) → ((j : ℕ) → get s j ≡ get t j) → lib.root s ≡ lib.root t
  pub root-lt : (t : lib.Tree) → lib.root t < 256 ^ 32
