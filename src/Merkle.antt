-- ===== src/Merkle.antt =====
-- helpers/merkletree.ts: the root of a padded Merkle tree and the proof for one leaf, as the two
-- loops compute them, and circom/MerkleTreeInclusionProof.circom, which reads such a proof.
-- circomlibjs' Poseidon is not in the repository: `poseidon2 a b` is `poseidon([a, b])` and `hash0`
-- is `poseidon([0n])`, over any type of field elements.
pub mod InPlace
pub mod Tree
pub mod Inclusion
mod Tests
use mootvote.Base.{
  ℕ, zero, suc, ◌+◌, ◌-◌, ◌*◌, ◌/◌, ◌%◌, List, [], ◌∷◌, Option, none, some, ◌==◌, if◌then◌else◌,
  length, get_elem?, get_or, set, take,
}

pub record MerkleProof (A : Type 0) : Type 0 where
  pub root : A
  pub path : List A
  pub path_pos : List ℕ

module _ {A : Type 0} (poseidon2 : A → A → A) (hash0 : A) where
  -- `def[i]`
  unfoldable pub default_node : ℕ → A
  default_node zero = hash0
  default_node (suc i) = let d = default_node i in poseidon2 d d

  -- The inner loop on `j`, with `d` for `def[lvl]`. The reads `sibIndex < level.length ? … : def[lvl]`
  -- are `get_or`; `2 * j` is always in range.
  unfoldable pub halve_loop : ℕ → ℕ → A → List A → List A
  halve_loop zero j d level = level
  halve_loop (suc rounds) j d level =
      halve_loop rounds (suc j) d
        (set level j (poseidon2 (get_or level (2 * j) d) (get_or level (2 * j + 1) d)))

  unfoldable pub next_level : A → List A → List A
  next_level d level =
      let new_level_len = (length level + 1) / 2 in
      take new_level_len (halve_loop new_level_len 0 d level)

  unfoldable pub root_loop : ℕ → ℕ → A → List A → A
  root_loop zero lvl cur level = cur
  root_loop (suc rounds) lvl cur level =
      let d = default_node lvl in
      root_loop rounds (suc lvl) (poseidon2 cur (get_or level 1 d)) (next_level d level)

  -- `none`: `leafs[0]` is undefined.
  unfoldable pub get_merkle_root : ℕ → List A → Option A
  get_merkle_root depth [] = none
  get_merkle_root depth (leaf ∷ leafs) = some (root_loop depth 0 leaf (leaf ∷ leafs))

  -- `bit` is 0 for a left child, and then the sibling is at `idx + 1`, else at `idx - 1`.
  unfoldable pub proof_loop : ℕ → ℕ → A → ℕ → List A → MerkleProof A
  proof_loop zero lvl cur idx level = record { root = cur; path = []; path_pos = [] }
  proof_loop (suc rounds) lvl cur idx level =
      let d = default_node lvl in
      let bit = idx % 2 in
      let sib = get_or level (idx + 1 - 2 * bit) d in
      let cur' = if bit == 0 then poseidon2 cur sib else poseidon2 sib cur in
      let rest = proof_loop rounds (suc lvl) cur' (idx / 2) (next_level d level) in
      record { root = rest.root; path = sib ∷ rest.path; path_pos = bit ∷ rest.path_pos }

  -- `none`: `leafs[index]` is undefined.
  unfoldable pub get_merkle_proof : ℕ → List A → ℕ → Option (MerkleProof A)
  get_merkle_proof depth leafs index = elim (get_elem? leafs index) [
    | none ↦ none
    | some leaf ↦ some (proof_loop depth 0 leaf index leafs)
  ]

  -- One level of the circuit: the position must be a bit, and says on which side the element goes.
  hash_level : A → ℕ → A → Option A
  hash_level level index element =
      if index == 0
      then some (poseidon2 level element)
      else if index == 1
      then some (poseidon2 element level)
      else none

  -- The circuit's `root`; `none`: no witness satisfies its constraints.
  pub inclusion_root : A → List ℕ → List A → Option A
  inclusion_root leaf [] [] = some leaf
  inclusion_root leaf [] (e ∷ es) = none
  inclusion_root leaf (p ∷ ps) [] = none
  inclusion_root leaf (p ∷ ps) (e ∷ es) = elim (hash_level leaf p e) [
    | none ↦ none
    | some level ↦ inclusion_root level ps es
  ]
