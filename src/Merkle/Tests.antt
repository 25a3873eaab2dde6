-- ===== src/Merkle/Tests.antt =====
-- Runs over a free hash, whose values are the terms that were hashed.
use mootvote.Base.{ℕ, ◌≡◌, refl, arith, List, [], ◌∷◌, some, none, length, get_or, ◌⊎◌, ℕ_discrete}
use mootvote.Merkle.{
  MerkleProof, default_node, halve_loop, next_level, root_loop, get_merkle_root, proof_loop,
  get_merkle_proof, hash_level, inclusion_root,
}
use mootvote.Merkle.Tree.{node, get_merkle_root-eq-node}
use mootvote.Merkle.Inclusion.{
  from_bits, Collision, get_merkle_proof-IsSound, inclusion_root_unique,
}

data Term : Type 0 where
  leaf : ℕ → Term
  pair : Term → Term → Term

abbrev three : List Term
three = leaf 1 ∷ leaf 2 ∷ leaf 3 ∷ []

abbrev padded : Term
padded = pair (pair (leaf 1) (leaf 2)) (pair (leaf 3) (leaf 0))

root_of_three : get_merkle_root pair (leaf 0) 2 three ≡ some padded
unfolding get_merkle_root root_loop next_level halve_loop default_node
root_of_three = refl

proof_of_third :
    get_merkle_proof pair (leaf 0) 2 three 2
    ≡ some (record {
      root = padded;
      path = leaf 0 ∷ pair (leaf 1) (leaf 2) ∷ [];
      path_pos = 0 ∷ 1 ∷ [];
    })
unfolding get_merkle_proof proof_loop next_level halve_loop default_node
proof_of_third = refl

no_leaf : get_merkle_proof pair (leaf 0) 2 three 3 ≡ none
unfolding get_merkle_proof
no_leaf = refl

get_merkle_root-eq-node_example :
    get_merkle_root pair (leaf 0) 2 three ≡ some (node pair (leaf 0) three 2 0)
get_merkle_root-eq-node_example =
    get_merkle_root-eq-node pair (leaf 0) 2 (leaf 1) (leaf 2 ∷ leaf 3 ∷ [])

get_merkle_proof-IsSound_example :
    (r : MerkleProof Term) × (get_merkle_proof pair (leaf 0) 2 three 2 ≡ some r)
    × (get_merkle_root pair (leaf 0) 2 three ≡ some r.root)
    × (inclusion_root pair (leaf 0) (leaf 3) r.path_pos r.path ≡ some r.root)
    × (length r.path ≡ 2)
    × (from_bits r.path_pos ≡ 2)
get_merkle_proof-IsSound_example =
    get_merkle_proof-IsSound pair (leaf 0) 2 three 2 refl (omega arith)

Term-discrete : Discrete Term
Term-discrete = hlevel ℕ_discrete

inclusion_root_unique_example :
    (leaf 3 ≡ get_or three (from_bits (0 ∷ 1 ∷ [])) (leaf 0)) ⊎ Collision pair (leaf 0)
unfolding inclusion_root hash_level
inclusion_root_unique_example =
    inclusion_root_unique pair (leaf 0) Term-discrete 2 three (leaf 3) (0 ∷ 1 ∷ [])
      (leaf 0 ∷ pair (leaf 1) (leaf 2) ∷ []) root_of_three refl refl
