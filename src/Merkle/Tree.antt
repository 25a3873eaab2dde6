-- ===== src/Merkle/Tree.antt =====
-- The tree that helpers/merkletree.ts computes level by level: a complete binary tree over the leaves,
-- padded with `hash0`.
use mootvote.Base.{
  ℕ, zero, suc, ◌+◌, ◌*◌, ◌/◌, ◌≡◌, refl, sym, ap, ap₂, ◌∙◌, arith, List, ◌∷◌, some, length, get_or,
  get_or_beyond, dec_lt,
}
use mootvote.Merkle.{default_node, next_level, root_loop, get_merkle_root}
use mootvote.Merkle.InPlace.{pair_up, length-pair_up, get_or-pair_up, next_level-eq-pair_up}

module _ {A : Type 0} (poseidon2 : A → A → A) (hash0 : A) where
  -- Node `i` at height `h` above the leaves `xs`.
  unfoldable pub node : List A → ℕ → ℕ → A
  node xs zero i = get_or xs i hash0
  node xs (suc h) i = poseidon2 (node xs h (2 * i)) (node xs h (2 * i + 1))

  -- `level` holds the nodes at height `lvl`; where it ends, the default node stands.
  abbrev pub Holds : List A → ℕ → List A → Type 0
  Holds xs lvl level = (i : ℕ) → get_or level i (default_node poseidon2 hash0 lvl) ≡ node xs lvl i

  pub Holds-leaves : (xs : List A) → Holds xs 0 xs
  unfolding node default_node
  Holds-leaves xs i = refl

  pub next_level-Holds :
      (xs : List A) (lvl : ℕ) (level : List A)
      → Holds xs lvl level
      → Holds xs (suc lvl) (next_level poseidon2 hash0 (default_node poseidon2 hash0 lvl) level)
  unfolding node default_node
  next_level-Holds xs lvl level h i =
      rw (next_level-eq-pair_up poseidon2 hash0 d level) (elim (dec_lt i ((length level + 1) / 2)) [
        | yes p ↦ get_or-pair_up poseidon2 hash0 d level i _ p ∙ children
        | no p ↦
            get_or_beyond (pair_up poseidon2 hash0 d level) i _
              (omega (arith, length-pair_up poseidon2 hash0 d level))
            ∙ ap₂ poseidon2 (sym (get_or_beyond level (2 * i) d (omega arith)))
                (sym (get_or_beyond level (2 * i + 1) d (omega arith)))
            ∙ children
      ])
    where
      d : A
      d = default_node poseidon2 hash0 lvl

      children :
          poseidon2 (get_or level (2 * i) d) (get_or level (2 * i + 1) d)
          ≡ poseidon2 (node xs lvl (2 * i)) (node xs lvl (2 * i + 1))
      children = ap₂ poseidon2 (h (2 * i)) (h (2 * i + 1))

  root_loop-eq-node :
      (xs : List A) (n lvl top : ℕ) (cur : A) (level : List A)
      → lvl + n ≡ top
      → Holds xs lvl level
      → cur ≡ node xs lvl 0
      → root_loop poseidon2 hash0 n lvl cur level ≡ node xs top 0
  unfolding root_loop node
  root_loop-eq-node xs zero lvl top cur level e h c =
      let e' : lvl ≡ top = omega arith in c ∙ ap (λ t. node xs t 0) e'
  root_loop-eq-node xs (suc n) lvl top cur level e h c =
      root_loop-eq-node xs n (suc lvl) top _ _ (omega arith) (next_level-Holds xs lvl level h)
        (ap₂ poseidon2 c (h 1))

  -- For at least one leaf, `getMerkleRoot(depth, leafs)` is the top of the padded tree of that depth.
  pub get_merkle_root-eq-node :
      (depth : ℕ) (leaf : A) (leafs : List A)
      → get_merkle_root poseidon2 hash0 depth (leaf ∷ leafs) ≡ some (node (leaf ∷ leafs) depth 0)
  unfolding get_merkle_root node
  get_merkle_root-eq-node depth leaf leafs = ap some (
      root_loop-eq-node (leaf ∷ leafs) depth 0 depth leaf (leaf ∷ leafs) (omega arith)
        (Holds-leaves (leaf ∷ leafs)) refl)
