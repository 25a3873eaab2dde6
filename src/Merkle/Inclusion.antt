-- ===== src/Merkle/Inclusion.antt =====
-- The proofs of helpers/merkletree.ts against the circuit that reads them.
use mathlib.Core.Option.{some-injective}
use mootvote.Base.{
  dec_lt, ℕ, zero, suc, ◌+◌, ◌-◌, ◌*◌, ◌/◌, ◌%◌, ◌^◌, ◌<◌, ◌≡◌, ◌≢◌, ◌⊎◌, refl, sym, ap, ap₂, ◌∙◌,
  arith, List, [], ◌∷◌, none, some, length, get_elem?, get_or, get_elem?→get_or, ◌==◌,
  if◌then◌else◌, inl, inr, Option-cases, Bool-cases,
}
use mootvote.Merkle.{
  MerkleProof, default_node, proof_loop, get_merkle_root, get_merkle_proof, hash_level,
  inclusion_root,
}
use native.Mathlib.Nat.{pow-suc}
use mootvote.Merkle.Tree.{node, Holds, Holds-leaves, next_level-Holds, get_merkle_root-eq-node}

-- The number that the position bits spell, lowest first.
abbrev pub from_bits : List ℕ → ℕ
from_bits [] = 0
from_bits (b ∷ bs) = b + 2 * from_bits bs

module _ {A : Type 0} (poseidon2 : A → A → A) (hash0 : A) where
  -- The side rule of `getMerkleProof`.
  on_side : ℕ → A → A → A
  on_side bit cur sib = if bit == 0 then poseidon2 cur sib else poseidon2 sib cur

  -- The sibling that is read at `idx` is the other child of the parent of `idx`.
  parent :
      (xs : List A) (lvl idx : ℕ) (level : List A)
      → Holds poseidon2 hash0 xs lvl level
      → on_side
          (idx % 2)
          (node poseidon2 hash0 xs lvl idx)
          (get_or level (idx + 1 - 2 * (idx % 2)) (default_node poseidon2 hash0 lvl))
        ≡ node poseidon2 hash0 xs (suc lvl) (idx / 2)
  unfolding on_side node
  parent xs lvl idx level h = elim (Bool-cases (idx % 2 == 0)) [
    | inl e ↦ rw e (
        ap₂ poseidon2 (at idx (2 * (idx / 2)) (ground arith))
          (h _ ∙ at (idx + 1 - 2 * (idx % 2)) (2 * (idx / 2) + 1) (ground arith)))
    | inr e ↦ rw e (
        ap₂ poseidon2 (h _ ∙ at (idx + 1 - 2 * (idx % 2)) (2 * (idx / 2)) (ground arith))
          (at idx (2 * (idx / 2) + 1) (ground arith)))
  ]
    where
      at : (i j : ℕ) → i ≡ j → node poseidon2 hash0 xs lvl i ≡ node poseidon2 hash0 xs lvl j
      at i j e = ap (node poseidon2 hash0 xs lvl) e

  hash_level-bit :
      (cur sib : A) (idx : ℕ)
      → hash_level poseidon2 hash0 cur (idx % 2) sib ≡ some (on_side (idx % 2) cur sib)
  unfolding hash_level on_side
  hash_level-bit cur sib idx = ground arith

  abbrev IsSound : List A → A → ℕ → ℕ → ℕ → MerkleProof A → Type 0
  IsSound xs leaf n idx top r =
      (inclusion_root poseidon2 hash0 leaf r.path_pos r.path ≡ some r.root)
      × (r.root ≡ node poseidon2 hash0 xs top 0)
      × (length r.path ≡ n)
      × (from_bits r.path_pos ≡ idx)

  proof_loop-IsSound :
      (xs : List A) (n lvl top idx : ℕ) (cur : A) (level : List A)
      → lvl + n ≡ top
      → Holds poseidon2 hash0 xs lvl level
      → cur ≡ node poseidon2 hash0 xs lvl idx
      → idx < 2 ^ n
      → IsSound xs cur n idx top (proof_loop poseidon2 hash0 n lvl cur idx level)
  unfolding proof_loop inclusion_root on_side
  proof_loop-IsSound xs zero lvl top idx cur level e h c lt =
      (refl, c ∙ ap₂ (node poseidon2 hash0 xs) (omega arith) (omega arith), refl, omega arith)
  proof_loop-IsSound xs (suc n) lvl top idx cur level e h c lt =
      let (opens, tops, len, bits) =
        proof_loop-IsSound xs n (suc lvl) top (idx / 2) cur' _ (omega arith)
          (next_level-Holds poseidon2 hash0 xs lvl level h) up (omega (arith, pow-suc 2 n)) in
      (rw (hash_level-bit cur sib idx, inclusion_root) opens, tops, ap suc len, omega (arith, bits))
    where
      sib : A
      sib = get_or level (idx + 1 - 2 * (idx % 2)) (default_node poseidon2 hash0 lvl)

      cur' : A
      cur' = on_side (idx % 2) cur sib

      up : cur' ≡ node poseidon2 hash0 xs (suc lvl) (idx / 2)
      up = ap (λ z. on_side (idx % 2) z sib) c ∙ parent xs lvl idx level h

  -- Every proof that `getMerkleProof` gives for a leaf of the tree is accepted: its root is that of
  -- `getMerkleRoot`, the circuit computes this root from the leaf, the path has `depth` elements,
  -- and its position bits spell the index.
  pub get_merkle_proof-IsSound :
      (depth : ℕ) (leafs : List A) (index : ℕ) {leaf : A}
      → get_elem? leafs index ≡ some leaf
      → index < 2 ^ depth
      → (r : MerkleProof A) × (get_merkle_proof poseidon2 hash0 depth leafs index ≡ some r)
        × (get_merkle_root poseidon2 hash0 depth leafs ≡ some r.root)
        × (inclusion_root poseidon2 hash0 leaf r.path_pos r.path ≡ some r.root)
        × (length r.path ≡ depth)
        × (from_bits r.path_pos ≡ index)
  unfolding get_merkle_proof node
  get_merkle_proof-IsSound depth [] index e lt = cc
  get_merkle_proof-IsSound depth (x ∷ xs) index {leaf} e lt =
      let r = proof_loop poseidon2 hash0 depth 0 leaf index (x ∷ xs) in
      let (opens, tops, len, bits) =
        proof_loop-IsSound (x ∷ xs) depth 0 depth index leaf (x ∷ xs) (omega arith)
          (Holds-leaves poseidon2 hash0 (x ∷ xs)) (get_elem?→get_or (x ∷ xs) index hash0 e) lt in
      (
        r,
        rw (e, get_merkle_proof),
        get_merkle_root-eq-node poseidon2 hash0 depth x xs ∙ ap some (sym tops),
        opens,
        len,
        bits,
      )

  -- Two different pairs with one hash.
  abbrev pub Collision : Type 0
  Collision =
      (a : A) × (b : A) × (c : A) × (d : A) × (poseidon2 a b ≡ poseidon2 c d) × ((a ≢ c) ⊎ (b ≢ d))

  module _ (A_discrete : Discrete A) where
    same_or_collision :
        (a b c d : A) → poseidon2 a b ≡ poseidon2 c d → ((a ≡ c) × (b ≡ d)) ⊎ Collision
    same_or_collision a b c d e = elim (A_discrete a c) [
      | no ne ↦ inr (a, b, c, d, e, inl ne)
      | yes p ↦ elim (A_discrete b d) [ no ne ↦ inr (a, b, c, d, e, inr ne) | yes q ↦ inl (p, q) ]
    ]

    child :
        (xs : List A) (x x' e : A) (p lvl k : ℕ)
        → hash_level poseidon2 hash0 x p e ≡ some x'
        → x' ≡ node poseidon2 hash0 xs (suc lvl) k
        → (x ≡ node poseidon2 hash0 xs lvl (p + 2 * k)) ⊎ Collision
    unfolding hash_level node
    child xs x x' e p lvl k step top = elim (dec_lt 0 p) [
      | no q ↦
          let zero? : p ≡ 0 = omega arith in
          let made : poseidon2 x e ≡ poseidon2 left right = ground arith in
          elim (same_or_collision x e left right made) [
            | inl same ↦ inl (same.0 ∙ ap (node poseidon2 hash0 xs lvl) (omega arith))
            | inr c ↦ inr c
          ]
      | yes q ↦
          let one? : p ≡ 1 = ground arith in
          let made : poseidon2 e x ≡ poseidon2 left right = ground arith in
          elim (same_or_collision e x left right made) [
            | inl same ↦ inl (same.1 ∙ ap (node poseidon2 hash0 xs lvl) (omega arith))
            | inr c ↦ inr c
          ]
    ]
      where
        left : A
        left = node poseidon2 hash0 xs lvl (2 * k)

        right : A
        right = node poseidon2 hash0 xs lvl (2 * k + 1)

    inclusion_root→leaf :
        (xs : List A) (x : A) (ps : List ℕ) (es : List A) (lvl n top i : ℕ)
        → length ps ≡ n
        → lvl + n ≡ top
        → inclusion_root poseidon2 hash0 x ps es ≡ some (node poseidon2 hash0 xs top i)
        → (x ≡ node poseidon2 hash0 xs lvl (from_bits ps + 2 ^ n * i)) ⊎ Collision
    unfolding inclusion_root
    inclusion_root→leaf xs x [] [] lvl n top i len e run = inl (
        some-injective _ _ run
        ∙ ap₂ (node poseidon2 hash0 xs) (omega arith)
            (let n0 : n ≡ 0 = omega arith in rw n0 (omega arith)))
    inclusion_root→leaf xs x [] (e ∷ es) lvl n top i len eq run = cc
    inclusion_root→leaf xs x (p ∷ ps) [] lvl n top i len eq run = cc
    inclusion_root→leaf xs x (p ∷ ps) (e ∷ es) lvl zero top i len eq run = absurd (omega arith)
    inclusion_root→leaf xs x (p ∷ ps) (e ∷ es) lvl (suc n) top i len eq run =
        elim (Option-cases (hash_level poseidon2 hash0 x p e)) [
          | inl stuck ↦ absurd (elim_none stuck)
          | inr (x', step) ↦
              elim (inclusion_root→leaf xs x' ps es (suc lvl) n top i (omega arith) (omega arith)
                (rw (step, inclusion_root) at run)) [
                  | inl above ↦
                      regroup (child xs x x' e p lvl (from_bits ps + 2 ^ n * i) step above)
                  | inr c ↦ inr c
                ]
        ]
      where
        elim_none : hash_level poseidon2 hash0 x p e ≡ none → ⊥
        elim_none stuck = let r = rw (stuck, inclusion_root) at run in cc

        regroup :
            (x ≡ node poseidon2 hash0 xs lvl (p + 2 * (from_bits ps + 2 ^ n * i))) ⊎ Collision
            → (x ≡ node poseidon2 hash0 xs lvl (from_bits (p ∷ ps) + 2 ^ suc n * i)) ⊎ Collision
        regroup (inl q) = inl (
            q
            ∙ ap (node poseidon2 hash0 xs lvl) (omega (arith, ap (λ (t : ℕ). t * i) (pow-suc 2 n))))
        regroup (inr c) = inr c

    -- A path of `depth` elements that leads to the root of `getMerkleRoot` starts at the leaf that
    -- its position bits name (`hash0` beyond the leaves), or two different pairs with one hash are
    -- found.
    pub inclusion_root_unique :
        (depth : ℕ) (leafs : List A) (leaf : A) {root : A} (ps : List ℕ) (es : List A)
        → get_merkle_root poseidon2 hash0 depth leafs ≡ some root
        → length ps ≡ depth
        → inclusion_root poseidon2 hash0 leaf ps es ≡ some root
        → (leaf ≡ get_or leafs (from_bits ps) hash0) ⊎ Collision
    unfolding get_merkle_root node
    inclusion_root_unique depth [] leaf ps es r len run = cc
    inclusion_root_unique depth (x ∷ xs) leaf ps es r len run =
        elim (inclusion_root→leaf (x ∷ xs) leaf ps es 0 depth depth 0 len (omega arith)
          (run ∙ sym r ∙ get_merkle_root-eq-node poseidon2 hash0 depth x xs)) [
            | inl q ↦ inl (q ∙ ap (λ k. get_or (x ∷ xs) k hash0) (omega arith))
            | inr c ↦ inr c
          ]
