-- ===== src/Census/Membership.antt =====
-- A voter's proof from the census file leads to the root that the poll's creator submitted.
use mathlib.Core.Option.{some-injective}
use mootvote.Base.{
  ℕ, zero, suc, ◌/◌, ◌^◌, ◌≡◌, ◌≢◌, inl, inr, ◌<◌, ◌≤◌, sym, ap, ◌∙◌, arith, List, [], ◌∷◌, Option,
  none, some, length, get_elem?, All,
}
use mootvote.Bytes.{be_loop, bytes}
use mootvote.Bytes.Hex.{hex_to_bytes32-to_hex32}
use mootvote.Merkle.{MerkleProof, get_merkle_root, get_merkle_proof, inclusion_root}
use mootvote.Merkle.Inclusion.{from_bits, get_merkle_proof-IsSound}
use mootvote.Census.{
  census_depth, parse_loop, parse_uploaded_census, find_loop, CensusCheck, proved, throws,
  bad_census_file, not_in_census, CensusForm, poseidon2, hash0, on_census_file,
  submitted_census_root, census_check,
}
use mootvote.Census.Parse.{parse_uploaded_census_total, First, Found, find_loop-Found}

First→get_elem? :
    (leaf : ℕ) (xs : List ℕ) (f : ℕ)
    → First leaf xs f
    → (get_elem? xs f ≡ some leaf) × (f < length xs)
First→get_elem? leaf [] f h = absurd h
First→get_elem? leaf (x ∷ xs) zero h = (ap some h, omega arith)
First→get_elem? leaf (x ∷ xs) (suc f) (_, h) =
    let (e, lt) = First→get_elem? leaf xs f h in (e, omega arith)

module _ (poseidon : List ℕ → ℕ) where
  -- What `onVoteClick` finds for a leaf in the census file `buf` whose form is `form`.
  abbrev pub Checks : CensusForm → List ℕ → ℕ → CensusCheck → Type 0
  Checks form leaves leaf (throws bad_census_file) = ⊥
  Checks form leaves leaf (throws not_in_census) = All (λ x. x ≢ leaf) leaves
  Checks form leaves leaf (proved r) =
      First leaf leaves (from_bits r.path_pos)
      × (length r.path ≡ census_depth)
      × (inclusion_root (poseidon2 poseidon) (hash0 poseidon) leaf r.path_pos r.path ≡ some r.root)
      × (submitted_census_root poseidon form ≡ bytes (be_loop 32 r.root []))

  submitted :
      (buf : List ℕ) {form : CensusForm} {leaves : List ℕ} {root : ℕ}
      → on_census_file poseidon buf ≡ some form
      → parse_uploaded_census buf ≡ some leaves
      → get_merkle_root (poseidon2 poseidon) (hash0 poseidon) census_depth leaves ≡ some root
      → submitted_census_root poseidon form ≡ bytes (be_loop 32 root [])
  unfolding submitted_census_root on_census_file
  submitted buf {form} {leaves} {root} accepted parsed top =
      let built = some-injective _ form (rw (parsed, top, on_census_file) at accepted) in
      rw (← built) ((hex_to_bytes32-to_hex32 root).1)

  proof_Checks :
      (buf leaves : List ℕ) (my_leaf f : ℕ) {form : CensusForm}
      → on_census_file poseidon buf ≡ some form
      → parse_uploaded_census buf ≡ some leaves
      → length leaves ≤ 2 ^ census_depth
      → First my_leaf leaves f
      → (r : MerkleProof ℕ) × (get_merkle_proof
            (poseidon2 poseidon)
            (hash0 poseidon)
            census_depth
            leaves
            f
          ≡ some r)
        × Checks form leaves my_leaf (proved r)
  proof_Checks buf leaves my_leaf f accepted parsed small first =
      let (here, lt) = First→get_elem? my_leaf leaves f first in
      let (r, made, top, opens, len, bits) =
        get_merkle_proof-IsSound (poseidon2 poseidon) (hash0 poseidon) census_depth leaves f here
          (omega arith) in
      (r, made, (rw bits first, len, opens, submitted buf accepted parsed top))

  -- For a census file that the creator's form accepted, with at most 2^40 leaves, `onVoteClick`
  -- throws only if the voter's leaf is not in the file. Else it proves the first index where the leaf
  -- stands: the circuit computes from the leaf, in 40 levels, the root whose 32 bytes the creator
  -- submitted as the census root.
  pub census_check-Checks :
      (buf : List ℕ) (my_leaf : ℕ) {form : CensusForm} {leaves : List ℕ}
      → on_census_file poseidon buf ≡ some form
      → parse_uploaded_census buf ≡ some leaves
      → length leaves ≤ 2 ^ census_depth
      → Checks form leaves my_leaf (census_check poseidon buf my_leaf)
  unfolding census_check
  census_check-Checks buf my_leaf {form} {leaves} accepted parsed small =
      elim (parse_uploaded_census_total buf) [
        | inr (_, refused) ↦ cc
        | inl (whole, (ls, e, run, _)) ↦
            let same = some-injective ls leaves (sym e ∙ parsed) in
            let run' : parse_loop (length buf / 32) buf 0 ≡ some leaves = run ∙ ap some same in
            rw whole (
              searched run' (find_loop (length buf / 32) buf 0 0 my_leaf)
                (find_loop-Found (length buf / 32) buf 0 0 my_leaf leaves run'))
      ]
    where
      searched :
          parse_loop (length buf / 32) buf 0 ≡ some leaves
          → (found : Option ℕ) → Found my_leaf leaves 0 found
          → Checks form leaves my_leaf (elim found [
            | none ↦ throws not_in_census
            | some at ↦ elim (parse_loop (length buf / 32) buf 0) [
              | none ↦ throws bad_census_file
              | some ls ↦
                  elim (get_merkle_proof (poseidon2 poseidon) (hash0 poseidon) census_depth ls at) [
                    | none ↦ throws bad_census_file
                    | some proof ↦ proved proof
                  ]
            ]
          ])
      searched run none absent = absent
      searched run (some at) (f, q, first) =
          let (r, made, checks) = proof_Checks buf leaves my_leaf f accepted parsed small first in
          let q' : at ≡ f = omega arith in rw run (rw q' (rw made checks))
