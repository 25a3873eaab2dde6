-- ===== src/Census.antt =====
-- The census file: 32 big-endian bytes a leaf. `parseUploadedCensus`, `onCensusFile` and the census
-- root that `onSubmit` sends (frontend/src/pages/PollCreatePage.tsx), the file that
-- scripts/genExample.ts writes, and the voter's search and Merkle proof in `onVoteClick`
-- (frontend/src/components/Vote.tsx). circomlibjs' Poseidon is the parameter `poseidon`.
pub mod Parse
pub mod Membership
mod Tests
use mootvote.Base.{
  ℕ, zero, suc, ◌+◌, ◌/◌, ◌%◌, List, [], ◌∷◌, ◌++◌, Option, none, some, Bool, true, false, ◌==◌,
  if◌then◌else◌, length,
}
use mootvote.Base.Int.{ℤ}
use mootvote.Bytes.{to_bytes_be32_buf, bytes32_to_big, to_hex32, hex_to_bytes32, HexResult}
use mootvote.Merkle.{MerkleProof, get_merkle_root, get_merkle_proof}

-- `CENSUS_DEPTH` of frontend/src/consts.ts.
abbrev pub census_depth : ℕ
census_depth = 40

-- `for (let i = 0; i < buf.length; i += 32) leaves.push(bytes32ToBig(buf, i))`, by the rounds left.
unfoldable pub parse_loop : ℕ → List ℕ → ℕ → Option (List ℕ)
parse_loop zero buf i = some []
parse_loop (suc rounds) buf i =
    let rest = parse_loop rounds buf (i + 32) in
    elim (bytes32_to_big buf i) [
      | none ↦ none
      | some leaf ↦ elim rest [ none ↦ none | some leaves ↦ some (leaf ∷ leaves) ]
    ]

-- `none`: it throws.
pub parse_uploaded_census : List ℕ → Option (List ℕ)
parse_uploaded_census buf =
    if length buf % 32 == 0 then parse_loop (length buf / 32) buf 0 else none

-- `Buffer.concat(census.map(toBytesBE32Buf))`
pub census_bin : List ℤ → List ℕ
census_bin [] = []
census_bin (leaf ∷ leaves) = to_bytes_be32_buf leaf ++ census_bin leaves

-- The search for the voter's own leaf: `some i` is `found = i` at the `break`.
unfoldable pub find_loop : ℕ → List ℕ → ℕ → ℕ → ℕ → Option ℕ
find_loop zero buf off i my_leaf = none
find_loop (suc rounds) buf off i my_leaf =
    let rest = find_loop rounds buf (off + 32) (suc i) my_leaf in
    elim (bytes32_to_big buf off) [
      | none ↦ none
      | some leaf ↦ if leaf == my_leaf then some i else rest
    ]

pub data CensusError : Type 0 where
  bad_census_file not_in_census : CensusError

pub data CensusCheck : Type 0 where
  proved : MerkleProof ℕ → CensusCheck
  throws : CensusError → CensusCheck

-- The fields that `onCensusFile` sets in the form.
pub record CensusForm : Type 0 where
  pub census_bytes : List ℕ
  pub census_count : ℕ
  pub census_root_hex : List ℕ

module _ (poseidon : List ℕ → ℕ) where
  abbrev pub poseidon2 : ℕ → ℕ → ℕ
  poseidon2 a b = poseidon (a ∷ b ∷ [])

  abbrev pub hash0 : ℕ
  hash0 = poseidon (0 ∷ [])

  -- `none`: an empty file has no root, or the file is refused.
  pub on_census_file : List ℕ → Option CensusForm
  on_census_file bytes = elim (parse_uploaded_census bytes) [
    | none ↦ none
    | some leaves ↦ elim (get_merkle_root poseidon2 hash0 census_depth leaves) [
      | none ↦ none
      | some root ↦ some (record {
        census_bytes = bytes;
        census_count = length leaves;
        census_root_hex = 48 ∷ 120 ∷ to_hex32 root;
      })
    ]
  ]

  -- `Array.from(hexToBytes32(data.censusRootHex))` of `onSubmit`.
  pub submitted_census_root : CensusForm → HexResult
  submitted_census_root form = hex_to_bytes32 form.census_root_hex

  -- The census part of `onVoteClick`, from the downloaded file to the path for the circuit.
  unfoldable pub census_check : List ℕ → ℕ → CensusCheck
  census_check census_buf my_leaf =
      if length census_buf % 32 == 0
      then elim (find_loop (length census_buf / 32) census_buf 0 0 my_leaf) [
        | none ↦ throws not_in_census
        | some found ↦ elim (parse_loop (length census_buf / 32) census_buf 0) [
          | none ↦ throws bad_census_file
          | some leaves ↦ elim (get_merkle_proof poseidon2 hash0 census_depth leaves found) [
            | none ↦ throws bad_census_file
            | some proof ↦ proved proof
          ]
        ]
      ]
      else throws bad_census_file
