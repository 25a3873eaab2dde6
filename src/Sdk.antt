-- ===== src/Sdk.antt =====
-- The builders of ts-sdk/src and ts-sdk-relayer/src: the instructions of both programs, with their
-- accounts.
pub mod Platform
pub mod Polls
pub mod Tallies
pub mod Relayer
use mootvote.Base.{
  ℕ, ◌+◌, ◌^◌, List, [], ◌∷◌, map, Option, none, some, Bool, true, false, leb, length,
}
use mootvote.VoteData.{Point, CompressedProof, ◌>>=◌, to_array_like_le8}
pub use Prim.Native.String.{String}

-- `PublicKey`, by its bytes.
abbrev pub Key : Type 0
Key = List ℕ

pub record AccountMeta : Type 0 where
  pub is_signer : Bool
  pub is_writable : Bool
  pub pubkey : Key

-- An argument of a method of a program.
pub data Argument : Type 0 where
  number : ℕ → Argument
  numbers : List ℕ → Argument
  text : List ℕ → Argument
  key : Key → Argument
  bytes : List ℕ → Argument
  rows : List (List ℕ) → Argument
  point : Point → Argument
  proof : CompressedProof → Argument
  relayer : List ℕ → Key → Argument

-- The accounts that a builder names, and those in a group of its own.
pub data Accounts : Type 0 where
  one : String → Key → Accounts
  group : String → List (String × Key) → Accounts

-- An instruction before anchor encodes it. `strict` tells `accountsStrict` from `accounts`.
pub record TransactionInstruction : Type 0 where
  pub program : Key
  pub method : String
  pub args : List Argument
  pub strict : Bool
  pub accounts : List Accounts
  pub remaining_accounts : List AccountMeta

pub record InstructionWithCu : Type 0 where
  pub instruction : TransactionInstruction
  pub cu_limit : ℕ

-- The ids of the programs (`PROGRAM_ID` of both libraries), that of the system program, and
-- `findProgramAddressSync`, which throws where no address is found.
pub record Chain : Type 0 where
  pub program_id : Key
  pub relayer_program_id : Key
  pub system_program : Key
  pub find_program_address : List (List ℕ) → Key → Option Key

-- `PLATFORM_NAME`
abbrev pub platform_name : ℕ
platform_name = 5579801008792368229

-- The units of all instructions of a transaction.
unfoldable pub cu_limit_instruction : List InstructionWithCu → ℕ
cu_limit_instruction [] = 0
cu_limit_instruction (ix ∷ ixs) = ix.cu_limit + cu_limit_instruction ixs

pub record Transaction : Type 0 where
  pub units : ℕ
  pub instructions : List TransactionInstruction
  pub recent_blockhash : List ℕ
  pub fee_payer : Key

-- `toTransaction`, before it is signed.
unfoldable pub to_transaction : List InstructionWithCu → List ℕ → Key → Transaction
to_transaction ixs recent_blockhash fee_payer = record {
  units = cu_limit_instruction ixs;
  instructions = map (λ (x : InstructionWithCu). x.instruction) ixs;
  recent_blockhash = recent_blockhash;
  fee_payer = fee_payer;
}

-- `fetchAccount`: `info` is the account's data, if there is an account, `decode` may throw. The
-- outer `none` is an exception, the inner one null.
unfoldable pub fetch_account :
    {A : Type 0} → (List ℕ → Option A) → Option (List ℕ) → Option (Option A)
fetch_account decode none = some none
fetch_account decode (some []) = some none
fetch_account decode (some (b ∷ bs)) = elim (decode (b ∷ bs)) [
  | none ↦ none
  | some a ↦ some (some a)
]

module _ (chain : Chain) where
  open chain use {program_id, relayer_program_id, find_program_address}

  -- "PLATFORM_CONFIG"
  unfoldable pub platform_config : Option Key
  platform_config =
      find_program_address
        ((80 ∷ 76 ∷ 65 ∷ 84 ∷ 70 ∷ 79 ∷ 82 ∷ 77 ∷ 95 ∷ 67 ∷ 79 ∷ 78 ∷ 70 ∷ 73 ∷ 71 ∷ []) ∷ [])
        program_id

  -- "RELAYER_CONFIG"
  unfoldable pub relayer_config : Option Key
  relayer_config =
      find_program_address
        ((82 ∷ 69 ∷ 76 ∷ 65 ∷ 89 ∷ 69 ∷ 82 ∷ 95 ∷ 67 ∷ 79 ∷ 78 ∷ 70 ∷ 73 ∷ 71 ∷ []) ∷ [])
        relayer_program_id

  -- "POLL"
  unfoldable pub find_poll : ℕ → Option Key
  find_poll id = do
    le ← to_array_like_le8 id
    find_program_address ((80 ∷ 79 ∷ 76 ∷ 76 ∷ []) ∷ le ∷ []) program_id

  -- "TALLY"
  unfoldable pub find_tally : ℕ → Key → Option Key
  find_tally poll_id owner = do
    le ← to_array_like_le8 poll_id
    find_program_address ((84 ∷ 65 ∷ 76 ∷ 76 ∷ 89 ∷ []) ∷ le ∷ owner ∷ []) program_id

  -- "RELAYER_STATE"
  unfoldable pub find_relayer_state : Key → ℕ → Option Key
  find_relayer_state target_program state_id = do
    le ← to_array_like_le8 state_id
    find_program_address
        ((82 ∷ 69 ∷ 76 ∷ 65 ∷ 89 ∷ 69 ∷ 82 ∷ 95 ∷ 83 ∷ 84 ∷ 65 ∷ 84 ∷ 69 ∷ [])
          ∷ target_program
          ∷ le
          ∷ [])
        relayer_program_id
