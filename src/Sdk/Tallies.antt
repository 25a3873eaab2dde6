-- ===== src/Sdk/Tallies.antt =====
-- The instructions on tallies (ts-sdk/src/instructions.ts).
use mootvote.Base.{ℕ, List, [], ◌∷◌, Option, some, false}
use mootvote.VoteData.{CompressedProof, ◌>>=◌}
use mootvote.Sdk.{
  Key, number, numbers, bytes, proof, one, InstructionWithCu, Chain, find_poll, find_tally,
}

module _ (chain : Chain) where
  unfoldable pub create_tally : ℕ → Key → List ℕ → Option InstructionWithCu
  create_tally poll_id payer initial_tally_hash = do
    tally ← find_tally chain poll_id payer
    some (record {
      instruction = record {
        program = chain.program_id;
        method = "createTally";
        args = number poll_id ∷ bytes initial_tally_hash ∷ [];
        strict = false;
        accounts = one "tally" tally ∷ one "payer" payer ∷ [];
        remaining_accounts = [];
      };
      cu_limit = 200000;
    })

  unfoldable pub tally_batch :
      ℕ → Key → CompressedProof → List ℕ → List ℕ → List ℕ → Option InstructionWithCu
  tally_batch poll_id owner a_proof root_new cumulative_msg_hash_new tally_hash_new = do
    tally ← find_tally chain poll_id owner
    some (record {
      instruction = record {
        program = chain.program_id;
        method = "tallyBatch";
        args =
            proof a_proof
            ∷ bytes root_new
            ∷ bytes cumulative_msg_hash_new
            ∷ bytes tally_hash_new
            ∷ [];
        strict = false;
        accounts = one "tally" tally ∷ [];
        remaining_accounts = [];
      };
      cu_limit = 200000;
    })

  unfoldable pub finish_tally : ℕ → Key → List ℕ → ℕ → Option InstructionWithCu
  finish_tally poll_id payer counts tally_salt = do
    tally ← find_tally chain poll_id payer
    poll ← find_poll chain poll_id
    some (record {
      instruction = record {
        program = chain.program_id;
        method = "finishTally";
        args = numbers counts ∷ number tally_salt ∷ [];
        strict = false;
        accounts = one "payer" payer ∷ one "tally" tally ∷ one "poll" poll ∷ [];
        remaining_accounts = [];
      };
      cu_limit = 200000;
    })

  unfoldable pub close_tally : ℕ → Key → Option InstructionWithCu
  close_tally poll_id owner = do
    tally ← find_tally chain poll_id owner
    some (record {
      instruction = record {
        program = chain.program_id;
        method = "closeTally";
        args = number poll_id ∷ [];
        strict = false;
        accounts = one "owner" owner ∷ one "tally" tally ∷ [];
        remaining_accounts = [];
      };
      cu_limit = 200000;
    })
