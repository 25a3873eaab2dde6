-- ===== src/Sdk/Relayer.antt =====
-- The instructions of the relayer's program (ts-sdk-relayer/src/instructions.ts).
use mootvote.Base.{ℕ, ◌+◌, List, [], ◌∷◌, Option, some, true, false}
use mootvote.VoteData.{CompressedProof, ◌>>=◌}
use mootvote.Sdk.{
  Key, AccountMeta, number, key, bytes, proof, relayer, one, InstructionWithCu, Chain,
  relayer_config, find_relayer_state,
}

pub record RelayParams : Type 0 where
  pub relayer_key : Key
  pub state_id : ℕ
  pub relay_proof : CompressedProof
  pub root_state_new : List ℕ
  pub msg_hash : List ℕ
  pub discriminator : ℕ
  pub nu_hash : List ℕ
  pub data_bytes : List ℕ
  pub target_program : Key
  pub target_accounts : List AccountMeta
  pub target_cu_limit : ℕ

module _ (chain : Chain) where
  unfoldable pub initialize_relayer : Key → Key → List ℕ → Key → ℕ → Option InstructionWithCu
  initialize_relayer payer admin relayer_endpoint relayer_fee_key fee = do
    config ← relayer_config chain
    some (record {
      instruction = record {
        program = chain.relayer_program_id;
        method = "initialize";
        args = relayer relayer_endpoint relayer_fee_key ∷ key admin ∷ number fee ∷ [];
        strict = false;
        accounts = one "payer" payer ∷ one "relayerConfig" config ∷ [];
        remaining_accounts = [];
      };
      cu_limit = 200000;
    })

  unfoldable pub update_relayer : Key → Key → Key → List ℕ → Key → ℕ → Option InstructionWithCu
  update_relayer payer old_admin new_admin relayer_endpoint relayer_fee_key fee = do
    config ← relayer_config chain
    some (record {
      instruction = record {
        program = chain.relayer_program_id;
        method = "updateConfig";
        args = relayer relayer_endpoint relayer_fee_key ∷ key new_admin ∷ number fee ∷ [];
        strict = true;
        accounts =
            one "payer" payer
            ∷ one "relayerConfig" config
            ∷ one "admin" old_admin
            ∷ one "systemProgram" chain.system_program
            ∷ [];
        remaining_accounts = [];
      };
      cu_limit = 200000;
    })

  unfoldable pub relay : RelayParams → Option InstructionWithCu
  relay p = do
    config ← relayer_config chain
    state ← find_relayer_state chain p.target_program p.state_id
    some (record {
      instruction = record {
        program = chain.relayer_program_id;
        method = "relay";
        args =
            number p.state_id
            ∷ proof p.relay_proof
            ∷ bytes p.root_state_new
            ∷ bytes p.msg_hash
            ∷ number p.discriminator
            ∷ bytes p.nu_hash
            ∷ bytes p.data_bytes
            ∷ [];
        strict = false;
        accounts =
            one "relayer" p.relayer_key
            ∷ one "relayerConfig" config
            ∷ one "relayerState" state
            ∷ one "targetProgram" p.target_program
            ∷ [];
        remaining_accounts = p.target_accounts;
      };
      cu_limit = 200000 + p.target_cu_limit;
    })
