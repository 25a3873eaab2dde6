-- ===== src/Sdk/Polls.antt =====
-- The instructions on polls (ts-sdk/src/instructions.ts).
use mootvote.Base.{ℕ, List, [], ◌∷◌, Option, some, true, false}
use mootvote.VoteData.{Point, CompressedProof, VoteParams, ◌>>=◌, serialize_vote_data}
use mootvote.Sdk.{
  Key, number, text, key, bytes, rows, point, proof, one, group, InstructionWithCu, Chain,
  platform_config, relayer_config, find_poll, find_relayer_state,
}
use mootvote.Sdk.Relayer.{relay}

pub record CreatePollParams : Type 0 where
  pub payer : Key
  pub id : ℕ
  pub n_choices : ℕ
  pub description_url : List ℕ
  pub census_url : List ℕ
  pub tallier_key : Point
  pub census_root : List ℕ
  pub voting_start_time : ℕ
  pub voting_end_time : ℕ
  pub fee : ℕ
  pub fee_destination : Key
  pub n_voters : ℕ

-- `VoteWithRelayerParams`, less the vote's own data.
pub record RelayedVote : Type 0 where
  pub relayer_key : Key
  pub msg_hash : List ℕ
  pub relayer_nu_hash : List ℕ
  pub poll_id : ℕ
  pub relayer_proof : CompressedProof
  pub root_state_new : List ℕ
  pub platform_fee_destination : Key

module _ (chain : Chain) where
  unfoldable pub create_poll : CreatePollParams → Option InstructionWithCu
  create_poll p = do
    poll ← find_poll chain p.id
    platform ← platform_config chain
    config ← relayer_config chain
    state ← find_relayer_state chain chain.program_id p.id
    some (record {
      instruction = record {
        program = chain.program_id;
        method = "createPoll";
        args =
            number p.id
            ∷ number p.n_choices
            ∷ text p.description_url
            ∷ text p.census_url
            ∷ point p.tallier_key
            ∷ bytes p.census_root
            ∷ number p.voting_start_time
            ∷ number p.voting_end_time
            ∷ number p.fee
            ∷ key p.fee_destination
            ∷ number p.n_voters
            ∷ [];
        strict = false;
        accounts =
            one "payer" p.payer
            ∷ one "poll" poll
            ∷ one "platformConfig" platform
            ∷ one "relayerConfig" config
            ∷ one "relayerState" state
            ∷ [];
        remaining_accounts = [];
      };
      cu_limit = 200000;
    })

  -- A vote of `v` in the poll `poll_id`.
  unfoldable pub vote : Key → VoteParams → ℕ → Key → Key → Option InstructionWithCu
  vote payer v poll_id platform_fee_destination poll_fee_destination = do
    poll ← find_poll chain poll_id
    platform ← platform_config chain
    some (record {
      instruction = record {
        program = chain.program_id;
        method = "vote";
        args = point v.eph_pk ∷ number v.nonce ∷ rows v.ciphertext ∷ proof v.proof ∷ [];
        strict = false;
        accounts =
            one "payer" payer
            ∷ one "pollFeeDestination" poll_fee_destination
            ∷ group "voteCommon" (
                ("poll", poll)
                ∷ ("platformFeeDestination", platform_fee_destination)
                ∷ ("platformConfig", platform)
                ∷ [])
            ∷ [];
        remaining_accounts = [];
      };
      cu_limit = 200000;
    })

  unfoldable pub vote_with_relayer : RelayedVote → VoteParams → Option InstructionWithCu
  vote_with_relayer p v = do
    data_bytes ← serialize_vote_data v
    platform ← platform_config chain
    poll ← find_poll chain p.poll_id
    relay chain (record {
      relayer_key = p.relayer_key;
      state_id = p.poll_id;
      relay_proof = p.relayer_proof;
      root_state_new = p.root_state_new;
      msg_hash = p.msg_hash;
      discriminator = 4;
      nu_hash = p.relayer_nu_hash;
      data_bytes = data_bytes;
      target_program = chain.program_id;
      target_accounts =
          record { is_signer = false; is_writable = false; pubkey = platform }
          ∷ record { is_signer = false; is_writable = true; pubkey = poll }
          ∷ record { is_signer = false; is_writable = true; pubkey = p.platform_fee_destination }
          ∷ [];
      target_cu_limit = 200000;
    })

  unfoldable pub withdraw_poll : ℕ → Key → Option InstructionWithCu
  withdraw_poll id fee_destination = do
    poll ← find_poll chain id
    some (record {
      instruction = record {
        program = chain.program_id;
        method = "withdrawPoll";
        args = [];
        strict = true;
        accounts = one "feeDestination" fee_destination ∷ one "poll" poll ∷ [];
        remaining_accounts = [];
      };
      cu_limit = 200000;
    })
