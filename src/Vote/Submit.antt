-- ===== src/Vote/Submit.antt =====
-- How `onVoteClick` hands a vote in, by the relayer or in a transaction (frontend/src/components/Vote.tsx).
use mootvote.Base.{ℕ, List, [], ◌∷◌, map, Option, none, some, true, false}
use mootvote.Base.Int.{pos}
use mootvote.Blob.{Text}
use mootvote.Bytes.{to_bytes_be32_buf, bytes_to_hex, to_hex32}
use mootvote.Decimal.{decimal}
use mootvote.Sdk.{Key, AccountMeta, Transaction, Chain, platform_config, find_poll, to_transaction}
use mootvote.Sdk.Polls.{vote}
use mootvote.Tally.Defs.{Library}
use mootvote.VoteData.{VoteParams, CompressedProof, serialize_vote_data}
use mootvote.Vote.{
  PollDetail, VoteResult, bad, good, ◌>>=◌, need, no_wallet_key, no_platform, no_address,
  bad_vote_data, request_failed, bad_response, relayer_refused, transaction_failed,
  RelayRequestBody, RelayResponse, not_ok, accepted, World,
}
use mootvote.Vote.Seal.{Sealed}

-- What has been handed in.
pub data Submission : Type 0 where
  relayed : RelayRequestBody → Text → Submission
  direct : Transaction → Submission

-- What the page gives away for it, before it knows the answer.
pub data Request : Type 0 where
  posted : RelayRequestBody → Request
  signed : Transaction → Request

abbrev pub request_of : Submission → Request
request_of (relayed body signature) = posted body
request_of (direct tx) = signed tx

-- The vote's data, the same on both ways.
unfoldable pub vote_params : Sealed → CompressedProof → VoteParams
vote_params x serialized_proof = record {
  ciphertext = map (λ (c : ℕ). to_bytes_be32_buf (pos c)) x.ciphertext;
  proof = serialized_proof;
  eph_pk = record {
    x = to_bytes_be32_buf (pos x.eph_pk.0);
    y = to_bytes_be32_buf (pos x.eph_pk.1);
  };
  nonce = x.nonce;
}

-- `platform!.feeDestination`; null is a TypeError.
abbrev pub fee_destination_of : Option (Option Key) → VoteResult Key
fee_destination_of none = bad no_platform
fee_destination_of (some none) = bad no_platform
fee_destination_of (some (some k)) = good k

module _ (lib : Library) (chain : Chain) where
  open lib use {poseidon}

  unfoldable pub relay_accounts : ℕ → Key → VoteResult (List AccountMeta)
  relay_accounts poll_id fee_destination = do
    platform ← need no_address (platform_config chain)
    poll ← need no_address (find_poll chain poll_id)
    good (
        record { is_signer = false; is_writable = false; pubkey = platform }
        ∷ record { is_signer = false; is_writable = true; pubkey = poll }
        ∷ record { is_signer = false; is_writable = true; pubkey = fee_destination }
        ∷ [])

  unfoldable pub relay_body :
      World → PollDetail → Sealed → ℕ → CompressedProof → VoteResult RelayRequestBody
  relay_body world poll x nu serialized_proof = do
    let msg_hash = poseidon (x.eph_pk.0 ∷ x.eph_pk.1 ∷ x.nonce ∷ x.ciphertext)
    data_u8 ← need bad_vote_data (serialize_vote_data (vote_params x serialized_proof))
    fee_destination ← fee_destination_of world.platform
    accounts ← relay_accounts poll.poll_id fee_destination
    good (record {
      msg_hash = to_hex32 msg_hash;
      nu = to_hex32 nu;
      discriminator = 4;
      data_hex = bytes_to_hex data_u8;
      target_program = chain.program_id;
      state_id = decimal poll.poll_id;
      cu_limit = 200000;
      accounts = accounts;
    })

  unfoldable pub read_response : Option RelayResponse → VoteResult Text
  read_response none = bad request_failed
  read_response (some (not_ok status txt)) = bad (relayer_refused status txt)
  read_response (some (accepted none)) = bad bad_response
  read_response (some (accepted (some signature))) = good signature

  unfoldable pub submit_to_relayer :
      World → PollDetail → Sealed → ℕ → CompressedProof → VoteResult Submission
  submit_to_relayer world poll x nu serialized_proof = do
    body ← relay_body world poll x nu serialized_proof
    signature ← read_response (world.respond body)
    good (relayed body signature)

  unfoldable pub send : World → Transaction → VoteResult Submission
  send world tx = elim (world.send_transaction tx) [
    | true ↦ good (direct tx)
    | false ↦ bad transaction_failed
  ]

  unfoldable pub direct_transaction :
      World → PollDetail → Sealed → CompressedProof → VoteResult Transaction
  direct_transaction world poll x serialized_proof = do
    fee_destination ← fee_destination_of world.platform
    payer ← need no_wallet_key world.wallet
    ix ← need no_address (
        vote chain payer (vote_params x serialized_proof) poll.poll_id fee_destination
          poll.fee_destination)
    recent_blockhash ← need transaction_failed world.blockhash
    good (to_transaction (ix ∷ []) recent_blockhash payer)

  unfoldable pub submit_directly :
      World → PollDetail → Sealed → CompressedProof → VoteResult Submission
  submit_directly world poll x serialized_proof = do
    tx ← direct_transaction world poll x serialized_proof
    send world tx
