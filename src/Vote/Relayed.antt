-- ===== src/Vote/Relayed.antt =====
-- The relayer's request of frontend/src/components/Vote.tsx, and the relayer's instruction of
-- ts-sdk/src/instructions.ts.
use mathlib.Core.Option.{some-injective}
use mootvote.Base.{
  ℕ, ◌^◌, ◌<◌, ◌≡◌, refl, sym, ap, ◌∙◌, arith, List, [], ◌∷◌, ◌++◌, map, some, All, true, false,
  length,
}
use mootvote.Base.Int.{pos}
use mootvote.Bytes.{fp, bytes_to_hex, to_hex32, to_bytes_be32_buf}
use mootvote.Bytes.Hex.{hex_number, hex_number-to_hex32}
use mootvote.Compress.{Groth16Proof, compress_proof}
use mootvote.Compress.Reads.{compress_proof_sizes}
use mootvote.Decimal.{decimal}
use mootvote.Decimal.Value.{decimal_value, decimal_value-decimal}
use mootvote.Sdk.{Key, AccountMeta, Chain, platform_config, find_poll}
use mootvote.Sdk.Polls.{RelayedVote, vote_with_relayer}
use mootvote.Sdk.Relayer.{RelayParams, relay}
use mootvote.Tally.Defs.{Library}
use mootvote.VoteData.{VoteParams, serialize_vote_data}
use mootvote.VoteData.RoundTrip.{IsSized, read_vote_args, read_vote_args-serialize_vote_data}
use mootvote.Vote.{PollDetail, VoteLibrary, World, RelayRequestBody, good}
use mootvote.Vote.Seal.{Prepared, seal, limbs_of}
use mootvote.Vote.Submit.{vote_params, relay_accounts, relay_body}
use mootvote.Vote.Words.{word_bytes, length-word_bytes}
use mootvote.Vote.Readable.{VoteLaws}

length-map-word_bytes : (ws : List ℕ) → length (map (λ (c : ℕ). word_bytes c) ws) ≡ length ws
length-map-word_bytes [] = refl
length-map-word_bytes (c ∷ ws) = omega (arith, length-map-word_bytes ws)

word_bytes-All : (ws : List ℕ) → All (λ row. length row ≡ 32) (map (λ (c : ℕ). word_bytes c) ws)
word_bytes-All [] = tt
word_bytes-All (c ∷ ws) = (length-word_bytes c, word_bytes-All ws)

-- The program reads the data of a vote, whatever stands behind them.
pub serialize_vote_data-Reads :
    (v : VoteParams)
    → IsSized v
    → (bs : List ℕ) × (serialize_vote_data v ≡ some bs)
      × ((rest : List ℕ) → read_vote_args (bs ++ rest) ≡ some (v, rest))
serialize_vote_data-Reads v sized =
    let (bs, serialized, _, _) = read_vote_args-serialize_vote_data v [] sized in
    (bs, serialized, λ rest. same bs serialized rest)
  where
    same :
        (bs : List ℕ)
        → serialize_vote_data v ≡ some bs
        → (rest : List ℕ) → read_vote_args (bs ++ rest) ≡ some (v, rest)
    same bs serialized rest =
        let (bs', serialized', _, back) = read_vote_args-serialize_vote_data v rest sized in
        let found : bs' ≡ bs = some-injective bs' bs (sym serialized' ∙ serialized) in
        ap (λ (t : List ℕ). read_vote_args (t ++ rest)) (sym found) ∙ back

module _ (lib : Library) (vlib : VoteLibrary) (laws : VoteLaws lib vlib) where
  -- What the form hands in has the sizes that the program declares.
  pub vote_params-IsSized :
      (poll : PollDetail) (p : Prepared) (eph_bytes : List ℕ) (u : ℕ × ℕ) (proof : Groth16Proof)
      → (u.0 < 2 ^ 32) × (u.1 < 2 ^ 32)
      → IsSized (vote_params (seal lib vlib poll p eph_bytes u) (compress_proof proof))
  unfolding vote_params seal
  vote_params-IsSized poll p eph_bytes u proof words =
      let x = seal lib vlib poll p eph_bytes u in
      let (seven, _) =
        laws.encrypt_words (limbs_of lib vlib x.sig_hash p)
          (lib.mul_point_escalar poll.tallier_key x.eph_sk) x.nonce refl in
      let (a, b, c) = compress_proof_sizes proof in
      record {
        x_size = length-word_bytes x.eph_pk.0;
        y_size = length-word_bytes x.eph_pk.1;
        nonce_size = omega (arith, words.0, words.1);
        row_count = length-map-word_bytes x.ciphertext ∙ seven;
        row_size = word_bytes-All x.ciphertext;
        a_size = a;
        b_size = b;
        c_size = c;
      }

  -- The instruction that a relayer builds of a request (relayer/src/server.rs): the request's state id,
  -- the 32 bytes of its message hash, its discriminator, target, accounts and limit, the data in it, and
  -- of `r` the relayer's own key, proof, new root and hash.
  abbrev pub requested : RelayedVote → RelayRequestBody → List ℕ → RelayParams
  requested r body data_bytes = record {
    relayer_key = r.relayer_key;
    state_id = decimal_value 0 body.state_id;
    relay_proof = r.relayer_proof;
    root_state_new = r.root_state_new;
    msg_hash = to_bytes_be32_buf (pos (hex_number 0 body.msg_hash));
    discriminator = body.discriminator;
    nu_hash = r.relayer_nu_hash;
    data_bytes = data_bytes;
    target_program = body.target_program;
    target_accounts = body.accounts;
    target_cu_limit = body.cu_limit;
  }

  -- The form's request to the relayer, which writes the accounts, the discriminator and the limit out
  -- by itself, asks for the very instruction that `voteWithRelayer` of the SDK builds of the vote:
  -- if the program's addresses are found and the platform's fee has a destination, the request is made, its
  -- data are the hexadecimal digits of bytes in which the program reads the vote, whatever stands
  -- behind them, it spells the relayer's nullifier, of 256 bits, and `relay` of what the request names
  -- is `voteWithRelayer` of the vote with its poll, its fee destination and the hash of its message. The
  -- random words have 32 bits.
  pub relay_body-vote_with_relayer :
      (chain : Chain) (world : World) (poll : PollDetail) (p : Prepared) (proof : Groth16Proof)
      (nu : ℕ) (fee_destination platform poll_key : Key) (r : RelayedVote)
      → (world.random_words.0 < 2 ^ 32) × (world.random_words.1 < 2 ^ 32)
      → world.platform ≡ some (some fee_destination)
      → platform_config chain ≡ some platform
      → find_poll chain poll.poll_id ≡ some poll_key
      → r.poll_id ≡ poll.poll_id
      → r.platform_fee_destination ≡ fee_destination
      → r.msg_hash ≡ (
          let x = seal lib vlib poll p world.eph_bytes world.random_words in
          to_bytes_be32_buf (pos (lib.poseidon (x.eph_pk.0 ∷ x.eph_pk.1 ∷ x.nonce ∷ x.ciphertext))))
      → nu < 256 ^ 32
      → let x = seal lib vlib poll p world.eph_bytes world.random_words in
        let v = vote_params x (compress_proof proof) in
        (body : RelayRequestBody) × (data_bytes : List ℕ) × (relay_body lib chain world poll x nu
            (compress_proof proof)
          ≡ good body)
        × (body.data_hex ≡ bytes_to_hex data_bytes)
        × (hex_number 0 body.nu ≡ nu)
        × ((rest : List ℕ) → read_vote_args (data_bytes ++ rest) ≡ some (v, rest))
        × (vote_with_relayer chain r v ≡ relay chain (requested r body data_bytes))
  unfolding relay_body relay_accounts vote_with_relayer
  relay_body-vote_with_relayer chain world poll p proof nu fee platform poll_key r words hf hp hk hr
        hd hm small =
      let x = seal lib vlib poll p world.eph_bytes world.random_words in
      let v = vote_params x (compress_proof proof) in
      let sized = vote_params-IsSized poll p world.eph_bytes world.random_words proof words in
      let (bs, serialized, back) = serialize_vote_data-Reads v sized in
      let accounts : List AccountMeta =
        record { is_signer = false; is_writable = false; pubkey = platform }
        ∷ record { is_signer = false; is_writable = true; pubkey = poll_key }
        ∷ record { is_signer = false; is_writable = true; pubkey = fee }
        ∷ [] in
      let body : RelayRequestBody = record {
        msg_hash = to_hex32 (lib.poseidon (x.eph_pk.0 ∷ x.eph_pk.1 ∷ x.nonce ∷ x.ciphertext));
        nu = to_hex32 nu;
        discriminator = 4;
        data_hex = bytes_to_hex bs;
        target_program = chain.program_id;
        state_id = decimal poll.poll_id;
        cu_limit = 200000;
        accounts = accounts;
      } in
      let hash = lib.poseidon (x.eph_pk.0 ∷ x.eph_pk.1 ∷ x.nonce ∷ x.ciphertext) in
      let spelled : hex_number 0 (to_hex32 hash) ≡ hash =
        hex_number-to_hex32 hash (let below : hash < fp = laws.poseidon-lt _ in omega arith) in
      (
        body,
        bs,
        rw (serialized, hf, hp, hk) refl,
        refl,
        hex_number-to_hex32 nu small,
        back,
        rw (serialized, hp, hr, hk, hd, hm, spelled, decimal_value-decimal poll.poll_id) refl,
      )
