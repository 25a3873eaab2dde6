-- ===== src/Vote/Tests.antt =====
-- Runs of the voting form on small libraries.
use mootvote.Base.Int.{pos}
use mootvote.Bytes.Hex.{hex_number}
use mootvote.Base.{
  ℕ, ◌+◌, ◌-◌, ◌*◌, ◌%◌, ◌<◌, ◌≡◌, ◌⊎◌, refl, ap₂, arith, List, [], ◌∷◌, ◌++◌, Option, none, some,
  true, false, replicate, length, All,
}
use mootvote.Blob.{Json}
use mootvote.Blob.Tests.{small_crypto}
use mootvote.Bytes.{to_bytes_be32_buf, fp, bytes_to_hex}
use mootvote.Compress.{Groth16Proof, compress_proof}
use mootvote.Keyring.{Keyring, BabyJubKeypair}
use mootvote.Revo.{Revo, RevoKeysMap}
use mootvote.Sdk.{Chain}
use mootvote.Sdk.Polls.{RelayedVote, vote_with_relayer}
use mootvote.Sdk.Relayer.{relay}
use mootvote.VoteData.RoundTrip.{read_vote_args}
use mootvote.Tally.Defs.{Library, Message}
use mootvote.Tally.Laws.{Lawful}
use mootvote.Tally.Tests.{small_lib, small_laws}
use mootvote.Vote.{PollDetail, VoteLibrary, VotePage, World, RelayRequestBody, accepted, good}
use mootvote.Key.{random_scalar}
use mootvote.Bytes.{big_loop, bytes32_to_big, to_bytes_be32_buf, be_loop}
use mootvote.Compress.{compress_g1, compress_g2, set_sign, be32}
use mootvote.Sdk.{platform_config, find_poll}
use mootvote.Census.{census_check, find_loop, parse_loop}
use mootvote.Merkle.{get_merkle_proof, proof_loop, next_level, halve_loop, default_node}
use mootvote.Revo.{get_for_poll, get_poll, get_account}
use mootvote.Tally.Defs.{lookup, ok}
use mootvote.Tally.Batch.{old_revoting_key, decrypt_row}
use mootvote.Tally.Step.{is_valid, cast}
use mootvote.VoteData.{VoteParams, serialize_vote_data, put, put_all, to_array_like_le8, le_bytes}
use mootvote.Vote.Seal.{Sealed, Prepared, prepare_vote, active_account, id_for_account, seal}
use mootvote.Vote.Submit.{
  Submission, relayed, vote_params, relay_body, relay_accounts, read_response, submit_to_relayer,
}
use mootvote.Vote.Handler.{
  Clicked, check_click, census_stage, relayer_stage, download_stage, proof_stage, submit_stage,
  finish_vote, cast_vote, on_vote_click,
}
use mootvote.Vote.Outcome.{IsSent, IsUnsent, on_vote_click-IsOutcome}
use mootvote.Vote.Readable.{VoteLaws, row_of, message_of, decrypt_row-seal}
use mootvote.Vote.Carried.{Carries}
use mootvote.Vote.Revote.{Agrees, on_vote_click-Agrees}
use mootvote.Vote.Relayed.{requested, relay_body-vote_with_relayer}

abbrev sum : List ℕ → ℕ
sum [] = 1
sum (x ∷ xs) = x + 10 * sum xs

abbrev add_point : ℕ × ℕ → ℕ → ℕ × ℕ
add_point p k = ((p.0 + k) % fp, (p.1 + k) % fp)

abbrev shift : ℕ → List ℕ → List ℕ
shift k [] = 0 ∷ 0 ∷ 0 ∷ []
shift k (c ∷ cs) = (c + k) % fp ∷ shift k cs

abbrev unshift : ℕ → ℕ → ℕ
unshift k c = (c + (fp - k % fp)) % fp

abbrev read_message : List ℕ → ℕ × ℕ → ℕ → Option Message
read_message (a ∷ b ∷ c ∷ d ∷ rest) k nonce = some (record {
  nu = unshift k.0 a;
  choice = unshift k.0 b;
  revoting_key_old = unshift k.0 c;
  revoting_key_new = unshift k.0 d;
})
read_message _ k nonce = none

abbrev vote_lib : Library
vote_lib = record small_lib {
  poseidon = λ xs. sum xs % fp;
  mul_point_escalar = add_point;
  poseidon_decrypt = read_message;
}

vote_laws : Lawful vote_lib
vote_laws = record {
  get = small_laws.get;
  get-empty_tree = small_laws.get-empty_tree;
  add_fresh = small_laws.add_fresh;
  add_present = small_laws.add_present;
  add_and_get_fresh = small_laws.add_and_get_fresh;
  add_and_get_present = small_laws.add_and_get_present;
  update_present = small_laws.update_present;
  generate_total = small_laws.generate_total;
  root_ext = small_laws.root_ext;
  root-lt = small_laws.root-lt;
}

abbrev a_groth_proof : Groth16Proof
a_groth_proof = record { pi_a = (1, 2); pi_b = ((3, 4), (5, 6)); pi_c = (7, 8) }

abbrev small_vlib : VoteLibrary
small_vlib = record {
  sign_poseidon = λ prv message. record { r8 = (3, message); s = 9 };
  base8 = (5, 7);
  sub_order = 100;
  poseidon_encrypt = λ ws k nonce. shift k.0 ws;
  full_prove = λ i. some a_groth_proof;
}

shift_words :
    (k : ℕ) (ws : List ℕ)
    → (length (shift k ws) ≡ length ws + 3) × All (λ (c : ℕ). c < fp) (shift k ws)
shift_words k [] = (refl, (omega arith, (omega arith, (omega arith, tt))))
shift_words k (c ∷ ws) =
    let (len, small) = shift_words k ws in (omega (arith, len), (omega arith, small))

unshift_small : (k c : ℕ) → c < fp → unshift k ((c + k) % fp) ≡ c
unshift_small k c h = omega arith

same_message :
    (m : Message) (k : ℕ)
    → (m.nu < fp) × (m.choice < fp) × (m.revoting_key_old < fp) × (m.revoting_key_new < fp)
    → read_message
        (shift k (m.nu ∷ m.choice ∷ m.revoting_key_old ∷ m.revoting_key_new ∷ []))
        (k, k)
        0
      ≡ some m
same_message m k (a, b, c, d) =
    rw
      (
        unshift_small k m.nu a,
        unshift_small k m.choice b,
        unshift_small k m.revoting_key_old c,
        unshift_small k m.revoting_key_new d,
      )
      refl

small_vote_laws : VoteLaws vote_lib small_vlib
small_vote_laws = record {
  shared_key = λ a b. ap₂ (λ (x y : ℕ). (x, y)) (omega arith) (omega arith);
  point-lt = λ p k. (omega arith, omega arith);
  poseidon-lt = λ xs. omega arith;
  encrypt_words =
      λ ws k nonce four. (omega (arith, (shift_words k.0 ws).0, four), (shift_words k.0 ws).1);
  decrypt-encrypt = λ m k nonce small words. same_message m k.0 small;
}

abbrev word : ℕ → List ℕ
word b = replicate 31 0 ++ (b ∷ [])

abbrev voter : BabyJubKeypair
voter = record { name = 97 ∷ []; prv = 1 ∷ []; sk = 1; pub_key = (2, 3); created_at = 4 }

abbrev keyring : Keyring
keyring = record {
  locked = false;
  pass = 112 ∷ [];
  accounts = voter ∷ [];
  active = 0;
  has_keyring = some true;
  import_status = none;
  db = none;
  saved_active = none;
}

abbrev json : Json RevoKeysMap
json = record { stringify = λ m. []; parse = λ b. none }

abbrev no_keys : Revo
no_keys = record { map = []; loaded = true; db = none }

abbrev small_poll : PollDetail
small_poll = record {
  poll_id = 6;
  title = 84 ∷ [];
  choices = (65 ∷ []) ∷ (66 ∷ []) ∷ [];
  tallier_key = (16, 18);
  census_root = 1;
  voting_start_time = 10;
  voting_end_time = 20;
  fee_destination = 8 ∷ [];
}

abbrev small_chain : Chain
small_chain = record {
  program_id = 1 ∷ [];
  relayer_program_id = 2 ∷ [];
  system_program = 0 ∷ [];
  find_program_address = λ seeds program. some (sum program ∷ length seeds ∷ []);
}

-- Everything answers; the census is the voter's leaf and another.
abbrev small_world : World
small_world = record {
  wallet = some (3 ∷ []);
  census = some (word 9 ++ word 132);
  relayer_config = some (some (255 ∷ 1 ∷ []));
  platform = some (some (4 ∷ []));
  respond = λ body. some (accepted (some (115 ∷ [])));
  blockhash = some (5 ∷ []);
  send_transaction = λ tx. true;
  saved = true;
  new_bytes = 30 ∷ [];
  eph_bytes = 40 ∷ [];
  random_words = (1, 2);
  now = 15000;
  salt = [];
  iv = [];
}

abbrev ready : VotePage
ready = record {
  selected = some 1;
  use_relayer = true;
  err_msg = none;
  busy = false;
  done_msg = none;
  stage = none;
}

abbrev or_nothing : Option Submission → Submission
or_nothing none =
    relayed
      (record {
        msg_hash = [];
        nu = [];
        discriminator = 0;
        data_hex = [];
        target_program = [];
        state_id = [];
        cu_limit = 0;
        accounts = [];
      })
      []
or_nothing (some s) = s

abbrev clicked : Clicked
clicked =
    on_vote_click vote_lib small_vlib small_chain small_crypto json keyring small_world small_poll
      ready no_keys

clicked_sent : clicked.sent ≡ some (or_nothing clicked.sent)
unfolding on_vote_click cast_vote check_click prepare_vote active_account id_for_account
    get_for_poll get_poll get_account random_scalar download_stage census_stage census_check
    find_loop parse_loop big_loop bytes32_to_big get_merkle_proof proof_loop next_level halve_loop
    default_node relayer_stage seal proof_stage submit_stage submit_to_relayer relay_body
    vote_params serialize_vote_data relay_accounts read_response finish_vote compress_proof put
    put_all to_array_like_le8 le_bytes to_bytes_be32_buf be_loop compress_g1 set_sign be32
    compress_g2 platform_config find_poll
clicked_sent = refl

no_votes-Agrees : Agrees vote_lib small_vlib vote_laws [] no_keys voter 6
unfolding Agrees get_for_poll get_account get_poll lookup old_revoting_key
no_votes-Agrees = refl

active_voter : active_account keyring ≡ some voter
unfolding active_account
active_voter = refl

on_vote_click-Agrees_example :
    (v : VoteParams) × (m : Message) × Carries small_chain small_poll v (or_nothing clicked.sent)
    × ((ct : List ℕ) × (decrypt_row vote_lib 11 (row_of 1 v) ≡ ok (ct, m)))
    × (m.choice ≡ 1 + 1)
    × (is_valid vote_lib vote_laws [] m ≡ true)
    × Agrees vote_lib small_vlib vote_laws (cast vote_lib vote_laws [] m) clicked.revo voter 6
on_vote_click-Agrees_example =
    on_vote_click-Agrees vote_lib small_vlib vote_laws small_vote_laws small_chain small_crypto json
      keyring small_world small_poll ready no_keys [] voter 1 11 1 (or_nothing clicked.sent) refl
      active_voter refl (omega arith) refl (omega arith, omega arith) no_votes-Agrees refl
      clicked_sent

abbrev small_prepared : Prepared
small_prepared = record {
  account_id = 97 ∷ [];
  prv = 1 ∷ [];
  pub_key = (2, 3);
  old_sec = 0;
  new_sec = 31;
  n_choices = 2;
  choice = 2;
}

decrypt_row-seal_example :
    decrypt_row vote_lib 11 (
      row_of 1 (
        vote_params
          (seal vote_lib small_vlib small_poll small_prepared (40 ∷ []) (1, 2))
          (compress_proof a_groth_proof)))
    ≡ ok (
      (seal vote_lib small_vlib small_poll small_prepared (40 ∷ []) (1, 2)).ciphertext,
      message_of vote_lib small_vlib small_poll small_prepared,
    )
decrypt_row-seal_example =
    decrypt_row-seal vote_lib small_vlib small_vote_laws 11 1 small_poll small_prepared (40 ∷ [])
      (1, 2) (compress_proof a_groth_proof) refl (omega arith) (omega arith, omega arith)

on_vote_click-IsOutcome_example :
    IsUnsent small_world ready no_keys clicked
    ⊎ IsSent vote_lib small_vlib small_chain small_crypto json keyring small_world small_poll ready
        no_keys clicked
on_vote_click-IsOutcome_example =
    on_vote_click-IsOutcome vote_lib small_vlib small_chain small_crypto json keyring small_world
      small_poll ready no_keys

abbrev small_sealed : Sealed
small_sealed = seal vote_lib small_vlib small_poll small_prepared (40 ∷ []) (1, 2)

abbrev small_hash : Sealed → ℕ
small_hash x = vote_lib.poseidon (x.eph_pk.0 ∷ x.eph_pk.1 ∷ x.nonce ∷ x.ciphertext)

abbrev relayed_vote : RelayedVote
relayed_vote = record {
  relayer_key = 9 ∷ [];
  msg_hash = to_bytes_be32_buf (pos (small_hash small_sealed));
  relayer_nu_hash = [];
  poll_id = 6;
  relayer_proof = compress_proof a_groth_proof;
  root_state_new = [];
  platform_fee_destination = 4 ∷ [];
}

small_platform_config : platform_config small_chain ≡ some (11 ∷ 1 ∷ [])
unfolding platform_config
small_platform_config = refl

small_find_poll : find_poll small_chain 6 ≡ some (11 ∷ 2 ∷ [])
unfolding find_poll to_array_like_le8
small_find_poll = refl

relay_body-vote_with_relayer_example :
    let v =
      vote_params
        (seal vote_lib small_vlib small_poll small_prepared (40 ∷ []) (1, 2))
        (compress_proof a_groth_proof) in
    (body : RelayRequestBody) × (data_bytes : List ℕ) × (relay_body vote_lib small_chain small_world
        small_poll
        (seal vote_lib small_vlib small_poll small_prepared (40 ∷ []) (1, 2))
        5
        (compress_proof a_groth_proof)
      ≡ good body)
    × (body.data_hex ≡ bytes_to_hex data_bytes)
    × (hex_number 0 body.nu ≡ 5)
    × ((rest : List ℕ) → read_vote_args (data_bytes ++ rest) ≡ some (v, rest))
    × (vote_with_relayer small_chain relayed_vote v
        ≡ relay small_chain
            (requested vote_lib small_vlib small_vote_laws relayed_vote body data_bytes))
relay_body-vote_with_relayer_example =
    relay_body-vote_with_relayer vote_lib small_vlib small_vote_laws small_chain small_world
      small_poll small_prepared a_groth_proof 5 (4 ∷ []) (11 ∷ 1 ∷ []) (11 ∷ 2 ∷ []) relayed_vote
      (omega arith, omega arith) refl small_platform_config small_find_poll refl refl refl
      (omega arith)
