-- ===== src/Vote.antt =====
-- The voting form (frontend/src/components/Vote.tsx): its data, and what it takes from the libraries.
pub mod Seal
pub mod Submit
pub mod Handler
pub mod Words
pub mod Readable
pub mod Outcome
pub mod Carried
pub mod Revote
pub mod Relayed
mod Tests
use mootvote.Base.{ℕ, ◌+◌, ◌*◌, List, Option, none, some, Bool, true, false, not, ◌&&◌, ◌||◌, ltb}
use mootvote.Blob.{Text}
use mootvote.Census.{CensusError}
use mootvote.Compress.{Groth16Proof}
use mootvote.Merkle.{MerkleProof}
use mootvote.Sdk.{Key, AccountMeta, Transaction}

-- `PollDetail`, by the numbers that the texts of the id and of the keys spell.
pub record PollDetail : Type 0 where
  pub poll_id : ℕ
  pub title : Text
  pub choices : List Text
  pub tallier_key : ℕ × ℕ
  pub census_root : ℕ
  pub voting_start_time : ℕ
  pub voting_end_time : ℕ
  pub fee_destination : Key

pub data StepKey : Type 0 where
  prepare download prove submit finished : StepKey

pub data VoteError : Type 0 where
  no_wallet_key nothing_selected no_active_account census_fetch_failed : VoteError
  bad_census : CensusError → VoteError
  relayer_fetch_failed relayer_not_initialized proof_failed no_platform no_address : VoteError
  bad_vote_data request_failed bad_response transaction_failed save_failed : VoteError
  relayer_refused : ℕ → Text → VoteError

pub data VoteResult (A : Type 0) : Type 0 where
  good : A → VoteResult A
  bad : VoteError → VoteResult A

infixl 5 ◌>>=◌
abbrev pub ◌>>=◌ : {A B : Type 0} → VoteResult A → (A → VoteResult B) → VoteResult B
good a >>= f = f a
bad e >>= f = bad e

abbrev pub need : {A : Type 0} → VoteError → Option A → VoteResult A
need e none = bad e
need e (some a) = good a

-- The hooks of the component; a message of success is the signature that it links to.
pub record VotePage : Type 0 where
  pub selected : Option ℕ
  pub use_relayer : Bool
  pub err_msg : Option VoteError
  pub busy : Bool
  pub done_msg : Option Text
  pub stage : Option StepKey

-- A signature of circomlibjs.
pub record Signature : Type 0 where
  pub r8 : ℕ × ℕ
  pub s : ℕ

-- The inputs of the vote circuit.
pub record VoteInputs : Type 0 where
  pub census_root : ℕ
  pub poll_id : ℕ
  pub n_choices : ℕ
  pub revoting_key_new : ℕ
  pub revoting_key_old : ℕ
  pub voter_pk : ℕ × ℕ
  pub sig_r : ℕ × ℕ
  pub sig_s : ℕ
  pub merkle : MerkleProof ℕ
  pub choice : ℕ
  pub eph_sk : ℕ
  pub tallier_pk : ℕ × ℕ
  pub relayer_id : ℕ
  pub nonce : ℕ
  pub ciphertext : List ℕ

-- What the component takes from circomlibjs, @zk-kit and snarkjs beside the tally's `Library`;
-- `full_prove` throws on inputs that the circuit refuses.
pub record VoteLibrary : Type 0 where
  pub sign_poseidon : List ℕ → ℕ → Signature
  pub base8 : ℕ × ℕ
  pub sub_order : ℕ
  pub poseidon_encrypt : List ℕ → ℕ × ℕ → ℕ → List ℕ
  pub full_prove : VoteInputs → Option Groth16Proof

-- `RelayRequestBody`; a key is its bytes.
pub record RelayRequestBody : Type 0 where
  pub msg_hash : Text
  pub nu : Text
  pub discriminator : ℕ
  pub data_hex : Text
  pub target_program : Key
  pub state_id : Text
  pub cu_limit : ℕ
  pub accounts : List AccountMeta

-- The relayer's answer: a status with a text, or a body, with the signature if it is as expected.
pub data RelayResponse : Type 0 where
  not_ok : ℕ → Text → RelayResponse
  accepted : Option Text → RelayResponse

-- What the outside answers to one click: `none` is an exception, the inner `none` of an account null.
pub record World : Type 0 where
  pub wallet : Option Key
  pub census : Option (List ℕ)
  pub relayer_config : Option (Option Key)
  pub platform : Option (Option Key)
  pub respond : RelayRequestBody → Option RelayResponse
  pub blockhash : Option (List ℕ)
  pub send_transaction : Transaction → Bool
  pub saved : Bool
  pub new_bytes : List ℕ
  pub eph_bytes : List ℕ
  pub random_words : ℕ × ℕ
  pub now : ℕ
  pub salt : List ℕ
  pub iv : List ℕ

abbrev pub is_none : {A : Type 0} → Option A → Bool
is_none none = true
is_none (some a) = false

-- Whether the button is; `now` is in milliseconds.
unfoldable pub disabled : VotePage → PollDetail → Option Key → Bool → ℕ → Bool
disabled ui poll wallet locked now =
    ui.busy
    || (not ui.use_relayer && is_none wallet)
    || locked
    || is_none ui.selected
    || ltb now (poll.voting_start_time * 1000)
    || ltb (poll.voting_end_time * 1000) now
