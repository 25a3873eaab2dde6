-- ===== src/Vote/Seal.antt =====
-- What `onVoteClick` computes before it asks the prover (frontend/src/components/Vote.tsx).
use mootvote.Base.{
  ℕ, ◌+◌, ◌*◌, ◌^◌, ◌%◌, List, [], ◌∷◌, ◌++◌, Option, none, some, length, get_elem?,
}
use mootvote.Blob.{Text}
use mootvote.Bytes.Value.{value_from}
use mootvote.Decimal.{decimal}
use mootvote.Key.{random_scalar}
use mootvote.Keyring.{BabyJubKeypair, Keyring}
use mootvote.Merkle.{MerkleProof}
use mootvote.Revo.{Revo, RevoKey, get_for_poll}
use mootvote.Sdk.{Key, platform_name}
use mootvote.Tally.Defs.{Library}
use mootvote.Vote.{
  PollDetail, VoteResult, bad, good, no_active_account, Signature, VoteInputs, VoteLibrary,
}

-- `KR.accounts[KR.active] ?? KR.accounts[0]`
unfoldable pub active_account : Keyring → Option BabyJubKeypair
active_account kr = elim (get_elem? kr.accounts kr.active) [
  | some a ↦ some a
  | none ↦ get_elem? kr.accounts 0
]

-- The two numbers with a colon between them.
unfoldable pub id_for_account : BabyJubKeypair → Text
id_for_account a = decimal a.pub_key.0 ++ (58 ∷ decimal a.pub_key.1)

-- `existing ? existing.sk : 0n`
abbrev pub old_secret : Option RevoKey → ℕ
old_secret none = 0
old_secret (some rk) = rk.sk

pub record Prepared : Type 0 where
  pub account_id : Text
  pub prv : List ℕ
  pub pub_key : ℕ × ℕ
  pub old_sec : ℕ
  pub new_sec : ℕ
  pub n_choices : ℕ
  pub choice : ℕ

pub record Sealed : Type 0 where
  pub sig : Signature
  pub sig_hash : ℕ
  pub eph_sk : ℕ
  pub eph_pk : ℕ × ℕ
  pub nonce : ℕ
  pub ciphertext : List ℕ

-- `relayerId`: the fee key as a number, less its three highest bits.
unfoldable pub relayer_id_of : Key → ℕ
relayer_id_of [] = 0
relayer_id_of (b ∷ bs) = value_from 0 (b % 2 ^ 5 ∷ bs)

module _ (lib : Library) (vlib : VoteLibrary) where
  open lib use {poseidon, mul_point_escalar}
  open vlib use {sign_poseidon, base8, sub_order, poseidon_encrypt}

  -- `new_bytes` are the random bytes of `generateForPoll`.
  unfoldable pub prepare_vote : Keyring → Revo → PollDetail → ℕ → List ℕ → VoteResult Prepared
  prepare_vote kr revo poll selected new_bytes = elim (active_account kr) [
    | none ↦ bad no_active_account
    | some a ↦ good (record {
      account_id = id_for_account a;
      prv = a.prv;
      pub_key = a.pub_key;
      old_sec = old_secret (get_for_poll revo (id_for_account a) poll.poll_id);
      new_sec = random_scalar new_bytes sub_order;
      n_choices = length poll.choices;
      choice = selected + 1;
    })
  ]

  abbrev pub sig_hash_of : Signature → ℕ
  sig_hash_of sig = poseidon (sig.s ∷ sig.r8.0 ∷ sig.r8.1 ∷ [])

  -- `signPoseidon` on the platform's name and the poll.
  abbrev pub sign_poll : List ℕ → ℕ → Signature
  sign_poll prv poll_id = sign_poseidon prv (poseidon (platform_name ∷ poll_id ∷ []))

  -- `P`, the message to the tallier.
  abbrev pub limbs_of : ℕ → Prepared → List ℕ
  limbs_of sig_hash p =
      poseidon (sig_hash ∷ [])
      ∷ p.choice
      ∷ poseidon (p.old_sec ∷ [])
      ∷ poseidon (p.new_sec ∷ [])
      ∷ []

  -- The signature, the ephemeral key, the shared key, the nonce and the encrypted message.
  unfoldable pub seal : PollDetail → Prepared → List ℕ → ℕ × ℕ → Sealed
  seal poll p eph_bytes u =
      let sig = sign_poll p.prv poll.poll_id in
      let sig_hash = sig_hash_of sig in
      let eph_sk = random_scalar eph_bytes sub_order in
      let shared_key = mul_point_escalar poll.tallier_key eph_sk in
      let nonce = u.0 * 2 ^ 32 + u.1 in
      record {
        sig = sig;
        sig_hash = sig_hash;
        eph_sk = eph_sk;
        eph_pk = mul_point_escalar base8 eph_sk;
        nonce = nonce;
        ciphertext = poseidon_encrypt (limbs_of sig_hash p) shared_key nonce;
      }

  -- `relayerNu`
  unfoldable pub relayer_nu : ℕ → ℕ → ℕ
  relayer_nu sig_hash relayer_id = poseidon (sig_hash ∷ relayer_id ∷ [])

  unfoldable pub inputs_of : PollDetail → Prepared → Sealed → MerkleProof ℕ → ℕ → VoteInputs
  inputs_of poll p x merkle relayer_id = record {
    census_root = poll.census_root;
    poll_id = poll.poll_id;
    n_choices = p.n_choices;
    revoting_key_new = p.new_sec;
    revoting_key_old = p.old_sec;
    voter_pk = p.pub_key;
    sig_r = x.sig.r8;
    sig_s = x.sig.s;
    merkle = merkle;
    choice = p.choice;
    eph_sk = x.eph_sk;
    tallier_pk = poll.tallier_key;
    relayer_id = relayer_id;
    nonce = x.nonce;
    ciphertext = x.ciphertext;
  }
