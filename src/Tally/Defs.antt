-- ===== src/Tally/Defs.antt =====
-- The data of frontend/src/components/Tally.tsx, and the libraries that it calls.
use mootvote.Base.{ℕ, List, [], ◌∷◌, Option, none, some, Bool, ◌==◌, if◌then◌else◌}
use mootvote.Base.Int.{ℤ}

-- `STATE_DEPTH`, `MAX_BATCH` and `MAX_CHOICES` (frontend/src/consts.ts).
abbrev pub state_depth : ℕ
state_depth = 64

abbrev pub max_batch : ℕ
max_batch = 6

abbrev pub max_choices : ℕ
max_choices = 11

pub record LeafData : Type 0 where
  pub choice : ℕ
  pub revoting_key : ℕ
  pub hash : ℕ

-- `Record<string, LeafData>`, by the numbers that the keys spell.
abbrev pub Leaves : Type 0
Leaves = List (ℕ × LeafData)

-- `leavesMap[k]`; `none` is undefined.
unfoldable pub lookup : ℕ → Leaves → Option LeafData
lookup k [] = none
lookup k ((j, leaf) ∷ m) = if j == k then some leaf else lookup k m

-- `leavesMap[k] = leaf`
unfoldable pub insert : ℕ → LeafData → Leaves → Leaves
insert k leaf [] = (k, leaf) ∷ []
insert k leaf ((j, old) ∷ m) = if j == k then (k, leaf) ∷ m else (j, old) ∷ insert k leaf m

-- The texts `rootHex`, `runningMsgHashHex` and `tallySaltHex` are kept as written by `toHex32`;
-- `tallyCounts`, decimal strings, as the numbers that they spell.
pub record TallyStore : Type 0 where
  pub poll_id : ℕ
  pub account_id : List ℕ
  pub processed_after_id : ℕ
  pub processed_count : ℕ
  pub root_hex : List ℕ
  pub running_msg_hash_hex : List ℕ
  pub tally_salt_hex : List ℕ
  pub tally_counts : List ℤ
  pub leaves : Leaves

-- A vote as the indexer serves it: the numbers that `id`, `eph_x`, `eph_y` and `nonce` spell, and the
-- bytes that `ciphertext` spells.
pub record VoteRow : Type 0 where
  pub id : ℕ
  pub eph_x : ℕ
  pub eph_y : ℕ
  pub nonce : ℕ
  pub ciphertext : List ℕ

-- The four limbs of a decrypted message.
pub record Message : Type 0 where
  pub nu : ℕ
  pub choice : ℕ
  pub revoting_key_old : ℕ
  pub revoting_key_new : ℕ

-- A proof of the Merkle tree library, in the fields that are read.
pub record CircomProof : Type 0 where
  pub is_old0 : Bool
  pub fnc : ℕ
  pub old_key : ℕ
  pub old_value : ℕ
  pub siblings : List ℕ

-- `already_exists` is ErrEntryIndexAlreadyExists, `fails` any other exception.
pub data Attempt (A : Type 0) : Type 0 where
  done : A → Attempt A
  already_exists : Attempt A
  fails : Attempt A

-- What the component takes from circomlibjs (`poseidon`, and `poseidon_int` where a bigint may be
-- negative), @zk-kit (`mul_point_escalar`,
-- `poseidon_decrypt`, which throws on a bad ciphertext) and @iden3/js-merkletree. A call that
-- changes the tree returns the new one; `none` is an exception.
pub record Library : Type 1 where
  pub poseidon : List ℕ → ℕ
  pub poseidon_int : List ℤ → ℕ
  pub mul_point_escalar : ℕ × ℕ → ℕ → ℕ × ℕ
  pub poseidon_decrypt : List ℕ → ℕ × ℕ → ℕ → Option Message
  pub Tree : Type 0
  pub empty_tree : Tree
  pub add : Tree → ℕ → ℕ → Attempt Tree
  pub update : Tree → ℕ → ℕ → Option (Tree × CircomProof)
  pub add_and_get_circom_proof : Tree → ℕ → ℕ → Attempt (Tree × CircomProof)
  pub generate_circom_verifier_proof : Tree → ℕ → Option CircomProof
  pub root : Tree → ℕ

pub data TallyError : Type 0 where
  no_wallet no_key fetch_failed no_new_votes bad_ciphertext_len bad_message tree_error : TallyError
  bad_choice prover_failed root_mismatch tally_hash_mismatch send_failed save_failed : TallyError

pub data Result (A : Type 0) : Type 0 where
  ok : A → Result A
  err : TallyError → Result A

infixl 5 ◌>>=◌
abbrev pub ◌>>=◌ : {A B : Type 0} → Result A → (A → Result B) → Result B
ok a >>= f = f a
err e >>= f = err e

abbrev pub from_option : {A : Type 0} → TallyError → Option A → Result A
from_option e none = err e
from_option e (some a) = ok a
