-- ===== src/Vote/Readable.antt =====
-- A vote that the form seals, as the tally page reads it.
use mootvote.Base.{
  ℕ, ◌^◌, ◌<◌, ◌≡◌, refl, sym, ap, ◌∙◌, arith, List, [], ◌∷◌, map, some, All, length,
}
use mootvote.Bytes.{fp}
use mootvote.Bytes.Value.{value_from}
use mootvote.Tally.Defs.{Library, Message, VoteRow, ok}
use mootvote.Tally.Batch.{decrypt_row}
use mootvote.VoteData.{VoteParams, CompressedProof}
use mootvote.VoteData.Layout.{concat}
use mootvote.Vote.{PollDetail, VoteLibrary}
use mootvote.Vote.Seal.{Prepared, seal, sign_poll, sig_hash_of, limbs_of}
use mootvote.Vote.Submit.{vote_params}
use mootvote.Vote.Words.{word_bytes, value_from-word_bytes, ct_words_of-concat}

-- What the form relies on: a shared key is the same from both sides, coordinates and hashes are below
-- `FP`, and what is encrypted in words below `FP` with a nonce of 128 bits comes in words below `FP`,
-- seven for four, and is decrypted with the same key and nonce.
pub record VoteLaws (lib : Library) (vlib : VoteLibrary) : Type 0 where
  pub shared_key :
      (a b : ℕ)
      → lib.mul_point_escalar (lib.mul_point_escalar vlib.base8 a) b
        ≡ lib.mul_point_escalar (lib.mul_point_escalar vlib.base8 b) a
  pub point-lt :
      (p : ℕ × ℕ) (k : ℕ)
      → ((lib.mul_point_escalar p k).0 < fp) × ((lib.mul_point_escalar p k).1 < fp)
  pub poseidon-lt : (xs : List ℕ) → lib.poseidon xs < fp
  pub encrypt_words :
      (ws : List ℕ) (k : ℕ × ℕ) (nonce : ℕ)
      → length ws ≡ 4
      → (length (vlib.poseidon_encrypt ws k nonce) ≡ 7)
        × All (λ (c : ℕ). c < fp) (vlib.poseidon_encrypt ws k nonce)
  pub decrypt-encrypt :
      (m : Message) (k : ℕ × ℕ) (nonce : ℕ)
      → (m.nu < fp) × (m.choice < fp) × (m.revoting_key_old < fp) × (m.revoting_key_new < fp)
      → nonce < 2 ^ 128
      → lib.poseidon_decrypt
          (vlib.poseidon_encrypt
            (m.nu ∷ m.choice ∷ m.revoting_key_old ∷ m.revoting_key_new ∷ [])
            k
            nonce)
          k
          nonce
        ≡ some m

-- The vote as the indexer serves it, from what the program has been sent.
abbrev pub row_of : ℕ → VoteParams → VoteRow
row_of id v = record {
  id = id;
  eph_x = value_from 0 v.eph_pk.x;
  eph_y = value_from 0 v.eph_pk.y;
  nonce = v.nonce;
  ciphertext = concat v.ciphertext;
}

module _ (lib : Library) (vlib : VoteLibrary) where
  -- What a vote tells the tallier.
  abbrev pub message_of : PollDetail → Prepared → Message
  message_of poll p = record {
    nu = lib.poseidon (sig_hash_of lib vlib (sign_poll lib vlib p.prv poll.poll_id) ∷ []);
    choice = p.choice;
    revoting_key_old = lib.poseidon (p.old_sec ∷ []);
    revoting_key_new = lib.poseidon (p.new_sec ∷ []);
  }

  decrypt_row-words :
      (tallier_sk id nonce : ℕ) (eph : ℕ × ℕ) (ct : List ℕ) (m : Message)
      → (eph.0 < fp) × (eph.1 < fp)
      → All (λ (c : ℕ). c < fp) ct
      → lib.poseidon_decrypt ct (lib.mul_point_escalar eph tallier_sk) nonce ≡ some m
      → decrypt_row lib tallier_sk (record {
        id = id;
        eph_x = value_from 0 (word_bytes eph.0);
        eph_y = value_from 0 (word_bytes eph.1);
        nonce = nonce;
        ciphertext = concat (map (λ (c : ℕ). word_bytes c) ct);
      })
        ≡ ok (ct, m)
  unfolding decrypt_row
  decrypt_row-words tallier_sk id nonce eph ct m (ex, ey) fits h =
      rw
        (
          ct_words_of-concat ct fits,
          value_from-word_bytes eph.0 ex,
          value_from-word_bytes eph.1 ey,
          h,
        )
        refl

  -- What the form seals, the tally page reads: from the ephemeral key, the nonce and the bytes of the
  -- ciphertext that are handed in, the owner of the poll's key decrypts the message with the
  -- nullifier, the choice and the hashes of both revoting keys. The poll's key is that of the
  -- tallier's secret, and the two random words have 32 bits.
  pub decrypt_row-seal :
      (laws : VoteLaws lib vlib) (tallier_sk id : ℕ) (poll : PollDetail) (p : Prepared)
      (eph_bytes : List ℕ) (u : ℕ × ℕ) (serialized_proof : CompressedProof)
      → poll.tallier_key ≡ lib.mul_point_escalar vlib.base8 tallier_sk
      → p.choice < fp
      → (u.0 < 2 ^ 32) × (u.1 < 2 ^ 32)
      → decrypt_row lib tallier_sk
          (row_of id (vote_params (seal lib vlib poll p eph_bytes u) serialized_proof))
        ≡ ok ((seal lib vlib poll p eph_bytes u).ciphertext, message_of poll p)
  unfolding decrypt_row vote_params seal
  decrypt_row-seal laws tallier_sk id poll p eph_bytes u serialized_proof own_key small words =
      let x = seal lib vlib poll p eph_bytes u in
      let (ex, ey) = laws.point-lt vlib.base8 x.eph_sk in
      let (_, fits) =
        laws.encrypt_words (limbs_of lib vlib x.sig_hash p)
          (lib.mul_point_escalar poll.tallier_key x.eph_sk) x.nonce refl in
      let shared =
        ap (λ (k : ℕ × ℕ). lib.mul_point_escalar k x.eph_sk) own_key
        ∙ laws.shared_key tallier_sk x.eph_sk in
      let read =
        laws.decrypt-encrypt (message_of poll p) (lib.mul_point_escalar poll.tallier_key x.eph_sk)
          x.nonce (laws.poseidon-lt _, small, laws.poseidon-lt _, laws.poseidon-lt _)
          (omega (arith, words.0, words.1)) in
      decrypt_row-words tallier_sk id x.nonce x.eph_pk x.ciphertext (message_of poll p) (ex, ey)
        fits (ap (λ (k : ℕ × ℕ). lib.poseidon_decrypt x.ciphertext k x.nonce) (sym shared) ∙ read)
