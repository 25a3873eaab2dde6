-- ===== src/Tally/Batch.antt =====
-- The loop of `onTallyNext` over a batch of votes (frontend/src/components/Tally.tsx).
use mootvote.Base.{
  ℕ, zero, suc, ◌+◌, ◌-◌, ◌/◌, ◌%◌, ◌^◌, List, [], ◌∷◌, ◌++◌, Option, none, some, Bool, ◌==◌, ◌&&◌,
  if◌then◌else◌, length, get_elem?, set,
}
use mootvote.Base.Int.{ℤ, pos, ◌+ℤ◌, ◌-ℤ◌}
use mootvote.Bytes.{big_loop}
use mootvote.Tally.Defs.{
  LeafData, Leaves, lookup, insert, VoteRow, Message, CircomProof, done, already_exists, fails,
  Library, bad_ciphertext_len, bad_message, tree_error, bad_choice, Result, ok, err, ◌>>=◌,
  from_option, state_depth,
}

-- What one vote appends to the arrays of the circuit's inputs.
pub record Entry : Type 0 where
  pub eph_pk : ℕ × ℕ
  pub nonce : ℕ
  pub ct_words : List ℕ
  pub siblings : List ℕ
  pub choice_old : ℕ
  pub revoting_key_old : ℕ
  pub no_aux : Bool
  pub aux_key : ℕ
  pub aux_value : ℕ
  pub was_leaf_empty : ℕ

-- The loop that reads a ciphertext in words of 32 bytes, by the words left.
unfoldable pub words_loop : ℕ → List ℕ → ℕ → Option (List ℕ)
words_loop zero buf i = some []
words_loop (suc k) buf i =
    let rest = words_loop k buf (i + 32) in
    elim (big_loop 32 buf i 0) [
      | none ↦ none
      | some x ↦ elim rest [ none ↦ none | some xs ↦ some (x ∷ xs) ]
    ]

unfoldable pub ct_words_of : List ℕ → Result (List ℕ)
ct_words_of buf =
    if length buf % 32 == 0
    then from_option bad_ciphertext_len (words_loop (length buf / 32) buf 0)
    else err bad_ciphertext_len

-- `if (choice !== 0n) tallyCounts[Number(choice) - 1] …= 1n`; beyond the array that is a TypeError.
unfoldable pub adjust : (ℤ → ℤ) → ℕ → List ℤ → Result (List ℤ)
adjust f choice counts = if choice == 0 then ok counts else elim (get_elem? counts (choice - 1)) [
  | none ↦ err bad_choice
  | some n ↦ ok (set counts (choice - 1) (f n))
]

-- `leafOld ? 0n : 1n`
abbrev pub absent : Option LeafData → ℕ
absent none = 1
absent (some leaf) = 0

module _ (lib : Library) where
  open lib use {
    poseidon, mul_point_escalar, poseidon_decrypt, Tree, add_and_get_circom_proof, update,
    generate_circom_verifier_proof,
  }

  -- The variables that the loop changes; `msg_hash` is `H`.
  pub record Work : Type 0 where
    pub tree : Tree
    pub tally_counts : List ℤ
    pub leaves : Leaves
    pub entries : List Entry
    pub msg_hash : ℕ

  -- `addAndGetCircomProof`, or `update` where the entry exists, with `wasLeafEmpty`.
  unfoldable pub put_leaf : Tree → ℕ → ℕ → Result (Tree × CircomProof × ℕ)
  put_leaf tree idx leaf = elim (add_and_get_circom_proof tree idx leaf) [
    | done (tree', proof) ↦ ok (tree', proof, 1)
    | fails ↦ err tree_error
    | already_exists ↦ elim (update tree idx leaf) [
      | none ↦ err tree_error
      | some (tree', proof) ↦ ok (tree', proof, 0)
    ]
  ]

  -- `choiceOld` and `revotingOld`
  unfoldable pub old_choice : Option LeafData → ℕ
  old_choice none = 0
  old_choice (some leaf) = leaf.choice

  unfoldable pub old_revoting_key : Option LeafData → ℕ
  old_revoting_key none = poseidon (0 ∷ [])
  old_revoting_key (some leaf) = leaf.revoting_key

  unfoldable pub entry_of : VoteRow → List ℕ → Option LeafData → CircomProof → ℕ → Entry
  entry_of v ct_words leaf_old proof was_leaf_empty = record {
    eph_pk = (v.eph_x, v.eph_y);
    nonce = v.nonce;
    ct_words = ct_words;
    siblings = proof.siblings;
    choice_old = old_choice leaf_old;
    revoting_key_old = old_revoting_key leaf_old;
    no_aux = proof.is_old0;
    aux_key = proof.old_key;
    aux_value = proof.old_value;
    was_leaf_empty = was_leaf_empty;
  }

  -- The arrays' new elements and the running hash, at the end of a round.
  unfoldable pub push_entry : Work → VoteRow → List ℕ → Option LeafData → CircomProof → ℕ → Work
  push_entry w v ct_words leaf_old proof was_leaf_empty = record w {
    entries = w.entries ++ (entry_of v ct_words leaf_old proof was_leaf_empty ∷ []);
    msg_hash = poseidon (w.msg_hash ∷ poseidon (v.eph_x ∷ v.eph_y ∷ v.nonce ∷ ct_words) ∷ []);
  }

  -- The branch of a valid vote: the leaf goes into the tree and the map, and the counts move.
  unfoldable pub accept : Work → ℕ → Option LeafData → Message → Result (Work × CircomProof × ℕ)
  accept w idx leaf_old m = do
    let leaf = poseidon (m.choice ∷ m.revoting_key_new ∷ [])
    (tree', proof, empty) ← put_leaf w.tree idx leaf
    counts ← adjust (λ n. n -ℤ pos 1) (old_choice leaf_old) w.tally_counts
    counts ← adjust (λ n. n +ℤ pos 1) m.choice counts
    ok (
      record w {
        tree = tree';
        tally_counts = counts;
        leaves =
            insert idx
              (record { choice = m.choice; revoting_key = m.revoting_key_new; hash = leaf })
              w.leaves;
      },
      proof,
      empty,
    )

  -- The branch of an invalid vote: nothing but a proof for the circuit.
  unfoldable pub refuse : Work → ℕ → Option LeafData → Result (Work × CircomProof × ℕ)
  refuse w idx leaf_old = do
    proof ← from_option tree_error (generate_circom_verifier_proof w.tree idx)
    ok (w, record proof { is_old0 = proof.fnc == 1 && proof.old_value == 0 }, absent leaf_old)

  -- A round on a message that is decrypted.
  unfoldable pub process_message : Work → VoteRow → List ℕ → Message → Result Work
  process_message w v ct_words m = do
    let idx = m.nu % 2 ^ state_depth
    let leaf_old = lookup idx w.leaves
    (w', proof, empty) ←
        (if old_revoting_key leaf_old == m.revoting_key_old
          then accept w idx leaf_old m
          else refuse w idx leaf_old)
    ok (push_entry w' v ct_words leaf_old proof empty)

  unfoldable pub decrypt_row : ℕ → VoteRow → Result (List ℕ × Message)
  decrypt_row tallier_sk v = do
    ct_words ← ct_words_of v.ciphertext
    m ←
        from_option bad_message
          (poseidon_decrypt ct_words (mul_point_escalar (v.eph_x, v.eph_y) tallier_sk) v.nonce)
    ok (ct_words, m)

  unfoldable pub process_vote : ℕ → Work → VoteRow → Result Work
  process_vote tallier_sk w v = do
    (ct_words, m) ← decrypt_row tallier_sk v
    process_message w v ct_words m

  unfoldable pub process_batch : ℕ → Work → List VoteRow → Result Work
  process_batch tallier_sk w [] = ok w
  process_batch tallier_sk w (v ∷ vs) =
      process_vote tallier_sk w v >>= λ w'. process_batch tallier_sk w' vs
