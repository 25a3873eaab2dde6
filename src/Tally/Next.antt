-- ===== src/Tally/Next.antt =====
-- `onTallyNext`, `onFinishTally` and `onResetTally` of frontend/src/components/Tally.tsx.
use mootvote.Base.{
  ℕ, zero, suc, ◌+◌, ◌-◌, ◌*◌, List, [], ◌∷◌, ◌++◌, Option, none, some, Bool, ◌==◌, if◌then◌else◌,
  length, replicate, not,
}
use mootvote.Base.Int.{ℤ, pos}
use mootvote.Bytes.{to_hex32, to_bytes_be32_buf}
use mootvote.Bytes.Hex.{hex_number}
use mootvote.Tally.Defs.{
  Leaves, TallyStore, VoteRow, done, already_exists, fails, Library, TallyError, no_wallet, no_key,
  fetch_failed, no_new_votes, tree_error, prover_failed, root_mismatch, tally_hash_mismatch,
  send_failed, save_failed, Result, ok, err, ◌>>=◌, from_option, max_batch, max_choices,
}
use mootvote.Tally.Batch.{Entry, Work, process_batch}

pub data Stage : Type 0 where
  fetch prove send finished : Stage

pub data Flow : Type 0 where
  batch finish : Flow

-- The component's state, and `saved`, its entry in IndexedDB.
pub record Ui : Type 0 where
  pub store : Option TallyStore
  pub saved : Option TallyStore
  pub error : Option TallyError
  pub busy : Bool
  pub remaining : Option ℕ
  pub stage : Option Stage
  pub flow : Option Flow

-- The instructions of ts-sdk that a transaction is made of.
pub data Instruction : Type 0 where
  create_tally : List ℕ → Instruction
  tally_batch : List ℕ → List ℕ → List ℕ → Instruction
  finish_tally : List ℤ → ℕ → Instruction

-- The inputs of the circuit; the arrays of the batch are `entries`.
pub record Inputs : Type 0 where
  pub root_old : ℕ
  pub cumulative_msg_hash_old : ℕ
  pub tally_salt_old : ℕ
  pub tally_salt_new : ℕ
  pub tally_old : List ℤ
  pub batch_len : ℕ
  pub tallier_sk : ℕ
  pub entries : List Entry

-- `publicSignals[1..3]`
pub record Signals : Type 0 where
  pub root_new : ℕ
  pub cumulative_msg_hash_new : ℕ
  pub tally_hash_new : ℕ

-- What one run of a handler meets: the wallet, the active key, the indexer's page of votes (`none` if
-- the request fails), 8 random bytes, snarkjs' prover, and whether the transaction is sent and the
-- store is written.
pub record Env : Type 0 where
  pub wallet : Bool
  pub tallier_sk : Option ℕ
  pub page : Option (List VoteRow)
  pub salt_bytes : List ℕ
  pub full_prove : Inputs → Option Signals
  pub sends : List Instruction → Bool
  pub saves : Bool

-- `while (ephPk.length < MAX_BATCH) …`, by the rounds left: the last entry is pushed again.
unfoldable pub pad_loop : ℕ → Entry → List Entry → List Entry
pad_loop zero last entries = entries
pad_loop (suc k) last entries = pad_loop k last (entries ++ (last ∷ []))

unfoldable pub last_of : Entry → List Entry → Entry
last_of e [] = e
last_of e (e' ∷ es) = last_of e' es

unfoldable pub pad_entries : List Entry → List Entry
pad_entries [] = []
pad_entries (e ∷ es) = pad_loop (max_batch - length (e ∷ es)) (last_of e es) (e ∷ es)

-- `tallyCounts[i] ?? 0n` for `i` below `k`.
unfoldable pub pad_counts : ℕ → List ℤ → List ℤ
pad_counts zero counts = []
pad_counts (suc k) [] = pos 0 ∷ pad_counts k []
pad_counts (suc k) (x ∷ xs) = x ∷ pad_counts k xs

-- `for (const b of saltU8b) salt = (salt << 8n) | BigInt(b)`
unfoldable pub salt_of : ℕ → List ℕ → ℕ
salt_of salt [] = salt
salt_of salt (b ∷ bs) = salt_of (salt * 256 + b) bs

-- `batch[batch.length - 1].id`
unfoldable pub last_id : ℕ → List VoteRow → ℕ
last_id id [] = id
last_id id (v ∷ vs) = last_id v.id vs

-- `store ? … : 0n`
unfoldable pub stored_salt : Option TallyStore → ℕ
stored_salt none = 0
stored_salt (some s) = hex_number 0 s.tally_salt_hex

unfoldable pub stored_msg_hash : Option TallyStore → ℕ
stored_msg_hash none = 0
stored_msg_hash (some s) = hex_number 0 s.running_msg_hash_hex

unfoldable pub stored_counts : Option TallyStore → List ℤ
stored_counts none = []
stored_counts (some s) = s.tally_counts

module _ (lib : Library) where
  open lib use {poseidon_int, Tree, empty_tree, add, update, root}

  -- The tree of the stored leaves.
  unfoldable pub add_leaf : Tree → ℕ → ℕ → Result Tree
  add_leaf tree idx hash = elim (add tree idx hash) [
    | done tree' ↦ ok tree'
    | fails ↦ err tree_error
    | already_exists ↦ elim (update tree idx hash) [
      | none ↦ err tree_error
      | some (tree', proof) ↦ ok tree'
    ]
  ]

  unfoldable pub rebuild : Tree → Leaves → Result Tree
  rebuild tree [] = ok tree
  rebuild tree ((idx, leaf) ∷ leaves) =
      add_leaf tree idx leaf.hash >>= λ tree'. rebuild tree' leaves

  -- The variables before the loop, for a poll with `n` choices.
  unfoldable pub begin : ℕ → Option TallyStore → Result (Work lib)
  begin n none = ok (record {
    tree = empty_tree;
    tally_counts = replicate n (pos 0);
    leaves = [];
    entries = [];
    msg_hash = 0;
  })
  begin n (some s) = do
    tree ← rebuild empty_tree s.leaves
    ok (record {
      tree = tree;
      tally_counts = s.tally_counts;
      leaves = s.leaves;
      entries = [];
      msg_hash = hex_number 0 s.running_msg_hash_hex;
    })

  -- `F.toObject(poseidon([salt, ...counts]))` with the counts padded.
  unfoldable pub tally_hash : ℕ → List ℤ → ℕ
  tally_hash salt counts = poseidon_int (pos salt ∷ pad_counts max_choices counts)

  unfoldable pub fetch_stage : Env → Result (ℕ × List VoteRow)
  fetch_stage env = if not env.wallet then err no_wallet else do
    sk ← from_option no_key env.tallier_sk
    rows ← from_option fetch_failed env.page
    elim rows [ [] ↦ err no_new_votes | v ∷ vs ↦ ok (sk, v ∷ vs) ]

  pub record Proved : Type 0 where
    pub work : Work lib
    pub signals : Signals
    pub salt : ℕ

  unfoldable pub check_signals : Work lib → ℕ → Signals → Result Proved
  check_signals w salt sig =
      if not (sig.root_new == root w.tree)
      then err root_mismatch
      else if not (sig.tally_hash_new == tally_hash salt w.tally_counts)
      then err tally_hash_mismatch
      else ok (record { work = w; signals = sig; salt = salt })

  unfoldable pub inputs_of : Option TallyStore → ℕ → ℕ → Work lib → Work lib → List VoteRow → Inputs
  inputs_of store sk salt w0 w rows = record {
    root_old = root w0.tree;
    cumulative_msg_hash_old = stored_msg_hash store;
    tally_salt_old = stored_salt store;
    tally_salt_new = salt;
    tally_old = pad_counts max_choices (stored_counts store);
    batch_len = length rows;
    tallier_sk = sk;
    entries = pad_entries w.entries;
  }

  unfoldable pub prove_stage : Env → ℕ → Option TallyStore → ℕ → List VoteRow → Result Proved
  prove_stage env n store sk rows = do
    w0 ← begin n store
    w ← process_batch lib sk w0 rows
    let salt = salt_of 0 env.salt_bytes
    sig ← from_option prover_failed (env.full_prove (inputs_of store sk salt w0 w rows))
    check_signals w salt sig

  -- The last assignment of the `send` stage.
  unfoldable pub new_store : ℕ → List ℕ → Option TallyStore → List VoteRow → Proved → TallyStore
  new_store poll_id account_id store rows p = record {
    poll_id = elim store [ none ↦ poll_id | some s ↦ s.poll_id ];
    account_id = elim store [ none ↦ account_id | some s ↦ s.account_id ];
    processed_after_id = last_id 0 rows;
    processed_count = elim store [ none ↦ 0 | some s ↦ s.processed_count ] + length rows;
    root_hex = to_hex32 (root p.work.tree);
    running_msg_hash_hex = to_hex32 p.signals.cumulative_msg_hash_new;
    tally_salt_hex = to_hex32 p.salt;
    tally_counts = p.work.tally_counts;
    leaves = p.work.leaves;
  }

  unfoldable pub batch_instructions : Option TallyStore → Proved → List Instruction
  batch_instructions store p =
      let step =
        tally_batch (to_bytes_be32_buf (pos (root p.work.tree)))
          (to_bytes_be32_buf (pos p.signals.cumulative_msg_hash_new))
          (to_bytes_be32_buf (pos p.signals.tally_hash_new)) in
      elim store [
        | none ↦ create_tally (to_bytes_be32_buf (pos (tally_hash 0 []))) ∷ step ∷ []
        | some s ↦ step ∷ []
      ]

  unfoldable pub send_stage :
      Env → ℕ → List ℕ → Option TallyStore → List VoteRow → Proved → Result TallyStore
  send_stage env poll_id account_id store rows p =
      if not (env.sends (batch_instructions store p))
      then err send_failed
      else if not env.saves
      then err save_failed
      else ok (new_store poll_id account_id store rows p)
