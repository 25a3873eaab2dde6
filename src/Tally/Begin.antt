-- ===== src/Tally/Begin.antt =====
-- The start of `onTallyNext` and its `prove` stage (frontend/src/components/Tally.tsx).
use mootvote.Base.{
  ℕ, zero, suc, ◌^◌, ◌<◌, ◌≤◌, ◌≡◌, ◌⊎◌, refl, arith, List, [], ◌∷◌, Option, none, some, ◌==◌,
  length, get_elem?, replicate, inl, inr, Bool-cases, Option-cases, All, length-replicate, ==_iff,
}
use mootvote.Base.Int.{ℤ, pos}
use mootvote.Tally.Defs.{
  Leaves, lookup, TallyStore, VoteRow, Library, TallyError, prover_failed, root_mismatch,
  tally_hash_mismatch, send_failed, save_failed, ok, err,
}
use mootvote.Tally.Batch.{Work}
use mootvote.Tally.Counts.{count, Distinct}
use mootvote.Tally.Laws.{Lawful}
use mootvote.Tally.Invariant.{IsConsistent}
use mootvote.Tally.Runs.{Readable, IsRun, process_batch-IsRun}
use mootvote.Tally.Rebuild.{rebuild-hash_of}
use mootvote.Tally.Next.{
  Env, begin, tally_hash, salt_of, Proved, check_signals, inputs_of, prove_stage, stored_msg_hash,
}

-- A stored tally of a poll with `n` choices: its counts are those of its leaves.
pub record IsStore (n : ℕ) (s : TallyStore) : Type 0 where
  pub bounded : All (λ e. (e.0 < 2 ^ 64) × (e.1.choice ≤ n)) s.leaves
  pub distinct : Distinct s.leaves
  pub one_each : length s.tally_counts ≡ n
  pub counted : (c : ℕ) → c < n → get_elem? s.tally_counts c ≡ some (pos (count (suc c) s.leaves))

abbrev pub IsStored : ℕ → Option TallyStore → Type 0
IsStored n none = Unit
IsStored n (some s) = IsStore n s

abbrev pub stored_leaves : Option TallyStore → Leaves
stored_leaves none = []
stored_leaves (some s) = s.leaves

-- What only the prover, the program or the browser's storage cause.
abbrev pub IsExternal : TallyError → Type 0
IsExternal prover_failed = Unit
IsExternal root_mismatch = Unit
IsExternal tally_hash_mismatch = Unit
IsExternal send_failed = Unit
IsExternal save_failed = Unit
IsExternal _ = ⊥

get_elem?-replicate : (n c : ℕ) (x : ℤ) → c < n → get_elem? (replicate n x) c ≡ some x
get_elem?-replicate zero c x h = absurd (omega arith)
get_elem?-replicate (suc n) zero x h = refl
get_elem?-replicate (suc n) (suc c) x h = get_elem?-replicate n c x (omega arith)

bounded_keys :
    (n : ℕ) (m : Leaves)
    → All (λ e. (e.0 < 2 ^ 64) × (e.1.choice ≤ n)) m
    → All (λ e. e.0 < 2 ^ 64) m
bounded_keys n [] h = tt
bounded_keys n (e ∷ m) h = (h.0.0, bounded_keys n m h.1)

-- The counts of a store, all 0 without one.
abbrev pub counts_in : ℕ → Option TallyStore → List ℤ
counts_in n none = replicate n (pos 0)
counts_in n (some s) = s.tally_counts

module _ (lib : Library) (laws : Lawful lib) where
  pub begin-IsConsistent :
      (n : ℕ) (store : Option TallyStore)
      → IsStored n store
      → (w : Work lib) × (begin lib n store ≡ ok w)
        × IsConsistent lib laws n w
        × (w.leaves ≡ stored_leaves store)
        × (w.entries ≡ [])
        × (w.msg_hash ≡ stored_msg_hash store)
        × (w.tally_counts ≡ counts_in n store)
  unfolding begin stored_msg_hash lookup
  begin-IsConsistent n none h = (
    record {
      tree = lib.empty_tree;
      tally_counts = replicate n (pos 0);
      leaves = [];
      entries = [];
      msg_hash = 0;
    },
    refl,
    record {
      in_tree = laws.get-empty_tree;
      bounded = tt;
      distinct = tt;
      one_each = length-replicate n (pos 0);
      counted = λ c lt. get_elem?-replicate n c (pos 0) lt;
    },
    refl,
    refl,
    refl,
    refl,
  )
  begin-IsConsistent n (some s) h =
      let (t, e, view) =
        rebuild-hash_of lib laws s.leaves h.distinct (bounded_keys n s.leaves h.bounded) in
      (
        _,
        rw e refl,
        record {
          in_tree = view;
          bounded = h.bounded;
          distinct = h.distinct;
          one_each = h.one_each;
          counted = h.counted;
        },
        refl,
        refl,
        refl,
        refl,
      )

  -- What the `prove` stage has when it ends well.
  pub record IsProved (n sk : ℕ) (env : Env) (store : Option TallyStore) (rows : List VoteRow)
      (p : Proved lib) : Type 0 where
    pub start : Work lib
    pub begun : begin lib n store ≡ ok start
    pub same_leaves : start.leaves ≡ stored_leaves store
    pub run : IsRun lib laws n sk rows start p.work
    pub salted : p.salt ≡ salt_of 0 env.salt_bytes
    pub same_root : p.signals.root_new ≡ lib.root p.work.tree
    pub same_hash : p.signals.tally_hash_new ≡ tally_hash lib p.salt p.work.tally_counts

  pub prove_stage-IsProved :
      (env : Env) (n sk : ℕ) (store : Option TallyStore) (rows : List VoteRow)
      → IsStored n store
      → All (Readable lib laws n sk) rows
      → ((e : TallyError) × (prove_stage lib env n store sk rows ≡ err e) × IsExternal e)
        ⊎ ((p : Proved lib) × (prove_stage lib env n store sk rows ≡ ok p)
            × IsProved n sk env store rows p)
  unfolding prove_stage check_signals
  prove_stage-IsProved env n sk store rows h readable =
      let (w0, e0, h0, leaves0, _, _, _) = begin-IsConsistent n store h in
      let (w, e1, run) = process_batch-IsRun lib laws n sk w0 rows h0 readable in
      let salt = salt_of 0 env.salt_bytes in
      elim (Option-cases (env.full_prove (inputs_of lib store sk salt w0 w rows))) [
        | inl e2 ↦ inl (prover_failed, rw e0 (rw e1 (rw e2 refl)), tt)
        | inr (sig, e2) ↦ elim (Bool-cases (sig.root_new == lib.root w.tree)) [
          | inr other ↦ inl (root_mismatch, rw e0 (rw e1 (rw e2 (rw other refl))), tt)
          | inl same ↦
              elim (Bool-cases (sig.tally_hash_new == tally_hash lib salt w.tally_counts)) [
                | inr other ↦
                    inl (tally_hash_mismatch, rw e0 (rw e1 (rw e2 (rw (same, other) refl))), tt)
                | inl hash ↦ inr (
                  record { work = w; signals = sig; salt = salt },
                  rw e0 (rw e1 (rw e2 (rw (same, hash) refl))),
                  record {
                    start = w0;
                    begun = e0;
                    same_leaves = leaves0;
                    run = run;
                    salted = refl;
                    same_root = (==_iff _ _).0 same;
                    same_hash = (==_iff _ _).0 hash;
                  },
                )
              ]
        ]
      ]
