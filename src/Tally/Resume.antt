-- ===== src/Tally/Resume.antt =====
-- What a batch hands to the next one and to `onFinishTally` (frontend/src/components/Tally.tsx).
use mootvote.Base.{
  ℕ, zero, suc, ◌^◌, ◌<◌, ◌≤◌, ◌≡◌, refl, sym, ap, ◌∙◌, arith, List, [], ◌∷◌, Option, none, some,
  length, replicate, inl, inr, All,
}
use mootvote.Base.Int.{ℤ, pos}
use mootvote.Bytes.{to_bytes_be32_buf}
use mootvote.Bytes.Value.{IsByte}
use mootvote.Bytes.Hex.{hex_number, hex_number-to_hex32}
use mootvote.Tally.Defs.{lookup, TallyStore, VoteRow, Library, ok, err, max_choices}
use mootvote.Tally.Batch.{Work}
use mootvote.Tally.Laws.{Lawful}
use mootvote.Tally.Invariant.{hash_of}
use mootvote.Tally.Runs.{Readable}
use mootvote.Tally.Begin.{IsStored, IsProved, prove_stage-IsProved, begin-IsConsistent}
use mootvote.Tally.Outcome.{salt_of-lt, new_store-IsAdvance}
use mootvote.Tally.Next.{
  Env, create_tally, finish_tally, begin, stored_salt, stored_msg_hash, tally_hash, pad_counts,
  Proved, new_store, prove_stage,
}
use mootvote.Tally.Handlers.{final_counts, finish_instructions}

pad_counts_zeros : (k n : ℕ) → n ≤ k → pad_counts k (replicate n (pos 0)) ≡ replicate k (pos 0)
unfolding pad_counts
pad_counts_zeros zero zero h = refl
pad_counts_zeros zero (suc n) h = absurd (omega arith)
pad_counts_zeros (suc k) zero h = ap (λ t. pos 0 ∷ t) (pad_counts_zeros k zero (omega arith))
pad_counts_zeros (suc k) (suc n) h = ap (λ t. pos 0 ∷ t) (pad_counts_zeros k n (omega arith))

module _ (lib : Library) (laws : Lawful lib) where
  prove_stage-ok-IsProved :
      (env : Env) (n sk : ℕ) (store : Option TallyStore) (rows : List VoteRow) (p : Proved lib)
      → IsStored n store
      → All (Readable lib laws n sk) rows
      → prove_stage lib env n store sk rows ≡ ok p
      → IsProved lib laws n sk env store rows p
  prove_stage-ok-IsProved env n sk store rows p h readable proved =
      elim (prove_stage-IsProved lib laws env n sk store rows h readable) [
        | inl (e, e1, ext) ↦ absurd (let bad : err e ≡ ok p = sym e1 ∙ proved in cc)
        | inr (p', e1, good) ↦
            let same : p' ≡ p = (let q : ok p' ≡ ok p = sym e1 ∙ proved in cc) in rw (sym same) good
      ]

  -- The next batch starts where a proved batch of readable votes has ended: the tree that is built from
  -- the new store's leaves has the root that was proved, which is the one that `rootHex` spells, and
  -- the counts and the running hash are those that were proved, for a running hash of 256 bits.
  pub begin-new_store :
      (env : Env) (n sk poll_id : ℕ) (account_id : List ℕ) (store : Option TallyStore)
      (rows : List VoteRow) (p : Proved lib)
      → IsStored n store
      → All (Readable lib laws n sk) rows
      → prove_stage lib env n store sk rows ≡ ok p
      → p.signals.cumulative_msg_hash_new < 256 ^ 32
      → (w : Work lib) × (begin lib n (some (new_store lib poll_id account_id store rows p)) ≡ ok w)
        × (lib.root w.tree ≡ p.signals.root_new)
        × (hex_number 0 (new_store lib poll_id account_id store rows p).root_hex ≡ lib.root w.tree)
        × (w.leaves ≡ p.work.leaves)
        × (w.tally_counts ≡ p.work.tally_counts)
        × (w.msg_hash ≡ p.signals.cumulative_msg_hash_new)
  unfolding new_store stored_msg_hash
  begin-new_store env n sk poll_id account_id store rows p h readable proved small =
      let good = prove_stage-ok-IsProved env n sk store rows p h readable proved in
      let s = new_store lib poll_id account_id store rows p in
      let next = new_store-IsAdvance lib laws poll_id account_id env n sk store rows p good in
      let (w, e, hw, leaves, _, hash, counts) = begin-IsConsistent lib laws n (some s) next.sound in
      let same : lib.root w.tree ≡ lib.root p.work.tree = laws.root_ext w.tree p.work.tree (λ j.
        hw.in_tree j
        ∙ ap (λ m. hash_of (lookup j m)) leaves
        ∙ sym (good.run.consistent.in_tree j)) in
      (
        w,
        e,
        same ∙ sym good.same_root,
        hex_number-to_hex32 (lib.root p.work.tree) (laws.root-lt p.work.tree) ∙ sym same,
        leaves,
        counts,
        hash ∙ hex_number-to_hex32 p.signals.cumulative_msg_hash_new small,
      )

  -- After a proved batch of readable votes, whose salt is drawn as 8 bytes, the last instruction gives
  -- away the salt and the counts whose hash the proof of that batch has published.
  pub finish_instructions-new_store :
      (env : Env) (n sk poll_id : ℕ) (account_id : List ℕ) (store : Option TallyStore)
      (rows : List VoteRow) (p : Proved lib)
      → IsStored n store
      → All (Readable lib laws n sk) rows
      → prove_stage lib env n store sk rows ≡ ok p
      → length env.salt_bytes ≡ 8
      → All IsByte env.salt_bytes
      → (counts : List ℤ) × (salt : ℕ) × (finish_instructions lib n
            (some (new_store lib poll_id account_id store rows p))
          ≡ finish_tally counts salt ∷ [])
        × (tally_hash lib salt counts ≡ p.signals.tally_hash_new)
  unfolding finish_instructions final_counts stored_salt new_store
  finish_instructions-new_store env n sk poll_id account_id store rows p h readable proved len bs =
      let good = prove_stage-ok-IsProved env n sk store rows p h readable proved in
      let small : p.salt < 256 ^ 32 =
        omega (arith, good.salted, salt_of-lt 0 env.salt_bytes bs, ap (λ (k : ℕ). 256 ^ k) len) in
      (
        p.work.tally_counts,
        p.salt,
        ap (λ salt. finish_tally p.work.tally_counts salt ∷ []) (hex_number-to_hex32 p.salt small),
        sym good.same_hash,
      )

  -- Without a store, the tally of a poll with at most 11 choices is created with the hash of the salt
  -- and the counts, all 0, that the second instruction then gives away.
  pub finish_instructions-none :
      (n : ℕ)
      → n ≤ max_choices
      → finish_instructions lib n none
        ≡ create_tally (to_bytes_be32_buf (pos (tally_hash lib 0 (final_counts n none))))
          ∷ finish_tally (final_counts n none) 0
          ∷ []
  unfolding finish_instructions final_counts stored_salt tally_hash
  finish_instructions-none n h =
      ap
        (λ t.
          create_tally (to_bytes_be32_buf (pos (lib.poseidon_int (pos 0 ∷ t))))
          ∷ finish_tally (replicate n (pos 0)) 0
          ∷ [])
        (sym (pad_counts_zeros max_choices n h))
