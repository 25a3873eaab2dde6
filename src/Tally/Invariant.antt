-- ===== src/Tally/Invariant.antt =====
-- The counts are those of the leaves, and the tree holds the leaves' hashes.
use mootvote.Base.{
  ℕ, suc, ◌+◌, ◌^◌, ◌<◌, ◌≤◌, ◌≡◌, refl, sym, ap, ◌∙◌, arith, List, [], ◌∷◌, Option, none, some,
  Bool, true, false, ◌==◌, if◌then◌else◌, length, get_elem?, inl, inr, Option-cases, All,
}
use mootvote.Base.Int.{ℤ, pos, ◌+ℤ◌, ◌-ℤ◌}
use mootvote.Tally.Defs.{LeafData, Leaves, lookup, insert, Message, CircomProof, Library, ok, done}
use mootvote.Tally.Batch.{absent, Work, put_leaf, old_choice, accept}
use mootvote.Tally.Laws.{Lawful}
use mootvote.Tally.Counts.{
  one_if, count, hit, count-insert, lookup-insert, lookup-All, insert-All, adjust_lem, Distinct,
  insert-Distinct,
}

abbrev pub hash_of : Option LeafData → Option ℕ
hash_of none = none
hash_of (some leaf) = some leaf.hash

hashed :
    (b : Bool) (leaf : LeafData) (old : Option LeafData) (g : Option ℕ)
    → g ≡ hash_of old
    → (if b then some leaf.hash else g) ≡ hash_of (if b then some leaf else old)
hashed true leaf old g h = refl
hashed false leaf old g h = h

shifted :
    (c old new before after : ℕ)
    → after + one_if (old == suc c) ≡ before + one_if (new == suc c)
    → (if suc c == new
        then (if suc c == old then pos before -ℤ pos 1 else pos before) +ℤ pos 1
        else if suc c == old
        then pos before -ℤ pos 1
        else pos before)
      ≡ pos after
unfolding ◌-ℤ◌ ◌+ℤ◌
shifted c old new before after h = ground arith

module _ (lib : Library) (laws : Lawful lib) where
  -- For a poll with `n` choices.
  pub record IsConsistent (n : ℕ) (w : Work lib) : Type 0 where
    pub in_tree : (k : ℕ) → laws.get w.tree k ≡ hash_of (lookup k w.leaves)
    pub bounded : All (λ e. (e.0 < 2 ^ 64) × (e.1.choice ≤ n)) w.leaves
    pub distinct : Distinct w.leaves
    pub one_each : length w.tally_counts ≡ n
    pub counted : (c : ℕ) → c < n → get_elem? w.tally_counts c ≡ some (pos (count (suc c) w.leaves))

  -- The proof that the tree gives as it takes the value `v` at the key `k`: for an insertion if the key
  -- is free, else for an update.
  abbrev pub IsPut : lib.Tree → ℕ → ℕ → Option LeafData → lib.Tree → CircomProof → Type 0
  IsPut t k v none t' p = lib.add_and_get_circom_proof t k v ≡ done (t', p)
  IsPut t k v (some old) t' p = lib.update t k v ≡ some (t', p)

  -- The tree accepts a leaf at every key, and `wasLeafEmpty` says whether the key was free.
  put_leaf_total :
      (t : lib.Tree) (k v : ℕ) (old : Option LeafData)
      → k < 2 ^ 64
      → laws.get t k ≡ hash_of old
      → (t' : lib.Tree) × (p : CircomProof) × (put_leaf lib t k v ≡ ok (t', p, absent old))
        × ((j : ℕ) → laws.get t' j ≡ (if k == j then some v else laws.get t j))
        × IsPut t k v old t' p
  unfolding put_leaf
  put_leaf_total t k v none small h =
      let (t', p, e, view) = laws.add_and_get_fresh t k v small h in
      (t', p, rw (e, put_leaf), view, e)
  put_leaf_total t k v (some old) small h =
      let present = laws.add_and_get_present t k v old.hash h in
      let (t', p, e, view) = laws.update_present t k v old.hash h in
      (t', p, rw (present, put_leaf) (rw e), view, e)

  -- The two adjustments of the counts follow the insertion of the leaf.
  moved :
      (k : ℕ) (counts down up : List ℤ) (leaf : LeafData) (m : Leaves) (old c : ℕ)
      → hit (suc c) (lookup k m) ≡ one_if (old == suc c)
      → get_elem? counts c ≡ some (pos (count (suc c) m))
      → ((c : ℕ) (x : ℤ)
          → get_elem? counts c ≡ some x
          → get_elem? down c ≡ some (if suc c == old then x -ℤ pos 1 else x))
      → ((c : ℕ) (x : ℤ)
          → get_elem? down c ≡ some x
          → get_elem? up c ≡ some (if suc c == leaf.choice then x +ℤ pos 1 else x))
      → get_elem? up c ≡ some (pos (count (suc c) (insert k leaf m)))
  moved k counts down up leaf m old c was now h1 h2 =
      h2 c _ (h1 c _ now)
      ∙ ap some (
          shifted c old leaf.choice (count (suc c) m) (count (suc c) (insert k leaf m))
            (rw was at (count-insert (suc c) k leaf m)))

  hit-old_choice :
      (c : ℕ) (old : Option LeafData) → hit (suc c) old ≡ one_if (old_choice lib old == suc c)
  unfolding old_choice
  hit-old_choice c none = ground arith
  hit-old_choice c (some leaf) = refl

  old_choice-le :
      (n k : ℕ) (m : Leaves)
      → All (λ e. (e.0 < 2 ^ 64) × (e.1.choice ≤ n)) m
      → old_choice lib (lookup k m) ≤ n
  unfolding old_choice
  old_choice-le n k m h = elim (Option-cases (lookup k m)) [
    | inl e ↦ rw (e, old_choice) (omega arith)
    | inr (leaf, e) ↦ rw (e, old_choice) (lookup-All _ k m h e).1
  ]

  -- The leaf that an accepted message leaves behind.
  abbrev pub new_leaf : Message → LeafData
  new_leaf m = record {
    choice = m.choice;
    revoting_key = m.revoting_key_new;
    hash = lib.poseidon (m.choice ∷ m.revoting_key_new ∷ []);
  }

  pub accept-IsConsistent :
      (n : ℕ) (w : Work lib) (k : ℕ) (m : Message)
      → IsConsistent n w
      → k < 2 ^ 64
      → m.choice ≤ n
      → (w' : Work lib) × (p : CircomProof) × (accept lib w k (lookup k w.leaves) m
          ≡ ok (w', p, absent (lookup k w.leaves)))
        × IsConsistent n w'
        × (w'.leaves ≡ insert k (new_leaf m) w.leaves)
        × (w'.entries ≡ w.entries)
        × (w'.msg_hash ≡ w.msg_hash)
        × IsPut w.tree k (new_leaf m).hash (lookup k w.leaves) w'.tree p
  unfolding accept
  accept-IsConsistent n w k m h small in_range =
      let old = lookup k w.leaves in
      let (t', p, put, view, given) =
        put_leaf_total w.tree k (new_leaf m).hash old small (h.in_tree k) in
      let (down, e1, len1, h1) =
        adjust_lem (λ x. x -ℤ pos 1) (old_choice lib old) w.tally_counts
          (omega (arith, h.one_each, old_choice-le n k w.leaves h.bounded)) in
      let (up, e2, len2, h2) =
        adjust_lem (λ x. x +ℤ pos 1) m.choice down (omega (arith, h.one_each, len1)) in
      (
        record w { tree = t'; tally_counts = up; leaves = insert k (new_leaf m) w.leaves },
        p,
        rw (put, accept) (rw e1 (rw e2)),
        record {
          in_tree = λ j.
              view j
              ∙ hashed (k == j) (new_leaf m) (lookup j w.leaves) (laws.get w.tree j) (h.in_tree j)
              ∙ ap hash_of (sym (lookup-insert j k (new_leaf m) w.leaves));
          bounded = insert-All _ k (new_leaf m) w.leaves h.bounded (small, in_range);
          distinct = insert-Distinct k (new_leaf m) w.leaves h.distinct;
          one_each = len2 ∙ len1 ∙ h.one_each;
          counted = λ c lt.
              moved k w.tally_counts down up (new_leaf m) w.leaves (old_choice lib old) c
                (hit-old_choice c old) (h.counted c lt) h1 h2;
        },
        refl,
        refl,
        refl,
        given,
      )
