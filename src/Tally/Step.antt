-- ===== src/Tally/Step.antt =====
-- One round of the loop of `onTallyNext` on a decrypted message.
use mootvote.Base.{
  ℕ, ◌%◌, ◌^◌, ◌≤◌, ◌≡◌, refl, ap, arith, List, [], ◌∷◌, ◌++◌, Option, none, some, Bool, ◌&&◌, ◌==◌,
  if◌then◌else◌, inl, inr, Bool-cases,
}
use mootvote.Tally.Defs.{
  LeafData, Leaves, lookup, insert, VoteRow, Message, CircomProof, Library, ok, state_depth,
}
use mootvote.Tally.Batch.{
  Entry, absent, Work, old_choice, old_revoting_key, entry_of, push_entry, refuse, process_message,
}
use mootvote.Tally.Laws.{Lawful}
use mootvote.Tally.Invariant.{IsConsistent, IsPut, new_leaf, accept-IsConsistent}

module _ (lib : Library) (laws : Lawful lib) where
  abbrev pub index_of : Message → ℕ
  index_of m = m.nu % 2 ^ state_depth

  -- A vote counts if it names the revoting key that its leaf holds (the hash of 0 for no leaf).
  abbrev pub is_valid : Leaves → Message → Bool
  is_valid leaves m = old_revoting_key lib (lookup (index_of m) leaves) == m.revoting_key_old

  -- What a message means: a valid vote replaces the leaf of its nullifier, any other does nothing.
  unfoldable pub cast : Leaves → Message → Leaves
  cast leaves m =
      if is_valid leaves m then insert (index_of m) (new_leaf lib laws m) leaves else leaves

  -- What an entry says of the leaf that its vote has found: no leaf has the choice 0 and the hash of 0
  -- as key.
  abbrev pub TellsLeaf : Option LeafData → Entry → Type 0
  TellsLeaf none e =
      (e.was_leaf_empty ≡ 1) × (e.choice_old ≡ 0) × (e.revoting_key_old ≡ lib.poseidon (0 ∷ []))
  TellsLeaf (some leaf) e =
      (e.was_leaf_empty ≡ 0)
      × (e.choice_old ≡ leaf.choice)
      × (e.revoting_key_old ≡ leaf.revoting_key)

  abbrev pub TellsPath : CircomProof → Bool → Entry → Type 0
  TellsPath p no_aux e =
      (e.siblings ≡ p.siblings)
      × (e.no_aux ≡ no_aux)
      × (e.aux_key ≡ p.old_key)
      × (e.aux_value ≡ p.old_value)

  -- The path of an entry: for a valid vote that of the proof which the tree gives as it takes the new
  -- leaf, else that of a proof for the tree as it is.
  abbrev PutPath : Work lib → Message → Work lib → Entry → Type 0
  PutPath w m w' e =
      let old = lookup (index_of m) w.leaves in
      (p : CircomProof) × IsPut lib laws w.tree (index_of m) (new_leaf lib laws m).hash old w'.tree
        p
      × TellsPath p p.is_old0 e

  abbrev ReadPath : Work lib → Message → Work lib → Entry → Type 0
  ReadPath w m w' e =
      (p : CircomProof) × (lib.generate_circom_verifier_proof w.tree (index_of m) ≡ some p)
      × (w'.tree ≡ w.tree)
      × TellsPath p (p.fnc == 1 && p.old_value == 0) e

  abbrev pub HasPath : Work lib → Message → Work lib → Entry → Type 0
  HasPath w m w' e = if is_valid w.leaves m then PutPath w m w' e else ReadPath w m w' e

  -- The entry that a vote appends: its own ephemeral key, nonce and ciphertext, the leaf that it has
  -- found, and the path.
  pub record IsEntry (w : Work lib) (v : VoteRow) (ct : List ℕ) (m : Message) (w' : Work lib)
      (e : Entry) : Type 0 where
    pub appended : w'.entries ≡ w.entries ++ (e ∷ [])
    pub ephemeral : (e.eph_pk ≡ (v.eph_x, v.eph_y)) × (e.nonce ≡ v.nonce)
    pub ciphertext : e.ct_words ≡ ct
    pub leaf : TellsLeaf (lookup (index_of m) w.leaves) e
    pub path : HasPath w m w' e

  TellsLeaf-entry_of :
      (v : VoteRow) (ct : List ℕ) (old : Option LeafData) (p : CircomProof)
      → TellsLeaf old (entry_of lib v ct old p (absent old))
  unfolding entry_of old_choice old_revoting_key
  TellsLeaf-entry_of v ct none p = (refl, refl, refl)
  TellsLeaf-entry_of v ct (some leaf) p = (refl, refl, refl)

  push_entry-IsConsistent :
      (n : ℕ) (w : Work lib) (v : VoteRow) (ct : List ℕ) (old : Option LeafData) (p : CircomProof)
      (empty : ℕ)
      → IsConsistent lib laws n w
      → IsConsistent lib laws n (push_entry lib w v ct old p empty)
  unfolding push_entry
  push_entry-IsConsistent n w v ct old p empty h = record {
    in_tree = h.in_tree;
    bounded = h.bounded;
    distinct = h.distinct;
    one_each = h.one_each;
    counted = h.counted;
  }

  pub record IsStep (n : ℕ) (w : Work lib) (v : VoteRow) (ct : List ℕ) (m : Message) (w' : Work lib)
      : Type 0 where
    pub consistent : IsConsistent lib laws n w'
    pub meaning : w'.leaves ≡ cast w.leaves m
    pub entry : (e : Entry) × IsEntry w v ct m w' e
    pub hash :
        w'.msg_hash
        ≡ lib.poseidon (w.msg_hash ∷ lib.poseidon (v.eph_x ∷ v.eph_y ∷ v.nonce ∷ ct) ∷ [])

  -- A message with a choice of the poll is processed without an exception. The counts stay those of the leaves
  -- and the tree that of the leaves; the leaves change as the message means. One entry is appended:
  -- the vote's own key, nonce and ciphertext, the choice and the revoting key of the leaf that its
  -- nullifier had (0 and the hash of 0 without one), and the path of the proof that the tree gives,
  -- as it takes the leaf of a valid vote or as it is for any other. The running hash takes in the vote.
  pub process_message-IsStep :
      (n : ℕ) (w : Work lib) (v : VoteRow) (ct : List ℕ) (m : Message)
      → IsConsistent lib laws n w
      → m.choice ≤ n
      → (w' : Work lib) × (process_message lib w v ct m ≡ ok w') × IsStep n w v ct m w'
  unfolding process_message cast push_entry entry_of refuse
  process_message-IsStep n w v ct m h in_range = elim (Bool-cases (is_valid w.leaves m)) [
    | inl valid ↦
        let (w', p, e, h', meaning, same, hashed, put) =
          accept-IsConsistent lib laws n w (index_of m) m h (omega arith) in_range in
        let entry =
          entry_of lib v ct (lookup (index_of m) w.leaves) p
            (absent (lookup (index_of m) w.leaves)) in
        (
          push_entry lib w' v ct (lookup (index_of m) w.leaves) p
              (absent (lookup (index_of m) w.leaves)),
          rw valid (rw e),
          record {
            consistent = push_entry-IsConsistent n w' v ct _ p _ h';
            meaning = rw (valid, cast) meaning;
            entry = (
              entry,
              record {
                appended = ap (λ t. t ++ (entry ∷ [])) same;
                ephemeral = (refl, refl);
                ciphertext = refl;
                leaf = TellsLeaf-entry_of v ct (lookup (index_of m) w.leaves) p;
                path = rw valid (p, put, (refl, refl, refl, refl));
              },
            );
            hash = rw hashed refl;
          },
        )
    | inr invalid ↦
        let (p, e) = laws.generate_total w.tree (index_of m) in
        let p' : CircomProof = record p { is_old0 = p.fnc == 1 && p.old_value == 0 } in
        let entry =
          entry_of lib v ct (lookup (index_of m) w.leaves) p'
            (absent (lookup (index_of m) w.leaves)) in
        (
          push_entry lib w v ct (lookup (index_of m) w.leaves) p'
              (absent (lookup (index_of m) w.leaves)),
          rw invalid (rw e),
          record {
            consistent = push_entry-IsConsistent n w v ct _ p' _ h;
            meaning = rw (invalid, cast);
            entry = (
              entry,
              record {
                appended = refl;
                ephemeral = (refl, refl);
                ciphertext = refl;
                leaf = TellsLeaf-entry_of v ct (lookup (index_of m) w.leaves) p';
                path = rw invalid (p, e, refl, (refl, refl, refl, refl));
              },
            );
            hash = refl;
          },
        )
  ]
