-- ===== src/Tally/Runs.antt =====
-- The loop of `onTallyNext` over a whole batch (frontend/src/components/Tally.tsx).
use mootvote.Base.{
  ℕ, ◌+◌, ◌≤◌, ◌≡◌, refl, ap, arith, ◌∙◌, List, [], ◌∷◌, length, All, length-append,
}
use mootvote.Tally.Defs.{Leaves, VoteRow, Message, Library, ok, err}
use mootvote.Tally.Batch.{Work, decrypt_row, process_vote, process_batch}
use mootvote.Tally.Laws.{Lawful}
use mootvote.Tally.Invariant.{IsConsistent}
use mootvote.Tally.Step.{cast, IsStep, process_message-IsStep}

module _ (lib : Library) (laws : Lawful lib) where
  -- A vote that `sk` decrypts to a choice of a poll with `n` choices, as the vote circuit proves of
  -- every vote of the program.
  abbrev pub Readable : ℕ → ℕ → VoteRow → Type 0
  Readable n sk v =
      (ct : List ℕ) × (m : Message) × (decrypt_row lib sk v ≡ ok (ct, m)) × (m.choice ≤ n)

  -- What a list of votes means for the leaves.
  unfoldable pub cast_all : ℕ → Leaves → List VoteRow → Leaves
  cast_all sk leaves [] = leaves
  cast_all sk leaves (v ∷ vs) = elim (decrypt_row lib sk v) [
    | err e ↦ leaves
    | ok (ct, m) ↦ cast_all sk (cast lib laws leaves m) vs
  ]

  -- The rounds of the loop, one for each vote: each appends the entry of its vote and takes the vote
  -- into the running hash.
  abbrev pub Rounds : ℕ → ℕ → List VoteRow → Work lib → Work lib → Type 0
  Rounds n sk [] w w' = w' ≡ w
  Rounds n sk (v ∷ vs) w w' =
      (ct : List ℕ) × (m : Message) × (w1 : Work lib) × (decrypt_row lib sk v ≡ ok (ct, m))
      × IsStep lib laws n w v ct m w1
      × Rounds n sk vs w1 w'

  pub record IsRun (n sk : ℕ) (rows : List VoteRow) (w w' : Work lib) : Type 0 where
    pub consistent : IsConsistent lib laws n w'
    pub meaning : w'.leaves ≡ cast_all sk w.leaves rows
    pub rounds : Rounds n sk rows w w'
    pub one_each : length w'.entries ≡ length w.entries + length rows

  -- A batch of readable votes is processed without an exception, whatever it holds: votes that are
  -- repeated, out of order or not valid. The leaves are what the votes mean one after the other, the
  -- counts are those of the leaves, the tree is that of the leaves. Each vote is one round,
  -- which appends the entry of that vote, its own data with the leaf that it has found and the path
  -- that the tree gives, and takes the vote into the running hash.
  pub process_batch-IsRun :
      (n sk : ℕ) (w : Work lib) (rows : List VoteRow)
      → IsConsistent lib laws n w
      → All (Readable n sk) rows
      → (w' : Work lib) × (process_batch lib sk w rows ≡ ok w') × IsRun n sk rows w w'
  unfolding process_batch cast_all process_vote
  process_batch-IsRun n sk w [] h rs =
      (w, refl, record { consistent = h; meaning = refl; rounds = refl; one_each = omega arith })
  process_batch-IsRun n sk w (v ∷ vs) h ((ct, m, e, small), rs) =
      let (w1, e1, s) = process_message-IsStep lib laws n w v ct m h small in
      let (w2, e2, r) = process_batch-IsRun n sk w1 vs s.consistent rs in
      let (entry, told) = s.entry in
      (
        w2,
        rw e (rw e1 e2),
        record {
          consistent = r.consistent;
          meaning = r.meaning ∙ rw (e, cast_all) (ap (λ l. cast_all sk l vs) s.meaning);
          rounds = (ct, m, w1, e, s, r.rounds);
          one_each =
              omega
                (arith, r.one_each, ap length told.appended, length-append w.entries (entry ∷ []));
        },
      )
