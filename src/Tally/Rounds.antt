-- ===== src/Tally/Rounds.antt =====
-- What the tallier's clicks lead to, whatever fails (frontend/src/components/Tally.tsx).
use mathlib.Core.Path.{subst}
use mootvote.Base.{
  ℕ, ◌+◌, ◌-◌, ◌<◌, ◌≤◌, ◌≡◌, ◌⊎◌, refl, sym, ap, ◌∙◌, arith, List, [], ◌∷◌, ◌++◌, Option, none,
  some, true, false, length, take, drop, All, min, inl, inr, Option-cases, length-take, length-drop,
}
use mootvote.Tally.Defs.{TallyStore, VoteRow, Library, TallyError, max_batch}
use mootvote.Tally.Laws.{Lawful}
use mootvote.Tally.Runs.{Readable, cast_all}
use mootvote.Tally.Begin.{IsStore, IsStored, stored_leaves}
use mootvote.Tally.Next.{Ui, Env, Stage, Flow, last_id}
use mootvote.Tally.Handlers.{failed, lower}
use mootvote.Tally.Outcome.{IsAdvance, stored_count, on_tally_next-IsOutcome}
use mootvote.Tally.Clicks.{after_of, served, succeeded, click, stopped_fetching, fetch_stage-cases}
use mootvote.Tally.Votes.{
  list_votes, Ascending, votes_after-last_id, last_id-append, All-take-drop, take-append-batch,
  cast_all-append,
}

module _ (lib : Library) (n poll_id : ℕ) (account_id : List ℕ) (votes : List VoteRow)
    (laws : Lawful lib) (sk : ℕ) where
  -- The store holds what the first `k` votes mean.
  abbrev pub At : Option TallyStore → ℕ → Type 0
  At none k = k ≡ 0
  At (some s) k =
      IsStore n s
      × (s.leaves ≡ cast_all lib laws sk [] (take k votes))
      × (s.processed_count ≡ k)
      × (s.processed_after_id ≡ last_id 0 (take k votes))

  -- What is left of the votes, if that is known.
  abbrev pub LeftIs : Option ℕ → ℕ → Type 0
  LeftIs none k = Unit
  LeftIs (some r) k = r ≡ length votes - k

  lower-LeftIs :
      (left : Option ℕ) (k j k' : ℕ)
      → LeftIs left k
      → length votes - k - j ≡ length votes - k'
      → LeftIs (lower j left) k'
  unfolding lower
  lower-LeftIs none k j k' h e = tt
  lower-LeftIs (some r) k j k' h e = ap (λ (t : ℕ). t - j) h ∙ e

  -- And so does the browser, between two clicks.
  pub record IsUpTo (k : ℕ) (ui : Ui) : Type 0 where
    pub idle : ui.busy ≡ false
    pub same : ui.saved ≡ ui.store
    pub at : At ui.store k
    pub left : LeftIs ui.remaining k

  At-IsStored : (store : Option TallyStore) (k : ℕ) → At store k → IsStored n store
  At-IsStored none k h = tt
  At-IsStored (some s) k h = h.0

  At-stored_leaves :
      (store : Option TallyStore) (k : ℕ)
      → At store k
      → stored_leaves store ≡ cast_all lib laws sk [] (take k votes)
  unfolding cast_all
  At-stored_leaves none k h = rw h refl
  At-stored_leaves (some s) k h = h.1

  pub At-stored_count : (store : Option TallyStore) (k : ℕ) → At store k → stored_count store ≡ k
  At-stored_count none k h = sym h
  At-stored_count (some s) k h = h.2

  module _ (ascending : Ascending 0 votes) (readable : All (Readable lib laws n sk) votes) where
    list_votes-At :
        (store : Option TallyStore) (k j : ℕ)
        → At store k
        → list_votes (after_of store) j votes ≡ take j (drop k votes)
    unfolding list_votes after_of last_id
    list_votes-At none k j h = rw h (ap (take j) (votes_after-last_id 0 0 votes ascending))
    list_votes-At (some s) k j h = rw h.3 (ap (take j) (votes_after-last_id 0 k votes ascending))

    -- A run on the next batch leads to the next prefix.
    IsAdvance-At :
        (store : Option TallyStore) (k : ℕ) (v : VoteRow) (vs : List VoteRow) (s : TallyStore)
        → k ≤ length votes
        → At store k
        → take max_batch (drop k votes) ≡ v ∷ vs
        → IsAdvance lib laws n sk store (v ∷ vs) s
        → At (some s) (min (length votes) (k + max_batch))
    unfolding last_id
    IsAdvance-At store k v vs s le h rows a =
        let longer : take k votes ++ (v ∷ vs) ≡ take (min (length votes) (k + max_batch)) votes =
          ap (λ t. take k votes ++ t) (sym rows) ∙ take-append-batch max_batch k votes in
        (
          a.sound,
          a.meaning
              ∙ ap (λ l. cast_all lib laws sk l (v ∷ vs)) (At-stored_leaves store k h)
              ∙ sym (
                  cast_all-append lib laws n sk [] (take k votes) (v ∷ vs)
                    (All-take-drop (Readable lib laws n sk) k 0 votes readable))
              ∙ ap (cast_all lib laws sk []) longer,
          omega (
            arith,
            a.counted,
            At-stored_count store k h,
            ap length rows,
            length-take max_batch (drop k votes),
            length-drop k votes,
          ),
          a.after_last ∙ sym (last_id-append 0 (take k votes) (v ∷ vs)) ∙ ap (last_id 0) longer,
        )

    succeeded-failed :
        (flow : Flow) (stage : Stage) (e : TallyError) (ui : Ui)
        → succeeded (failed flow stage e ui) ≡ false
    unfolding succeeded
    succeeded-failed flow stage e ui = refl

    served-page :
        (env : Env) (store : Option TallyStore) (v : VoteRow) (vs : List VoteRow) (k : ℕ)
        → At store k
        → (served votes store env).page ≡ some (v ∷ vs)
        → take max_batch (drop k votes) ≡ v ∷ vs
    unfolding served
    served-page env store v vs k h page = elim (Option-cases env.page) [
      | inl lost ↦ cc (rw lost at page)
      | inr (p, e) ↦
          let given : some (list_votes (after_of store) max_batch votes) ≡ some (v ∷ vs) =
            rw e at page in
          let rows : list_votes (after_of store) max_batch votes ≡ v ∷ vs = cc in
          sym (list_votes-At store k max_batch h) ∙ rows
    ]

    -- A click either leads to the next prefix or shows an error and changes nothing.
    pub click-cases :
        (env : Env) (ui : Ui) (k : ℕ)
        → k ≤ length votes
        → env.tallier_sk ≡ some sk
        → IsUpTo k ui
        → ((succeeded (click lib n poll_id account_id votes env ui) ≡ true)
            × (k < length votes)
            × IsUpTo
                (min (length votes) (k + max_batch))
                (click lib n poll_id account_id votes env ui))
          ⊎ ((succeeded (click lib n poll_id account_id votes env ui) ≡ false)
              × IsUpTo k (click lib n poll_id account_id votes env ui))
    unfolding click succeeded served
    click-cases env ui k le key h =
        elim (fetch_stage-cases lib n poll_id account_id votes (served votes ui.store env)) [
          | inr (e, stopped) ↦
              rw
                (stopped_fetching lib n poll_id account_id votes (served votes ui.store env) ui e
                  h.idle stopped)
                (inr (refl, record { idle = refl; same = h.same; at = h.at; left = h.left }))
          | inl f ↦
              let rows = served-page env ui.store f.v f.vs k h.at f.page in
              let outcome =
                on_tally_next-IsOutcome lib laws (served votes ui.store env) n poll_id sk account_id
                  f.v f.vs ui f.wallet key f.page
                  (subst (All (Readable lib laws n sk)) rows
                    (All-take-drop (Readable lib laws n sk) max_batch k votes readable))
                  h.idle (At-IsStored ui.store k h.at) in
              elim outcome.1 [
                | inl d ↦ inl (
                  rw d.no_error refl,
                  omega (
                    arith,
                    ap length rows,
                    length-take max_batch (drop k votes),
                    length-drop k votes,
                  ),
                  record {
                    idle = outcome.0;
                    same = d.saved ∙ sym d.stored;
                    at = rw d.stored (IsAdvance-At ui.store k f.v f.vs d.s le h.at rows d.advance);
                    left = rw d.lowered (
                        lower-LeftIs ui.remaining k _ _ h.left (
                          omega (
                            arith,
                            ap length rows,
                            length-take max_batch (drop k votes),
                            length-drop k votes,
                          )));
                  },
                )
                | inr x ↦ inr (
                  rw x.error refl,
                  record {
                    idle = outcome.0;
                    same = x.same_saved ∙ h.same ∙ sym x.same_store;
                    at = rw x.same_store h.at;
                    left = rw x.same_remaining h.left;
                  },
                )
              ]
        ]
