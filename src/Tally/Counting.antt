-- ===== src/Tally/Counting.antt =====
-- The whole count: what sequences of clicks lead to, and that it ends
-- (frontend/src/components/Tally.tsx).
use mathlib.Core.Path.{subst}
use mootvote.Base.{
  ℕ, suc, ◌+◌, ◌-◌, ◌*◌, ◌<◌, ◌≤◌, ◌≡◌, refl, ap, ◌∙◌, arith, List, [], ◌∷◌, Option, none, some,
  Bool, true, false, length, take, take_all, All, min, inl, inr,
}
use mootvote.Tally.Defs.{TallyStore, VoteRow, Library, max_batch}
use mootvote.Tally.Laws.{Lawful}
use mootvote.Tally.Runs.{Readable, cast_all}
use mootvote.Tally.Begin.{IsStore}
use mootvote.Tally.Next.{Ui, Env}
use mootvote.Tally.Clicks.{
  Action, next_batch, refresh, refresh_remaining, opened, act, acts, succeeded, click, successes,
}
use mootvote.Tally.Votes.{Ascending}
use mootvote.Tally.Rounds.{IsUpTo, At, At-stored_count, click-cases}

module _ (lib : Library) (n poll_id : ℕ) (account_id : List ℕ) (votes : List VoteRow)
    (laws : Lawful lib) (sk : ℕ) where
  module _ (ascending : Ascending 0 votes) (readable : All (Readable lib laws n sk) votes) where
    refresh-IsUpTo :
        (answered : Bool) (ui : Ui) (k : ℕ)
        → IsUpTo lib n poll_id account_id votes laws sk k ui
        → IsUpTo lib n poll_id account_id votes laws sk k
            (act lib n poll_id account_id votes (refresh answered) ui)
    unfolding act refresh_remaining
    refresh-IsUpTo true ui k h = record {
      idle = h.idle;
      same = h.same;
      at = h.at;
      left =
          ap (λ (t : ℕ). length votes - t)
            (At-stored_count lib n poll_id account_id votes laws sk ui.store k h.at);
    }
    refresh-IsUpTo false ui k h = record { idle = h.idle; same = h.same; at = h.at; left = tt }

    -- Every click is with the same account.
    abbrev pub IsKeyed : Action → Type 0
    IsKeyed (next_batch env) = env.tallier_sk ≡ some sk
    IsKeyed (refresh answered) = Unit

    acts-IsUpTo_from :
        (actions : List Action) (ui : Ui) (k m : ℕ)
        → k ≡ min (length votes) (max_batch * m)
        → All IsKeyed actions
        → IsUpTo lib n poll_id account_id votes laws sk k ui
        → IsUpTo lib n poll_id account_id votes laws sk
            (min
              (length votes)
              (max_batch * (m + successes lib n poll_id account_id votes actions ui)))
            (acts lib n poll_id account_id votes actions ui)
    unfolding acts act successes
    acts-IsUpTo_from [] ui k m e keys h =
        let same : k ≡ min (length votes) (max_batch * (m + 0)) = omega arith in
        subst (λ (t : ℕ). IsUpTo lib n poll_id account_id votes laws sk t ui) same h
    acts-IsUpTo_from (refresh answered ∷ rest) ui k m e keys h =
        acts-IsUpTo_from rest (act lib n poll_id account_id votes (refresh answered) ui) k m e
          keys.1 (refresh-IsUpTo answered ui k h)
    acts-IsUpTo_from (next_batch env ∷ rest) ui k m e keys h =
        let ui' = click lib n poll_id account_id votes env ui in
        let left = successes lib n poll_id account_id votes rest ui' in
        elim (click-cases lib n poll_id account_id votes laws sk ascending readable env ui k
          (omega arith) keys.0 h) [
            | inl (done, lt, next) ↦
                let shift : suc m + left ≡ m + (1 + left) = omega arith in
                rw done (
                  subst
                    (λ (t : ℕ).
                      IsUpTo lib n poll_id account_id votes laws sk
                        (min (length votes) (max_batch * t))
                        (acts lib n poll_id account_id votes rest ui'))
                    shift
                    (acts-IsUpTo_from rest ui' (min (length votes) (k + max_batch)) (suc m)
                      (omega arith) keys.1 next))
            | inr (stopped, next) ↦
                let shift : m + left ≡ m + (0 + left) = omega arith in
                rw stopped (
                  subst
                    (λ (t : ℕ).
                      IsUpTo lib n poll_id account_id votes laws sk
                        (min (length votes) (max_batch * t))
                        (acts lib n poll_id account_id votes rest ui'))
                    shift (acts-IsUpTo_from rest ui' k m e keys.1 next))
          ]

    successes-lt_from :
        (actions : List Action) (ui : Ui) (k : ℕ)
        → k ≤ length votes
        → All IsKeyed actions
        → IsUpTo lib n poll_id account_id votes laws sk k ui
        → k + max_batch * successes lib n poll_id account_id votes actions ui
          < length votes + max_batch
    unfolding successes
    successes-lt_from [] ui k le keys h = omega arith
    successes-lt_from (refresh answered ∷ rest) ui k le keys h =
        successes-lt_from rest (act lib n poll_id account_id votes (refresh answered) ui) k le
          keys.1 (refresh-IsUpTo answered ui k h)
    successes-lt_from (next_batch env ∷ rest) ui k le keys h =
        elim (click-cases lib n poll_id account_id votes laws sk ascending readable env ui k le
          keys.0 h) [
            | inl (done, lt, next) ↦
                let more =
                  successes-lt_from rest (click lib n poll_id account_id votes env ui)
                    (min (length votes) (k + max_batch)) (omega arith) keys.1 next in
                rw done (omega arith)
            | inr (stopped, next) ↦
                let more =
                  successes-lt_from rest (click lib n poll_id account_id votes env ui) k le keys.1
                    next in
                rw stopped (omega arith)
          ]

    opened-IsUpTo : IsUpTo lib n poll_id account_id votes laws sk 0 opened
    opened-IsUpTo = record { idle = refl; same = refl; at = refl; left = tt }

    -- From the page as it is opened without a store, whatever fails on the way: after any clicks, one
    -- after the other, and any requests for the total, the store, in memory and in the browser, holds
    -- what the first votes mean, six for each click that has ended without an error or all of them,
    -- with their number and the id of the last. The number of remaining votes, if it is known, is that
    -- of the others, and the page is not busy. The votes are readable, in the order of their ids, and
    -- served as the indexer does; the account stays the same.
    pub acts-IsUpTo :
        (actions : List Action)
        → All IsKeyed actions
        → IsUpTo lib n poll_id account_id votes laws sk
            (min
              (length votes)
              (max_batch * successes lib n poll_id account_id votes actions opened))
            (acts lib n poll_id account_id votes actions opened)
    acts-IsUpTo actions keys =
        subst
          (λ (t : ℕ).
            IsUpTo lib n poll_id account_id votes laws sk (min (length votes) (max_batch * t))
              (acts lib n poll_id account_id votes actions opened))
          (omega arith) (acts-IsUpTo_from actions opened 0 0 (omega arith) keys opened-IsUpTo)

    -- A store that holds what all votes mean.
    At-all :
        (store : Option TallyStore) (k : ℕ)
        → At lib n poll_id account_id votes laws sk store k
        → k ≡ length votes
        → 0 < length votes
        → (s : TallyStore) × (store ≡ some s)
          × IsStore n s
          × (s.leaves ≡ cast_all lib laws sk [] votes)
          × (s.processed_count ≡ length votes)
    At-all none k h all some_votes = absurd (omega arith)
    At-all (some s) k h all some_votes = (
      s,
      refl,
      h.0,
      h.1
          ∙ ap (cast_all lib laws sk [])
              (ap (λ (t : ℕ). take t votes) all ∙ take_all (length votes) votes (omega arith)),
      h.2 ∙ all,
    )

    no_more :
        (env : Env) (ui : Ui) (k : ℕ)
        → k ≡ length votes
        → env.tallier_sk ≡ some sk
        → IsUpTo lib n poll_id account_id votes laws sk k ui
        → succeeded (click lib n poll_id account_id votes env ui) ≡ false
    no_more env ui k all key h =
        elim (click-cases lib n poll_id account_id votes laws sk ascending readable env ui k
          (omega arith) key h) [
            | inl (done, lt, next) ↦ absurd (omega arith)
            | inr (stopped, next) ↦ stopped
          ]

    -- Counting ends: once as many clicks have ended without an error as there are batches of six votes,
    -- which is never exceeded, the store is sound and holds what all votes mean, one after the other,
    -- and no further click ends without an error. This holds whatever else has failed on the way, from
    -- the page as it is opened without a store, for one or more votes that are readable, in the order
    -- of their ids, and served as the indexer does, and while the account stays the same.
    pub acts_end :
        (actions : List Action) (env : Env)
        → All IsKeyed (next_batch env ∷ actions)
        → 0 < length votes
        → length votes ≤ max_batch * successes lib n poll_id account_id votes actions opened
        → (s : TallyStore) × ((acts lib n poll_id account_id votes actions opened).store ≡ some s)
          × IsStore n s
          × (s.leaves ≡ cast_all lib laws sk [] votes)
          × (s.processed_count ≡ length votes)
          × (max_batch * successes lib n poll_id account_id votes actions opened
              < length votes + max_batch)
          × (succeeded (
                click lib n poll_id account_id votes env
                  (acts lib n poll_id account_id votes actions opened))
              ≡ false)
    acts_end actions env keys some_votes enough =
        let h = acts-IsUpTo actions keys.1 in
        let all : min (length votes)
              (max_batch * successes lib n poll_id account_id votes actions opened)
            ≡ length votes =
          omega arith in
        let (s, stored, sound, meaning, counted) =
          At-all (acts lib n poll_id account_id votes actions opened).store _ h.at all some_votes in
        (
          s,
          stored,
          sound,
          meaning,
          counted,
          omega (arith, successes-lt_from actions opened 0 (omega arith) keys.1 opened-IsUpTo),
          no_more env (acts lib n poll_id account_id votes actions opened) _ all keys.0 h,
        )
