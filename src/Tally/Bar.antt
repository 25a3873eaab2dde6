-- ===== src/Tally/Bar.antt =====
-- The progress bar and the cards of the tally page (frontend/src/components/Tally.tsx). The percentage
-- is computed in doubles, as on the page of a poll.
use mootvote.Base.{
  ℕ, ◌+◌, ◌-◌, ◌≤◌, ◌≡◌, ◌↔◌, refl, arith, List, Option, none, some, Bool, true, false, ◌==◌, not,
  if◌then◌else◌, min, max, length,
}
use mootvote.Tally.Next.{Ui, Flow, Stage, batch, finish, send, finished}
use mootvote.Tally.Outcome.{stored_count}
use mootvote.Tally.Defs.{VoteRow, Library}
use mootvote.Tally.Laws.{Lawful}
use mootvote.Tally.Rounds.{IsUpTo, At-stored_count}
use mootvote.PollPage.Bars.{percent}

pub record Progress : Type 0 where
  pub processed : ℕ
  pub total : ℕ
  pub pct : ℕ

-- `processed`, `total` and `pct`.
unfoldable pub progress : Ui → Progress
progress ui =
    let processed = stored_count ui.store in
    let rem : ℕ = elim ui.remaining [ none ↦ 0 | some r ↦ r ] in
    let total = processed + rem in
    record {
      processed = processed;
      total = total;
      pct = if total == 0 then 100 else max 0 (min 100 (percent processed total));
    }

-- `tallyNextEnabled`
unfoldable pub tally_next_enabled : Ui → Bool
tally_next_enabled ui = elim ui.remaining [ none ↦ true | some r ↦ not (r == 0) ]

-- The keys of the two cards of steps.
unfoldable pub batch_key : Option Flow → Option Stage → Option Stage
batch_key (some batch) stage = stage
batch_key _ stage = none

unfoldable pub finish_key : Option Flow → Option Stage → Option Stage
finish_key (some finish) (some send) = some send
finish_key (some finish) (some finished) = some finished
finish_key _ _ = none

-- Whether the buttons of the cards and those for a refresh and a reset are disabled.
unfoldable pub run_disabled : Bool → Bool → Bool
run_disabled busy wallet = if busy then true else not wallet

module _ (lib : Library) (n poll_id : ℕ) (account_id : List ℕ) (votes : List VoteRow)
    (laws : Lawful lib) (sk : ℕ) where
  -- Where `k` votes are counted and the rest is known, the bar is of all votes, and the card for the
  -- next batch has gone exactly if all are counted.
  pub progress-IsUpTo :
      (ui : Ui) (k r : ℕ)
      → IsUpTo lib n poll_id account_id votes laws sk k ui
      → k ≤ length votes
      → ui.remaining ≡ some r
      → ((progress ui).processed ≡ k)
        × ((progress ui).total ≡ length votes)
        × ((progress ui).pct ≤ 100)
        × (tally_next_enabled ui ≡ false ↔ k ≡ length votes)
  unfolding progress tally_next_enabled
  progress-IsUpTo ui k r h le known =
      let count = At-stored_count lib n poll_id account_id votes laws sk ui.store k h.at in
      let left : r ≡ length votes - k = rw known at h.left in
      rw (known, count)
        (refl, omega (arith, left, le), ground arith, ((λ e. ground arith), (λ e. ground arith)))
