-- ===== src/Tally/Tests/Clicked.antt =====
-- Two clicks of frontend/src/components/Tally.tsx on three votes, the first without a wallet.
use mootvote.Base.{
  ℕ, leb, if◌then◌else◌, ◌*◌, ◌+◌, ◌<◌, ◌≤◌, ◌≡◌, refl, arith, List, [], ◌∷◌, length, min, some,
  false, true,
}
use mootvote.Base.Int.{◌+ℤ◌, ◌-ℤ◌}
use mootvote.Bytes.{big_loop}
use mootvote.Tally.Batch.{
  process_batch, process_vote, decrypt_row, ct_words_of, words_loop, process_message, accept,
  adjust, entry_of, old_choice, old_revoting_key, push_entry, put_leaf, refuse,
}
use mootvote.Tally.Handlers.{on_tally_next, lower}
use mootvote.Tally.Defs.{TallyStore, VoteRow, max_batch, insert, lookup}
use mootvote.Tally.Runs.{cast_all}
use mootvote.Tally.Begin.{IsStore}
use mootvote.Tally.Next.{
  Env, fetch_stage, prove_stage, begin, check_signals, inputs_of, pad_counts, salt_of, send_stage,
  tally_hash, new_store,
}
use mootvote.Tally.Votes.{Ascending, list_votes, votes_after}
use mootvote.Tally.Clicks.{
  Action, next_batch, refresh, opened, act, acts, refresh_remaining, click, successes, succeeded,
  served, after_of,
}
use mootvote.Tally.Rounds.{IsUpTo}
use mootvote.Tally.Counting.{acts-IsUpTo, acts_end}
use mootvote.Tally.Tests.{small_lib, small_laws, three_votes}
use mootvote.Tally.Tests.Examples.{env, three_votes-Readable}

abbrev offline : Env
offline = record env { wallet = false }

three_votes-Ascending : Ascending 0 three_votes
three_votes-Ascending = omega arith

abbrev actions : List Action
actions = refresh true ∷ next_batch offline ∷ next_batch env ∷ refresh true ∷ []

acts-IsUpTo_example :
    IsUpTo small_lib 2 1 [] three_votes small_laws 9
      (min (length three_votes) (max_batch * successes small_lib 2 1 [] three_votes actions opened))
      (acts small_lib 2 1 [] three_votes actions opened)
acts-IsUpTo_example =
    acts-IsUpTo small_lib 2 1 [] three_votes small_laws 9 three_votes-Ascending three_votes-Readable
      actions (tt, (refl, (refl, (tt, tt))))

one_success : successes small_lib 2 1 [] three_votes actions opened ≡ 1
unfolding act acts refresh_remaining successes succeeded click on_tally_next fetch_stage served
    list_votes after_of votes_after prove_stage begin process_batch process_vote decrypt_row
    ct_words_of words_loop big_loop process_message ◌+ℤ◌ ◌-ℤ◌ accept adjust entry_of old_choice
    old_revoting_key push_entry put_leaf refuse insert lookup lower check_signals inputs_of
    pad_counts salt_of send_stage tally_hash new_store
one_success = refl

enough : length three_votes ≤ max_batch * successes small_lib 2 1 [] three_votes actions opened
enough = omega (arith, one_success)

acts_end_example :
    (s : TallyStore) × ((acts small_lib 2 1 [] three_votes actions opened).store ≡ some s)
    × IsStore 2 s
    × (s.leaves ≡ cast_all small_lib small_laws 9 [] three_votes)
    × (s.processed_count ≡ length three_votes)
    × (max_batch * successes small_lib 2 1 [] three_votes actions opened
        < length three_votes + max_batch)
    × (succeeded (
          click small_lib 2 1 [] three_votes env (acts small_lib 2 1 [] three_votes actions opened))
        ≡ false)
acts_end_example =
    acts_end small_lib 2 1 [] three_votes small_laws 9 three_votes-Ascending three_votes-Readable
      actions env (refl, (tt, (refl, (refl, (tt, tt))))) (omega arith) enough

-- A vote has come in after the start, and voting ends at 5 seconds.
abbrev votes_at : ℕ → List VoteRow
votes_at t = if leb 5000 t then three_votes else []

abbrev timed : List (ℕ × Action)
timed =
    (5000, refresh true)
    ∷ (5010, next_batch offline)
    ∷ (6000, next_batch env)
    ∷ (6001, refresh true)
    ∷ []
