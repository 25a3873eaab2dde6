-- ===== src/Tally/Tests/Examples.antt =====
-- Runs of frontend/src/components/Tally.tsx on a small instance.
use mootvote.Base.{
  ℕ, zero, suc, ◌^◌, ◌<◌, ◌≡◌, ◌⊎◌, refl, arith, List, [], ◌∷◌, ◌++◌, none, some, true, false,
  length, get_elem?, replicate, All,
}
use mootvote.Base.Int.{ℤ, pos, ◌+ℤ◌, ◌-ℤ◌}
use mootvote.Bytes.{big_loop}
use mootvote.Bytes.Hex.{hex_number}
use mootvote.Bytes.Value.{IsByte}
use mootvote.Tally.Defs.{Leaves, lookup, insert, Message, Result, ok, err}
use mootvote.Tally.Batch.{
  old_revoting_key, accept, put_leaf, old_choice, push_entry, refuse, Work, ct_words_of, words_loop,
  adjust, process_message, process_vote, process_batch, decrypt_row,
}
use mootvote.Tally.Counts.{Distinct}
use mootvote.Tally.Invariant.{IsConsistent}
use mootvote.Tally.Step.{IsStep, process_message-IsStep}
use mootvote.Tally.Runs.{Readable, IsRun, process_batch-IsRun}
use mootvote.Tally.Outcome.{IsDone, IsFailed, on_tally_next-IsOutcome}
use mootvote.Tally.Resume.{begin-new_store, finish_instructions-new_store}
use mootvote.Tally.Next.{
  finish_tally, Ui, Env, Proved, begin, check_signals, tally_hash, pad_counts, salt_of, prove_stage,
  new_store,
}
use mootvote.Tally.Handlers.{finish_instructions, on_tally_next}
use mootvote.Tally.Tests.{small_lib, small_laws, first_vote, three_votes}

abbrev start : Work small_lib
start = record {
  tree = [];
  tally_counts = pos 0 ∷ pos 0 ∷ [];
  leaves = [];
  entries = [];
  msg_hash = 0;
}

zeros : (c : ℕ) → c < 2 → get_elem? (pos 0 ∷ pos 0 ∷ []) c ≡ some (pos 0)
zeros zero h = refl
zeros (suc zero) h = refl
zeros (suc (suc c)) h = absurd (omega arith)

start-IsConsistent : IsConsistent small_lib small_laws 2 start
unfolding lookup small_laws
start-IsConsistent = record {
  in_tree = λ k. refl;
  bounded = tt;
  distinct = tt;
  one_each = refl;
  counted = zeros;
}

pub three_votes-Readable : All (Readable small_lib small_laws 2 9) three_votes
unfolding decrypt_row ct_words_of words_loop big_loop
three_votes-Readable =
    ((_, _, refl, omega arith), ((_, _, refl, omega arith), ((_, _, refl, omega arith), tt)))

end_of : Result (Work small_lib) → List ℤ × ℕ
end_of (err e) = ([], 0)
end_of (ok w) = (w.tally_counts, length w.entries)

three_votes_counts : end_of (process_batch small_lib 9 start three_votes) ≡ (pos 1 ∷ pos 0 ∷ [], 3)
unfolding end_of process_batch process_vote decrypt_row ct_words_of words_loop big_loop
    process_message old_revoting_key lookup accept put_leaf adjust old_choice push_entry insert
    refuse ◌+ℤ◌ ◌-ℤ◌
three_votes_counts = refl

abbrev first_message : Message
first_message = record { nu = 5; choice = 2; revoting_key_old = 10; revoting_key_new = 4 }

process_message-IsStep_example :
    (w' : Work small_lib) × (process_message small_lib start first_vote
        (5 ∷ 2 ∷ 10 ∷ 4 ∷ [])
        first_message
      ≡ ok w')
    × IsStep small_lib small_laws 2 start first_vote (5 ∷ 2 ∷ 10 ∷ 4 ∷ []) first_message w'
process_message-IsStep_example =
    process_message-IsStep small_lib small_laws 2 start first_vote (5 ∷ 2 ∷ 10 ∷ 4 ∷ [])
      first_message start-IsConsistent (omega arith)

process_batch-IsRun_example :
    (w' : Work small_lib) × (process_batch small_lib 9 start three_votes ≡ ok w')
    × IsRun small_lib small_laws 2 9 three_votes start w'
process_batch-IsRun_example =
    process_batch-IsRun small_lib small_laws 2 9 start three_votes start-IsConsistent
      three_votes-Readable

abbrev two_leaves : Leaves
two_leaves =
    (5, record { choice = 1; revoting_key = 6; hash = 161 })
    ∷ (3, record { choice = 2; revoting_key = 6; hash = 162 })
    ∷ []

two_leaves-Distinct : Distinct two_leaves
unfolding lookup
two_leaves-Distinct = (refl, (refl, tt))

abbrev pub env : Env
env = record {
  wallet = true;
  tallier_sk = some 9;
  page = some three_votes;
  salt_bytes = replicate 7 0 ++ (5 ∷ []);
  full_prove = λ i.
      some (record { root_new = 161; cumulative_msg_hash_new = 8; tally_hash_new = 1000000000015 });
  sends = λ ixs. true;
  saves = true;
}

abbrev pub idle : Ui
idle = record {
  store = none;
  saved = none;
  error = none;
  busy = false;
  remaining = some 3;
  stage = none;
  flow = none;
}

on_tally_next-IsOutcome_example :
    ((on_tally_next small_lib env 2 1 [] idle).busy ≡ false)
    × (IsDone small_lib small_laws 2 9 idle three_votes (on_tally_next small_lib env 2 1 [] idle)
        ⊎ IsFailed small_lib small_laws idle (on_tally_next small_lib env 2 1 [] idle))
on_tally_next-IsOutcome_example =
    on_tally_next-IsOutcome small_lib small_laws env 2 1 9 [] _ _ idle refl refl refl
      three_votes-Readable refl tt

-- What the `prove` stage gives on the three votes.
proved_of : Result (Proved small_lib) → Proved small_lib
proved_of (err e) = record {
  work = start;
  signals = record { root_new = 0; cumulative_msg_hash_new = 0; tally_hash_new = 0 };
  salt = 0;
}
proved_of (ok p) = p

abbrev three_proved : Proved small_lib
three_proved = proved_of (prove_stage small_lib env 2 none 9 three_votes)

three_proved_ok : prove_stage small_lib env 2 none 9 three_votes ≡ ok three_proved
unfolding proved_of prove_stage begin check_signals tally_hash pad_counts salt_of process_batch
    process_vote decrypt_row ct_words_of words_loop big_loop process_message old_revoting_key lookup
    accept put_leaf adjust old_choice push_entry insert refuse ◌+ℤ◌ ◌-ℤ◌
three_proved_ok = refl

three_proved_small : three_proved.signals.cumulative_msg_hash_new < 256 ^ 32
unfolding proved_of prove_stage begin check_signals tally_hash pad_counts salt_of process_batch
    process_vote decrypt_row ct_words_of words_loop big_loop process_message old_revoting_key lookup
    accept put_leaf adjust old_choice push_entry insert refuse ◌+ℤ◌ ◌-ℤ◌
three_proved_small = omega arith

begin-new_store_example :
    (w : Work small_lib) × (begin small_lib 2
        (some (new_store small_lib 1 [] none three_votes three_proved))
      ≡ ok w)
    × (small_lib.root w.tree ≡ three_proved.signals.root_new)
    × (hex_number 0 (new_store small_lib 1 [] none three_votes three_proved).root_hex
        ≡ small_lib.root w.tree)
    × (w.leaves ≡ three_proved.work.leaves)
    × (w.tally_counts ≡ three_proved.work.tally_counts)
    × (w.msg_hash ≡ three_proved.signals.cumulative_msg_hash_new)
begin-new_store_example =
    begin-new_store small_lib small_laws env 2 9 1 [] none three_votes three_proved tt
      three_votes-Readable three_proved_ok three_proved_small

five_salt-IsByte : All IsByte env.salt_bytes
five_salt-IsByte = omega arith

finish_instructions-new_store_example :
    (counts : List ℤ) × (salt : ℕ) × (finish_instructions small_lib 2
        (some (new_store small_lib 1 [] none three_votes three_proved))
      ≡ finish_tally counts salt ∷ [])
    × (tally_hash small_lib salt counts ≡ three_proved.signals.tally_hash_new)
finish_instructions-new_store_example =
    finish_instructions-new_store small_lib small_laws env 2 9 1 [] none three_votes three_proved tt
      three_votes-Readable three_proved_ok refl five_salt-IsByte
