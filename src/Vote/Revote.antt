-- ===== src/Vote/Revote.antt =====
-- Votes of frontend/src/components/Vote.tsx one after the other, and what the tally page makes of them.
use mathlib.Core.Option.{some-injective}
use mootvote.Base.{
  ℕ, ◌+◌, ◌%◌, ◌^◌, ◌<◌, ◌≡◌, refl, sym, ap, ◌∙◌, inl, inr, arith, List, [], ◌∷◌, some, true, false,
  ◌==◌, ==_iff, length,
}
use mootvote.Blob.{WebCrypto, Json}
use mootvote.Bytes.{fp}
use mootvote.Keyring.{Keyring, BabyJubKeypair}
use mootvote.Keyring.Checks.{arrays_equal_refl}
use mootvote.Revo.{Revo, RevoKey, RevoKeysMap, get_for_poll}
use mootvote.Revo.Map.{get_for_poll-set_for_poll}
use mootvote.Sdk.{Chain}
use mootvote.Tally.Defs.{Library, Leaves, lookup, Message, ok, state_depth}
use mootvote.Tally.Batch.{old_revoting_key, decrypt_row}
use mootvote.Tally.Counts.{lookup-insert}
use mootvote.Tally.Invariant.{new_leaf}
use mootvote.Tally.Laws.{Lawful}
use mootvote.Tally.Step.{index_of, is_valid, cast}
use mootvote.VoteData.{VoteParams}
use mootvote.Vote.{PollDetail, VoteLibrary, good, VotePage, World}
use mootvote.Vote.Seal.{
  Prepared, active_account, id_for_account, old_secret, prepare_vote, sign_poll, sig_hash_of, seal,
}
use mootvote.Vote.Submit.{Submission, vote_params}
use mootvote.Vote.Handler.{Clicked, save_key, on_vote_click}
use mootvote.Vote.Outcome.{IsSent, on_vote_click-IsOutcome}
use mootvote.Vote.Readable.{VoteLaws, row_of, message_of, decrypt_row-seal}
use mootvote.Vote.Carried.{Carries, good-injective, on_vote_click-Carries}

module _ (lib : Library) (vlib : VoteLibrary) (laws : Lawful lib) where
  -- The leaf of an account's votes in a poll.
  abbrev pub leaf_index : BabyJubKeypair → ℕ → ℕ
  leaf_index a poll_id =
      lib.poseidon (sig_hash_of lib vlib (sign_poll lib vlib a.prv poll_id) ∷ []) % 2 ^ state_depth

  -- The browser's revoting key for the account and the poll is the one that the tally's leaf holds the hash
  -- of; no key is the key 0.
  unfoldable pub Agrees : Leaves → Revo → BabyJubKeypair → ℕ → Type 0
  Agrees leaves revo a poll_id =
      old_revoting_key lib (lookup (leaf_index a poll_id) leaves)
      ≡ lib.poseidon (old_secret (get_for_poll revo (id_for_account a) poll_id) ∷ [])

  -- What has been prepared for the active account.
  abbrev prepared_of : Keyring → Revo → PollDetail → ℕ → ℕ → BabyJubKeypair → Prepared
  prepared_of kr revo poll selected new_sec a = record {
    account_id = id_for_account a;
    prv = a.prv;
    pub_key = a.pub_key;
    old_sec = old_secret (get_for_poll revo (id_for_account a) poll.poll_id);
    new_sec = new_sec;
    n_choices = length poll.choices;
    choice = selected + 1;
  }

  prepare_vote-prepared_of :
      (kr : Keyring) (revo : Revo) (poll : PollDetail) (selected : ℕ) (bytes : List ℕ)
      (a : BabyJubKeypair) (p : Prepared)
      → active_account kr ≡ some a
      → prepare_vote lib vlib kr revo poll selected bytes ≡ good p
      → p ≡ prepared_of kr revo poll selected p.new_sec a
  unfolding prepare_vote
  prepare_vote-prepared_of kr revo poll selected bytes a p ha h =
      let h' = rw (ha, prepare_vote) at h in let same = good-injective _ p h' in rw (← same) refl

  -- A leaf with the vote's new key.
  cast_valid :
      (leaves : Leaves) (m : Message)
      → old_revoting_key lib (lookup (index_of lib laws m) leaves) ≡ m.revoting_key_old
      → (is_valid lib laws leaves m ≡ true)
        × (old_revoting_key lib (lookup (index_of lib laws m) (cast lib laws leaves m))
            ≡ m.revoting_key_new)
  unfolding cast old_revoting_key
  cast_valid leaves m h =
      let valid =
        (==_iff (old_revoting_key lib (lookup (index_of lib laws m) leaves)) m.revoting_key_old).1
          h in
      let here : (index_of lib laws m == index_of lib laws m) ≡ true =
        (==_iff (index_of lib laws m) (index_of lib laws m)).1 refl in
      let found =
        lookup-insert (index_of lib laws m) (index_of lib laws m) (new_leaf lib laws m) leaves in
      (valid, rw (valid, cast) (rw found (rw here refl)))

  module _ (vlaws : VoteLaws lib vlib) (chain : Chain) (w : WebCrypto) (json : Json RevoKeysMap)
      (kr : Keyring) (world : World) (poll : PollDetail) where
    save_key-new :
        (a : BabyJubKeypair) (p : Prepared) (revo : Revo)
        → kr.locked ≡ false
        → p.account_id ≡ id_for_account a
        → old_secret (
            get_for_poll
              (save_key lib vlib chain w json kr world poll p revo)
              (id_for_account a)
              poll.poll_id)
          ≡ p.new_sec
    unfolding save_key
    save_key-new a p revo unlocked own =
        let rk : RevoKey = record { sk = p.new_sec; updated_at = world.now; title = poll.title } in
        let there =
          (get_for_poll-set_for_poll w json kr.pass world.salt world.iv (id_for_account a)
            (id_for_account a) poll.poll_id poll.poll_id rk revo).0 in
        let same = arrays_equal_refl (id_for_account a) in
        let same_poll : (poll.poll_id == poll.poll_id) ≡ true =
          (==_iff poll.poll_id poll.poll_id).1 refl in
        let there' = rw (same, same_poll) at there in rw (unlocked, own) (ap old_secret there')

    -- The message of a vote, for the tally that the browser agrees with.
    message_of-Agrees :
        (a : BabyJubKeypair) (revo : Revo) (leaves : Leaves) (p : Prepared)
        → Agrees leaves revo a poll.poll_id
        → p.prv ≡ a.prv
        → p.old_sec ≡ old_secret (get_for_poll revo (id_for_account a) poll.poll_id)
        → (is_valid lib laws leaves (message_of lib vlib poll p) ≡ true)
          × ((after : Revo)
              → old_secret (get_for_poll after (id_for_account a) poll.poll_id) ≡ p.new_sec
              → Agrees (cast lib laws leaves (message_of lib vlib poll p)) after a poll.poll_id)
    unfolding Agrees
    message_of-Agrees a revo leaves p agrees prv old =
        let m = message_of lib vlib poll p in
        let idx : index_of lib laws m ≡ leaf_index a poll.poll_id =
          ap
            (λ (k : List ℕ).
              lib.poseidon (sig_hash_of lib vlib (sign_poll lib vlib k poll.poll_id) ∷ [])
              % 2 ^ state_depth)
            prv in
        let (valid, counted) = cast_valid leaves m (
          ap (λ (k : ℕ). old_revoting_key lib (lookup k leaves)) idx
          ∙ agrees
          ∙ ap (λ (t : ℕ). lib.poseidon (t ∷ [])) (sym old)) in
        (
          valid,
          λ after new_key.
              ap (λ (k : ℕ). old_revoting_key lib (lookup k (cast lib laws leaves m))) (sym idx)
              ∙ counted
              ∙ ap (λ (t : ℕ). lib.poseidon (t ∷ [])) (sym new_key),
        )

    -- A vote after a vote. The account that is active in the open keyring votes, by the relayer or
    -- directly, and something is handed in and the new key is saved. The poll's key is that of the
    -- tallier's secret, the number of the choice is below `FP`, the random words have 32 bits, and the
    -- browser's key agrees with the tally's leaf of the account. Then what is handed in carries a vote
    -- that the tallier decrypts to the choice that is selected, that vote is valid for the tally's
    -- leaves, whatever the others are, and after it is counted the browser agrees with the tally again.
    pub on_vote_click-Agrees :
        (ui : VotePage) (revo : Revo) (leaves : Leaves) (a : BabyJubKeypair) (i tallier_sk id : ℕ)
        (s : Submission)
        → kr.locked ≡ false
        → active_account kr ≡ some a
        → ui.selected ≡ some i
        → i + 1 < fp
        → poll.tallier_key ≡ lib.mul_point_escalar vlib.base8 tallier_sk
        → (world.random_words.0 < 2 ^ 32) × (world.random_words.1 < 2 ^ 32)
        → Agrees leaves revo a poll.poll_id
        → world.saved ≡ true
        → (on_vote_click lib vlib chain w json kr world poll ui revo).sent ≡ some s
        → (v : VoteParams) × (m : Message) × Carries chain poll v s
          × ((ct : List ℕ) × (decrypt_row lib tallier_sk (row_of id v) ≡ ok (ct, m)))
          × (m.choice ≡ i + 1)
          × (is_valid lib laws leaves m ≡ true)
          × Agrees
              (cast lib laws leaves m)
              (on_vote_click lib vlib chain w json kr world poll ui revo).revo
              a
              poll.poll_id
    on_vote_click-Agrees ui revo leaves a i tallier_sk id s unlocked active chosen small own words
          agrees saved sent =
        elim (on_vote_click-IsOutcome lib vlib chain w json kr world poll ui revo) [
          | inl u ↦ let none_sent = sym u.unsent ∙ sent in absurd cc
          | inr o ↦ voted o (good_some o)
        ]
      where
        after : Clicked
        after = on_vote_click lib vlib chain w json kr world poll ui revo

        good_some :
            (o : IsSent lib vlib chain w json kr world poll ui revo after) → o.submission ≡ s
        good_some o = some-injective o.submission s (sym o.handed_in ∙ sent)

        voted :
            (o : IsSent lib vlib chain w json kr world poll ui revo after)
            → o.submission ≡ s
            → (v : VoteParams) × (m : Message) × Carries chain poll v s
              × ((ct : List ℕ) × (decrypt_row lib tallier_sk (row_of id v) ≡ ok (ct, m)))
              × (m.choice ≡ i + 1)
              × (is_valid lib laws leaves m ≡ true)
              × Agrees (cast lib laws leaves m) after.revo a poll.poll_id
        voted o same =
            let p = o.prepared in
            let m = message_of lib vlib poll p in
            let x = seal lib vlib poll p world.eph_bytes world.random_words in
            let is =
              prepare_vote-prepared_of kr revo poll o.selected world.new_bytes a p active
                o.prepares in
            let chosen_i : o.selected ≡ i =
              some-injective o.selected i (sym o.choice_made ∙ chosen) in
            let choice : p.choice ≡ i + 1 =
              ap (λ (p : Prepared). p.choice) is ∙ ap (λ (k : ℕ). k + 1) chosen_i in
            let (valid, agree) =
              message_of-Agrees a revo leaves p agrees (ap (λ (p : Prepared). p.prv) is)
                (ap (λ (p : Prepared). p.old_sec) is) in
            let handed =
              on_vote_click-Carries lib vlib chain world poll w json kr ui revo after o in
            (
              vote_params x o.serialized_proof,
              m,
              rw (← same) handed,
              (
                x.ciphertext,
                decrypt_row-seal lib vlib vlaws tallier_sk id poll p world.eph_bytes
                    world.random_words o.serialized_proof own (omega (arith, choice, small)) words,
              ),
              choice,
              valid,
              agree after.revo (elim o.ends [
                | inr unsaved ↦ let both = sym unsaved.0 ∙ saved in absurd cc
                | inl done_saved ↦
                    ap (λ (r : Revo). old_secret (get_for_poll r (id_for_account a) poll.poll_id))
                      done_saved.1
                    ∙ save_key-new a p revo unlocked (ap (λ (p : Prepared). p.account_id) is)
              ]),
            )
