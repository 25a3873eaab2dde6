-- ===== src/Vote/Handler.antt =====
-- `onVoteClick` (frontend/src/components/Vote.tsx).
use mootvote.Base.{ℕ, [], ◌∷◌, Option, none, some, Bool, true, false, not, ◌&&◌, if◌then◌else◌}
use mootvote.Blob.{Text, WebCrypto, Json}
use mootvote.Census.{census_check, proved, throws}
use mootvote.Compress.{compress_proof}
use mootvote.Keyring.{Keyring}
use mootvote.Merkle.{MerkleProof}
use mootvote.Revo.{Revo, RevoKeysMap, set_for_poll}
use mootvote.Sdk.{Key, Chain}
use mootvote.Tally.Defs.{Library}
use mootvote.VoteData.{CompressedProof}
use mootvote.Vote.{
  PollDetail, StepKey, prepare, download, prove, submit, finished, VoteError, no_wallet_key,
  nothing_selected, census_fetch_failed, bad_census, relayer_fetch_failed, relayer_not_initialized,
  proof_failed, save_failed, VoteResult, good, bad, ◌>>=◌, need, VotePage, VoteLibrary, World,
  is_none,
}
use mootvote.Vote.Seal.{Prepared, Sealed, prepare_vote, seal, relayer_id_of, relayer_nu, inputs_of}
use mootvote.Vote.Submit.{
  Submission, relayed, direct, Request, posted, signed, request_of, relay_body, direct_transaction,
  submit_to_relayer, submit_directly,
}

-- The page, the revoting keys, what has been handed in and what has been given away for it, after a
-- click. A request whose answer is lost or cannot be read has been given away, and whether it hands the
-- vote in the page does not know.
pub record Clicked : Type 0 where
  pub page : VotePage
  pub revo : Revo
  pub sent : Option Submission
  pub given : Option Request

-- The two guards before the first `setStage`.
unfoldable pub check_click : VotePage → Option Key → VoteResult ℕ
check_click ui wallet =
    if not ui.use_relayer && is_none wallet
    then bad no_wallet_key
    else need nothing_selected ui.selected

-- `setDoneMsg`, on the way by the relayer only.
abbrev pub done_msg_of : Submission → Option Text
done_msg_of (relayed body signature) = some signature
done_msg_of (direct tx) = none

-- `catch` and `finally`, for an exception at `stage`.
abbrev pub failed_at :
    VotePage → Revo → Option Submission → Option Request → Option StepKey → VoteError → Clicked
failed_at ui revo sent given stage e = record {
  page = record ui { busy = false; err_msg = some e; stage = stage };
  revo = revo;
  sent = sent;
  given = given;
}

module _ (lib : Library) (vlib : VoteLibrary) (chain : Chain) where
  open lib use {poseidon}

  -- The download of the census and the search for the voter in it.
  unfoldable pub census_stage : World → Prepared → VoteResult (MerkleProof ℕ)
  census_stage world p = do
    census_buf ← need census_fetch_failed world.census
    let leaf = poseidon (p.pub_key.0 ∷ p.pub_key.1 ∷ [])
    elim (census_check poseidon census_buf leaf) [
      | throws e ↦ bad (bad_census e)
      | proved merkle ↦ good merkle
    ]

  -- `relayerId` and `relayerNu`; without the relayer there is no `relayerNu`, and nothing reads it.
  unfoldable pub relayer_stage : Bool → World → Sealed → VoteResult (ℕ × ℕ)
  relayer_stage false world x = good (0, 0)
  relayer_stage true world x = elim world.relayer_config [
    | none ↦ bad relayer_fetch_failed
    | some none ↦ bad relayer_not_initialized
    | some (some fee_key) ↦
        let relayer_id = relayer_id_of fee_key in
        good (relayer_id, relayer_nu lib vlib x.sig_hash relayer_id)
  ]

  unfoldable pub download_stage :
      Bool → World → PollDetail → Prepared → VoteResult (MerkleProof ℕ × Sealed × ℕ × ℕ)
  download_stage use_relayer world poll p = do
    merkle ← census_stage world p
    let x = seal lib vlib poll p world.eph_bytes world.random_words
    (relayer_id, nu) ← relayer_stage use_relayer world x
    good (merkle, x, relayer_id, nu)

  unfoldable pub proof_stage :
      PollDetail → Prepared → MerkleProof ℕ → Sealed → ℕ → VoteResult CompressedProof
  proof_stage poll p merkle x relayer_id = do
    proof ← need proof_failed (vlib.full_prove (inputs_of lib vlib poll p x merkle relayer_id))
    good (compress_proof proof)

  unfoldable pub submit_stage :
      Bool → World → PollDetail → Sealed → ℕ → CompressedProof → VoteResult Submission
  submit_stage true world poll x nu serialized_proof =
      submit_to_relayer lib chain world poll x nu serialized_proof
  submit_stage false world poll x nu serialized_proof =
      submit_directly lib chain world poll x serialized_proof

  -- What the last stage gives away, if it comes that far.
  unfoldable pub given_away :
      Bool → World → PollDetail → Sealed → ℕ → CompressedProof → Option Request
  given_away true world poll x nu serialized_proof =
      elim (relay_body lib chain world poll x nu serialized_proof) [
        | bad e ↦ none
        | good body ↦ some (posted body)
      ]
  given_away false world poll x nu serialized_proof =
      elim (direct_transaction lib chain world poll x serialized_proof) [
        | bad e ↦ none
        | good tx ↦ some (signed tx)
      ]

  module _ (w : WebCrypto) (json : Json RevoKeysMap) (kr : Keyring) (world : World)
      (poll : PollDetail) where
    -- `RK.setForPoll(accountId, pollIdBig, { ...newRec, title })`
    unfoldable pub save_key : Prepared → Revo → Revo
    save_key p revo =
        set_for_poll w json kr.locked kr.pass world.salt world.iv p.account_id poll.poll_id
          (record { sk = p.new_sec; updated_at = world.now; title = poll.title }) revo

    unfoldable pub finish_vote : VotePage → Revo → Prepared → Submission → Clicked
    finish_vote ui revo p sent =
        let ui' : VotePage = record ui { done_msg = done_msg_of sent } in
        if world.saved
        then record {
          page = record ui' { busy = false; stage = some finished };
          revo = save_key p revo;
          sent = some sent;
          given = some (request_of sent);
        }
        else failed_at ui' revo (some sent) (some (request_of sent)) (some submit) save_failed

    -- From `setStage("prepare")` on.
    unfoldable pub cast_vote : VotePage → Revo → ℕ → Clicked
    cast_vote ui revo selected =
        elim (prepare_vote lib vlib kr revo poll selected world.new_bytes) [
          | bad e ↦ failed_at ui revo none none (some prepare) e
          | good p ↦ elim (download_stage ui.use_relayer world poll p) [
            | bad e ↦ failed_at ui revo none none (some download) e
            | good (merkle, x, relayer_id, nu) ↦ elim (proof_stage poll p merkle x relayer_id) [
              | bad e ↦ failed_at ui revo none none (some prove) e
              | good serialized_proof ↦
                  elim (submit_stage ui.use_relayer world poll x nu serialized_proof) [
                    | bad e ↦
                        failed_at ui revo none
                          (given_away ui.use_relayer world poll x nu serialized_proof) (some submit)
                          e
                    | good sent ↦ finish_vote ui revo p sent
                  ]
            ]
          ]
        ]

    -- A click while a vote is under way returns at once, and `finally` still clears `busy`.
    unfoldable pub on_vote_click : VotePage → Revo → Clicked
    on_vote_click ui revo =
        if ui.busy
        then record { page = record ui { busy = false }; revo = revo; sent = none; given = none }
        else let ui' : VotePage = record ui { busy = true; err_msg = none; done_msg = none } in
          elim (check_click ui' world.wallet) [
            | bad e ↦ failed_at ui' revo none none ui'.stage e
            | good selected ↦ cast_vote ui' revo selected
          ]
