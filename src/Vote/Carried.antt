-- ===== src/Vote/Carried.antt =====
-- What is handed in carries the vote that has been sealed (frontend/src/components/Vote.tsx).
use mootvote.Base.{
  ℕ, ◌≡◌, refl, sym, ap, inl, inr, List, [], ◌∷◌, some, Bool, true, false, Bool-cases,
}
use mootvote.Bytes.{bytes_to_hex}
use mootvote.Sdk.{Key, InstructionWithCu, Transaction, Chain, to_transaction}
use mootvote.Sdk.Polls.{vote}
use mootvote.Tally.Defs.{Library}
use mootvote.VoteData.{VoteParams, CompressedProof, serialize_vote_data}
use mootvote.Vote.{
  PollDetail, VoteResult, good, bad, ◌>>=◌, need, bad_vote_data, no_wallet_key, no_address,
  transaction_failed, VoteLibrary, VotePage, World, RelayRequestBody,
}
use mootvote.Vote.Seal.{Prepared, Sealed, seal}
use mootvote.Vote.Submit.{
  Submission, relayed, direct, vote_params, fee_destination_of, relay_accounts, relay_body,
  read_response, submit_to_relayer, submit_directly, direct_transaction, send,
}
use mootvote.Blob.{WebCrypto, Json}
use mootvote.Keyring.{Keyring}
use mootvote.Merkle.{MerkleProof}
use mootvote.Revo.{Revo, RevoKeysMap}
use mootvote.Vote.Handler.{Clicked, census_stage, relayer_stage, download_stage, submit_stage}
use mootvote.Vote.Outcome.{IsSent, need-good}

-- A chain that gives a result has given one at every link.
bind-good :
    {A B C : Type 0} (r : VoteResult A) {f : A → VoteResult B} {b : B}
    → (r >>= f) ≡ good b
    → ((a : A) → r ≡ good a → f a ≡ good b → C)
    → C
bind-good (bad e) h k = absurd cc
bind-good (good a) h k = k a refl h

pub good-injective : {A : Type 0} (a b : A) → good a ≡ good b → a ≡ b
good-injective a b h = cc

-- A request with the digits of the vote's data, or a transaction with the SDK's instruction of the
-- vote.
pub Carries : Chain → PollDetail → VoteParams → Submission → Type 0
Carries chain poll v (relayed body signature) =
    (bs : List ℕ) × (serialize_vote_data v ≡ some bs) × (body.data_hex ≡ bytes_to_hex bs)
Carries chain poll v (direct tx) =
    (payer : Key) × (fee : Key) × (ix : InstructionWithCu) × (vote chain payer v poll.poll_id fee
        poll.fee_destination
      ≡ some ix)
    × (tx.instructions ≡ ix.instruction ∷ [])

module _ (lib : Library) (vlib : VoteLibrary) (chain : Chain) (world : World)
    (poll : PollDetail) where
  relay_body-data :
      (x : Sealed) (nu : ℕ) (c : CompressedProof) (body : RelayRequestBody)
      → relay_body lib chain world poll x nu c ≡ good body
      → (bs : List ℕ) × (serialize_vote_data (vote_params x c) ≡ some bs)
        × (body.data_hex ≡ bytes_to_hex bs)
  unfolding relay_body
  relay_body-data x nu c body h =
      let built = serialize_vote_data (vote_params x c) in
      bind-good (need bad_vote_data built) h (λ bs hs h1.
        bind-good (fee_destination_of world.platform) h1 (λ fee _ h2.
          bind-good (relay_accounts lib chain poll.poll_id fee) h2 (λ accounts _ h3. (
            bs,
            need-good bad_vote_data built bs hs,
            sym (ap (λ (b : RelayRequestBody). b.data_hex) (good-injective _ body h3)),
          ))))

  send-good : (tx : Transaction) (s : Submission) → send lib chain world tx ≡ good s → direct tx ≡ s
  unfolding send
  send-good tx s h = elim (Bool-cases (world.send_transaction tx)) [
    | inl e ↦ let h' = rw (e, send) at h in good-injective (direct tx) s h'
    | inr e ↦ let h' = rw (e, send) at h in absurd cc
  ]

  submit_stage-Carries :
      (use_relayer : Bool) (x : Sealed) (nu : ℕ) (c : CompressedProof) (s : Submission)
      → submit_stage lib vlib chain use_relayer world poll x nu c ≡ good s
      → Carries chain poll (vote_params x c) s
  unfolding submit_stage submit_to_relayer submit_directly direct_transaction to_transaction Carries
  submit_stage-Carries true x nu c s h =
      bind-good (relay_body lib chain world poll x nu c) h (λ body hb h1.
        bind-good (read_response lib chain (world.respond body)) h1 (λ signature _ h2.
          rw (← good-injective (relayed body signature) s h2) (relay_body-data x nu c body hb)))
  submit_stage-Carries false x nu c s h =
      bind-good (direct_transaction lib chain world poll x c) h (λ tx made sends.
        bind-good (fee_destination_of world.platform) made (λ fee _ h1.
          bind-good (need no_wallet_key world.wallet) h1 (λ payer _ h2.
            let built = vote chain payer (vote_params x c) poll.poll_id fee poll.fee_destination in
            bind-good (need no_address built) h2 (λ ix hx h3.
              bind-good (need transaction_failed world.blockhash) h3 (λ blockhash _ h4.
                let same = good-injective (to_transaction (ix ∷ []) blockhash payer) tx h4 in
                rw (← send-good tx s sends) (
                  payer,
                  fee,
                  ix,
                  need-good no_address built ix hx,
                  ap (λ (t : Transaction). t.instructions) (sym same),
                ))))))

  -- What is sealed is sealed from what has been prepared.
  pub download_stage-seal :
      (use_relayer : Bool) (p : Prepared) (merkle : MerkleProof ℕ) (x : Sealed) (id nu : ℕ)
      → download_stage lib vlib chain use_relayer world poll p ≡ good (merkle, x, id, nu)
      → seal lib vlib poll p world.eph_bytes world.random_words ≡ x
  unfolding download_stage
  download_stage-seal use_relayer p merkle x id nu h =
      bind-good (census_stage lib vlib chain world p) h (λ path _ h1.
        let sealed = seal lib vlib poll p world.eph_bytes world.random_words in
        bind-good (relayer_stage lib vlib chain use_relayer world sealed) h1 (λ r _ h2.
          ap (λ (d : MerkleProof ℕ × Sealed × ℕ × ℕ). d.1)
            (good-injective _ (merkle, x, id, nu) h2)))

  -- A click that hands something in hands in the vote that has been prepared and sealed.
  pub on_vote_click-Carries :
      (w : WebCrypto) (json : Json RevoKeysMap) (kr : Keyring) (ui : VotePage) (revo : Revo)
      (after : Clicked) (sent : IsSent lib vlib chain w json kr world poll ui revo after)
      → Carries chain poll
          (vote_params
            (seal lib vlib poll sent.prepared world.eph_bytes world.random_words)
            sent.serialized_proof)
          sent.submission
  on_vote_click-Carries w json kr ui revo after sent =
      rw
        (download_stage-seal ui.use_relayer sent.prepared sent.merkle sent.sealed sent.relayer_id
          sent.nu sent.downloads)
        (submit_stage-Carries ui.use_relayer sent.sealed sent.nu sent.serialized_proof
          sent.submission sent.submits)
