-- ===== src/Vote/Outcome.antt =====
-- How a click on the button of frontend/src/components/Vote.tsx ends.
use mootvote.Base.{
  ℕ, ◌≡◌, ◌⊎◌, ◌∙◌, Bool, refl, sym, ap, inl, inr, Option, none, some, true, false, not, ◌&&◌,
  Bool-cases,
}
use mootvote.Blob.{Text, WebCrypto, Json}
use mootvote.Keyring.{Keyring}
use mootvote.Merkle.{MerkleProof}
use mootvote.Revo.{Revo, RevoKeysMap}
use mootvote.Sdk.{Key, Chain}
use mootvote.Tally.Defs.{Library}
use mootvote.VoteData.{CompressedProof}
use mootvote.Vote.{
  PollDetail, StepKey, prepare, download, prove, submit, finished, VoteError, save_failed,
  RelayRequestBody, RelayResponse, not_ok, accepted, nothing_selected, VoteResult, good, bad, need,
  VotePage, VoteLibrary, World, is_none,
}
use mootvote.Vote.Seal.{Prepared, Sealed, prepare_vote}
use mootvote.Vote.Submit.{
  Submission, direct, Request, posted, signed, request_of, relay_body, direct_transaction,
  read_response, send, submit_to_relayer, submit_directly,
}
use mootvote.Vote.Handler.{
  given_away, Clicked, check_click, done_msg_of, download_stage, proof_stage, submit_stage,
  save_key, finish_vote, cast_vote, on_vote_click,
}

pub VoteResult-cases :
    {A : Type 0} (r : VoteResult A) → ((e : VoteError) × (r ≡ bad e)) ⊎ ((a : A) × (r ≡ good a))
VoteResult-cases (bad e) = inl (e, refl)
VoteResult-cases (good a) = inr (a, refl)

pub need-good : {A : Type 0} (e : VoteError) (o : Option A) (a : A) → need e o ≡ good a → o ≡ some a
need-good e none a h = absurd cc
need-good e (some b) a h = cc

-- The page at the start of a run.
abbrev pub started : VotePage → VotePage
started ui = record ui { busy = true; err_msg = none; done_msg = none }

-- The stages before the end.
abbrev pub IsOpen : Option StepKey → Type 0
IsOpen none = Unit
IsOpen (some prepare) = Unit
IsOpen (some download) = Unit
IsOpen (some prove) = Unit
IsOpen (some submit) = Unit
IsOpen (some finished) = ⊥

-- The request has no answer that confirms it: the relayer's answer is lost, an error or cannot be read,
-- or the wallet has thrown.
abbrev pub Unconfirmed : World → Request → Type 0
Unconfirmed world (posted body) =
    (world.respond body ≡ none)
    ⊎ ((status : ℕ) × (txt : Text) × (world.respond body ≡ some (not_ok status txt)))
    ⊎ (world.respond body ≡ some (accepted none))
Unconfirmed world (signed tx) = world.send_transaction tx ≡ false

-- Nothing is known to be handed in, the revoting keys are as before and the button is free: the click
-- came while another vote was under way and has changed nothing else, or the page shows an error, at
-- the stage where it was or at an earlier one than the end. Nothing has been given away, or a request
-- that is not confirmed, and then the page stands at the last stage but one.
pub record IsUnsent (world : World) (ui : VotePage) (revo : Revo) (after : Clicked) : Type 0 where
  pub kept : after.revo ≡ revo
  pub unsent : after.sent ≡ none
  pub given :
      (after.given ≡ none)
      ⊎ ((r : Request) × (after.given ≡ some r)
          × Unconfirmed world r
          × (after.page.stage ≡ some submit))
  pub told :
      ((ui.busy ≡ true) × (after.page ≡ record ui { busy = false }))
      ⊎ ((e : VoteError) × (stage : Option StepKey) × (after.page
            ≡ record ui { busy = false; err_msg = some e; done_msg = none; stage = stage })
          × ((stage ≡ ui.stage) ⊎ IsOpen stage))

module _ (lib : Library) (vlib : VoteLibrary) (chain : Chain) (w : WebCrypto)
    (json : Json RevoKeysMap) (kr : Keyring) (world : World) (poll : PollDetail) where
  -- Every stage has succeeded.
  pub record IsSent (ui : VotePage) (revo : Revo) (after : Clicked) : Type 0 where
    pub selected : ℕ
    pub prepared : Prepared
    pub merkle : MerkleProof ℕ
    pub sealed : Sealed
    pub relayer_id : ℕ
    pub nu : ℕ
    pub serialized_proof : CompressedProof
    pub submission : Submission
    pub choice_made : ui.selected ≡ some selected
    pub prepares : prepare_vote lib vlib kr revo poll selected world.new_bytes ≡ good prepared
    pub downloads :
        download_stage lib vlib chain ui.use_relayer world poll prepared
        ≡ good (merkle, sealed, relayer_id, nu)
    pub proves :
        proof_stage lib vlib chain poll prepared merkle sealed relayer_id ≡ good serialized_proof
    pub submits :
        submit_stage lib vlib chain ui.use_relayer world poll sealed nu serialized_proof
        ≡ good submission
    pub handed_in : after.sent ≡ some submission
    pub given : after.given ≡ some (request_of submission)
    pub ends :
        ((world.saved ≡ true)
          × (after.revo ≡ save_key lib vlib chain w json kr world poll prepared revo)
          × (after.page ≡ record ui {
            busy = false;
            err_msg = none;
            done_msg = done_msg_of submission;
            stage = some finished;
          }))
        ⊎ ((world.saved ≡ false)
            × (after.revo ≡ revo)
            × (after.page ≡ record ui {
              busy = false;
              err_msg = some save_failed;
              done_msg = done_msg_of submission;
              stage = some submit;
            }))

  read_response-Unconfirmed :
      (body : RelayRequestBody) (e : VoteError)
      → read_response lib chain (world.respond body) ≡ bad e
      → Unconfirmed world (posted body)
  unfolding read_response
  read_response-Unconfirmed body e h = by_answer (world.respond body) refl h
    where
      by_answer :
          (answer : Option RelayResponse)
          → world.respond body ≡ answer
          → read_response lib chain answer ≡ bad e
          → Unconfirmed world (posted body)
      by_answer none q k = inl q
      by_answer (some (not_ok status txt)) q k = inr (inl (status, txt, q))
      by_answer (some (accepted none)) q k = inr (inr q)
      by_answer (some (accepted (some signature))) q k = absurd cc

  -- A last stage that throws has given nothing away, or what is not confirmed.
  given_away-Unconfirmed :
      (use_relayer : Bool) (x : Sealed) (nu : ℕ) (c : CompressedProof) (e : VoteError)
      → submit_stage lib vlib chain use_relayer world poll x nu c ≡ bad e
      → (given_away lib vlib chain use_relayer world poll x nu c ≡ none)
        ⊎ ((r : Request) × (given_away lib vlib chain use_relayer world poll x nu c ≡ some r)
            × Unconfirmed world r)
  unfolding given_away submit_stage submit_to_relayer submit_directly send
  given_away-Unconfirmed true x nu c e h =
      elim (VoteResult-cases (relay_body lib chain world poll x nu c)) [
        | inl (e', hb) ↦ inl (rw (hb, given_away) refl)
        | inr (body, hb) ↦ elim (VoteResult-cases (read_response lib chain (world.respond body))) [
          | inl (e', hr) ↦
              inr (posted body, rw (hb, given_away) refl, read_response-Unconfirmed body e' hr)
          | inr (signature, hr) ↦ let h' = rw (hb, hr, submit_stage) at h in absurd cc
        ]
      ]
  given_away-Unconfirmed false x nu c e h =
      elim (VoteResult-cases (direct_transaction lib chain world poll x c)) [
        | inl (e', ht) ↦ inl (rw (ht, given_away) refl)
        | inr (tx, ht) ↦ elim (Bool-cases (world.send_transaction tx)) [
          | inr thrown ↦ inr (signed tx, rw (ht, given_away) refl, thrown)
          | inl well ↦
              let sends : send lib chain world tx ≡ good (direct tx) = rw (well, send) refl in
              let h' : send lib chain world tx ≡ bad e = rw ht at h in
              absurd (let clash : good (direct tx) ≡ bad e = sym sends ∙ h' in cc)
        ]
      ]

  -- `failed_at` before anything is given away.
  failed_at-IsUnsent :
      (ui : VotePage) (revo : Revo) (stage : Option StepKey) (e : VoteError) (after : Clicked)
      → ((stage ≡ ui.stage) ⊎ IsOpen stage)
      → after ≡ record {
        page = record ui { busy = false; err_msg = some e; done_msg = none; stage = stage };
        revo = revo;
        sent = none;
        given = none;
      }
      → IsUnsent world ui revo after
  failed_at-IsUnsent ui revo stage e after open_stage q = record {
    kept = ap (λ (c : Clicked). c.revo) q;
    unsent = ap (λ (c : Clicked). c.sent) q;
    given = inl (ap (λ (c : Clicked). c.given) q);
    told = inr (e, stage, ap (λ (c : Clicked). c.page) q, open_stage);
  }

  -- The last stage throws.
  submit-IsUnsent :
      (ui : VotePage) (revo : Revo) (x : Sealed) (nu : ℕ) (c : CompressedProof) (e : VoteError)
      (after : Clicked)
      → submit_stage lib vlib chain ui.use_relayer world poll x nu c ≡ bad e
      → after ≡ record {
        page = record ui { busy = false; err_msg = some e; done_msg = none; stage = some submit };
        revo = revo;
        sent = none;
        given = given_away lib vlib chain ui.use_relayer world poll x nu c;
      }
      → IsUnsent world ui revo after
  submit-IsUnsent ui revo x nu c e after hm q = record {
    kept = ap (λ (c : Clicked). c.revo) q;
    unsent = ap (λ (c : Clicked). c.sent) q;
    given = elim (given_away-Unconfirmed ui.use_relayer x nu c e hm) [
      | inl g ↦ inl (ap (λ (c : Clicked). c.given) q ∙ g)
      | inr (r, g, open_request) ↦ inr (
        r,
        ap (λ (c : Clicked). c.given) q ∙ g,
        open_request,
        ap (λ (c : Clicked). c.page.stage) q,
      )
    ];
    told = inr (e, some submit, ap (λ (c : Clicked). c.page) q, inr tt);
  }

  busy-IsUnsent :
      (ui : VotePage) (revo : Revo) (after : Clicked)
      → ui.busy ≡ true
      → after ≡ record { page = record ui { busy = false }; revo = revo; sent = none; given = none }
      → IsUnsent world ui revo after
  busy-IsUnsent ui revo after b q = record {
    kept = ap (λ (c : Clicked). c.revo) q;
    unsent = ap (λ (c : Clicked). c.sent) q;
    given = inl (ap (λ (c : Clicked). c.given) q);
    told = inl (b, ap (λ (c : Clicked). c.page) q);
  }

  abbrev cast : VotePage → Revo → ℕ → Clicked
  cast ui revo selected = cast_vote lib vlib chain w json kr world poll (started ui) revo selected

  finish_vote-IsSent :
      (ui : VotePage) (revo : Revo) (selected : ℕ) (p : Prepared)
      (d : MerkleProof ℕ × Sealed × ℕ × ℕ) (c : CompressedProof) (s : Submission) (after : Clicked)
      → ui.selected ≡ some selected
      → prepare_vote lib vlib kr revo poll selected world.new_bytes ≡ good p
      → download_stage lib vlib chain ui.use_relayer world poll p ≡ good d
      → proof_stage lib vlib chain poll p d.0 d.1 d.2 ≡ good c
      → submit_stage lib vlib chain ui.use_relayer world poll d.1 d.3 c ≡ good s
      → after ≡ finish_vote lib vlib chain w json kr world poll (started ui) revo p s
      → IsSent ui revo after
  unfolding finish_vote save_key
  finish_vote-IsSent ui revo selected p (m, x, r, nu) c s after hs hp hd hc hm q = record {
    selected = selected;
    prepared = p;
    merkle = m;
    sealed = x;
    relayer_id = r;
    nu = nu;
    serialized_proof = c;
    submission = s;
    choice_made = hs;
    prepares = hp;
    downloads = hd;
    proves = hc;
    submits = hm;
    handed_in = elim (Bool-cases world.saved) [
      | inl y ↦ let q' = rw (y, finish_vote) at q in ap (λ (c : Clicked). c.sent) q'
      | inr y ↦ let q' = rw (y, finish_vote) at q in ap (λ (c : Clicked). c.sent) q'
    ];
    given = elim (Bool-cases world.saved) [
      | inl y ↦ let q' = rw (y, finish_vote) at q in ap (λ (c : Clicked). c.given) q'
      | inr y ↦ let q' = rw (y, finish_vote) at q in ap (λ (c : Clicked). c.given) q'
    ];
    ends = elim (Bool-cases world.saved) [
      | inl y ↦
          let q' = rw (y, finish_vote) at q in
          inl (y, ap (λ (c : Clicked). c.revo) q', ap (λ (c : Clicked). c.page) q')
      | inr y ↦
          let q' = rw (y, finish_vote) at q in
          inr (y, ap (λ (c : Clicked). c.revo) q', ap (λ (c : Clicked). c.page) q')
    ];
  }

  cast_vote-cases :
      (ui : VotePage) (revo : Revo) (selected : ℕ)
      → ui.selected ≡ some selected
      → IsUnsent world ui revo (cast ui revo selected) ⊎ IsSent ui revo (cast ui revo selected)
  unfolding cast_vote
  cast_vote-cases ui revo selected hs =
      elim (VoteResult-cases (prepare_vote lib vlib kr revo poll selected world.new_bytes)) [
        | inl (e, hp) ↦
            inl (failed_at-IsUnsent ui revo (some prepare) e _ (inr tt) (rw (hp, cast_vote) refl))
        | inr (p, hp) ↦
            elim (VoteResult-cases (download_stage lib vlib chain ui.use_relayer world poll p)) [
              | inl (e, hd) ↦ inl (
                  failed_at-IsUnsent ui revo (some download) e _ (inr tt)
                    (rw (hp, hd, cast_vote) refl))
              | inr (d, hd) ↦
                  elim (VoteResult-cases (proof_stage lib vlib chain poll p d.0 d.1 d.2)) [
                    | inl (e, hc) ↦ inl (
                        failed_at-IsUnsent ui revo (some prove) e _ (inr tt)
                          (rw (hp, hd, hc, cast_vote) refl))
                    | inr (c, hc) ↦
                        elim (VoteResult-cases
                          (submit_stage lib vlib chain ui.use_relayer world poll d.1 d.3 c)) [
                            | inl (e, hm) ↦ inl (
                                submit-IsUnsent ui revo d.1 d.3 c e _ hm
                                  (rw (hp, hd, hc, hm, cast_vote) refl))
                            | inr (s, hm) ↦ inr (
                                finish_vote-IsSent ui revo selected p d c s _ hs hp hd hc hm
                                  (rw (hp, hd, hc, hm, cast_vote) refl))
                          ]
                  ]
            ]
      ]

  check_click-selected :
      (ui : VotePage) (wallet : Option Key) (selected : ℕ)
      → check_click ui wallet ≡ good selected
      → ui.selected ≡ some selected
  unfolding check_click
  check_click-selected ui wallet selected h =
      elim (Bool-cases (not ui.use_relayer && is_none wallet)) [
        | inl b ↦ let h' = rw (b, check_click) at h in absurd cc
        | inr b ↦
            let h' = rw (b, check_click) at h in need-good nothing_selected ui.selected selected h'
      ]

  -- A click ends in one of two ways. Either nothing is known to be handed in, and then the revoting
  -- keys are as before, and the page has given nothing away or, at the stage of handing in, a request
  -- without an answer that confirms it, which may have handed the vote in all the same; or every stage
  -- has succeeded, what the last one made is handed in and confirmed, and then the new key is saved and
  -- the page says so, or saving it fails and the page shows that. The button is free in the end.
  pub on_vote_click-IsOutcome :
      (ui : VotePage) (revo : Revo)
      → IsUnsent world ui revo (on_vote_click lib vlib chain w json kr world poll ui revo)
        ⊎ IsSent ui revo (on_vote_click lib vlib chain w json kr world poll ui revo)
  unfolding on_vote_click
  on_vote_click-IsOutcome ui revo = elim (Bool-cases ui.busy) [
    | inl b ↦ inl (busy-IsUnsent ui revo _ b (rw (b, on_vote_click) refl))
    | inr b ↦ elim (VoteResult-cases (check_click (started ui) world.wallet)) [
      | inl (e, hc) ↦
          inl (failed_at-IsUnsent ui revo ui.stage e _ (inl refl) (rw (b, hc, on_vote_click) refl))
      | inr (selected, hc) ↦
          let ran : on_vote_click lib vlib chain w json kr world poll ui revo
              ≡ cast ui revo selected =
            rw (b, hc, on_vote_click) refl in
          rw ran (
            cast_vote-cases ui revo selected
              (check_click-selected (started ui) world.wallet selected hc))
    ]
  ]
