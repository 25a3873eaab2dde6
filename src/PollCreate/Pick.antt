-- ===== src/PollCreate/Pick.antt =====
-- `handlePickExisting` (frontend/src/pages/PollCreatePage.tsx).
use mootvote.Base.{ℕ, List, [], ◌∷◌, Option, none, some, Bool, false, get_elem?}
use mootvote.Auth.{AuthSig, make_auth_sig}
use mootvote.Blob.{Text}
use mootvote.Census.{CensusForm, on_census_file}
use mootvote.Keyring.{Keyring}
use mootvote.Vote.{VoteLibrary}

-- The fields of the form that a census sets, and whether the list of censuses is open.
pub record PickState : Type 0 where
  pub selected_census_id : Option ℕ
  pub selected_census_title : Option Text
  pub census : Option CensusForm
  pub open_choose : Bool

-- The census service's answer: a text of an error, or the file.
pub data ExportAnswer : Type 0 where
  no_answer : ExportAnswer
  not_ok_text : Text → ExportAnswer
  file : List ℕ → ExportAnswer

pub data PickError : Type 0 where
  unlock_accounts fetch_failed census_is_empty bad_file : PickError
  refused_with : Text → PickError

pub data Picked : Type 0 where
  picked : PickState → Picked
  pick_fails : PickError → Picked

module _ (poseidon : List ℕ → ℕ) (vlib : VoteLibrary) where
  unfoldable pub pick_file : List ℕ → ℕ → Text → Picked
  pick_file [] id title = pick_fails census_is_empty
  pick_file (b ∷ buf) id title = elim (on_census_file poseidon (b ∷ buf)) [
    | none ↦ pick_fails bad_file
    | some form ↦ picked (record {
      selected_census_id = some id;
      selected_census_title = some title;
      census = some form;
      open_choose = false;
    })
  ]

  -- `request` is what the census service answers to an export of a census with these headers.
  unfoldable pub handle_pick_existing :
      Keyring → (ℕ → AuthSig → ExportAnswer) → ℕ → ℕ → Text → Picked
  handle_pick_existing kr request now_ms id title = elim (get_elem? kr.accounts kr.active) [
    | none ↦ pick_fails unlock_accounts
    | some acct ↦ elim (request id (make_auth_sig poseidon vlib acct.prv acct.pub_key now_ms)) [
      | no_answer ↦ pick_fails fetch_failed
      | not_ok_text txt ↦ pick_fails (refused_with txt)
      | file buf ↦ pick_file buf id title
    ]
  ]
