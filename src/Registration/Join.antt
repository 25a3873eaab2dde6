-- ===== src/Registration/Join.antt =====
-- The page of an invitation to a census (frontend/src/pages/CensusJoinPage.tsx).
use mootvote.Base.{ℕ, List, Option, none, some, Bool, true, false, if◌then◌else◌, get_elem?}
use mootvote.Auth.{AuthSig, make_auth_sig}
use mootvote.Blob.{Text}
use mootvote.Keyring.{Keyring}
use mootvote.Vote.{VoteLibrary}

pub record Preflight : Type 0 where
  pub member_id : ℕ
  pub name : Text
  pub census_title : Text

-- The texts of `stage`; `idle` is the empty one.
pub data JoinStage : Type 0 where
  idle checking signing submitting joined : JoinStage

-- `no_account` and `not_loaded` are the exceptions of a field of an undefined `acct` and a null `pf`.
pub data JoinError : Type 0 where
  fetch_failed bad_json no_account not_loaded : JoinError
  refused : Text → JoinError

pub record JoinPage : Type 0 where
  pub pf : Option Preflight
  pub stage : JoinStage
  pub err : Option JoinError

abbrev pub new_page : JoinPage
new_page = record { pf = none; stage = idle; err = none }

-- An answer of the service: the text of one that is not ok, or the body, unless it is not JSON.
pub data JoinAnswer (A : Type 0) : Type 0 where
  not_ok : Text → JoinAnswer A
  answer : Option A → JoinAnswer A

abbrev pub failed_load : JoinError → JoinPage → JoinPage
failed_load e page = record page { stage = checking; err = some e }

-- The effect that fetches the invitation.
unfoldable pub load_preflight : Option (JoinAnswer Preflight) → JoinPage → JoinPage
load_preflight none page = failed_load fetch_failed page
load_preflight (some (not_ok text)) page = failed_load (refused text) page
load_preflight (some (answer none)) page = failed_load bad_json page
load_preflight (some (answer (some p))) page = record page { pf = some p; stage = idle }

-- The request is by its member, its token and its headers.
pub record Claim : Type 0 where
  pub sig : AuthSig
  pub cid : ℕ
  pub member_id : ℕ
  pub token : Text

abbrev pub failed_bind : JoinError → JoinPage → JoinPage
failed_bind e page = record page { stage = idle; err = some e }

-- The rest of `onBind`, from the answer on; the answer is `some none` when it is ok.
unfoldable pub after_claim : Option (Option Text) → JoinPage → JoinPage
after_claim none page = failed_bind fetch_failed page
after_claim (some (some text)) page = failed_bind (refused text) page
after_claim (some none) page = record page { stage = joined; err = none }

module _ (poseidon : List ℕ → ℕ) (vlib : VoteLibrary) (now_ms : ℕ)
    (fetch : Claim → Option (Option Text)) (cid : ℕ) (tok : Text) where
  unfoldable pub on_bind : Keyring → JoinPage → JoinPage
  on_bind kr page = elim (get_elem? kr.accounts kr.active) [
    | none ↦ failed_bind no_account page
    | some acct ↦ elim page.pf [
      | none ↦ failed_bind not_loaded page
      | some p ↦
          let sig = make_auth_sig poseidon vlib acct.prv acct.pub_key now_ms in
          after_claim
            (fetch (record { sig = sig; cid = cid; member_id = p.member_id; token = tok })) page
    ]
  ]

abbrev pub is_idle : JoinStage → Bool
is_idle idle = true
is_idle _ = false

unfoldable pub join_disabled : Keyring → JoinPage → Bool
join_disabled kr page = elim (get_elem? kr.accounts kr.active) [
  | none ↦ true
  | some acct ↦ if kr.locked then true else if is_idle page.stage then false else true
]
