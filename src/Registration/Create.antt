-- ===== src/Registration/Create.antt =====
-- The form of a new census and its request (frontend/src/pages/CensusCreatePage.tsx).
use mootvote.Base.{
  ℕ, zero, suc, List, [], ◌∷◌, ◌++◌, Option, none, some, Bool, true, false, ◌&&◌, leb,
  if◌then◌else◌, length, get_elem?,
}
use mootvote.Auth.{AuthSig, make_auth_sig}
use mootvote.Blob.{Text}
use mootvote.Keyring.{Keyring, trim_start, trim_end}
use mootvote.PollCreate.Form.{is_filled, all_filled}
use mootvote.Vote.{VoteLibrary}

pub record CensusValues : Type 0 where
  pub title : Text
  pub description : Option Text
  pub members : List Text

-- `defaultValues`
abbrev pub empty_form : CensusValues
empty_form = record { title = []; description = some []; members = [] ∷ [] ∷ [] }

abbrev pub description_fits : Option Text → Bool
description_fits none = true
description_fits (some s) = leb (length s) 2000

-- `schema`
unfoldable pub form_valid : CensusValues → Bool
form_valid d =
    is_filled d.title
    && leb (length d.title) 200
    && description_fits d.description
    && all_filled d.members

-- `fields` without the element at `i`.
unfoldable pub without : List Text → ℕ → List Text
without [] i = []
without (m ∷ ms) zero = ms
without (m ∷ ms) (suc i) = m ∷ without ms i

-- The buttons of the list of members: `append({ name: "" })` and `remove(i)`.
pub data MemberPress : Type 0 where
  add : MemberPress
  remove : ℕ → MemberPress

unfoldable pub press_member : MemberPress → List Text → List Text
press_member add ms = ms ++ ([] ∷ [])
press_member (remove i) ms = if leb (length ms) 1 then ms else without ms i

unfoldable pub press_members : List MemberPress → List Text → List Text
press_members [] ms = ms
press_members (p ∷ ps) ms = press_members ps (press_member p ms)

abbrev pub trim : Text → Text
trim s = trim_end (trim_start s)

-- `data.description?.trim() || null`
unfoldable pub description_of : Option Text → Option Text
description_of none = none
description_of (some s) = let t = trim s in if is_filled t then some t else none

-- `members.map((m) => m.name.trim()).filter(Boolean)`
unfoldable pub names_of : List Text → List Text
names_of [] = []
names_of (m ∷ ms) =
    let rest = names_of ms in let name = trim m in if is_filled name then name ∷ rest else rest

-- The body of the request has the fields of the form.
abbrev pub body_of : CensusValues → CensusValues
body_of d = record {
  title = trim d.title;
  description = description_of d.description;
  members = names_of d.members;
}

pub data CensusStage : Type 0 where
  sign send done : CensusStage

pub data NewCensusError : Type 0 where
  not_unlocked fetch_failed bad_json : NewCensusError
  create_failed : Text → NewCensusError

-- `refused` has the text of an answer that is not ok; `answered` has the id, unless the body is not
-- JSON.
pub data CensusAnswer : Type 0 where
  refused : Text → CensusAnswer
  answered : Option ℕ → CensusAnswer

-- What a submission leaves: the stage and the error of the page, the request and the page to go to.
pub record SubmittedCensus : Type 0 where
  pub stage : CensusStage
  pub err : Option NewCensusError
  pub sent : Option (AuthSig × CensusValues)
  pub goes_to : Option ℕ

-- `!KR.locked && !!KR.accounts[KR.active]`
unfoldable pub can_submit : Keyring → Bool
can_submit kr = elim (get_elem? kr.accounts kr.active) [
  | none ↦ false
  | some acct ↦ if kr.locked then false else true
]

-- The rest of `onSubmit`, from the answer on; `none` is an exception of `fetch`.
unfoldable pub after_create : AuthSig → CensusValues → Option CensusAnswer → SubmittedCensus
after_create sig body none = record {
  stage = send;
  err = some fetch_failed;
  sent = some (sig, body);
  goes_to = none;
}
after_create sig body (some (refused text)) = record {
  stage = send;
  err = some (create_failed text);
  sent = some (sig, body);
  goes_to = none;
}
after_create sig body (some (answered none)) = record {
  stage = send;
  err = some bad_json;
  sent = some (sig, body);
  goes_to = none;
}
after_create sig body (some (answered (some id))) = record {
  stage = done;
  err = none;
  sent = some (sig, body);
  goes_to = some id;
}

abbrev pub stays_locked : SubmittedCensus
stays_locked = record { stage = sign; err = some not_unlocked; sent = none; goes_to = none }

module _ (poseidon : List ℕ → ℕ) (vlib : VoteLibrary) (now_ms : ℕ)
    (fetch : AuthSig → CensusValues → Option CensusAnswer) where
  unfoldable pub submit_census : Keyring → CensusValues → SubmittedCensus
  submit_census kr d = elim (get_elem? kr.accounts kr.active) [
    | none ↦ stays_locked
    | some acct ↦
        let sig = make_auth_sig poseidon vlib acct.prv acct.pub_key now_ms in
        let body = body_of d in
        if kr.locked then stays_locked else after_create sig body (fetch sig body)
  ]
