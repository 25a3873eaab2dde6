-- ===== src/Registration/Sent.antt =====
-- What the pages hand in and what they are left in (frontend/src/pages/CensusCreatePage.tsx and
-- CensusJoinPage.tsx).
use mootvote.Base.{
  ℕ, zero, suc, ◌+◌, ◌≡◌, ◌<◌, ◌≤◌, ◌⊎◌, arith, List, [], ◌∷◌, Option, none, some, true, length,
  length-append, get_elem?, All, inl, inr, Bool-cases,
}
use mootvote.Auth.{AuthSig, make_auth_sig}
use mootvote.Blob.{Text}
use mootvote.Keyring.{Keyring, BabyJubKeypair}
use mootvote.PollCreate.Form.{is_filled}
use mootvote.Registration.Create.{
  CensusValues, MemberPress, add, remove, without, press_member, press_members, names_of, trim,
  body_of, CensusAnswer, done, send, can_submit, after_create, submit_census,
}
use mootvote.Registration.Join.{JoinPage, Claim, idle, joined, after_claim, on_bind}
use mootvote.Vote.{VoteLibrary}

length-without : (ms : List Text) (i : ℕ) → length ms ≤ 1 + length (without ms i)
unfolding without
length-without [] i = omega arith
length-without (m ∷ ms) zero = omega arith
length-without (m ∷ ms) (suc i) = let ih = length-without ms i in omega arith

length-press_member :
    (p : MemberPress) (ms : List Text) → 0 < length ms → 0 < length (press_member p ms)
unfolding press_member
length-press_member add ms h = let e = length-append ms ([] ∷ []) in omega arith
length-press_member (remove i) ms h = let e = length-without ms i in ground arith

-- The list of members never becomes empty, whatever buttons are pressed.
pub length-press_members :
    (ps : List MemberPress) (ms : List Text) → 0 < length ms → 0 < length (press_members ps ms)
unfolding press_members
length-press_members [] ms h = h
length-press_members (p ∷ ps) ms h =
    length-press_members ps (press_member p ms) (length-press_member p ms h)

abbrev pub Filled : Text → Type 0
Filled m = is_filled m ≡ true

-- The service gets no member without a name, whatever the form holds.
pub names_of-Filled : (ms : List Text) → All Filled (names_of ms)
unfolding names_of
names_of-Filled [] = tt
names_of-Filled (m ∷ ms) = elim (Bool-cases (is_filled (trim m))) [
  | inl e ↦ rw e (e, names_of-Filled ms)
  | inr e ↦ rw e (names_of-Filled ms)
]

-- Once the request is sent, the page goes to the new census in the stage "done", or shows an error in
-- the stage "send" and goes nowhere.
pub after_create-cases :
    (sig : AuthSig) (body : CensusValues) (answer : Option CensusAnswer)
    → let out = after_create sig body answer in
      (out.stage ≡ done) × (out.err ≡ none) × ¬ (out.goes_to ≡ none)
      ⊎ (out.stage ≡ send) × ¬ (out.err ≡ none) × (out.goes_to ≡ none)
unfolding after_create
after_create-cases sig body answer = ground arith

module _ (poseidon : List ℕ → ℕ) (vlib : VoteLibrary) (now_ms : ℕ) where
  -- An unlocked keyring with an active account sends the form's body under the account's signature.
  pub submit_census-can_submit :
      (fetch : AuthSig → CensusValues → Option CensusAnswer) (kr : Keyring) (d : CensusValues)
      (acct : BabyJubKeypair)
      → can_submit kr ≡ true
      → get_elem? kr.accounts kr.active ≡ some acct
      → submit_census poseidon vlib now_ms fetch kr d
        ≡ after_create
            (make_auth_sig poseidon vlib acct.prv acct.pub_key now_ms)
            (body_of d)
            (fetch (make_auth_sig poseidon vlib acct.prv acct.pub_key now_ms) (body_of d))
  unfolding submit_census can_submit
  submit_census-can_submit fetch kr d acct can e = ground arith

  -- A click leaves the page either joined without an error, or idle with one.
  pub on_bind-cases :
      (fetch : Claim → Option (Option Text)) (cid : ℕ) (tok : Text) (kr : Keyring) (page : JoinPage)
      → let out = on_bind poseidon vlib now_ms fetch cid tok kr page in
        (out.stage ≡ joined) × (out.err ≡ none) ⊎ (out.stage ≡ idle) × ¬ (out.err ≡ none)
  unfolding on_bind after_claim
  on_bind-cases fetch cid tok kr page = ground arith
