-- ===== src/PollPage/Loads.antt =====
-- The requests of the page of a poll (frontend/src/pages/PollDetailPage.tsx): the poll, and whether the
-- active account is one of its voters. The indexer's side is in PollList.Service.
use mootvote.Base.{
  ℕ, ◌<◌, ◌≡◌, refl, ap, ◌∙◌, List, [], ◌∷◌, Option, none, some, Bool, false, if◌then◌else◌,
  get_elem?, inl, inr, arith, Bool-cases,
}
use mootvote.Blob.{Text}
use mootvote.Bytes.{fp}
use mootvote.Keyring.{BabyJubKeypair, Keyring, arrays_equal, to_lower}
use mootvote.PollList.{key_to_leaf_hex}
use mootvote.PollList.Service.{Voters, is_voter, sized, in_table}
use mootvote.PollList.Asked.{IsHexReader, sized_same}
use mootvote.PollList.Words.{word, key_to_leaf_hex_lem, word-All, length-word}
use mootvote.Tagged.{codes}
use mootvote.Vote.{PollDetail}

-- `no_account` is the exception of a field of an undefined account.
pub data LoadError : Type 0 where
  fetch_failed bad_json no_account : LoadError
  not_ok : Text → LoadError

-- An answer: the text of one that is not ok, or the body.
pub data Answer (A : Type 0) : Type 0 where
  refused : Text → Answer A
  ok : A → Answer A

pub record DetailPage : Type 0 where
  pub poll : Option PollDetail
  pub voter : Bool
  pub err : Option LoadError

abbrev pub fresh_page : DetailPage
fresh_page = record { poll = none; voter = false; err = none }

-- The effect that fetches the poll; a body that is no JSON is `ok none`.
unfoldable pub load_poll : Option (Answer (Option PollDetail)) → DetailPage → DetailPage
load_poll none page = record page { err = some fetch_failed }
load_poll (some (refused text)) page = record page { err = some (not_ok text) }
load_poll (some (ok none)) page = record page { err = some bad_json }
load_poll (some (ok (some p))) page = record page { poll = some p; err = none }

-- The rest of the second effect, from the answer on.
unfoldable pub voter_answered : Option (Answer Text) → DetailPage → DetailPage
voter_answered none page = record page { err = some fetch_failed }
voter_answered (some (refused text)) page = record page { err = some (not_ok text) }
voter_answered (some (ok text)) page = record page {
  voter = arrays_equal text (codes "true");
  err = none;
}

-- The effect that asks whether the active account is a voter; `fetch` answers for the text of a leaf.
unfoldable pub check_voter :
    (List ℕ → ℕ) → (Text → Option (Answer Text)) → Keyring → DetailPage → DetailPage
check_voter poseidon fetch kr page = elim (get_elem? kr.accounts kr.active) [
  | none ↦ if kr.locked then record page { err = none } else record page { err = some no_account }
  | some acc ↦
      if kr.locked
      then record page { err = none }
      else voter_answered (fetch (key_to_leaf_hex poseidon acc.pub_key)) page
]

-- The parameter `tab` of the address; an empty one is taken away.
abbrev pub tab_of : Option Text → Text
tab_of none = []
tab_of (some t) = to_lower t

unfoldable pub set_tab : Text → Option Text
set_tab [] = none
set_tab (c ∷ t) = some (c ∷ t)

-- The indexer's answer to the effect.
abbrev pub answers_voter : Option Text → Option (Answer Text)
answers_voter none = some (refused [])
answers_voter (some text) = some (ok text)

-- For an open keyring the page takes the active account to be a voter exactly if its leaf is in the
-- table of voters, where the indexer answers. The reader of hexadecimal parameters reads the texts of
-- bytes, and the hash is in range.
pub check_voter-is_voter :
    (decode : Text → Option (List ℕ)) (poseidon : List ℕ → ℕ) (poll_id : ℕ) (voters : Voters)
    (kr : Keyring) (acc : BabyJubKeypair) (page : DetailPage)
    → IsHexReader decode
    → poseidon (acc.pub_key.0 ∷ acc.pub_key.1 ∷ []) < fp
    → kr.locked ≡ false
    → get_elem? kr.accounts kr.active ≡ some acc
    → check_voter poseidon (λ s. answers_voter (is_voter decode poll_id voters s)) kr page
      ≡ record page {
        voter = in_table poll_id (word (poseidon (acc.pub_key.0 ∷ acc.pub_key.1 ∷ []))) voters;
        err = none;
      }
unfolding check_voter is_voter voter_answered arrays_equal
check_voter-is_voter decode poseidon poll_id voters kr acc page reads small open_still active =
    let leaf = word (poseidon (acc.pub_key.0 ∷ acc.pub_key.1 ∷ [])) in
    let read : sized 32 (decode (key_to_leaf_hex poseidon acc.pub_key)) ≡ some leaf =
      ap (λ s. sized 32 (decode s)) (key_to_leaf_hex_lem poseidon acc.pub_key small)
      ∙ ap (sized 32) (reads leaf (word-All (poseidon (acc.pub_key.0 ∷ acc.pub_key.1 ∷ []))))
      ∙ sized_same 32 leaf (length-word (poseidon (acc.pub_key.0 ∷ acc.pub_key.1 ∷ []))) in
    let said : is_voter decode poll_id voters (key_to_leaf_hex poseidon acc.pub_key)
        ≡ some (if in_table poll_id leaf voters then codes "true" else codes "false") =
      rw (read, is_voter) refl in
    rw (active, check_voter)
      (rw open_still (
        ap (λ o. voter_answered (answers_voter o) page) said
        ∙ elim (Bool-cases (in_table poll_id leaf voters)) [
          | inl e ↦ rw e refl
          | inr e ↦ rw e refl
        ]))

-- A request that is not answered leaves what was known of the account before, also where another
-- account has become active meanwhile.
pub check_voter_kept :
    (poseidon : List ℕ → ℕ) (kr : Keyring) (page : DetailPage)
    → (check_voter poseidon (λ s. none) kr page).voter ≡ page.voter
unfolding check_voter voter_answered
check_voter_kept poseidon kr page = ground arith
