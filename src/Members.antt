-- ===== src/Members.antt =====
-- The members of a census (frontend/src/pages/CensusDetailPage.tsx), and how the census service lists
-- them (census-service/src/server.rs).
pub mod Added
mod Tests
use mootvote.Base.{
  ℕ, zero, suc, ◌+◌, List, [], ◌∷◌, ◌++◌, Option, none, some, Bool, true, false, not, ◌&&◌, ◌==◌,
  ltb, if◌then◌else◌, length, take,
}
use mootvote.Blob.{Text}
use mootvote.Keyring.{trim_start, trim_end}
use mootvote.Pager.{head_of}

-- `MEMBER_PAGE_LIMIT`
abbrev pub member_page_limit : ℕ
member_page_limit = 20

pub record MemberRow : Type 0 where
  pub id : ℕ
  pub name : Text
  pub pub_x : Option Text
  pub pub_y : Option Text
  pub joined : Bool
  pub invite : Option Text

pub record MemberPage : Type 0 where
  pub title : Text
  pub is_creator : Bool
  pub items : List MemberRow
  pub any_left : Bool

-- The service: the members from `after` on, in the order of their ids.
unfoldable pub members_after : Option ℕ → List MemberRow → List MemberRow
members_after after [] = []
members_after none (m ∷ ms) = m ∷ ms
members_after (some a) (m ∷ ms) =
    let rest = members_after (some a) ms in if ltb a m.id then m ∷ rest else rest

-- The service: nobody but the creator sees the invites.
unfoldable pub visible : Bool → List MemberRow → List MemberRow
visible true ms = ms
visible false [] = []
visible false (m ∷ ms) = record m { invite = none } ∷ visible false ms

-- The service: `limit` members, and whether there are more.
unfoldable pub list_members : Text → Bool → Option ℕ → List MemberRow → MemberPage
list_members title is_creator after members =
    let rows = members_after after members in
    record {
      title = title;
      is_creator = is_creator;
      items = visible is_creator (take member_page_limit rows);
      any_left = ltb member_page_limit (length rows);
    }

pub record Invite : Type 0 where
  pub member_id : ℕ
  pub token : Text
  pub invited_name : Text

pub data MemberError : Type 0 where
  load_failed no_selected_account no_name no_page add_failed remove_failed : MemberError

pub record MembersState : Type 0 where
  pub page : Option MemberPage
  pub err_msg : Option MemberError
  pub stack : List ℕ
  pub add_name : Text
  pub add_busy : Bool
  pub add_err : Option MemberError
  pub add_invite : Option Invite
  pub removing_id : Option ℕ

-- The query leaves null and 0 out.
abbrev pub after_query : Option ℕ → Option ℕ
after_query none = none
after_query (some zero) = none
after_query (some (suc n)) = some (suc n)

abbrev pub last_id_of : List MemberRow → Option ℕ
last_id_of [] = none
last_id_of (m ∷ []) = some m.id
last_id_of (m ∷ n ∷ ms) = last_id_of (n ∷ ms)

-- The row of a member that has just been invited.
abbrev pub invited_row : Invite → MemberRow
invited_row invite = record {
  id = invite.member_id;
  name = invite.invited_name;
  pub_x = none;
  pub_y = none;
  joined = false;
  invite = some invite.token;
}

-- The page with the new member, if there is room on it.
unfoldable pub with_member : Invite → MemberPage → MemberPage
with_member invite page =
    if ltb (length page.items) member_page_limit
    then record page { items = page.items ++ (invited_row invite ∷ []) }
    else if not page.any_left
    then record page { any_left = true }
    else page

-- `add` is the service's answer to the name; `has_account` tells whether an account is active. With no
-- page, `page!` is a TypeError.
unfoldable pub on_add_member : Bool → (Text → Option Invite) → MembersState → MembersState
on_add_member has_account add s =
    let s' : MembersState = record s { add_err = none; add_invite = none; add_busy = false } in
    let name = trim_end (trim_start s.add_name) in
    if not has_account
    then record s' { add_err = some no_selected_account }
    else if length name == 0
    then record s' { add_err = some no_name }
    else elim (add name) [
      | none ↦ record s' { add_err = some add_failed }
      | some invite ↦ elim s.page [
        | none ↦ record s' { add_invite = some invite; add_name = []; add_err = some no_page }
        | some page ↦ record s' {
          add_invite = some invite;
          add_name = [];
          page = some (with_member invite page);
        }
      ]
    ]

-- `server` answers a request for a page, `none` where it fails.
module _ (server : Option ℕ → Option MemberPage) where
  unfoldable pub load_members : Option ℕ → MembersState → MembersState
  load_members after s = elim (server (after_query after)) [
    | none ↦ record s { err_msg = some load_failed }
    | some page ↦ record s { err_msg = none; page = some page }
  ]

  -- On a page with a last item.
  unfoldable pub next_members : MembersState → MembersState
  next_members s = elim s.page [
    | none ↦ s
    | some page ↦ elim (last_id_of page.items) [
      | none ↦ s
      | some after ↦ load_members (some after) (record s { stack = after ∷ s.stack })
    ]
  ]

  abbrev pub popped : List ℕ → List ℕ
  popped [] = []
  popped (c ∷ s) = s

  unfoldable pub prev_members : MembersState → MembersState
  prev_members s =
      let rest = popped s.stack in load_members (head_of rest) (record s { stack = rest })

  abbrev only_member : ℕ → Option MemberPage → Bool
  only_member id none = false
  only_member id (some page) = elim page.items [
    | [] ↦ false
    | m ∷ ms ↦ elim ms [ [] ↦ m.id == id | n ∷ ns ↦ false ]
  ]

  -- `confirmed` is the answer to the question, `removes` whether the service removes the member.
  unfoldable pub on_remove_member : Bool → Bool → Bool → ℕ → MembersState → MembersState
  on_remove_member confirmed has_account removes member_id s =
      let s' : MembersState = record s { removing_id = none } in
      if not confirmed
      then s'
      else if not has_account
      then record s' { err_msg = some no_selected_account }
      else if not removes
      then record s' { err_msg = some remove_failed }
      else if only_member member_id s.page
      then prev_members s'
      else load_members (head_of s.stack) s'
