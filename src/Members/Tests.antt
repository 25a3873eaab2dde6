-- ===== src/Members/Tests.antt =====
-- A run.
use mathlib.Core.Option
use mootvote.Base.{ℕ, ◌≡◌, refl, arith, List, [], ◌∷◌, ◌++◌, none, some, true, false, length, ◌==◌}
use mootvote.Keyring.{trim_start, trim_end}
use mootvote.Members.{MemberRow, Invite, MembersState, list_members, invited_row, on_add_member}
use mootvote.Members.Added.{seen_page, on_add_member-list_members}

abbrev member : ℕ → MemberRow
member i = record {
  id = i;
  name = 65 ∷ [];
  pub_x = none;
  pub_y = none;
  joined = false;
  invite = none;
}

abbrev three_members : List MemberRow
three_members = member 4 ∷ member 6 ∷ member 9 ∷ []

abbrev new_invite : Invite
new_invite = record { member_id = 12; token = 116 ∷ []; invited_name = 66 ∷ [] }

abbrev before_addition : MembersState
before_addition = record {
  page = some (list_members (84 ∷ []) true (some 4) three_members);
  err_msg = none;
  stack = 4 ∷ [];
  add_name = 32 ∷ 66 ∷ [];
  add_busy = false;
  add_err = none;
  add_invite = none;
  removing_id = none;
}

name_filled : (length (trim_end (trim_start (32 ∷ 66 ∷ []))) == 0) ≡ false
unfolding trim_end trim_start
name_filled = refl

on_add_member-list_members_example :
    Option.map seen_page (on_add_member true (λ name. some new_invite) before_addition).page
    ≡ some (list_members (84 ∷ []) true (some 4) (three_members ++ (invited_row new_invite ∷ [])))
on_add_member-list_members_example =
    on_add_member-list_members (λ name. some new_invite) before_addition (84 ∷ []) true (some 4)
      three_members new_invite name_filled refl (omega arith) refl
