-- ===== src/Members/Added.antt =====
-- The page of members after an addition, which the page does not load again.
use mathlib.Core.Option
use mootvote.Base.{
  ℕ, zero, suc, ◌≤◌, ◌<◌, ◌≡◌, refl, sym, ap, ◌∙◌, arith, List, [], ◌∷◌, ◌++◌, Option, none, some,
  Bool, true, false, ◌==◌, ltb, length, take, length-append, inl, inr, Bool-cases,
}
use mootvote.Blob.{Text}
use mootvote.Keyring.{trim_start, trim_end}
use mootvote.Members.{
  MemberRow, MemberPage, Invite, MembersState, member_page_limit, members_after, list_members,
  visible, invited_row, with_member, on_add_member,
}

-- A cursor in front of an id.
abbrev pub IsBefore : Option ℕ → ℕ → Type 0
IsBefore none n = Unit
IsBefore (some a) n = a < n

members_after-snoc :
    (after : Option ℕ) (ms : List MemberRow) (m : MemberRow)
    → IsBefore after m.id
    → members_after after (ms ++ (m ∷ [])) ≡ members_after after ms ++ (m ∷ [])
unfolding members_after
members_after-snoc none [] m h = refl
members_after-snoc none (n ∷ ms) m h = refl
members_after-snoc (some a) [] m h = let small : ltb a m.id ≡ true = ground arith in rw small refl
members_after-snoc (some a) (n ∷ ms) m h = elim (Bool-cases (ltb a n.id)) [
  | inl e ↦ rw e (ap (λ (t : List MemberRow). n ∷ t) (members_after-snoc (some a) ms m h))
  | inr e ↦ rw e (members_after-snoc (some a) ms m h)
]

length-take-min : {A : Type 0} (n : ℕ) (xs : List A) → n ≤ length xs → length (take n xs) ≡ n
length-take-min zero xs h = refl
length-take-min (suc n) [] h = absurd (omega arith)
length-take-min (suc n) (x ∷ xs) h = ap suc (length-take-min n xs (omega arith))

take-all : {A : Type 0} (n : ℕ) (xs : List A) → length xs ≤ n → take n xs ≡ xs
take-all zero [] h = refl
take-all zero (x ∷ xs) h = absurd (omega arith)
take-all (suc n) [] h = refl
take-all {A = A} (suc n) (x ∷ xs) h = ap (λ (t : List A). x ∷ t) (take-all n xs (omega arith))

take-append : {A : Type 0} (n : ℕ) (xs ys : List A) → n ≤ length xs → take n (xs ++ ys) ≡ take n xs
take-append zero xs ys h = refl
take-append (suc n) [] ys h = absurd (omega arith)
take-append {A = A} (suc n) (x ∷ xs) ys h =
    ap (λ (t : List A). x ∷ t) (take-append n xs ys (omega arith))

-- The page of `rows` members, and that of one more.
page_of : Text → Bool → List MemberRow → MemberPage
page_of title is_creator rows = record {
  title = title;
  is_creator = is_creator;
  items = visible is_creator (take member_page_limit rows);
  any_left = ltb member_page_limit (length rows);
}

-- The page as the service shows it to the caller.
abbrev pub seen_page : MemberPage → MemberPage
seen_page p = record p { items = visible p.is_creator p.items }

length-visible : (c : Bool) (ms : List MemberRow) → length (visible c ms) ≡ length ms
unfolding visible
length-visible true ms = refl
length-visible false [] = refl
length-visible false (m ∷ ms) = ap suc (length-visible false ms)

visible_twice : (c : Bool) (ms : List MemberRow) → visible c (visible c ms) ≡ visible c ms
unfolding visible
visible_twice true ms = refl
visible_twice false [] = refl
visible_twice false (m ∷ ms) =
    ap (λ (t : List MemberRow). record m { invite = none } ∷ t) (visible_twice false ms)

visible-append :
    (c : Bool) (ms ns : List MemberRow) → visible c (ms ++ ns) ≡ visible c ms ++ visible c ns
unfolding visible
visible-append true ms ns = refl
visible-append false [] ns = refl
visible-append false (m ∷ ms) ns =
    ap (λ (t : List MemberRow). record m { invite = none } ∷ t) (visible-append false ms ns)

-- A row that is added to visible rows is seen as if it had been among them.
visible-snoc :
    (c : Bool) (ms : List MemberRow) (m : MemberRow)
    → visible c (visible c ms ++ (m ∷ [])) ≡ visible c (ms ++ (m ∷ []))
visible-snoc c ms m =
    visible-append c (visible c ms) (m ∷ [])
    ∙ ap (λ (t : List MemberRow). t ++ visible c (m ∷ [])) (visible_twice c ms)
    ∙ sym (visible-append c ms (m ∷ []))

with_member-page_of :
    (title : Text) (is_creator : Bool) (rows : List MemberRow) (invite : Invite)
    → seen_page (with_member invite (page_of title is_creator rows))
      ≡ page_of title is_creator (rows ++ (invited_row invite ∷ []))
unfolding with_member page_of
with_member-page_of title is_creator rows invite = elim (Bool-cases (ltb (length rows) 20)) [
  | inl room ↦
      let len = length-append rows (invited_row invite ∷ []) in
      let here = take-all 20 rows (ground arith) in
      let there = take-all 20 (rows ++ (invited_row invite ∷ [])) (ground (arith, len)) in
      let few : ltb 20 (length rows) ≡ false = ground arith in
      let still_few : ltb 20 (length (rows ++ (invited_row invite ∷ []))) ≡ false =
        ground (arith, len) in
      rw (here, there, few, still_few, length-visible is_creator rows)
        (rw room (
          ap (λ (t : List MemberRow). page title is_creator t false)
            (visible-snoc is_creator rows (invited_row invite))))
  | inr full ↦
      let len = length-append rows (invited_row invite ∷ []) in
      let many : 20 ≤ length rows = ground arith in
      let shown = length-take-min 20 rows many in
      let same = take-append 20 rows (invited_row invite ∷ []) many in
      let more : ltb 20 (length (rows ++ (invited_row invite ∷ []))) ≡ true = ground (arith, len) in
      let twice = visible_twice is_creator (take 20 rows) in
      rw (length-visible is_creator (take 20 rows), shown, same, more)
        (elim (Bool-cases (ltb 20 (length rows))) [
          | inl e ↦ rw e (ap (λ (t : List MemberRow). page title is_creator t true) twice)
          | inr e ↦ rw e (ap (λ (t : List MemberRow). page title is_creator t true) twice)
        ])
]
  where
    page : Text → Bool → List MemberRow → Bool → MemberPage
    page title is_creator items any_left = record {
      title = title;
      is_creator = is_creator;
      items = items;
      any_left = any_left;
    }

-- A member who is added shows up as if the page were loaded again. The page shows what the service
-- lists behind a cursor, and the new member's id is behind the cursor too, which the newest id of all is; then the
-- page after the addition, which is not loaded again, is what the service lists now, for a caller other
-- than the creator without the invites: the member stands on it, or there are members left for the next
-- page.
pub on_add_member-list_members :
    (add : Text → Option Invite) (s : MembersState) (title : Text) (is_creator : Bool)
    (after : Option ℕ) (members : List MemberRow) (invite : Invite)
    → (length (trim_end (trim_start s.add_name)) == 0) ≡ false
    → add (trim_end (trim_start s.add_name)) ≡ some invite
    → IsBefore after invite.member_id
    → s.page ≡ some (list_members title is_creator after members)
    → Option.map seen_page (on_add_member true add s).page
      ≡ some (list_members title is_creator after (members ++ (invited_row invite ∷ [])))
unfolding on_add_member list_members page_of
on_add_member-list_members add s title is_creator after members invite named added behind shows =
    let rows = members_after after members in
    let grown = members_after-snoc after members (invited_row invite) behind in
    let shown = with_member-page_of title is_creator rows invite in
    let turned = shown ∙ ap (λ (t : List MemberRow). page_of title is_creator t) (sym grown) in
    rw (named, added, on_add_member) (rw shows (ap (λ (p : MemberPage). some p) turned))
