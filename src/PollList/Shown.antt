-- ===== src/PollList/Shown.antt =====
-- What the list of polls shows after any presses of its filters and page buttons
-- (frontend/src/pages/PollListPage.tsx with indexer/src/server.rs).
use mathlib.Core.Path.{fun_ext}
use mootvote.Base.{
  ℕ, suc, ◌*◌, ◌^◌, ◌<◌, ◌≤◌, ◌≡◌, ◌↔◌, refl, List, [], ◌∷◌, Option, none, some, Bool, length, inl,
}
use mootvote.Blob.{Text}
use mootvote.Bytes.{fp}
use mootvote.Pager.{Page, clicks, next_of}
use mootvote.Pager.Cursor.{answers, cursor, turn}
use mootvote.Pager.Polls
use mootvote.Pager.Polls.{PollList, IsAt, click-IsAt, clicks-IsAt}
use mootvote.PollList
use mootvote.PollList.{
  Role, Status, Filtered, FilterPress, set_role, set_status, turn_page, poll_query, first_view,
  press_filter, press_filters,
}
use mootvote.PollList.Service.{PollRow, Voters, i64_max, filter_rows, answer_polls}
use mootvote.PollList.Pages.{
  Falling, view, found, nth_items, IsOn, view-items, turn-IsOn, more_pages,
}
use mootvote.PollList.Asked.{IsHexReader, is_wanted, answer_polls-poll_query}

-- Page number `length s.list.stack` of the polls `found` is shown, and there is a next one exactly if
-- polls are left.
pub record IsShown (found : List PollRow) (list : PollList) : Type 0 where
  pub page : (p : Page) × (list.page ≡ some p) × (p.items ≡ nth_items (length list.stack) found)
  pub last : next_of list.page ≡ none ↔ length found ≤ 20 * suc (length list.stack)

module _ (wanted : Role → Status → PollRow → Bool) (rows : List PollRow)
    (falls : Falling i64_max rows) where
  abbrev views : Role → Status → Option ℕ → Page
  views role status = view (wanted role status) rows falls

  abbrev served_views : Role → Status → Option ℕ → Option Page
  served_views role status = answers (views role status)

  abbrev IsOk : Filtered → Type 0
  IsOk s =
      (k : ℕ) × IsAt (views s.role s.status) k s.list × IsOn (wanted s.role s.status) rows falls k

  fresh :
      (role : Role) (status : Status) (old : Option Page)
      → IsOk (record {
        role = role;
        status = status;
        list = Polls.reset (served_views role status) old;
      })
  unfolding clicks
  fresh role status old = (0, clicks-IsAt (views role status) [] old, inl refl)

  press_filter-IsOk :
      (p : FilterPress) (s : Filtered) → IsOk s → IsOk (press_filter served_views p s)
  unfolding press_filter
  press_filter-IsOk (set_role r) s h = fresh r s.status s.list.page
  press_filter-IsOk (set_status t) s h = fresh s.role t s.list.page
  press_filter-IsOk (turn_page c) s (k, h, on) = (
    turn (views s.role s.status) c k,
    click-IsAt (views s.role s.status) c k s.list h,
    turn-IsOn (wanted s.role s.status) rows falls c k on,
  )

  press_filters-IsOk :
      (ps : List FilterPress) (s : Filtered) → IsOk s → IsOk (press_filters served_views ps s)
  unfolding press_filters
  press_filters-IsOk [] s h = h
  press_filters-IsOk (p ∷ ps) s h =
      press_filters-IsOk ps (press_filter served_views p s) (press_filter-IsOk p s h)

  IsOk-IsShown :
      (s : Filtered) → IsOk s → IsShown (found (wanted s.role s.status) rows falls) s.list
  IsOk-IsShown s (k, h, on) =
      let shown = views s.role s.status (cursor (views s.role s.status) k) in
      record {
        page = (shown, h.page, rw h.depth (view-items (wanted s.role s.status) rows falls k on));
        last = rw (h.page, h.depth) (more_pages (wanted s.role s.status) rows falls k on);
      }

  pub presses-IsShown :
      (ps : List FilterPress)
      → let s = press_filters served_views ps (first_view served_views) in
        IsShown (found (wanted s.role s.status) rows falls) s.list
  unfolding first_view
  presses-IsShown ps = IsOk-IsShown (press_filters served_views ps (first_view served_views)) (
      press_filters-IsOk ps (first_view served_views)
        (fresh PollList.all_roles PollList.all_statuses none))

-- The page of polls asks the indexer for the polls of an account.
abbrev pub asks :
    (Text → Option (List ℕ))
    → (List ℕ → ℕ)
    → ℕ × ℕ
    → ℕ
    → Voters
    → List PollRow
    → Role
    → Status
    → Option ℕ
    → Option Page
asks decode poseidon key now voters rows role status before =
    answer_polls decode now voters rows (poll_query poseidon key role status before)

-- After any presses of the filters and the page buttons, on disabled buttons too, the list shows the
-- polls that the two chosen filters are for, in the indexer's order: with n cursors on its stack those
-- from the 20 n-th on, twenty or what is left; and the button for the next page is enabled exactly if
-- polls are left. The reader of hexadecimal parameters reads the texts of bytes, the coordinates of
-- the account's key and the hash are in range, the ids of the table fall, and the table stays as it
-- is.
pub press_filters-IsShown :
    (decode : Text → Option (List ℕ)) (poseidon : List ℕ → ℕ) (key : ℕ × ℕ) (now : ℕ)
    (voters : Voters) (rows : List PollRow) (ps : List FilterPress)
    → IsHexReader decode
    → key.0 < 256 ^ 32
    → key.1 < 256 ^ 32
    → poseidon (key.0 ∷ key.1 ∷ []) < fp
    → Falling i64_max rows
    → let server = asks decode poseidon key now voters rows in
      let s = press_filters server ps (first_view server) in
      IsShown (filter_rows (is_wanted poseidon key s.role s.status now voters) i64_max rows) s.list
press_filters-IsShown decode poseidon key now voters rows ps reads hx hy hl falls =
    let same : asks decode poseidon key now voters rows
        ≡ served_views (λ role status. is_wanted poseidon key role status now voters) rows falls =
      fun_ext (λ role. fun_ext (λ status. fun_ext (λ before.
        answer_polls-poll_query decode reads poseidon key hx hy hl now voters role status before
          rows))) in
    rw same
      (presses-IsShown (λ role status. is_wanted poseidon key role status now voters) rows falls ps)
