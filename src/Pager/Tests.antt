-- ===== src/Pager/Tests.antt =====
-- Runs on a server of three pages.
use mootvote.Base.{ℕ, ◌≡◌, refl, [], ◌∷◌, Option, none, some, ◌==◌, if◌then◌else◌}
use mootvote.Pager.{CensusQuery, Page, next, prev, clicks}
use mootvote.Pager.Cursor.{turns}
use mootvote.Pager.Modal
use mootvote.Pager.Modal.{IsAt, choices_of, modal_clicks-IsAt}
use mootvote.Pager.Censuses.{click, load, start}

abbrev three_pages : Option ℕ → Page
three_pages none = record { items = 9 ∷ 8 ∷ []; next_before = some 8 }
three_pages (some c) =
    if c == 8
    then record { items = 7 ∷ 6 ∷ []; next_before = some 6 }
    else record { items = 5 ∷ []; next_before = none }

abbrev by_limit : CensusQuery → Option Page
by_limit q = elim q.limit [
  | none ↦ none
  | some n ↦ if n == 20 then some (three_pages q.before) else none
]

-- Three clicks lead to the last page, and one back to the second.
back_to_second :
    (clicks (click by_limit) (next ∷ next ∷ next ∷ prev ∷ []) (start by_limit)).page
    ≡ some (three_pages (some 8))
unfolding clicks click load start
back_to_second = refl

modal_clicks-IsAt_example :
    IsAt three_pages (turns three_pages (next ∷ next ∷ next ∷ prev ∷ []) 0) (
      clicks
        (Modal.click (choices_of three_pages))
        (next ∷ next ∷ next ∷ prev ∷ [])
        (Modal.start (choices_of three_pages)))
modal_clicks-IsAt_example = modal_clicks-IsAt three_pages (next ∷ next ∷ next ∷ prev ∷ [])
