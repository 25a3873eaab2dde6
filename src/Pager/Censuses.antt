-- ===== src/Pager/Censuses.antt =====
-- The list of the user's censuses (frontend/src/pages/CensusesListPage.tsx).
use mootvote.Base.{ℕ, false, List, [], ◌∷◌, Option, none, some}
use mootvote.Pager.{CensusQuery, Page, Click, next, prev, query, next_of}

-- `current_before` is the cursor of the page after the shown one; the stack holds what was pushed, null
-- too.
pub record CensusList : Type 0 where
  pub page : Option Page
  pub current_before : Option ℕ
  pub cursor_stack : List (Option ℕ)

-- `s.length ? s[s.length - 1] : null`
abbrev pub top_cursor : List (Option ℕ) → Option ℕ
top_cursor [] = none
top_cursor (c ∷ s) = c

-- `CENSUS_PAGE_LIMIT`
abbrev pub census_page_limit : ℕ
census_page_limit = 20

-- `?limit=20`, with the cursor: the censuses that the account has created or joined.
abbrev pub query_of : Option ℕ → CensusQuery
query_of before = record {
  creator_only = false;
  limit = some census_page_limit;
  before = query before;
}

module _ (server : CensusQuery → Option Page) where
  unfoldable pub load : Option ℕ → CensusList → CensusList
  load before s = elim (server (query_of before)) [
    | none ↦ s
    | some out ↦ record s { page = some out; current_before = out.next_before }
  ]

  -- The effect of an open keyring.
  unfoldable pub start : CensusList
  start = load none (record { page = none; current_before = none; cursor_stack = [] })

  -- `onNext` and `onPrev`, by `canNext` and `canPrev`.
  unfoldable pub click : Click → CensusList → CensusList
  click next s = elim (next_of s.page) [
    | none ↦ s
    | some c ↦ load s.current_before (record s { cursor_stack = s.current_before ∷ s.cursor_stack })
  ]
  click prev s = elim s.cursor_stack [
    | [] ↦ s
    | c ∷ rest ↦ load (top_cursor rest) (record s { cursor_stack = rest })
  ]
