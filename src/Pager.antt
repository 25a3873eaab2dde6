-- ===== src/Pager.antt =====
-- Cursor pagination: frontend/src/pages/PollListPage.tsx, frontend/src/pages/CensusesListPage.tsx and
-- frontend/src/components/ChooseCensusModal.tsx. A page is asked for with the cursor of the page
-- before it. `server` answers a request for the active account, `none` where it fails; a stack lists
-- the last pushed cursor first, and a click on a disabled button does nothing.
pub mod Cursor
pub mod Polls
pub mod Modal
pub mod Censuses
mod Tests
use mootvote.Base.{
  ℕ, zero, suc, List, [], ◌∷◌, Option, none, some, Bool, true, false, if◌then◌else◌,
}

pub record Page : Type 0 where
  pub items : List ℕ
  pub next_before : Option ℕ

pub data Click : Type 0 where
  next prev : Click

-- A cursor in the query, which null and 0 leave out.
abbrev pub query : Option ℕ → Option ℕ
query (some (suc c)) = some (suc c)
query _ = none

-- What a request of the census service asks: the censuses of the creator only, how many, and from
-- which cursor on.
pub record CensusQuery : Type 0 where
  pub creator_only : Bool
  pub limit : Option ℕ
  pub before : Option ℕ

-- `setPage` where the request succeeds, `setErr` where it fails.
abbrev pub shown : Option Page → Option Page → Option Page
shown (some p) old = some p
shown none old = old

abbrev pub next_of : Option Page → Option ℕ
next_of none = none
next_of (some p) = query p.next_before

abbrev pub head_of : List ℕ → Option ℕ
head_of [] = none
head_of (c ∷ s) = some c

-- A sequence of clicks.
unfoldable pub clicks : {S : Type 0} → (Click → S → S) → List Click → S → S
clicks step [] s = s
clicks step (c ∷ cs) s = clicks step cs (step c s)
