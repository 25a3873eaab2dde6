-- ===== src/Pager/Cursor.antt =====
-- The pages that a server gives one after the other.
use mootvote.Base.{ℕ, zero, suc, ◌-◌, ◌≡◌, refl, List, [], ◌∷◌, Option, none, some}
use mootvote.Pager.{Page, Click, next, prev, query}

pub query_twice : (o : Option ℕ) → query (query o) ≡ query o
query_twice none = refl
query_twice (some zero) = refl
query_twice (some (suc c)) = refl

-- `view` is what the server answers.
module _ (view : Option ℕ → Page) where
  abbrev pub answers : Option ℕ → Option Page
  answers c = some (view c)

  -- The cursor of page `k`, counted from 0: what the page before it gives.
  abbrev pub cursor : ℕ → Option ℕ
  cursor zero = none
  cursor (suc k) = query (view (cursor k)).next_before

  -- The page that a click leads to: there is none after the last one or before the first one.
  abbrev pub turn : Click → ℕ → ℕ
  turn next k = elim (cursor (suc k)) [ none ↦ k | some c ↦ suc k ]
  turn prev k = k - 1

  abbrev pub turns : List Click → ℕ → ℕ
  turns [] k = k
  turns (c ∷ cs) k = turns cs (turn c k)

  pub query-cursor : (k : ℕ) → query (cursor k) ≡ cursor k
  query-cursor zero = refl
  query-cursor (suc k) = query_twice (view (cursor k)).next_before
