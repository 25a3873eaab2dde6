-- ===== src/Pager/Polls.antt =====
-- The list of polls (frontend/src/pages/PollListPage.tsx).
use mootvote.Base.{
  ℕ, suc, ◌-◌, ◌≡◌, refl, sym, ap, ◌∙◌, arith, List, [], ◌∷◌, Option, none, some, length,
}
use mootvote.Pager.{Page, Click, next, prev, query, shown, next_of, clicks}
use mootvote.Pager.Cursor.{answers, cursor, turn, turns, query-cursor}

-- `before` of the shown page, and those of the pages before it.
pub record PollList : Type 0 where
  pub page : Option Page
  pub before : Option ℕ
  pub stack : List (Option ℕ)

module _ (server : Option ℕ → Option Page) where
  -- The effect that runs `load` where `before` has changed.
  unfoldable pub load : PollList → PollList
  load s = record s { page = shown (server (query s.before)) s.page }

  -- The first render, and `reset`.
  unfoldable pub reset : Option Page → PollList
  reset old = load (record { page = old; before = none; stack = [] })

  unfoldable pub click : Click → PollList → PollList
  click next s = elim (next_of s.page) [
    | none ↦ s
    | some c ↦ load (record { page = s.page; before = some c; stack = s.before ∷ s.stack })
  ]
  click prev s = elim s.stack [
    | [] ↦ s
    | a ∷ rest ↦ load (record { page = s.page; before = a; stack = rest })
  ]

module _ (view : Option ℕ → Page) where
  abbrev Trail : List (Option ℕ) → Type 0
  Trail [] = Unit
  Trail (c ∷ s) = (c ≡ cursor view (length s)) × Trail s

  -- The list stands at page `k`.
  pub record IsAt (k : ℕ) (s : PollList) : Type 0 where
    pub page : s.page ≡ some (view (cursor view k))
    pub before : s.before ≡ cursor view k
    pub trail : Trail s.stack
    pub depth : length s.stack ≡ k

  loaded :
      (old : Option Page) (b : Option ℕ) (stack : List (Option ℕ))
      → b ≡ cursor view (length stack)
      → Trail stack
      → IsAt (length stack) (load (answers view) (record { page = old; before = b; stack = stack }))
  unfolding load
  loaded old b stack e t = record {
    page =
        ap (λ c. some (view (query c))) e
        ∙ ap (λ c. some (view c)) (query-cursor view (length stack));
    before = e;
    trail = t;
    depth = refl;
  }

  next_page :
      (k : ℕ) (s : PollList) (o : Option ℕ)
      → IsAt k s
      → cursor view (suc k) ≡ o
      → IsAt
          (elim o [ none ↦ k | some c ↦ suc k ])
          (elim o [
            | none ↦ s
            | some c ↦
                load
                  (answers view)
                  (record { page = s.page; before = some c; stack = s.before ∷ s.stack })
          ])
  next_page k s none h e = h
  next_page k s (some c) h e = rw (← h.depth) (
      loaded s.page (some c) (s.before ∷ s.stack)
        (sym e ∙ ap (λ j. cursor view (suc j)) (sym h.depth))
        (h.before ∙ ap (cursor view) (sym h.depth), h.trail))

  prev_page :
      (k : ℕ) (page : Option Page) (before : Option ℕ) (stack : List (Option ℕ))
      → IsAt k (record { page = page; before = before; stack = stack })
      → IsAt
          (k - 1)
          (click (answers view) prev (record { page = page; before = before; stack = stack }))
  unfolding click
  prev_page k page before [] h = rw (← h.depth) (rw (← h.depth) at h)
  prev_page k page before (a ∷ rest) h =
      let q : length rest ≡ k - 1 = omega (arith, h.depth) in
      rw (← q) (loaded page a rest h.trail.0 h.trail.1)

  pub click-IsAt :
      (c : Click) (k : ℕ) (s : PollList)
      → IsAt k s
      → IsAt (turn view c k) (click (answers view) c s)
  unfolding click
  click-IsAt next k s h = rw (h.page, click) (next_page k s (cursor view (suc k)) h refl)
  click-IsAt prev k s h = prev_page k s.page s.before s.stack h

  all_clicks :
      (cs : List Click) (k : ℕ) (s : PollList)
      → IsAt k s
      → IsAt (turns view cs k) (clicks (click (answers view)) cs s)
  unfolding clicks
  all_clicks [] k s h = h
  all_clicks (c ∷ cs) k s h =
      all_clicks cs (turn view c k) (click (answers view) c s) (click-IsAt c k s h)

  -- While the server answers the same, any clicks on a fresh list of polls, on disabled buttons too,
  -- lead to the page that their number of turns says, counted on the server's pages; so a click
  -- back always shows the page before, and `before` is the cursor of the shown page.
  pub clicks-IsAt :
      (cs : List Click) (old : Option Page)
      → IsAt (turns view cs 0) (clicks (click (answers view)) cs (reset (answers view) old))
  unfolding reset
  clicks-IsAt cs old = all_clicks cs 0 (reset (answers view) old) (loaded old none [] refl tt)
