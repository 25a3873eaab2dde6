-- ===== src/Pager/Modal.antt =====
-- The list of censuses to choose from (frontend/src/components/ChooseCensusModal.tsx).
use mootvote.Base.{
  ℕ, suc, ◌-◌, ◌≡◌, refl, sym, ap, ◌∙◌, arith, List, [], ◌∷◌, Option, none, some, true, length,
}
use mootvote.Pager.{CensusQuery, Page, Click, next, prev, query, shown, next_of, head_of, clicks}
use mootvote.Pager.Cursor.{answers, cursor, turn, turns, query-cursor}

-- `before` of the shown page also stands on the stack.
pub record CensusModal : Type 0 where
  pub list : Option Page
  pub before : Option ℕ
  pub stack : List ℕ

-- `?creator_only=true`, with the cursor.
abbrev pub query_of : Option ℕ → CensusQuery
query_of before = record { creator_only = true; limit = none; before = query before }

module _ (server : CensusQuery → Option Page) where
  -- The effect that runs `load` where `before` has changed.
  unfoldable pub load : CensusModal → CensusModal
  load s = record s { list = shown (server (query_of s.before)) s.list }

  unfoldable pub start : CensusModal
  start = load (record { list = none; before = none; stack = [] })

  -- `onNext` and `onPrev`.
  unfoldable pub click : Click → CensusModal → CensusModal
  click next s = elim (next_of s.list) [
    | none ↦ s
    | some c ↦ load (record { list = s.list; before = some c; stack = c ∷ s.stack })
  ]
  click prev s = elim s.stack [
    | [] ↦ s
    | c ∷ rest ↦ load (record { list = s.list; before = head_of rest; stack = rest })
  ]

module _ (view : Option ℕ → Page) where
  -- The service's answer by the cursor, to what the modal asks.
  abbrev pub choices_of : CensusQuery → Option Page
  choices_of q = answers view q.before

  abbrev Trail : List ℕ → Type 0
  Trail [] = Unit
  Trail (c ∷ s) = (some c ≡ cursor view (suc (length s))) × Trail s

  top_of : (s : List ℕ) → Trail s → head_of s ≡ cursor view (length s)
  top_of [] t = refl
  top_of (c ∷ s) t = t.0

  -- The modal stands at page `k`.
  pub record IsAt (k : ℕ) (s : CensusModal) : Type 0 where
    pub list : s.list ≡ some (view (cursor view k))
    pub before : s.before ≡ cursor view k
    pub trail : Trail s.stack
    pub depth : length s.stack ≡ k

  loaded :
      (old : Option Page) (b : Option ℕ) (stack : List ℕ)
      → b ≡ cursor view (length stack)
      → Trail stack
      → IsAt (length stack) (load choices_of (record { list = old; before = b; stack = stack }))
  unfolding load
  loaded old b stack e t = record {
    list =
        ap (λ c. some (view (query c))) e
        ∙ ap (λ c. some (view c)) (query-cursor view (length stack));
    before = e;
    trail = t;
    depth = refl;
  }

  next_page :
      (k : ℕ) (s : CensusModal) (o : Option ℕ)
      → IsAt k s
      → cursor view (suc k) ≡ o
      → IsAt
          (elim o [ none ↦ k | some c ↦ suc k ])
          (elim o [
            | none ↦ s
            | some c ↦
                load choices_of (record { list = s.list; before = some c; stack = c ∷ s.stack })
          ])
  next_page k s none h e = h
  next_page k s (some c) h e =
      let here : some c ≡ cursor view (suc (length s.stack)) =
        sym e ∙ ap (λ j. cursor view (suc j)) (sym h.depth) in
      rw (← h.depth) (loaded s.list (some c) (c ∷ s.stack) here (here, h.trail))

  prev_page :
      (k : ℕ) (list : Option Page) (before : Option ℕ) (stack : List ℕ)
      → IsAt k (record { list = list; before = before; stack = stack })
      → IsAt
          (k - 1)
          (click choices_of prev (record { list = list; before = before; stack = stack }))
  unfolding click
  prev_page k list before [] h = rw (← h.depth) (rw (← h.depth) at h)
  prev_page k list before (a ∷ rest) h =
      let q : length rest ≡ k - 1 = omega (arith, h.depth) in
      rw (← q) (loaded list (head_of rest) rest (top_of rest h.trail.1) h.trail.1)

  click-IsAt :
      (c : Click) (k : ℕ) (s : CensusModal) → IsAt k s → IsAt (turn view c k) (click choices_of c s)
  unfolding click
  click-IsAt next k s h = rw (h.list, click) (next_page k s (cursor view (suc k)) h refl)
  click-IsAt prev k s h = prev_page k s.list s.before s.stack h

  all_clicks :
      (cs : List Click) (k : ℕ) (s : CensusModal)
      → IsAt k s
      → IsAt (turns view cs k) (clicks (click choices_of) cs s)
  unfolding clicks
  all_clicks [] k s h = h
  all_clicks (c ∷ cs) k s h =
      all_clicks cs (turn view c k) (click choices_of c s) (click-IsAt c k s h)

  -- While the service answers the same and without a failure, any clicks in a fresh modal lead to the
  -- page that counting them leads to, one on or back, but not before the first page or behind the last
  -- one: the modal shows that page and its cursor, though it keeps the shown page's cursor on its stack.
  pub modal_clicks-IsAt :
      (cs : List Click) → IsAt (turns view cs 0) (clicks (click choices_of) cs (start choices_of))
  unfolding start
  modal_clicks-IsAt cs = all_clicks cs 0 (start choices_of) (loaded none none [] refl tt)
