-- ===== src/PollList/Pages.antt =====
-- The pages that the indexer's listing gives one after the other (indexer/src/server.rs, `list_polls`).
use mootvote.Base.{
  ℕ, zero, suc, ◌+◌, ◌*◌, ◌<◌, ◌≤◌, ◌≡◌, ◌↔◌, refl, sym, ap, ◌∙◌, arith, List, [], ◌∷◌, Option,
  none, some, Bool, true, false, ◌&&◌, ltb, lt→ltb, length, get_elem?, take, drop, map, length-take,
  length-drop, inl, inr, Bool-cases, dec_lt, ◌⊎◌,
}
use mootvote.Pager.{Page, Click, next, prev, query}
use mootvote.Pager.Cursor.{cursor, turn}
use mootvote.PollList.Service.{PollRow, i64_max, cursor_of, filter_rows, poll_page}

-- The ids fall, below `b`, and are positive.
abbrev pub Falling : ℕ → List PollRow → Type 0
Falling b [] = Unit
Falling b (r ∷ rows) = (r.id < b) × (0 < r.id) × Falling r.id rows

abbrev pub always : PollRow → Bool
always r = true

Falling-le : (a b : ℕ) (rows : List PollRow) → a ≤ b → Falling a rows → Falling b rows
Falling-le a b [] le h = tt
Falling-le a b (r ∷ rows) le h = (omega (arith, h.0), h.1, h.2)

filter_rows-Falling :
    (p : PollRow → Bool) (c b : ℕ) (rows : List PollRow)
    → Falling b rows
    → Falling b (filter_rows p c rows)
unfolding filter_rows
filter_rows-Falling p c b [] h = tt
filter_rows-Falling p c b (r ∷ rows) h = elim (Bool-cases (p r && ltb r.id c)) [
  | inl e ↦ rw e (h.0, h.1, filter_rows-Falling p c r.id rows h.2)
  | inr e ↦ rw e (
      Falling-le r.id b (filter_rows p c rows) (omega (arith, h.0))
        (filter_rows-Falling p c r.id rows h.2))
]

filter_rows_twice :
    (p : PollRow → Bool) (b c : ℕ) (rows : List PollRow)
    → b ≤ c
    → filter_rows p b rows ≡ filter_rows always b (filter_rows p c rows)
unfolding filter_rows
filter_rows_twice p b c [] le = refl
filter_rows_twice p b c (r ∷ rows) le =
    let ih = filter_rows_twice p b c rows le in
    elim (Bool-cases (p r)) [
      | inl ep ↦ elim (Bool-cases (ltb r.id b)) [
        | inl eb ↦
            let ec : ltb r.id c ≡ true = ground arith in
            rw (ep, eb, ec) (rw (filter_rows, eb) (ap (λ t. r ∷ t) ih))
        | inr eb ↦ elim (Bool-cases (ltb r.id c)) [
          | inl ec ↦ rw (ep, eb, ec) (rw (filter_rows, eb) ih)
          | inr ec ↦ rw (ep, eb, ec) ih
        ]
      ]
      | inr ep ↦ rw ep ih
    ]

filter_rows_all : (b : ℕ) (rows : List PollRow) → Falling b rows → filter_rows always b rows ≡ rows
unfolding filter_rows
filter_rows_all b [] h = refl
filter_rows_all b (r ∷ rows) h =
    rw (lt→ltb r.id b h.0)
      (ap (λ t. r ∷ t) (filter_rows_all b rows (Falling-le r.id b rows (omega (arith, h.0)) h.2)))

get_elem?-Falling :
    (j b : ℕ) (rows : List PollRow) (r : PollRow)
    → Falling b rows
    → get_elem? rows j ≡ some r
    → (r.id < b) × (0 < r.id)
get_elem?-Falling j b [] r h e = cc
get_elem?-Falling zero b (x ∷ rows) r h e =
    let same : x.id ≡ r.id = ap (λ (o : Option PollRow). elim o [ none ↦ 0 | some y ↦ y.id ]) e in
    (omega (arith, same, h.0), omega (arith, same, h.1))
get_elem?-Falling (suc j) b (x ∷ rows) r h e =
    let rest = get_elem?-Falling j x.id rows r h.2 e in (omega (arith, rest.0, h.0), rest.1)

-- Below the id of a row come the rows behind it.
filter_rows-drop :
    (j b : ℕ) (rows : List PollRow) (r : PollRow)
    → Falling b rows
    → get_elem? rows j ≡ some r
    → filter_rows always r.id rows ≡ drop (suc j) rows
unfolding filter_rows
filter_rows-drop j b [] r h e = cc
filter_rows-drop zero b (x ∷ rows) r h e =
    let same : x.id ≡ r.id = ap (λ (o : Option PollRow). elim o [ none ↦ 0 | some y ↦ y.id ]) e in
    let out : ltb x.id r.id ≡ false = ground arith in
    rw out (filter_rows_all r.id rows (rw (← same) h.2))
filter_rows-drop (suc j) b (x ∷ rows) r h e =
    let below = get_elem?-Falling j x.id rows r h.2 e in
    let out : ltb x.id r.id ≡ false = ground arith in rw out (filter_rows-drop j x.id rows r h.2 e)

get_elem?_total :
    (rows : List PollRow) (i : ℕ) → i < length rows → (r : PollRow) × (get_elem? rows i ≡ some r)
get_elem?_total [] i h = absurd (omega arith)
get_elem?_total (r ∷ rows) zero h = (r, refl)
get_elem?_total (r ∷ rows) (suc i) h = get_elem?_total rows i (omega arith)

get_elem?-take :
    (n i : ℕ) (rows : List PollRow) → i < n → get_elem? (take n rows) i ≡ get_elem? rows i
get_elem?-take zero i rows h = absurd (omega arith)
get_elem?-take (suc n) i [] h = refl
get_elem?-take (suc n) zero (r ∷ rows) h = refl
get_elem?-take (suc n) (suc i) (r ∷ rows) h = get_elem?-take n i rows (omega arith)

get_elem?_at : (i j : ℕ) (rows : List PollRow) → i ≡ j → get_elem? rows i ≡ get_elem? rows j
get_elem?_at i j rows e = ap (λ (t : ℕ). get_elem? rows t) e

get_elem?-drop :
    (n i : ℕ) (rows : List PollRow) → get_elem? (drop n rows) i ≡ get_elem? rows (n + i)
get_elem?-drop zero i rows = get_elem?_at i (0 + i) rows (omega arith)
get_elem?-drop (suc n) i [] = refl
get_elem?-drop (suc n) i (r ∷ rows) =
    get_elem?-drop n i rows ∙ get_elem?_at (suc (n + i)) (suc n + i) (r ∷ rows) (omega arith)

take_twice : (n : ℕ) (rows : List PollRow) → take n (take (suc n) rows) ≡ take n rows
take_twice zero rows = refl
take_twice (suc n) [] = refl
take_twice (suc n) (r ∷ rows) = ap (λ t. r ∷ t) (take_twice n rows)

-- The ids of polls on page `k`, of twenty.
abbrev pub nth_items : ℕ → List PollRow → List ℕ
nth_items k found = map (λ r. r.poll_id) (take 20 (drop (20 * k) found))

poll_page-items :
    (found : List PollRow) → (poll_page 20 found).items ≡ map (λ r. r.poll_id) (take 20 found)
unfolding poll_page
poll_page-items found = ap (map (λ r. r.poll_id)) (take_twice 20 found)

poll_page-next :
    (found : List PollRow)
    → 20 < length found
    → (r : PollRow) × (get_elem? found 19 ≡ some r) × ((poll_page 20 found).next_before ≡ some r.id)
unfolding poll_page
poll_page-next found h =
    let (r, e) = get_elem?_total found 19 (omega (arith, h)) in
    let more : ltb 20 (length (take 21 found)) ≡ true =
      lt→ltb 20 (length (take 21 found)) (omega (arith, length-take 21 found, h)) in
    (r, e, rw more (rw (get_elem?-take 21 19 found (omega arith)) (rw e refl)))

poll_page-last :
    (found : List PollRow) → length found ≤ 20 → (poll_page 20 found).next_before ≡ none
unfolding poll_page
poll_page-last found h =
    let no_more : ltb 20 (length (take 21 found)) ≡ false = ground (arith, length-take 21 found) in
    rw no_more refl

query-some : (n : ℕ) → 0 < n → query (some n) ≡ some n
query-some zero h = absurd (omega arith)
query-some (suc n) h = refl

module _ (p : PollRow → Bool) (rows : List PollRow) (falls : Falling i64_max rows) where
  abbrev pub view : Option ℕ → Page
  view before = poll_page 20 (filter_rows p (cursor_of (query before)) rows)

  abbrev pub found : List PollRow
  found = filter_rows p i64_max rows

  found_falls : Falling i64_max found
  found_falls = filter_rows-Falling p i64_max i64_max rows falls

  -- What is left from the cursor of page `k` on.
  abbrev Left : ℕ → Type 0
  Left k = filter_rows p (cursor_of (query (cursor view k))) rows ≡ drop (20 * k) found

  next_page :
      (k : ℕ)
      → Left k
      → 20 * suc k < length found
      → (r : PollRow) × (cursor view (suc k) ≡ some r.id) × Left (suc k)
  next_page k left h =
      let (r, e, n) =
        poll_page-next (drop (20 * k) found) (omega (arith, length-drop (20 * k) found, h)) in
      let at : get_elem? found (20 * k + 19) ≡ some r =
        sym (get_elem?-drop (20 * k) 19 found) ∙ e in
      let ids = get_elem?-Falling (20 * k + 19) i64_max found r found_falls at in
      let next : cursor view (suc k) ≡ some r.id =
        ap (λ l. query (poll_page 20 l).next_before) left ∙ ap query n ∙ query-some r.id ids.1 in
      let behind : suc (20 * k + 19) ≡ 20 * suc k = omega arith in
      (
        r,
        next,
        ap (λ o. filter_rows p (cursor_of (query o)) rows) next
            ∙ ap (λ o. filter_rows p (cursor_of o) rows) (query-some r.id ids.1)
            ∙ (filter_rows_twice p r.id i64_max rows (omega (arith, ids.0))
                ∙ filter_rows-drop (20 * k + 19) i64_max found r found_falls at
                ∙ ap (λ (j : ℕ). drop j found) behind),
      )

  -- There is a page `k`.
  abbrev pub IsOn : ℕ → Type 0
  IsOn k = (k ≡ 0) ⊎ (20 * k < length found)

  Left-at : (k : ℕ) → IsOn k → Left k
  Left-at zero h = refl
  Left-at (suc k) (inl e) = absurd (omega arith)
  Left-at (suc k) (inr h) = (next_page k (Left-at k (inr (omega (arith, h)))) h).2

  -- Page `k` shows the polls from the 20 k-th on, twenty or what is left.
  pub view-items : (k : ℕ) → IsOn k → (view (cursor view k)).items ≡ nth_items k found
  view-items k h =
      ap (λ l. (poll_page 20 l).items) (Left-at k h) ∙ poll_page-items (drop (20 * k) found)

  at_end : (k : ℕ) → IsOn k → length found ≤ 20 * suc k → cursor view (suc k) ≡ none
  at_end k h le =
      ap (λ l. query (poll_page 20 l).next_before) (Left-at k h)
      ∙ ap query
          (poll_page-last (drop (20 * k) found) (omega (arith, length-drop (20 * k) found, le)))

  pub turn-IsOn : (c : Click) (k : ℕ) → IsOn k → IsOn (turn view c k)
  turn-IsOn prev k (inl e) = inl (omega (arith, e))
  turn-IsOn prev zero (inr h) = inl refl
  turn-IsOn prev (suc k) (inr h) = inr (omega (arith, h))
  turn-IsOn next k h = elim (dec_lt (20 * suc k) (length found)) [
    | yes more ↦ let (r, e, l) = next_page k (Left-at k h) more in rw (e, turn) (inr more)
    | no end ↦ let e = at_end k h (omega arith) in rw (e, turn) h
  ]

  -- Page `k` names a next one exactly if polls are left.
  pub more_pages : (k : ℕ) → IsOn k → cursor view (suc k) ≡ none ↔ length found ≤ 20 * suc k
  more_pages k h = (
    (λ e. elim (dec_lt (20 * suc k) (length found)) [
      | yes more ↦ let (r, q, l) = next_page k (Left-at k h) more in cc
      | no end ↦ omega arith
    ]),
    at_end k h,
  )
