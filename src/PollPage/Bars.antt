-- ===== src/PollPage/Bars.antt =====
-- The results of a poll: `ResultsBars` of frontend/src/pages/PollDetailPage.tsx. `sort` is stable.
use mathlib.Core.List.{Perm}
use mathlib.Core.List.Perm
use mootvote.Base.{
  ℕ, zero, suc, ◌+◌, ◌<◌, ◌≤◌, ◌≡◌, ◌⊎◌, refl, ap, ◌∙◌, arith, List, [], ◌∷◌, none, some, Bool,
  true, false, ◌==◌, ltb, if◌then◌else◌, max, inl, inr, map, get_elem?, dec_lt, Bool-cases, All,
}
use mootvote.Base.Int.{ℤ, pos, negsuc, sub_ℕ}
use mootvote.Blob.{Text}
use mootvote.PollPage.Double.{
  to_double, times, math_round, math_round-le, times-IsUpToDouble, to_double-IsUpToDouble,
}

pub record Bar : Type 0 where
  pub label : Text
  pub count : ℕ
  pub idx : ℕ

-- `tally[i] ?? 0`
abbrev pub count_at : List ℕ → ℕ → ℕ
count_at tally i = elim (get_elem? tally i) [ none ↦ 0 | some c ↦ c ]

-- `choices.map((label, i) => …)`, from index `i` on.
unfoldable pub bars_from : ℕ → List Text → List ℕ → List Bar
bars_from i [] tally = []
bars_from i (label ∷ labels) tally =
    record { label = label; count = count_at tally i; idx = i } ∷ bars_from (suc i) labels tally

-- `(b.count - a.count) || (a.idx - b.idx)`
unfoldable pub compare_bars : Bar → Bar → ℤ
compare_bars a b = if b.count == a.count then sub_ℕ a.idx b.idx else sub_ℕ b.count a.count

unfoldable pub is_after : ℤ → Bool
is_after (pos n) = ltb 0 n
is_after (negsuc n) = false

-- `sort` with that comparison.
unfoldable pub insert_bar : Bar → List Bar → List Bar
insert_bar a [] = a ∷ []
insert_bar a (b ∷ bs) =
    let rest = insert_bar a bs in if is_after (compare_bars a b) then b ∷ rest else a ∷ b ∷ bs

unfoldable pub sort_bars : List Bar → List Bar
sort_bars [] = []
sort_bars (a ∷ bs) = insert_bar a (sort_bars bs)

unfoldable pub total_of : List Bar → ℕ
total_of [] = 0
total_of (b ∷ bs) = b.count + total_of bs

-- `Math.max(1, …)`
unfoldable pub max_of : List Bar → ℕ
max_of [] = 1
max_of (b ∷ bs) = max b.count (max_of bs)

-- `Math.round((a / b) * 100)`, with both operations in doubles.
unfoldable pub percent : ℕ → ℕ → ℕ
percent a b = if b == 0 then 0 else math_round (times (to_double a b) 100)

-- A line of the page.
pub record Line : Type 0 where
  pub bar : Bar
  pub pct : ℕ
  pub rel : ℕ

unfoldable pub lines_of : ℕ → ℕ → List Bar → List Line
lines_of total greatest [] = []
lines_of total greatest (b ∷ bs) =
    record {
      bar = b;
      pct = if total == 0 then 0 else percent b.count total;
      rel = percent b.count greatest;
    }
    ∷ lines_of total greatest bs

unfoldable pub results_bars : List Text → List ℕ → List Line
results_bars choices tally =
    let bars = sort_bars (bars_from 0 choices tally) in lines_of (total_of bars) (max_of bars) bars

-- More votes first, and equal numbers in the order of the choices.
abbrev pub Ahead : Bar → Bar → Type 0
Ahead a b = (b.count < a.count) ⊎ ((a.count ≡ b.count) × (a.idx ≤ b.idx))

abbrev pub IsRanked : List Bar → Type 0
IsRanked [] = Unit
IsRanked (a ∷ []) = Unit
IsRanked (a ∷ b ∷ bs) = Ahead a b × IsRanked (b ∷ bs)

compare_bars-Ahead : (a b : Bar) → is_after (compare_bars a b) ≡ false → Ahead a b
unfolding is_after compare_bars
compare_bars-Ahead a b h = elim (dec_lt b.count a.count) [
  | yes p ↦ inl p
  | no p ↦ inr (ground arith)
]

compare_bars-behind : (a b : Bar) → is_after (compare_bars a b) ≡ true → Ahead b a
unfolding is_after compare_bars
compare_bars-behind a b h = elim (dec_lt a.count b.count) [
  | yes p ↦ inl p
  | no p ↦ inr (ground arith)
]

percent-le : (a b : ℕ) → a ≤ b → percent a b ≤ 100
unfolding percent
percent-le a zero h = ground arith
percent-le a (suc b) h =
    let rounded = math_round-le (times (to_double a (suc b)) 100) 100 (
      times-IsUpToDouble (to_double a (suc b)) 100
        (to_double-IsUpToDouble a (suc b) 1 (omega arith) (omega arith))) in
    ground arith

-- Inserting a line into ranked lines keeps them ranked, behind a line that is ahead of it too.
insert_bar-Led :
    (c a : Bar) (bs : List Bar) → Ahead c a → IsRanked (c ∷ bs) → IsRanked (c ∷ insert_bar a bs)
unfolding insert_bar
insert_bar-Led c a [] ca h = (ca, tt)
insert_bar-Led c a (b ∷ bs) ca h = elim (Bool-cases (is_after (compare_bars a b))) [
  | inl e ↦ rw e (h.0, insert_bar-Led b a bs (compare_bars-behind a b e) h.1)
  | inr e ↦ rw e (ca, (compare_bars-Ahead a b e, h.1))
]

insert_bar-IsRanked : (a : Bar) (bs : List Bar) → IsRanked bs → IsRanked (insert_bar a bs)
unfolding insert_bar
insert_bar-IsRanked a [] h = tt
insert_bar-IsRanked a (b ∷ bs) h = elim (Bool-cases (is_after (compare_bars a b))) [
  | inl e ↦ rw e (insert_bar-Led b a bs (compare_bars-behind a b e) h)
  | inr e ↦ rw e (compare_bars-Ahead a b e, h)
]

sort_bars-IsRanked : (bs : List Bar) → IsRanked (sort_bars bs)
unfolding sort_bars
sort_bars-IsRanked [] = tt
sort_bars-IsRanked (b ∷ bs) = insert_bar-IsRanked b (sort_bars bs) (sort_bars-IsRanked bs)

insert_bar-perm : (a : Bar) (bs : List Bar) → Perm (insert_bar a bs) (a ∷ bs)
unfolding insert_bar
insert_bar-perm a [] = Perm.refl (a ∷ [])
insert_bar-perm a (b ∷ bs) = elim (Bool-cases (is_after (compare_bars a b))) [
  | inl e ↦ rw e (Perm.trans (Perm.cons b (insert_bar-perm a bs)) (Perm.swap a b bs))
  | inr e ↦ rw e (Perm.refl (a ∷ b ∷ bs))
]

sort_bars-perm : (bs : List Bar) → Perm (sort_bars bs) bs
unfolding sort_bars
sort_bars-perm [] = Perm.refl []
sort_bars-perm (b ∷ bs) =
    Perm.trans (insert_bar-perm b (sort_bars bs)) (Perm.cons b (sort_bars-perm bs))

total_of-insert_bar : (a : Bar) (bs : List Bar) → total_of (insert_bar a bs) ≡ a.count + total_of bs
unfolding insert_bar total_of
total_of-insert_bar a [] = refl
total_of-insert_bar a (b ∷ bs) = elim (Bool-cases (is_after (compare_bars a b))) [
  | inl e ↦ rw e (omega (arith, total_of-insert_bar a bs))
  | inr e ↦ rw e refl
]

total_of-sort_bars : (bs : List Bar) → total_of (sort_bars bs) ≡ total_of bs
unfolding sort_bars total_of
total_of-sort_bars [] = refl
total_of-sort_bars (b ∷ bs) =
    total_of-insert_bar b (sort_bars bs) ∙ ap (λ t. b.count + t) (total_of-sort_bars bs)

All-weaken :
    (a b : ℕ) (bs : List Bar) → a ≤ b → All (λ x. x.count ≤ a) bs → All (λ x. x.count ≤ b) bs
All-weaken a b [] le h = tt
All-weaken a b (x ∷ bs) le h = (omega (arith, h.0), All-weaken a b bs le h.1)

count-le-total_of : (bs : List Bar) → All (λ x. x.count ≤ total_of bs) bs
unfolding total_of
count-le-total_of [] = tt
count-le-total_of (b ∷ bs) = (
  omega arith,
  All-weaken (total_of bs) (b.count + total_of bs) bs (omega arith) (count-le-total_of bs),
)

count-le-max_of : (bs : List Bar) → All (λ x. x.count ≤ max_of bs) bs
unfolding max_of
count-le-max_of [] = tt
count-le-max_of (b ∷ bs) = (
  omega arith,
  All-weaken (max_of bs) (max b.count (max_of bs)) bs (omega arith) (count-le-max_of bs),
)

lines_of-bars :
    (total greatest : ℕ) (bs : List Bar) → map (λ l. l.bar) (lines_of total greatest bs) ≡ bs
unfolding lines_of
lines_of-bars total greatest [] = refl
lines_of-bars total greatest (b ∷ bs) = ap (λ t. b ∷ t) (lines_of-bars total greatest bs)

-- Widths and shares of a line.
abbrev pub IsLine : ℕ → Line → Type 0
IsLine total l =
    (l.rel ≤ 100) × (l.pct ≤ 100) × (l.pct ≡ (if total == 0 then 0 else percent l.bar.count total))

lines_of-IsLine :
    (total greatest : ℕ) (bs : List Bar)
    → All (λ x. x.count ≤ total) bs
    → All (λ x. x.count ≤ greatest) bs
    → All (IsLine total) (lines_of total greatest bs)
unfolding lines_of
lines_of-IsLine total greatest [] h k = tt
lines_of-IsLine total greatest (b ∷ bs) h k = (
  (percent-le b.count greatest k.0, ground (arith, percent-le b.count total h.0), refl),
  lines_of-IsLine total greatest bs h.1 k.1,
)

-- The results page shows every choice once, with the votes that the tally has for it and none if it
-- has no entry: more votes come first, and equal numbers in the order of the choices. Each share is
-- the percentage of all votes that doubles give, rounded, 0 without votes, and no share and no width
-- is over 100.
pub results_bars-IsRanked :
    (choices : List Text) (tally : List ℕ)
    → IsRanked (map (λ l. l.bar) (results_bars choices tally))
      × Perm (map (λ l. l.bar) (results_bars choices tally)) (bars_from 0 choices tally)
      × All (IsLine (total_of (bars_from 0 choices tally))) (results_bars choices tally)
unfolding results_bars
results_bars-IsRanked choices tally =
    let all = bars_from 0 choices tally in
    let bars = sort_bars all in
    let shown = lines_of-bars (total_of bars) (max_of bars) bars in
    (
      rw shown (sort_bars-IsRanked all),
      rw shown (sort_bars-perm all),
      rw (← total_of-sort_bars all) (
          lines_of-IsLine (total_of bars) (max_of bars) bars (count-le-total_of bars)
            (count-le-max_of bars)),
    )
