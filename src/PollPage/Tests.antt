-- ===== src/PollPage/Tests.antt =====
-- Runs of frontend/src/pages/PollDetailPage.tsx.
use mathlib.Core.List.{Perm}
use mootvote.Base.{
  ◌*◌, ◌≤◌, ◌<◌, ◌≡◌, ◌⊎◌, ◌↔◌, refl, arith, [], ◌∷◌, some, true, false, map, All, get_elem?,
}
use mootvote.Bytes.{to_hex32}
use mootvote.Keyring.{BabyJubKeypair}
use mootvote.PollPage.TallierKey.{is_tallier_lem}
use mootvote.PollPage.Clock.{
  poll_status, clock_at, poll_clock, starts_in, ends_in, ended_ago, Alike, poll_status-clock_at,
  days, format_time_diff,
}
use mootvote.PollPage.Tabs.{default_tab, tab_disabled, is_tallier}
use mootvote.PollPage.Double.{math_round, times, to_double, exponent_of, nearest}
use mootvote.PollPage.Bars.{
  results_bars, sort_bars, insert_bar, bars_from, lines_of, total_of, max_of, percent, compare_bars,
  is_after, IsRanked, IsLine, results_bars-IsRanked,
}

-- An hour and a half before the start.
poll_status-clock_at_example :
    let shown = poll_status 4600000 10000 20000 in
    let clock = clock_at 4600000 10000 20000 in
    ((4600000 < 1000 * 10000)
      × Alike starts_in shown clock.label
      × (clock.is_active ≡ false)
      × (clock.is_over ≡ false))
    ⊎ (((1000 * 10000 ≤ 4600000)
          × (4600000 < 1000 * 20000)
          × Alike ends_in shown clock.label
          × (clock.is_active ≡ true)
          × (clock.is_over ≡ false))
        ⊎ ((1000 * 20000 ≤ 4600000)
            × Alike ended_ago shown clock.label
            × (clock.is_active ≡ false)
            × (clock.is_over ≡ true)))
poll_status-clock_at_example = poll_status-clock_at 4600000 10000 20000 (omega arith)

two_days : format_time_diff 180000 ≡ days 2 2
unfolding format_time_diff
two_days = refl

-- A voter who comes before the start is led to a tab whose button is disabled.
early_voter :
    tab_disabled false false true false
      (poll_clock 5 10 20)
      (default_tab false true false (poll_clock 5 10 20))
    ≡ true
unfolding tab_disabled default_tab poll_clock
early_voter = refl

three_choices :
    map (λ l. l.pct) (results_bars ((1 ∷ []) ∷ (2 ∷ []) ∷ (3 ∷ []) ∷ []) (1 ∷ 4 ∷ []))
    ≡ 80 ∷ 20 ∷ 0 ∷ []
unfolding results_bars sort_bars insert_bar bars_from lines_of total_of max_of percent math_round
    times to_double exponent_of nearest compare_bars is_after
three_choices = refl

-- Half up of the fraction would be 58 and 15; the doubles are below a half.
two_shares : (percent 23 40 ≡ 57) × (percent 29 200 ≡ 14)
unfolding percent math_round times to_double exponent_of nearest
two_shares = (refl, refl)

results_bars-IsRanked_example :
    IsRanked (map (λ l. l.bar) (results_bars ((1 ∷ []) ∷ (2 ∷ []) ∷ []) (1 ∷ 4 ∷ [])))
    × Perm
        (map (λ l. l.bar) (results_bars ((1 ∷ []) ∷ (2 ∷ []) ∷ []) (1 ∷ 4 ∷ [])))
        (bars_from 0 ((1 ∷ []) ∷ (2 ∷ []) ∷ []) (1 ∷ 4 ∷ []))
    × All
        (IsLine (total_of (bars_from 0 ((1 ∷ []) ∷ (2 ∷ []) ∷ []) (1 ∷ 4 ∷ []))))
        (results_bars ((1 ∷ []) ∷ (2 ∷ []) ∷ []) (1 ∷ 4 ∷ []))
results_bars-IsRanked_example = results_bars-IsRanked ((1 ∷ []) ∷ (2 ∷ []) ∷ []) (1 ∷ 4 ∷ [])

abbrev tallying : BabyJubKeypair
tallying = record { name = 97 ∷ []; prv = []; sk = 1; pub_key = (258, 4); created_at = 0 }

is_tallier_lem_example :
    is_tallier (some (to_hex32 258, to_hex32 4)) false (tallying ∷ []) 0 ≡ true
    ↔ (false ≡ false)
      × ((acc : BabyJubKeypair) × (get_elem? (tallying ∷ []) 0 ≡ some acc)
          × (acc.pub_key ≡ (258, 4)))
is_tallier_lem_example =
    is_tallier_lem 258 4 false (tallying ∷ []) 0 (omega arith) (omega arith)
      ((omega arith, omega arith), tt)
