-- ===== src/PollPage/Clock.antt =====
-- The status of a poll by its clock: `usePollClock` of frontend/src/pages/PollDetailPage.tsx, and
-- `pollStatus` and `formatTimeDiff` of frontend/src/components/PollStatus.tsx. A text is its key with
-- its numbers; start and end are in seconds, the time of `Date.now` in milliseconds.
use mootvote.Base.{
  ℕ, ◌+◌, ◌-◌, ◌*◌, ◌/◌, ◌%◌, ◌<◌, ◌≤◌, ◌≡◌, ◌⊎◌, dec_lt, refl, arith, Bool, true, false, ◌&&◌, not,
  ltb, leb, if◌then◌else◌, max, inl, inr,
}

-- `time.d`, `time.h`, `time.m` and `time.s`.
pub data TimeText : Type 0 where
  days : ℕ → ℕ → TimeText
  hours : ℕ → ℕ → TimeText
  minutes : ℕ → TimeText
  seconds : ℕ → TimeText

-- Of a whole number of seconds.
unfoldable pub format_time_diff : ℕ → TimeText
format_time_diff sec =
    let s = max 1 sec in
    let d = s / 86400 in
    let h = (s % 86400) / 3600 in
    let m = (s % 3600) / 60 in
    if ltb 0 d
    then days d h
    else if ltb 0 h
    then hours h m
    else if ltb 0 m
    then minutes m
    else seconds s

pub data StatusText : Type 0 where
  starts_in : TimeText → StatusText
  ends_in : TimeText → StatusText
  ended_ago : TimeText → StatusText

pub record PollClock : Type 0 where
  pub label : StatusText
  pub is_over : Bool
  pub is_active : Bool

-- `now` is in whole seconds.
unfoldable pub poll_clock : ℕ → ℕ → ℕ → PollClock
poll_clock now start_sec end_sec =
    let is_before = ltb now start_sec in
    let is_over = leb end_sec now in
    let secs =
      if is_before then start_sec - now else if is_over then now - end_sec else end_sec - now in
    record {
      label =
          if is_before
          then starts_in (format_time_diff secs)
          else if is_over
          then ended_ago (format_time_diff secs)
          else ends_in (format_time_diff secs);
      is_over = is_over;
      is_active = not is_before && not is_over;
    }

-- `Math.floor(Date.now() / 1000)`
unfoldable pub clock_at : ℕ → ℕ → ℕ → PollClock
clock_at now_ms start_sec end_sec = poll_clock (now_ms / 1000) start_sec end_sec

-- `formatTimeDiff` rounds the difference of times in seconds down.
unfoldable pub poll_status : ℕ → ℕ → ℕ → StatusText
poll_status now_ms start_sec end_sec =
    if ltb now_ms (1000 * start_sec)
    then starts_in (format_time_diff ((1000 * start_sec - now_ms) / 1000))
    else if ltb now_ms (1000 * end_sec)
    then ends_in (format_time_diff ((1000 * end_sec - now_ms) / 1000))
    else ended_ago (format_time_diff ((now_ms - 1000 * end_sec) / 1000))

-- The seconds that a text names, and its last unit.
abbrev pub named : TimeText → ℕ × ℕ
named (days d h) = (d * 86400 + h * 3600, 3600)
named (hours h m) = (h * 3600 + m * 60, 60)
named (minutes m) = (m * 60, 60)
named (seconds s) = (s, 1)

-- The time that is shown is the difference without what is less than its last unit, an hour beside
-- days and a minute beside hours; what is below a second is shown as a second.
pub format_time_diff-named :
    (sec : ℕ)
    → ((named (format_time_diff sec)).0 ≤ max 1 sec)
      × (max 1 sec < (named (format_time_diff sec)).0 + (named (format_time_diff sec)).1)
unfolding format_time_diff
format_time_diff-named sec = ground arith

-- Two texts of one status, whose times are the same or a second apart.
abbrev pub Alike : (TimeText → StatusText) → StatusText → StatusText → Type 0
Alike status a b =
    (s : ℕ) × (s' : ℕ) × (a ≡ status (format_time_diff s))
    × (b ≡ status (format_time_diff s'))
    × (s ≤ s')
    × (s' ≤ s + 1)

-- The list of polls and the page of a poll show the same status at every time, with times that are a
-- second apart at most: the time to the start before it, the time to the end from the start on, and
-- the time since the end from the end on; and the page takes the poll to be active or over
-- accordingly. Start and end are whole seconds, the end not before the start.
pub poll_status-clock_at :
    (now_ms start_sec end_sec : ℕ)
    → start_sec ≤ end_sec
    → let shown = poll_status now_ms start_sec end_sec in
      let clock = clock_at now_ms start_sec end_sec in
      ((now_ms < 1000 * start_sec)
        × Alike starts_in shown clock.label
        × (clock.is_active ≡ false)
        × (clock.is_over ≡ false))
      ⊎ (((1000 * start_sec ≤ now_ms)
            × (now_ms < 1000 * end_sec)
            × Alike ends_in shown clock.label
            × (clock.is_active ≡ true)
            × (clock.is_over ≡ false))
          ⊎ ((1000 * end_sec ≤ now_ms)
              × Alike ended_ago shown clock.label
              × (clock.is_active ≡ false)
              × (clock.is_over ≡ true)))
unfolding poll_status clock_at poll_clock
poll_status-clock_at now_ms start_sec end_sec h = elim (dec_lt now_ms (1000 * start_sec)) [
  | yes early ↦
      let e1 : ltb now_ms (1000 * start_sec) ≡ true = ground arith in
      let e2 : ltb (now_ms / 1000) start_sec ≡ true = ground arith in
      let e3 : leb end_sec (now_ms / 1000) ≡ false = ground arith in
      inl (
        early,
        (
          (1000 * start_sec - now_ms) / 1000,
          start_sec - now_ms / 1000,
          rw e1 refl,
          rw e2 refl,
          omega arith,
          omega arith,
        ),
        rw e2 refl,
        rw e3 refl,
      )
  | no late ↦ elim (dec_lt now_ms (1000 * end_sec)) [
    | yes open_still ↦
        let e1 : ltb now_ms (1000 * start_sec) ≡ false = ground arith in
        let e2 : ltb (now_ms / 1000) start_sec ≡ false = ground arith in
        let e3 : leb end_sec (now_ms / 1000) ≡ false = ground arith in
        let e4 : ltb now_ms (1000 * end_sec) ≡ true = ground arith in
        inr (
          inl (
            omega arith,
            open_still,
            (
              (1000 * end_sec - now_ms) / 1000,
              end_sec - now_ms / 1000,
              rw (e1, e4) refl,
              rw (e2, e3) refl,
              omega arith,
              omega arith,
            ),
            rw (e2, e3) refl,
            rw e3 refl,
          ))
    | no over ↦
        let e1 : ltb now_ms (1000 * start_sec) ≡ false = ground arith in
        let e2 : ltb (now_ms / 1000) start_sec ≡ false = ground arith in
        let e3 : leb end_sec (now_ms / 1000) ≡ true = ground arith in
        let e4 : ltb now_ms (1000 * end_sec) ≡ false = ground arith in
        inr (
          inr (
            omega arith,
            (
              (now_ms - 1000 * end_sec) / 1000,
              now_ms / 1000 - end_sec,
              rw (e1, e4) refl,
              rw (e2, e3) refl,
              omega arith,
              omega arith,
            ),
            rw (e2, e3) refl,
            rw e3 refl,
          ))
  ]
]
