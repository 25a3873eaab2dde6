-- ===== src/PollList/Lines.antt =====
-- The lines that the list of polls shows under a filter by status (frontend/src/components/PollStatus.tsx
-- with indexer/src/server.rs).
use mootvote.Base.{
  ℕ, ◌+◌, ◌*◌, ◌-◌, ◌/◌, ◌<◌, ◌≤◌, ◌≡◌, refl, arith, List, [], ◌∷◌, Option, none, some, Bool, true,
  false, ◌&&◌, All, Bool-cases, inl, inr, ltb, leb,
}
use mootvote.PollList.Service.{
  PollStatus, active, upcoming, ended, PollRow, Voters, UserPollsQuery, is_selected, filter_rows,
}
use mootvote.PollPage.Clock.{
  StatusText, starts_in, ends_in, ended_ago, poll_status, format_time_diff,
}

-- The text of a poll at the time `now_ms` names the status, with the time to its start, to its end or
-- since its end in whole seconds; without a filter it may be any.
abbrev pub Names : Option PollStatus → ℕ → PollRow → StatusText → Type 0
Names none now_ms row text = Unit
Names (some upcoming) now_ms row text =
    text ≡ starts_in (format_time_diff ((1000 * row.voting_start_time - now_ms) / 1000))
Names (some active) now_ms row text =
    text ≡ ends_in (format_time_diff ((1000 * row.voting_end_time - now_ms) / 1000))
Names (some ended) now_ms row text =
    text ≡ ended_ago (format_time_diff ((now_ms - 1000 * row.voting_end_time) / 1000))

-- The line of a poll at some time in the second `now`.
abbrev pub line_of : ℕ → ℕ → PollRow → StatusText
line_of now ms row = poll_status (1000 * now + ms) row.voting_start_time row.voting_end_time

upcoming_line :
    (now ms : ℕ) (row : PollRow)
    → ms < 1000
    → ltb now row.voting_start_time ≡ true
    → Names (some upcoming) (1000 * now + ms) row (line_of now ms row)
unfolding poll_status
upcoming_line now ms row h e =
    let before : ltb (1000 * now + ms) (1000 * row.voting_start_time) ≡ true = ground arith in
    rw before refl

active_line :
    (now ms : ℕ) (row : PollRow)
    → ms < 1000
    → (leb row.voting_start_time now && ltb now row.voting_end_time) ≡ true
    → Names (some active) (1000 * now + ms) row (line_of now ms row)
unfolding poll_status
active_line now ms row h e =
    let started : ltb (1000 * now + ms) (1000 * row.voting_start_time) ≡ false = ground arith in
    let going : ltb (1000 * now + ms) (1000 * row.voting_end_time) ≡ true = ground arith in
    rw (started, going) refl

ended_line :
    (now ms : ℕ) (row : PollRow)
    → ms < 1000
    → row.voting_start_time ≤ row.voting_end_time
    → leb row.voting_end_time now ≡ true
    → Names (some ended) (1000 * now + ms) row (line_of now ms row)
unfolding poll_status
ended_line now ms row h le e =
    let started : ltb (1000 * now + ms) (1000 * row.voting_start_time) ≡ false = ground arith in
    let over : ltb (1000 * now + ms) (1000 * row.voting_end_time) ≡ false = ground arith in
    rw (started, over) refl

is_selected-Names :
    (now ms : ℕ) (voters : Voters) (q : UserPollsQuery) (status : Option PollStatus) (row : PollRow)
    → ms < 1000
    → row.voting_start_time ≤ row.voting_end_time
    → is_selected now voters (record q { status = status }) row ≡ true
    → Names status (1000 * now + ms) row (line_of now ms row)
unfolding is_selected
is_selected-Names now ms voters q none row h le e = tt
is_selected-Names now ms voters q (some active) row h le e = active_line now ms row h (ground arith)
is_selected-Names now ms voters q (some upcoming) row h le e =
    upcoming_line now ms row h (ground arith)
is_selected-Names now ms voters q (some ended) row h le e =
    ended_line now ms row h le (ground arith)

and_left : {a : Bool} (b : Bool) → (a && b) ≡ true → a ≡ true
and_left b h = ground arith

-- Whatever the indexer lists under a filter by status is shown with that status: a poll to come with
-- the time to its start, an active one with the time to its end, and one that has ended with the time
-- since, each in whole seconds of the browser's clock; while that clock is in the second of the
-- indexer's. The start of a poll is not behind its end.
pub filter_rows-Names :
    (now ms before : ℕ) (voters : Voters) (q : UserPollsQuery) (rows : List PollRow)
    → ms < 1000
    → All (λ row. row.voting_start_time ≤ row.voting_end_time) rows
    → All
        (λ row. Names q.status (1000 * now + ms) row (line_of now ms row))
        (filter_rows (is_selected now voters q) before rows)
unfolding filter_rows
filter_rows-Names now ms before voters q [] h all = tt
filter_rows-Names now ms before voters q (row ∷ rows) h all =
    let rest = filter_rows-Names now ms before voters q rows h all.1 in
    elim (Bool-cases (is_selected now voters q row && ltb row.id before)) [
      | inl e ↦ rw e (
        is_selected-Names now ms voters q q.status row h all.0 (and_left (ltb row.id before) e),
        rest,
      )
      | inr e ↦ rw e rest
    ]
