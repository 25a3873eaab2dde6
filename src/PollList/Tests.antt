-- ===== src/PollList/Tests.antt =====
-- A table of two polls, for an account that is the tallier of one and a voter in the other.
use mootvote.Base.{
  ◌*◌, ◌+◌, ℕ, ◌/◌, ◌≡◌, ◌∙◌, ap, refl, arith, List, [], ◌∷◌, Option, none, some, true, length, All,
}
use mootvote.Blob.{Text}
use mootvote.Bytes.{pairs_loop, bytes_to_hex}
use mootvote.Bytes.Hex.{length-bytes_to_hex, pairs_loop-bytes_to_hex}
use mootvote.Pager.{next}
use mootvote.PollList
use mootvote.PollList.{
  FilterPress, set_role, set_status, turn_page, voter, press_filters, first_view, status_param,
  capitalised,
}
use mootvote.PollList.Service.{
  PollRow, Voters, UserPollsQuery, active, i64_max, filter_rows, is_selected,
}
use mootvote.PollList.Asked.{IsHexReader, is_wanted}
use mootvote.PollList.Words.{word}
use mootvote.PollList.Shown.{IsShown, asks, press_filters-IsShown}
use mootvote.PollList.Lines.{Names, line_of, filter_rows-Names}
use mootvote.Tagged.{codes}

abbrev decode : Text → Option (List ℕ)
decode s = some (pairs_loop (length s / 2) s)

decode-IsHexReader : IsHexReader decode
decode-IsHexReader bs h =
    ap (λ (n : ℕ). some (pairs_loop n (bytes_to_hex bs))) (omega (arith, length-bytes_to_hex bs h))
    ∙ ap some (pairs_loop-bytes_to_hex (length bs) bs refl h)

abbrev poseidon : List ℕ → ℕ
poseidon xs = 7

abbrev table : List PollRow
table =
    record {
      id = 2;
      poll_id = 12;
      tallier_x = word 3;
      tallier_y = word 4;
      census_valid = true;
      title = some (codes "Budget");
      voting_start_time = 100;
      voting_end_time = 200;
    }
    ∷ record {
      id = 1;
      poll_id = 11;
      tallier_x = word 5;
      tallier_y = word 6;
      census_valid = true;
      title = some (codes "Board");
      voting_start_time = 50;
      voting_end_time = 120;
    }
    ∷ []

abbrev leaves : Voters
leaves = (11, word 7) ∷ []

abbrev some_presses : List FilterPress
some_presses = set_role voter ∷ set_status PollList.active ∷ turn_page next ∷ []

press_filters-IsShown_example :
    let s =
      press_filters
        (asks decode poseidon (3, 4) 150 leaves table)
        some_presses
        (first_view (asks decode poseidon (3, 4) 150 leaves table)) in
    IsShown
      (filter_rows (is_wanted poseidon (3, 4) s.role s.status 150 leaves) i64_max table)
      s.list
press_filters-IsShown_example =
    press_filters-IsShown decode poseidon (3, 4) 150 leaves table some_presses decode-IsHexReader
      (omega arith) (omega arith) (omega arith) (omega arith)

capital : status_param PollList.ended ≡ some (codes "Ended")
unfolding status_param capitalised
capital = refl

abbrev active_only : UserPollsQuery
active_only = record {
  voter_leaf = some (word 7);
  tallier = some [];
  status = some active;
  limit = 20;
  before = none;
}

filter_rows-Names_example :
    All
      (λ row. Names (some active) (1000 * 110 + 999) row (line_of 110 999 row))
      (filter_rows (is_selected 110 leaves active_only) i64_max table)
filter_rows-Names_example =
    filter_rows-Names 110 999 i64_max leaves active_only table (omega arith) (omega arith)
