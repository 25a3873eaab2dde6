-- ===== src/PollList/Service.antt =====
-- How the indexer lists polls (indexer/src/server.rs, `list_polls`). The reader of hexadecimal
-- parameters belongs to a library and is an argument; a table is in the order of falling ids.
use mootvote.Base.{
  ℕ, ◌+◌, ◌-◌, ◌^◌, List, [], ◌∷◌, Option, none, some, Bool, true, false, not, ◌&&◌, ◌||◌, ◌==◌,
  ltb, leb, if◌then◌else◌, length, get_elem?, take, drop, map, min, max,
}
use mootvote.Blob.{Text}
use mootvote.Keyring.{arrays_equal}
use mootvote.Pager.{Page}
use mootvote.PollList.{PollQuery}
use mootvote.Tagged.{codes}

pub data PollStatus : Type 0 where
  active upcoming ended : PollStatus

-- The columns of `polls` that the query reads; `census_valid` is false where it is NULL.
pub record PollRow : Type 0 where
  pub id : ℕ
  pub poll_id : ℕ
  pub tallier_x : List ℕ
  pub tallier_y : List ℕ
  pub census_valid : Bool
  pub title : Option Text
  pub voting_start_time : ℕ
  pub voting_end_time : ℕ

-- `voter_polls`: the ids of the polls with the leaves of their voters.
abbrev pub Voters : Type 0
Voters = List (ℕ × List ℕ)

-- `UserPollsQuery`, once it is read.
pub record UserPollsQuery : Type 0 where
  pub voter_leaf : Option (List ℕ)
  pub tallier : Option (List ℕ)
  pub status : Option PollStatus
  pub limit : ℕ
  pub before : Option ℕ

unfoldable pub read_status : Text → Option PollStatus
read_status s =
    if arrays_equal s (codes "Active")
    then some active
    else if arrays_equal s (codes "Upcoming")
    then some upcoming
    else if arrays_equal s (codes "Ended")
    then some ended
    else none

-- An optional parameter; a text that cannot be read makes the request a bad one.
abbrev pub optional : {A : Type 0} → (Text → Option A) → Option Text → Option (Option A)
optional read none = some none
optional read (some s) = elim (read s) [ none ↦ none | some a ↦ some (some a) ]

abbrev pub sized : ℕ → Option (List ℕ) → Option (List ℕ)
sized n none = none
sized n (some bs) = if length bs == n then some bs else none

abbrev pub in_table : ℕ → List ℕ → Voters → Bool
in_table poll_id leaf [] = false
in_table poll_id leaf ((p, l) ∷ voters) =
    let rest = in_table poll_id leaf voters in (p == poll_id) && arrays_equal l leaf || rest

-- Whether a filter for `status` is on: `Some(PollStatus::…)` is wanted.
abbrev pub wants : PollStatus → Option PollStatus → Bool
wants s none = false
wants active (some active) = true
wants upcoming (some upcoming) = true
wants ended (some ended) = true
wants _ (some _) = false

abbrev has_title : Option Text → Bool
has_title none = false
has_title (some t) = true

-- The `WHERE` clause without the cursor.
unfoldable pub is_selected : ℕ → Voters → UserPollsQuery → PollRow → Bool
is_selected now voters q row =
    row.census_valid
    && has_title row.title
    && (elim q.tallier [
      | none ↦ false
      | some t ↦ arrays_equal row.tallier_x (take 32 t) && arrays_equal row.tallier_y (drop 32 t)
    ]
        || elim q.voter_leaf [ none ↦ false | some leaf ↦ in_table row.poll_id leaf voters ])
    && (not (wants active q.status) || leb row.voting_start_time now && ltb now row.voting_end_time)
    && (not (wants upcoming q.status) || ltb now row.voting_start_time)
    && (not (wants ended q.status) || leb row.voting_end_time now)

-- `i64::MAX`
abbrev pub i64_max : ℕ
i64_max = 2 ^ 63 - 1

abbrev pub cursor_of : Option ℕ → ℕ
cursor_of none = i64_max
cursor_of (some b) = b

unfoldable pub filter_rows : (PollRow → Bool) → ℕ → List PollRow → List PollRow
filter_rows p before [] = []
filter_rows p before (row ∷ rows) =
    let rest = filter_rows p before rows in if p row && ltb row.id before then row ∷ rest else rest

-- `limit` rows, and the id of the last one if there is one row more.
unfoldable pub poll_page : ℕ → List PollRow → Page
poll_page limit found =
    let rows = take (limit + 1) found in
    record {
      items = map (λ r. r.poll_id) (take limit rows);
      next_before =
          if ltb limit (length rows)
          then elim (get_elem? rows (limit - 1)) [ none ↦ none | some r ↦ some r.id ]
          else none;
    }

-- The handler, on a query that has been read; without a key the request is a bad one.
unfoldable pub list_polls : ℕ → Voters → List PollRow → UserPollsQuery → Option Page
list_polls now voters rows q = elim q.tallier [
  | none ↦ elim q.voter_leaf [
    | none ↦ none
    | some leaf ↦ some (
        poll_page (min 500 (max 1 q.limit))
          (filter_rows (is_selected now voters q) (cursor_of q.before) rows))
  ]
  | some t ↦ some (
      poll_page (min 500 (max 1 q.limit))
        (filter_rows (is_selected now voters q) (cursor_of q.before) rows))
]

-- The answer to the page's query: its parameters are read, then the handler runs.
unfoldable pub answer_polls :
    (Text → Option (List ℕ)) → ℕ → Voters → List PollRow → PollQuery → Option Page
answer_polls decode now voters rows q = elim (optional (λ s. sized 32 (decode s)) q.voter_leaf) [
  | none ↦ none
  | some leaf ↦ elim (optional (λ s. sized 64 (decode s)) q.tallier) [
    | none ↦ none
    | some t ↦ elim (optional read_status q.status) [
      | none ↦ none
      | some status ↦ list_polls now voters rows (record {
        voter_leaf = leaf;
        tallier = t;
        status = status;
        limit = q.limit;
        before = q.before;
      })
    ]
  ]
]

-- The handler `is_voter`, with the text that it answers.
unfoldable pub is_voter : (Text → Option (List ℕ)) → ℕ → Voters → Text → Option Text
is_voter decode poll_id voters leaf_text = elim (sized 32 (decode leaf_text)) [
  | none ↦ none
  | some leaf ↦ some (if in_table poll_id leaf voters then codes "true" else codes "false")
]
