-- ===== src/PollCreate/Form.antt =====
-- What the form accepts, and its dates (frontend/src/pages/PollCreatePage.tsx).
use mootvote.Base.{
  ℕ, ◌-◌, ◌*◌, ◌/◌, List, [], ◌∷◌, Option, none, some, Bool, true, false, ◌&&◌, ◌||◌, ◌==◌, ltb,
  leb, if◌then◌else◌, length, get_elem?,
}
use mootvote.Blob.{Text}
use mootvote.Bytes.{all_hex}
use mootvote.PollCreate.{FormValues, Dates}
use mootvote.Tally.Defs.{max_choices}

-- `MAX_POLL_DURATION`, in seconds.
abbrev pub max_poll_duration : ℕ
max_poll_duration = 365 * 24 * 60 * 60

-- `/^0x?[0-9a-fA-F]*$/`
unfoldable pub is_hex_text : Text → Bool
is_hex_text [] = false
is_hex_text (c ∷ []) = c == 48
is_hex_text (c ∷ d ∷ s) = (c == 48) && ((d == 120 && all_hex s) || all_hex (d ∷ s))

-- `/^0x[0-9a-fA-F]{64}$/`
unfoldable pub is_root_text : Text → Bool
is_root_text [] = false
is_root_text (c ∷ []) = false
is_root_text (c ∷ d ∷ s) = (c == 48) && (d == 120) && (length s == 64) && all_hex s

-- `/^\d+$/`
unfoldable pub all_digits : Text → Bool
all_digits [] = true
all_digits (c ∷ s) = leb 48 c && leb c 57 && all_digits s

abbrev pub is_filled : Text → Bool
is_filled s = ltb 0 (length s)

unfoldable pub all_filled : List Text → Bool
all_filled [] = true
all_filled (c ∷ cs) = is_filled c && all_filled cs

-- `positive` and `optional`
abbrev pub is_positive : Option ℕ → Bool
is_positive none = true
is_positive (some n) = ltb 0 n

pub data DateIssue : Type 0 where
  invalid_date end_after_start poll_duration : DateIssue

-- The issue that `superRefine` adds, if any.
unfoldable pub date_issue : Option ℕ → Option ℕ → Option DateIssue
date_issue none end_ms = some invalid_date
date_issue (some start_ms) none = some invalid_date
date_issue (some start_ms) (some end_ms) =
    if leb end_ms start_ms
    then some end_after_start
    else if ltb (max_poll_duration * 1000) (end_ms - start_ms)
    then some poll_duration
    else none

abbrev pub no_issue : Option DateIssue → Bool
no_issue none = true
no_issue (some i) = false

-- The fields that both modes have.
unfoldable pub base_valid : FormValues → Bool
base_valid d =
    is_filled d.title
    && leb (length d.title) 200
    && leb 1 (length d.choices)
    && leb (length d.choices) max_choices
    && all_filled d.choices
    && is_filled d.start_at
    && is_filled d.end_at
    && (is_filled d.fee_lamports && all_digits d.fee_lamports)
    && is_positive d.census_count
    && is_root_text d.census_root_hex

-- `split` at a character.
unfoldable pub split_at : ℕ → Text → List Text
split_at sep [] = [] ∷ []
split_at sep (c ∷ s) =
    let rest = split_at sep s in
    if c == sep then [] ∷ rest else elim rest [ [] ↦ (c ∷ []) ∷ [] | w ∷ ws ↦ (c ∷ w) ∷ ws ]

-- `n || d`, where NaN and undefined are `none`.
abbrev pub or_else : Option ℕ → ℕ → ℕ
or_else none d = d
or_else (some n) d = if n == 0 then d else n

module _ (dates : Dates) where
  open dates use {date_parse, number_of, local_date}

  -- Whether the resolver of the schema accepts the values.
  unfoldable pub schema_valid : FormValues → Bool
  schema_valid d =
      base_valid d
      && (d.active_tallier || is_hex_text d.tallier_x && is_hex_text d.tallier_y)
      && no_issue (date_issue (date_parse d.start_at) (date_parse d.end_at))

  -- Element `i` of a split text, as a number.
  unfoldable pub part : ℕ → ℕ → Text → Option ℕ
  part sep i s = elim (get_elem? (split_at sep s) i) [ none ↦ none | some t ↦ number_of t ]

  -- `none`: there is no time, or the year is not a number.
  unfoldable pub local_input_to_unix_seconds : Text → Option ℕ
  local_input_to_unix_seconds s = elim (split_at 84 s) [
    | [] ↦ none
    | date ∷ times ↦ elim times [
      | [] ↦ none
      | time ∷ more ↦ elim (part 45 0 date) [
        | none ↦ none
        | some y ↦ some (
            local_date y (or_else (part 45 1 date) 1 - 1) (or_else (part 45 2 date) 1)
              (or_else (part 58 0 time) 0) (or_else (part 58 1 time) 0)
            / 1000)
      ]
    ]
  ]
