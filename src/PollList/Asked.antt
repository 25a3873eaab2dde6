-- ===== src/PollList/Asked.antt =====
-- The indexer's reading of the query for a page of polls (frontend/src/pages/PollListPage.tsx and
-- indexer/src/server.rs).
use mootvote.Base.{
  ℕ, ◌^◌, ◌<◌, ◌≡◌, refl, ap, ap₂, ◌∙◌, arith, List, [], ◌∷◌, ◌++◌, Option, none, some, Bool, true,
  false, not, ◌&&◌, ◌||◌, ltb, leb, length, take, drop, All, length-append,
}
use mootvote.Blob.{Text}
use mootvote.Bytes.{fp, bytes_to_hex}
use mootvote.Bytes.Value.{IsByte}
use mootvote.Keyring.{arrays_equal}
use mootvote.Pager.{query}
use mootvote.PollList
use mootvote.PollList.{
  Role, Status, voter, tallier, all_roles, poll_query, key_to_leaf_hex, tallier_text, tallier_param,
  leaf_param, status_param, capitalised,
}
use mootvote.PollList.Service
use mootvote.PollList.Service.{
  PollRow, Voters, in_table, is_selected, filter_rows, poll_page, cursor_of, list_polls,
  answer_polls, read_status, optional, sized, wants,
}
use mootvote.PollList.Words.{
  word, word-All, length-word, All-append, tallier_text_lem, key_to_leaf_hex_lem, halves,
}

-- What the service's reader of hexadecimal texts does.
abbrev pub IsHexReader : (Text → Option (List ℕ)) → Type 0
IsHexReader decode = (bs : List ℕ) → All IsByte bs → decode (bytes_to_hex bs) ≡ some bs

-- The account is the poll's tallier, or has a leaf in its census.
abbrev pub is_tallier_of : ℕ × ℕ → PollRow → Bool
is_tallier_of key row =
    arrays_equal row.tallier_x (word key.0) && arrays_equal row.tallier_y (word key.1)

abbrev pub is_voter_in : ℕ → Voters → PollRow → Bool
is_voter_in leaf voters row = in_table row.poll_id (word leaf) voters

abbrev pub has_role : Role → Bool → Bool → Bool
has_role all_roles t v = t || v
has_role voter t v = v
has_role tallier t v = t

abbrev pub has_status : Status → ℕ → PollRow → Bool
has_status PollList.all_statuses now row = true
has_status PollList.active now row = leb row.voting_start_time now && ltb now row.voting_end_time
has_status PollList.upcoming now row = ltb now row.voting_start_time
has_status PollList.ended now row = leb row.voting_end_time now

abbrev has_text : Option Text → Bool
has_text none = false
has_text (some t) = true

-- The polls that the filters are for: listed ones that the account has the role in, in the status.
abbrev pub is_wanted : (List ℕ → ℕ) → ℕ × ℕ → Role → Status → ℕ → Voters → PollRow → Bool
is_wanted poseidon key role status now voters row =
    row.census_valid
    && has_text row.title
    && has_role role (is_tallier_of key row)
        (is_voter_in (poseidon (key.0 ∷ key.1 ∷ [])) voters row)
    && has_status status now row

filter_rows_cong :
    (p q : PollRow → Bool) (b : ℕ) (rows : List PollRow)
    → ((row : PollRow) → p row ≡ q row)
    → filter_rows p b rows ≡ filter_rows q b rows
unfolding filter_rows
filter_rows_cong p q b [] h = refl
filter_rows_cong p q b (r ∷ rows) h = rw (h r, filter_rows_cong p q b rows h) refl

-- The parameters as the service reads them.
abbrev tallier_bytes : Role → ℕ × ℕ → Option (List ℕ)
tallier_bytes voter key = none
tallier_bytes _ key = some (word key.0 ++ word key.1)

abbrev leaf_bytes : Role → ℕ → Option (List ℕ)
leaf_bytes tallier leaf = none
leaf_bytes _ leaf = some (word leaf)

abbrev status_read : Status → Option Service.PollStatus
status_read PollList.all_statuses = none
status_read PollList.active = some Service.active
status_read PollList.upcoming = some Service.upcoming
status_read PollList.ended = some Service.ended

status_param-read :
    (status : Status) → optional read_status (status_param status) ≡ some (status_read status)
unfolding read_status status_param capitalised arrays_equal
status_param-read PollList.all_statuses = refl
status_param-read PollList.active = refl
status_param-read PollList.upcoming = refl
status_param-read PollList.ended = refl

abbrev accepted : Option (List ℕ) → Option (Option (List ℕ))
accepted o = elim o [ none ↦ none | some a ↦ some (some a) ]

pub sized_same : (n : ℕ) (bs : List ℕ) → length bs ≡ n → sized n (some bs) ≡ some bs
sized_same n bs h = ground arith

length-both : (x y : ℕ) → length (word x ++ word y) ≡ 64
length-both x y = omega (arith, length-append (word x) (word y), length-word x, length-word y)

or_false : (b : Bool) → (b || false) ≡ b
or_false b = ground arith

and_true : (b : Bool) → (b && true) ≡ b
and_true b = ground arith

regroup : (a b c d e : Bool) → (a && b && c && d && e) ≡ (a && b && (c && d && e))
regroup a b c d e = ground arith

status_part :
    (status : Status) (now : ℕ) (row : PollRow)
    → ((not (wants Service.active (status_read status))
          || leb row.voting_start_time now && ltb now row.voting_end_time)
        && (not (wants Service.upcoming (status_read status)) || ltb now row.voting_start_time)
        && (not (wants Service.ended (status_read status)) || leb row.voting_end_time now))
      ≡ has_status status now row
status_part PollList.all_statuses now row = refl
status_part PollList.active now row =
    and_true (has_status PollList.active now row && true)
    ∙ and_true (has_status PollList.active now row)
status_part PollList.upcoming now row = and_true (has_status PollList.upcoming now row)
status_part PollList.ended now row = refl

module _ (decode : Text → Option (List ℕ)) (reads : IsHexReader decode) (poseidon : List ℕ → ℕ)
    (key : ℕ × ℕ) (small_x : key.0 < 256 ^ 32) (small_y : key.1 < 256 ^ 32)
    (small_leaf : poseidon (key.0 ∷ key.1 ∷ []) < fp) (now : ℕ) (voters : Voters) where
  abbrev leaf : ℕ
  leaf = poseidon (key.0 ∷ key.1 ∷ [])

  leaf_read :
      optional (λ s. sized 32 (decode s)) (some (key_to_leaf_hex poseidon key))
      ≡ some (some (word leaf))
  leaf_read =
      ap (λ s. optional (λ t. sized 32 (decode t)) (some s))
        (key_to_leaf_hex_lem poseidon key small_leaf)
      ∙ ap accepted (
          ap (sized 32) (reads (word leaf) (word-All leaf))
          ∙ sized_same 32 (word leaf) (length-word leaf))

  leaf_param-read :
      (role : Role)
      → optional (λ s. sized 32 (decode s)) (leaf_param poseidon role key)
        ≡ some (leaf_bytes role leaf)
  unfolding leaf_param
  leaf_param-read tallier = refl
  leaf_param-read voter = leaf_read
  leaf_param-read all_roles = leaf_read

  abbrev both : List ℕ
  both = word key.0 ++ word key.1

  tallier_read : optional (λ s. sized 64 (decode s)) (some (tallier_text key)) ≡ some (some both)
  tallier_read =
      ap (λ s. optional (λ t. sized 64 (decode t)) (some s)) (tallier_text_lem key small_x small_y)
      ∙ ap accepted (
          ap (sized 64)
            (reads both (All-append (word key.0) (word key.1) (word-All key.0) (word-All key.1)))
          ∙ sized_same 64 both (length-both key.0 key.1))

  tallier_param-read :
      (role : Role)
      → optional (λ s. sized 64 (decode s)) (tallier_param role key) ≡ some (tallier_bytes role key)
  unfolding tallier_param
  tallier_param-read voter = refl
  tallier_param-read tallier = tallier_read
  tallier_param-read all_roles = tallier_read

  role_part :
      (role : Role) (row : PollRow)
      → (elim (tallier_bytes role key) [
        | none ↦ false
        | some t ↦ arrays_equal row.tallier_x (take 32 t) && arrays_equal row.tallier_y (drop 32 t)
      ]
          || elim (leaf_bytes role leaf) [ none ↦ false | some l ↦ in_table row.poll_id l voters ])
        ≡ has_role role (is_tallier_of key row) (is_voter_in leaf voters row)
  role_part voter row = refl
  role_part tallier row =
      rw ((halves key.0 key.1).0, (halves key.0 key.1).1) (or_false (is_tallier_of key row))
  role_part all_roles row = rw ((halves key.0 key.1).0, (halves key.0 key.1).1) refl

  abbrev request : Role → Status → Option ℕ → Service.UserPollsQuery
  request role status before = record {
    voter_leaf = leaf_bytes role leaf;
    tallier = tallier_bytes role key;
    status = status_read status;
    limit = 20;
    before = before;
  }

  is_selected-is_wanted :
      (role : Role) (status : Status) (before : Option ℕ) (row : PollRow)
      → is_selected now voters (request role status before) row
        ≡ is_wanted poseidon key role status now voters row
  unfolding is_selected
  is_selected-is_wanted role status before row =
      regroup (row.census_valid && has_text row.title) _ _ _ _
      ∙ ap₂ (λ r s. row.census_valid && has_text row.title && r && s) (role_part role row)
          (status_part status now row)

  listed :
      (role : Role) (status : Status) (before : Option ℕ) (rows : List PollRow)
      → some (
          poll_page 20 (
            filter_rows
              (is_selected now voters (request role status before))
              (cursor_of before)
              rows))
        ≡ some (
            poll_page 20
              (filter_rows (is_wanted poseidon key role status now voters) (cursor_of before) rows))
  listed role status before rows =
      ap (λ f. some (poll_page 20 f))
        (filter_rows_cong (is_selected now voters (request role status before))
          (is_wanted poseidon key role status now voters) (cursor_of before) rows
          (is_selected-is_wanted role status before))

  list_polls-wanted :
      (role : Role) (status : Status) (before : Option ℕ) (rows : List PollRow)
      → list_polls now voters rows (request role status before)
        ≡ some (
            poll_page 20
              (filter_rows (is_wanted poseidon key role status now voters) (cursor_of before) rows))
  unfolding list_polls
  list_polls-wanted voter status before rows = listed voter status before rows
  list_polls-wanted tallier status before rows = listed tallier status before rows
  list_polls-wanted all_roles status before rows = listed all_roles status before rows

  -- The service understands every query of the page, and answers with the polls that the chosen
  -- filters are for.
  pub answer_polls-poll_query :
      (role : Role) (status : Status) (before : Option ℕ) (rows : List PollRow)
      → answer_polls decode now voters rows (poll_query poseidon key role status before)
        ≡ some (
            poll_page 20 (
              filter_rows
                (is_wanted poseidon key role status now voters)
                (cursor_of (query before))
                rows))
  unfolding answer_polls poll_query
  answer_polls-poll_query role status before rows =
      rw (leaf_param-read role, answer_polls)
        (rw (tallier_param-read role)
          (rw (status_param-read status) (list_polls-wanted role status (query before) rows)))
