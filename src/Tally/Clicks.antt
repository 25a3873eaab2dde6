-- ===== src/Tally/Clicks.antt =====
-- Clicks on "process next batch" (`onTallyNext` of frontend/src/components/Tally.tsx), one after the
-- other, with the votes that the indexer serves.
use mootvote.Base.{
  ℕ, ◌+◌, ◌-◌, ◌*◌, ◌≡◌, ◌⊎◌, refl, List, [], ◌∷◌, Option, none, some, Bool, true, leb, ◌&&◌, ◌==◌,
  false, if◌then◌else◌, length, inl, inr, Bool-cases, Option-cases,
}
use mootvote.Tally.Defs.{
  TallyStore, VoteRow, Library, TallyError, no_wallet, no_key, fetch_failed, no_new_votes,
  max_batch, err,
}
use mootvote.Tally.Next.{Ui, Env, batch, fetch, fetch_stage}
use mootvote.Tally.Handlers.{failed, on_tally_next}
use mootvote.Tally.Outcome.{stored_count}
use mootvote.Tally.Votes.{list_votes}

-- `store ? `&after=${store.processedAfterId}` : ""`
unfoldable pub after_of : Option TallyStore → Option ℕ
after_of none = none
after_of (some s) = some s.processed_after_id

-- The request of a run is answered from `votes`, if it is answered.
unfoldable pub served : List VoteRow → Option TallyStore → Env → Env
served votes store env = record env {
  page = elim env.page [
    | none ↦ none
    | some _ ↦ some (list_votes (after_of store) max_batch votes)
  ];
}

-- The state when the page is opened and nothing is stored.
abbrev pub opened : Ui
opened = record {
  store = none;
  saved = none;
  error = none;
  busy = false;
  remaining = none;
  stage = none;
  flow = none;
}

-- `refreshRemaining`, by the total of votes that is fetched, `none` if that fails. The difference stops
-- at 0 here, where the source's would be negative; no more votes are processed than the indexer has.
unfoldable pub refresh_remaining : Option ℕ → Ui → Ui
refresh_remaining fetched ui = record ui {
  remaining = elim fetched [ none ↦ none | some total ↦ some (total - stored_count ui.store) ];
}

-- `finishEnabled`, at a time in milliseconds.
unfoldable pub finish_enabled : ℕ → ℕ → Ui → Bool
finish_enabled now voting_end_time ui =
    leb (voting_end_time * 1000) now && elim ui.remaining [ none ↦ false | some r ↦ r == 0 ]

-- What the page runs: a click on the next batch, or `refreshRemaining`, which is answered or not.
pub data Action : Type 0 where
  next_batch : Env → Action
  refresh : Bool → Action

-- Whether a run has ended without an error.
unfoldable pub succeeded : Ui → Bool
succeeded ui = elim ui.error [ none ↦ true | some e ↦ false ]

module _ (lib : Library) (n poll_id : ℕ) (account_id : List ℕ) (votes : List VoteRow) where
  unfoldable pub click : Env → Ui → Ui
  click env ui = on_tally_next lib (served votes ui.store env) n poll_id account_id ui

  unfoldable pub act : Action → Ui → Ui
  act (next_batch env) ui = click env ui
  act (refresh answered) ui = refresh_remaining (if answered then some (length votes) else none) ui

  unfoldable pub acts : List Action → Ui → Ui
  acts [] ui = ui
  acts (a ∷ rest) ui = acts rest (act a ui)

  -- How many of the clicks have succeeded.
  unfoldable pub successes : List Action → Ui → ℕ
  successes [] ui = 0
  successes (next_batch env ∷ rest) ui =
      let ui' = click env ui in (if succeeded ui' then 1 else 0) + successes rest ui'
  successes (refresh answered ∷ rest) ui = successes rest (act (refresh answered) ui)

  pub stopped_fetching :
      (env : Env) (ui : Ui) (e : TallyError)
      → ui.busy ≡ false
      → fetch_stage lib env ≡ err e
      → on_tally_next lib env n poll_id account_id ui ≡ failed batch fetch e ui
  unfolding on_tally_next
  stopped_fetching env ui e idle h = rw idle (rw h refl)

  -- What `fetch_stage` needs to end well.
  pub record IsFetched (env : Env) : Type 0 where
    pub sk : ℕ
    pub v : VoteRow
    pub vs : List VoteRow
    pub wallet : env.wallet ≡ true
    pub key : env.tallier_sk ≡ some sk
    pub page : env.page ≡ some (v ∷ vs)

  pub fetch_stage-cases :
      (env : Env) → IsFetched env ⊎ ((e : TallyError) × (fetch_stage lib env ≡ err e))
  unfolding fetch_stage
  fetch_stage-cases env = elim (Bool-cases env.wallet) [
    | inr absent ↦ inr (no_wallet, rw absent refl)
    | inl wallet ↦ elim (Option-cases env.tallier_sk) [
      | inl absent ↦ inr (no_key, rw wallet (rw absent refl))
      | inr (sk, key) ↦ elim (Option-cases env.page) [
        | inl lost ↦ inr (fetch_failed, rw wallet (rw key (rw lost refl)))
        | inr (rows, page) ↦ by_rows sk rows wallet key page
      ]
    ]
  ]
    where
      by_rows :
          (sk : ℕ) (rows : List VoteRow)
          → env.wallet ≡ true
          → env.tallier_sk ≡ some sk
          → env.page ≡ some rows
          → IsFetched env ⊎ ((e : TallyError) × (fetch_stage lib env ≡ err e))
      by_rows sk [] wallet key page = inr (no_new_votes, rw wallet (rw key (rw page refl)))
      by_rows sk (v ∷ vs) wallet key page =
          inl (record { sk = sk; v = v; vs = vs; wallet = wallet; key = key; page = page })

-- The actions at their times, in milliseconds, each with the votes that the indexer has at that time.
unfoldable pub acts_at :
    (lib : Library) (n poll_id : ℕ) (account_id : List ℕ)
    → (ℕ → List VoteRow)
    → List (ℕ × Action)
    → Ui
    → Ui
acts_at lib n poll_id account_id votes_at [] ui = ui
acts_at lib n poll_id account_id votes_at ((time, a) ∷ rest) ui =
    acts_at lib n poll_id account_id votes_at rest
      (act lib n poll_id account_id (votes_at time) a ui)
