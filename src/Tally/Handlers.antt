-- ===== src/Tally/Handlers.antt =====
-- The handlers `onTallyNext`, `onFinishTally` and `onResetTally` of
-- frontend/src/components/Tally.tsx, on the component's state.
use mootvote.Base.{
  ℕ, suc, ◌-◌, List, [], ◌∷◌, Option, none, some, Bool, false, if◌then◌else◌, length, replicate,
  not,
}
use mootvote.Base.Int.{ℤ, pos}
use mootvote.Bytes.{to_bytes_be32_buf}
use mootvote.Tally.Defs.{
  TallyStore, Library, TallyError, no_wallet, send_failed, ok, err, max_choices,
}
use mootvote.Tally.Next.{
  Stage, fetch, prove, send, finished, Flow, batch, finish, Ui, Instruction, create_tally,
  finish_tally, Env, stored_salt, fetch_stage, prove_stage, send_stage,
}

-- The `catch` and the `finally` of a handler that stopped in `stage`.
abbrev pub failed : Flow → Stage → TallyError → Ui → Ui
failed flow stage e ui = record ui {
  error = some e;
  busy = false;
  stage = some stage;
  flow = some flow;
}

-- `setRemaining((r) => (r == null ? r : Math.max(0, r - batch.length)))`
unfoldable pub lower : ℕ → Option ℕ → Option ℕ
lower k none = none
lower k (some r) = some (r - k)

-- `finalCounts`
unfoldable pub final_counts : ℕ → Option TallyStore → List ℤ
final_counts n none = replicate n (pos 0)
final_counts n (some s) = s.tally_counts

module _ (lib : Library) where
  -- The `finally` also runs on the early return of a busy component.
  unfoldable pub on_tally_next : Env → ℕ → ℕ → List ℕ → Ui → Ui
  on_tally_next env n poll_id account_id ui =
      if ui.busy then record ui { busy = false } else elim (fetch_stage lib env) [
        | err e ↦ failed batch fetch e ui
        | ok (sk, rows) ↦ elim (prove_stage lib env n ui.store sk rows) [
          | err e ↦ failed batch prove e ui
          | ok p ↦ elim (send_stage lib env poll_id account_id ui.store rows p) [
            | err e ↦ failed batch send e ui
            | ok store' ↦ record {
              store = some store';
              saved = some store';
              error = none;
              busy = false;
              remaining = lower (length rows) ui.remaining;
              stage = some finished;
              flow = some batch;
            }
          ]
        ]
      ]

  unfoldable pub finish_instructions : ℕ → Option TallyStore → List Instruction
  finish_instructions n store =
      let last = finish_tally (final_counts n store) (stored_salt store) in
      elim store [
        | none ↦
            create_tally
              (to_bytes_be32_buf (pos (lib.poseidon_int (replicate (suc max_choices) (pos 0)))))
            ∷ last
            ∷ []
        | some s ↦ last ∷ []
      ]

  unfoldable pub on_finish_tally : Env → ℕ → Ui → Ui
  on_finish_tally env n ui =
      if ui.busy
      then record ui { busy = false }
      else if not env.wallet
      then failed finish send no_wallet ui
      else if not (env.sends (finish_instructions n ui.store))
      then failed finish send send_failed ui
      else record ui { error = none; busy = false; stage = some finished; flow = some finish }

-- `confirmed` is the answer to the dialog, `fetched` the total of votes that `refreshRemaining` gets, `none` if
-- that fails. It is the closure over the store before the reset, which it subtracts.
unfoldable pub on_reset_tally : Bool → Option ℕ → Ui → Ui
on_reset_tally confirmed fetched ui = elim ui.store [
  | none ↦ ui
  | some s ↦
      if confirmed
      then record {
        store = none;
        saved = none;
        error = none;
        busy = ui.busy;
        remaining = lower s.processed_count fetched;
        stage = none;
        flow = none;
      }
      else ui
]
