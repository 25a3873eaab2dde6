-- ===== src/Tally/Outcome.antt =====
-- What a run of `onTallyNext` leaves behind (frontend/src/components/Tally.tsx).
use mootvote.Base.{
  ℕ, suc, ◌+◌, ◌*◌, ◌^◌, ◌<◌, ◌≤◌, ◌≡◌, ◌⊎◌, refl, ap, ◌∙◌, arith, List, [], ◌∷◌, Option, none,
  some, true, false, length, inl, inr, Bool-cases, All,
}
use mootvote.Bytes.Value.{IsByte}
use native.Mathlib.Nat.{pow-suc, mul-le-mul_right}
use mootvote.Tally.Defs.{
  TallyStore, VoteRow, Library, TallyError, send_failed, save_failed, ok, err,
}
use mootvote.Tally.Laws.{Lawful}
use mootvote.Tally.Runs.{Readable, cast_all}
use mootvote.Tally.Begin.{
  IsStore, IsStored, stored_leaves, IsExternal, IsProved, prove_stage-IsProved,
}
use mootvote.Tally.Next.{
  Ui, Env, Stage, prove, send, finished, Flow, batch, salt_of, Proved, new_store, fetch_stage,
  last_id, prove_stage, send_stage, batch_instructions,
}
use mootvote.Tally.Handlers.{failed, on_tally_next, lower}

abbrev pub stored_count : Option TallyStore → ℕ
stored_count none = 0
stored_count (some s) = s.processed_count

pub salt_of-lt : (x : ℕ) (bs : List ℕ) → All IsByte bs → salt_of x bs < (x + 1) * 256 ^ length bs
unfolding salt_of
salt_of-lt x [] h = omega arith
salt_of-lt x (b ∷ bs) h =
    let rest = salt_of-lt (x * 256 + b) bs h.1 in
    let P = 256 ^ length bs in
    let wide : (x * 256 + b + 1) * P ≤ ((x + 1) * 256) * P =
      mul-le-mul_right P (omega (arith, h.0)) in
    let grown : (x + 1) * 256 ^ suc (length bs) ≡ ((x + 1) * 256) * P =
      ap (λ (t : ℕ). (x + 1) * t) (pow-suc 256 (length bs)) ∙ omega arith in
    let bound : salt_of (x * 256 + b) bs < (x + 1) * 256 ^ suc (length bs) =
      omega (arith, rest, wide, grown) in
    bound

module _ (lib : Library) (laws : Lawful lib) where
  -- What a successful run on `rows` writes.
  pub record IsAdvance (n sk : ℕ) (before : Option TallyStore) (rows : List VoteRow)
      (s : TallyStore) : Type 0 where
    pub sound : IsStore n s
    pub meaning : s.leaves ≡ cast_all lib laws sk (stored_leaves before) rows
    pub counted : s.processed_count ≡ stored_count before + length rows
    pub after_last : s.processed_after_id ≡ last_id 0 rows

  -- The state after a run: a new store, or the old one with an error.
  pub record IsDone (n sk : ℕ) (before : Ui) (rows : List VoteRow) (after : Ui) : Type 0 where
    pub s : TallyStore
    pub stored : after.store ≡ some s
    pub saved : after.saved ≡ some s
    pub no_error : after.error ≡ none
    pub lowered : after.remaining ≡ lower (length rows) before.remaining
    pub advance : IsAdvance n sk before.store rows s

  pub record IsFailed (before after : Ui) : Type 0 where
    pub e : TallyError
    pub error : after.error ≡ some e
    pub external : IsExternal e
    pub same_store : after.store ≡ before.store
    pub same_saved : after.saved ≡ before.saved
    pub same_remaining : after.remaining ≡ before.remaining

  stays :
      (flow : Flow) (stage : Stage) (ui : Ui) (e : TallyError) (rows : List VoteRow) (n sk : ℕ)
      → IsExternal e
      → ((failed flow stage e ui).busy ≡ false)
        × (IsDone n sk ui rows (failed flow stage e ui) ⊎ IsFailed ui (failed flow stage e ui))
  stays flow stage ui e rows n sk ext = (
    refl,
    inr (record {
      e = e;
      error = refl;
      external = ext;
      same_store = refl;
      same_saved = refl;
      same_remaining = refl;
    }),
  )

  pub new_store-IsAdvance :
      (poll_id : ℕ) (account_id : List ℕ) (env : Env) (n sk : ℕ) (before : Option TallyStore)
      (rows : List VoteRow) (p : Proved lib)
      → IsProved lib laws n sk env before rows p
      → IsAdvance n sk before rows (new_store lib poll_id account_id before rows p)
  unfolding new_store
  new_store-IsAdvance poll_id account_id env n sk before rows p h =
      let done = h.run.consistent in
      record {
        sound = record {
          bounded = done.bounded;
          distinct = done.distinct;
          one_each = done.one_each;
          counted = done.counted;
        };
        meaning = h.run.meaning ∙ ap (λ l. cast_all lib laws sk l rows) h.same_leaves;
        counted = count before;
        after_last = refl;
      }
    where
      count :
          (before : Option TallyStore)
          → elim before [ none ↦ 0 | some s ↦ s.processed_count ] + length rows
            ≡ stored_count before + length rows
      count none = refl
      count (some s) = refl

  module _ (env : Env) (n poll_id sk : ℕ) (account_id : List ℕ) (rows : List VoteRow) (ui : Ui)
      (fetched : fetch_stage lib env ≡ ok (sk, rows)) (idle : ui.busy ≡ false) where
    stopped_proving :
        (e : TallyError)
        → prove_stage lib env n ui.store sk rows ≡ err e
        → on_tally_next lib env n poll_id account_id ui ≡ failed batch prove e ui
    unfolding on_tally_next
    stopped_proving e h = rw idle (rw fetched (rw h refl))

    module _ (p : Proved lib) (proved : prove_stage lib env n ui.store sk rows ≡ ok p) where
      stopped_sending :
          (e : TallyError)
          → send_stage lib env poll_id account_id ui.store rows p ≡ err e
          → on_tally_next lib env n poll_id account_id ui ≡ failed batch send e ui
      unfolding on_tally_next
      stopped_sending e h = rw idle (rw fetched (rw proved (rw h refl)))

      ran_through :
          (s : TallyStore)
          → send_stage lib env poll_id account_id ui.store rows p ≡ ok s
          → on_tally_next lib env n poll_id account_id ui ≡ record {
            store = some s;
            saved = some s;
            error = none;
            busy = false;
            remaining = lower (length rows) ui.remaining;
            stage = some finished;
            flow = some batch;
          }
      unfolding on_tally_next
      ran_through s h = rw idle (rw fetched (rw proved (rw h refl)))

  send_stage-cases :
      (env : Env) (poll_id : ℕ) (account_id : List ℕ) (store : Option TallyStore)
      (rows : List VoteRow) (p : Proved lib)
      → ((e : TallyError) × (send_stage lib env poll_id account_id store rows p ≡ err e)
          × IsExternal e)
        ⊎ (send_stage lib env poll_id account_id store rows p
            ≡ ok (new_store lib poll_id account_id store rows p))
  unfolding send_stage
  send_stage-cases env poll_id account_id store rows p =
      elim (Bool-cases (env.sends (batch_instructions lib store p))) [
        | inr e ↦ inl (send_failed, rw e refl, tt)
        | inl e ↦ elim (Bool-cases env.saves) [
          | inr e' ↦ inl (save_failed, rw (e, e') refl, tt)
          | inl e' ↦ inr (rw (e, e') refl)
        ]
      ]

  fetch_stage-ok :
      (env : Env) (sk : ℕ) (v : VoteRow) (vs : List VoteRow)
      → env.wallet ≡ true
      → env.tallier_sk ≡ some sk
      → env.page ≡ some (v ∷ vs)
      → fetch_stage lib env ≡ ok (sk, v ∷ vs)
  unfolding fetch_stage
  fetch_stage-ok env sk v vs wallet key page = rw wallet (rw key (rw page refl))

  -- A run with a wallet, a key and a page of votes that the key reads, on a component that is not busy
  -- and whose store is sound, ends and clears `busy`. Either the state and the browser both hold the
  -- same new store, sound again, whose leaves are what the votes mean, whose count has grown by the
  -- votes and which names the last of them, and their number is taken off the remaining votes; or the error is one of the prover, of the program or of the browser's storage, and the store,
  -- what the browser holds and the number of remaining votes are as before.
  pub on_tally_next-IsOutcome :
      (env : Env) (n poll_id sk : ℕ) (account_id : List ℕ) (v : VoteRow) (vs : List VoteRow)
      (ui : Ui)
      → env.wallet ≡ true
      → env.tallier_sk ≡ some sk
      → env.page ≡ some (v ∷ vs)
      → All (Readable lib laws n sk) (v ∷ vs)
      → ui.busy ≡ false
      → IsStored n ui.store
      → ((on_tally_next lib env n poll_id account_id ui).busy ≡ false)
        × (IsDone n sk ui (v ∷ vs) (on_tally_next lib env n poll_id account_id ui)
            ⊎ IsFailed ui (on_tally_next lib env n poll_id account_id ui))
  on_tally_next-IsOutcome env n poll_id sk account_id v vs ui wallet key page readable idle h =
      let fetched = fetch_stage-ok env sk v vs wallet key page in
      elim (prove_stage-IsProved lib laws env n sk ui.store (v ∷ vs) h readable) [
        | inl (e, proved, ext) ↦
            rw (stopped_proving env n poll_id sk account_id (v ∷ vs) ui fetched idle e proved)
              (stays batch prove ui e (v ∷ vs) n sk ext)
        | inr (p, proved, good) ↦
            elim (send_stage-cases env poll_id account_id ui.store (v ∷ vs) p) [
              | inl (e, sent, ext) ↦
                  rw
                    (stopped_sending env n poll_id sk account_id (v ∷ vs) ui fetched idle p proved e
                      sent)
                    (stays batch send ui e (v ∷ vs) n sk ext)
              | inr sent ↦
                  rw
                    (ran_through env n poll_id sk account_id (v ∷ vs) ui fetched idle p proved _
                      sent)
                    (
                      refl,
                      inl (record {
                        s = new_store lib poll_id account_id ui.store (v ∷ vs) p;
                        stored = refl;
                        saved = refl;
                        no_error = refl;
                        lowered = refl;
                        advance =
                            new_store-IsAdvance poll_id account_id env n sk ui.store (v ∷ vs) p
                              good;
                      }),
                    )
            ]
      ]
