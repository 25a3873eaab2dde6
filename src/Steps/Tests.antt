-- ===== src/Steps/Tests.antt =====
-- The steps of the form that creates a poll, when the transaction has failed.
use mootvote.Base.{◌≡◌, refl, [], ◌∷◌, none, some, true, false}
use mootvote.Keyring.{arrays_equal}
use mootvote.Steps.{
  error, todo, done, find_index, current_index, state_for_index, states_from, step_states,
}
use mootvote.Tagged.{codes}

transaction_failed :
    step_states true (some (codes "tx")) none (codes "upload" ∷ codes "tx" ∷ codes "done" ∷ [])
    ≡ done ∷ error ∷ todo ∷ []
unfolding step_states states_from state_for_index current_index find_index arrays_equal
transaction_failed = refl

all_done :
    step_states false (some (codes "done")) none (codes "upload" ∷ codes "tx" ∷ codes "done" ∷ [])
    ≡ done ∷ done ∷ done ∷ []
unfolding step_states states_from state_for_index current_index find_index arrays_equal
all_done = refl
