-- ===== src/Steps.antt =====
-- The card of steps that the pages show (frontend/src/components/StepperCard.tsx).
pub mod Shown
mod Tests
use mootvote.Base.{
  ℕ, zero, suc, ◌+◌, List, [], ◌∷◌, Option, none, some, Bool, true, false, ◌&&◌, ◌||◌, ◌==◌, not,
  ltb, if◌then◌else◌, length,
}
use mootvote.Blob.{Text}
use mootvote.Keyring.{arrays_equal}

pub data StepState : Type 0 where
  error todo done active : StepState

-- `steps.findIndex((s) => s.key === currentKey)`; `none` is -1.
unfoldable pub find_index : Text → List Text → Option ℕ
find_index key [] = none
find_index key (k ∷ ks) =
    if arrays_equal k key
    then some 0
    else elim (find_index key ks) [ none ↦ none | some i ↦ some (suc i) ]

-- `!currentKey`
abbrev pub is_unset : Text → Bool
is_unset key = length key == 0

unfoldable pub current_index : Option Text → List Text → Option ℕ
current_index none keys = none
current_index (some key) keys = if is_unset key then none else find_index key keys

abbrev pub same_key : Option Text → Text → Bool
same_key none key = false
same_key (some k) key = not (is_unset k) && arrays_equal k key

-- Of step `i` with key `key`, out of `count`; `failed` says whether there is an error text.
unfoldable pub state_for_index :
    Bool → Option Text → Option Text → Option ℕ → ℕ → ℕ → Text → StepState
state_for_index failed current final_key index count i key =
    if failed && same_key current key then error else elim index [
      | none ↦ todo
      | some c ↦
          if ltb i c
          then done
          else if i == c
          then if (suc i == count) || elim current [ none ↦ false | some k ↦ same_key final_key k ]
            then done
            else active
          else todo
    ]

unfoldable pub states_from :
    Bool → Option Text → Option Text → Option ℕ → ℕ → ℕ → List Text → List StepState
states_from failed current final_key index count i [] = []
states_from failed current final_key index count i (key ∷ keys) =
    state_for_index failed current final_key index count i key
    ∷ states_from failed current final_key index count (suc i) keys

unfoldable pub step_states : Bool → Option Text → Option Text → List Text → List StepState
step_states failed current final_key keys =
    states_from failed current final_key (current_index current keys) (length keys) 0 keys
