-- ===== src/Steps/Shown.antt =====
-- What the card shows (frontend/src/components/StepperCard.tsx).
use mootvote.Base.{
  ℕ, suc, ◌+◌, ◌≡◌, ◌<◌, refl, ap, arith, List, [], ◌∷◌, ◌++◌, Option, some, Bool, true, false,
  ◌||◌, ◌==◌, if◌then◌else◌, length, replicate, All, ltb, inl, inr, Bool-cases,
}
use mootvote.Blob.{Text}
use mootvote.Keyring.{arrays_equal}
use mootvote.Keyring.Checks.{arrays_equal→eq, arrays_equal_refl}
use mootvote.Steps.{
  StepState, error, todo, done, active, find_index, current_index, is_unset, same_key,
  state_for_index, states_from, step_states,
}

abbrev Other : Text → Text → Type 0
Other key k = arrays_equal key k ≡ false

-- The state of the current step.
abbrev pub here : Bool → Text → Option Text → Bool → StepState
here failed key final_key last =
    if failed then error else if last || same_key final_key key then done else active

module _ (failed : Bool) (key : Text) (final_key : Option Text)
    (filled : is_unset key ≡ false) where
  state_done :
      (c count i : ℕ) (k : Text)
      → i < c
      → Other key k
      → state_for_index failed (some key) final_key (some c) count i k ≡ done
  unfolding state_for_index
  state_done c count i k lt h = let before : ltb i c ≡ true = ground arith in ground arith

  state_todo :
      (c count i : ℕ) (k : Text)
      → c < i
      → Other key k
      → state_for_index failed (some key) final_key (some c) count i k ≡ todo
  unfolding state_for_index
  state_todo c count i k lt h = ground arith

  state_here :
      (c count i : ℕ)
      → c ≡ i
      → state_for_index failed (some key) final_key (some c) count i key
        ≡ here failed key final_key (suc c == count)
  unfolding state_for_index
  state_here c count i e =
      let now : (i == c) ≡ true = ground arith in
      let not_before : ltb i c ≡ false = ground arith in
      let same : same_key (some key) key ≡ true = simp (filled, arrays_equal_refl key) refl in
      ground arith

  todo_after :
      (keys : List Text) (c count i : ℕ)
      → c < i
      → All (Other key) keys
      → states_from failed (some key) final_key (some c) count i keys ≡ replicate (length keys) todo
  unfolding states_from
  todo_after [] c count i lt h = refl
  todo_after (k ∷ ks) c count i lt h =
      rw (state_todo c count i k lt h.0)
        (ap (λ t. todo ∷ t) (todo_after ks c count (suc i) (omega arith) h.1))

  states_lem :
      (before after : List Text) (c count i : ℕ)
      → c ≡ i + length before
      → All (Other key) before
      → All (Other key) after
      → states_from failed (some key) final_key (some c) count i (before ++ (key ∷ after))
        ≡ replicate (length before) done
          ++ (here failed key final_key (suc c == count) ∷ replicate (length after) todo)
  unfolding states_from
  states_lem [] after c count i e hb ha = rw (state_here c count i (omega arith)) (
      ap (λ t. here failed key final_key (suc c == count) ∷ t)
        (todo_after after c count (suc i) (omega arith) ha))
  states_lem (k ∷ before) after c count i e hb ha =
      rw (state_done c count i k (omega arith) hb.0)
        (ap (λ t. done ∷ t) (states_lem before after c count (suc i) (omega arith) hb.1 ha))

find_index-Other :
    (key : Text) (before after : List Text)
    → All (Other key) before
    → find_index key (before ++ (key ∷ after)) ≡ some (length before)
unfolding find_index
find_index-Other key [] after h = rw (arrays_equal_refl key) refl
find_index-Other key (k ∷ before) after h =
    let differs : arrays_equal k key ≡ false = elim (Bool-cases (arrays_equal k key)) [
      | inl e ↦
          let same : arrays_equal key k ≡ true =
            rw (arrays_equal→eq k key e) (arrays_equal_refl key) in
          cc
      | inr e ↦ e
    ] in
    rw differs (rw (find_index-Other key before after h.1) refl)

-- The steps before the current one are shown as done and those behind it as to be done, whatever the
-- error; the current one is the error's if there is one, else done if it is the last or the final
-- step, and active otherwise. The keys of the steps are distinct and the current one is not empty.
pub step_states_lem :
    (failed : Bool) (key : Text) (final_key : Option Text) (before after : List Text)
    → is_unset key ≡ false
    → All (Other key) before
    → All (Other key) after
    → step_states failed (some key) final_key (before ++ (key ∷ after))
      ≡ replicate (length before) done
        ++ (here failed key final_key (suc (length before) == length (before ++ (key ∷ after)))
            ∷ replicate (length after) todo)
unfolding step_states current_index
step_states_lem failed key final_key before after filled hb ha = rw filled (
    rw (find_index-Other key before after hb) (
      states_lem failed key final_key filled before after (length before)
        (length (before ++ (key ∷ after))) 0 (omega arith) hb ha))
