-- ===== src/Events.antt =====
-- The events in a transaction's log (ts-sdk/src/events.ts).
pub mod Traces
mod Tests
use mootvote.Base.{
  ℕ, List, [], ◌∷◌, ◌++◌, Option, none, some, Bool, true, false, ◌&&◌, ◌||◌, ◌==◌, leb,
  if◌then◌else◌,
}
use mootvote.Blob.{Text}
use mootvote.Keyring.{arrays_equal}

-- An event as the coder gives it.
pub record Event (E : Type 0) : Type 0 where
  pub name : Text
  pub payload : E

-- What follows a prefix, if the text starts with it.
unfoldable pub strip_prefix : Text → Text → Option Text
strip_prefix [] s = some s
strip_prefix (c ∷ p) [] = none
strip_prefix (c ∷ p) (d ∷ s) = if c == d then strip_prefix p s else none

-- The longest part in front of characters that pass, and the rest.
unfoldable pub span : (ℕ → Bool) → Text → Text × Text
span f [] = ([], [])
span f (c ∷ s) = let rest = span f s in if f c then (c ∷ rest.0, rest.1) else ([], c ∷ s)

-- `[1-9A-HJ-NP-Za-km-z]`
abbrev pub is_base58 : ℕ → Bool
is_base58 c =
    (leb 49 c && leb c 57)
    || (leb 65 c && leb c 72)
    || (leb 74 c && leb c 78)
    || (leb 80 c && leb c 90)
    || (leb 97 c && leb c 107)
    || (leb 109 c && leb c 122)

abbrev pub is_digit : ℕ → Bool
is_digit c = leb 48 c && leb c 57

-- "Program ", " invoke [", " success", " failed" and "data: "
abbrev pub program_text : Text
program_text = 80 ∷ 114 ∷ 111 ∷ 103 ∷ 114 ∷ 97 ∷ 109 ∷ 32 ∷ []

abbrev pub invoke_text : Text
invoke_text = 32 ∷ 105 ∷ 110 ∷ 118 ∷ 111 ∷ 107 ∷ 101 ∷ 32 ∷ 91 ∷ []

abbrev pub success_text : Text
success_text = 32 ∷ 115 ∷ 117 ∷ 99 ∷ 99 ∷ 101 ∷ 115 ∷ 115 ∷ []

abbrev pub failed_text : Text
failed_text = 32 ∷ 102 ∷ 97 ∷ 105 ∷ 108 ∷ 101 ∷ 100 ∷ []

abbrev pub data_text : Text
data_text = 100 ∷ 97 ∷ 116 ∷ 97 ∷ 58 ∷ 32 ∷ []

abbrev pub is_empty : Text → Bool
is_empty [] = true
is_empty (c ∷ s) = false

-- A program's id behind "Program ", and what follows.
unfoldable pub program_of : Text → Option (Text × Text)
program_of log = elim (strip_prefix program_text log) [
  | none ↦ none
  | some rest ↦ let (id, s) = span is_base58 rest in if is_empty id then none else some (id, s)
]

-- The `\d+\]$` at the end of `INVOKE_RE`.
unfoldable pub depth_ends : Text → Bool
depth_ends s =
    let (digits, rest) = span is_digit s in
    if is_empty digits then false else arrays_equal rest (93 ∷ [])

-- `INVOKE_RE.exec(log)`, by its group.
unfoldable pub invoke_match : Text → Option Text
invoke_match log = elim (program_of log) [
  | none ↦ none
  | some (id, s) ↦ elim (strip_prefix invoke_text s) [
    | none ↦ none
    | some depth ↦ if depth_ends depth then some id else none
  ]
]

-- `SUCCESS_RE.test(log)`
unfoldable pub success_test : Text → Bool
success_test log = elim (program_of log) [
  | none ↦ false
  | some (id, s) ↦ arrays_equal s success_text || arrays_equal s failed_text
]

-- `stack.pop()`, on a stack with its top in front.
abbrev pub pop : List Text → List Text
pop [] = []
pop (id ∷ stack) = stack

abbrev pub top_is : Text → List Text → Bool
top_is program [] = false
top_is program (id ∷ stack) = arrays_equal id program

module _ {E : Type 0} (decode : Text → Option (Event E)) (program_id event_name : Text) where
  -- The payload of an event of the name that is asked for.
  unfoldable pub event_of : Text → List E
  event_of s = elim (decode s) [
    | none ↦ []
    | some event ↦ if arrays_equal event.name event_name then event.payload ∷ [] else []
  ]

  unfoldable pub data_of : List Text → Text → List E
  data_of stack log = elim (strip_prefix (program_text ++ data_text) log) [
    | none ↦ []
    | some s ↦ if top_is program_id stack then event_of s else []
  ]

  unfoldable pub events_loop : List Text → List E → List Text → List E
  events_loop stack results [] = results
  events_loop stack results (log ∷ logs) = elim (invoke_match log) [
    | some id ↦ events_loop (id ∷ stack) results logs
    | none ↦ elim (success_test log) [
      | true ↦ events_loop (pop stack) results logs
      | false ↦ events_loop stack (results ++ data_of stack log) logs
    ]
  ]

  unfoldable pub get_events : List Text → List E
  get_events logs = events_loop [] [] logs
