-- ===== src/Events/Traces.antt =====
-- The log that the runtime writes of nested calls, and its events.
use mootvote.Base.{
  ℕ, zero, suc, ◌+◌, ◌≡◌, refl, sym, ap, ◌∙◌, arith, List, [], ◌∷◌, ◌++◌, append-nil, append_assoc,
  Option, none, some, Bool, true, false, ◌==◌, ==_iff, ltb, if◌then◌else◌, All, inl, inr,
  Bool-cases, ◌/◌, ◌%◌,
}
use mootvote.Blob.{Text}
use mootvote.Decimal.{decimal, digits_loop}
use mootvote.Decimal.Value.{IsDigit, decimal-All}
use mootvote.Keyring.{arrays_equal}
use mootvote.Events.{
  Event, strip_prefix, span, is_base58, is_digit, program_text, invoke_text, success_text,
  data_text, is_empty, program_of, depth_ends, invoke_match, success_test, top_is, event_of,
  data_of, events_loop, get_events,
}

-- What happens in a program's run: data that it logs, another line, and a call of another program.
pub data Trace : Type 0 where
  ended : Trace
  emit : Text → Trace → Trace
  note : Text → Trace → Trace
  call : Text → Trace → Trace → Trace

abbrev pub invoke_line : Text → ℕ → Text
invoke_line id depth = program_text ++ (id ++ (invoke_text ++ (decimal depth ++ (93 ∷ []))))

abbrev pub success_line : Text → Text
success_line id = program_text ++ (id ++ success_text)

-- The log of a run whose calls succeed, at a depth of calls.
abbrev pub log_of : ℕ → Trace → List Text
log_of depth ended = []
log_of depth (emit s rest) = (program_text ++ (data_text ++ s)) ∷ log_of depth rest
log_of depth (note s rest) = s ∷ log_of depth rest
log_of depth (call id body rest) =
    invoke_line id depth ∷ (log_of (suc depth) body ++ (success_line id ∷ log_of depth rest))

-- A base58 id has at least one character.
abbrev pub IsId : Text → Type 0
IsId id = (is_empty id ≡ false) × All (λ (c : ℕ). is_base58 c ≡ true) id

-- The ids are base58, and no other line looks like one of the three kinds.
abbrev pub IsTrace : Trace → Type 0
IsTrace ended = Unit
IsTrace (emit s rest) = IsTrace rest
IsTrace (note s rest) =
    (invoke_match s ≡ none)
    × (success_test s ≡ false)
    × (strip_prefix (program_text ++ data_text) s ≡ none)
    × IsTrace rest
IsTrace (call id body rest) = IsId id × IsTrace body × IsTrace rest

strip_prefix-append : (p s : Text) → strip_prefix p (p ++ s) ≡ some s
unfolding strip_prefix
strip_prefix-append [] s = refl
strip_prefix-append (c ∷ p) s =
    let same : (c == c) ≡ true = (==_iff c c).1 refl in rw same (strip_prefix-append p s)

span-append :
    (f : ℕ → Bool) (s rest : Text) (c : ℕ)
    → All (λ (b : ℕ). f b ≡ true) s
    → f c ≡ false
    → span f (s ++ (c ∷ rest)) ≡ (s, c ∷ rest)
unfolding span
span-append f [] rest c h e = rw e refl
span-append f (b ∷ s) rest c (hb, hs) e = let ih = span-append f s rest c hs e in rw (hb, ih) refl

program_of-id :
    (id rest : Text) (c : ℕ)
    → IsId id
    → is_base58 c ≡ false
    → program_of (program_text ++ (id ++ (c ∷ rest))) ≡ some (id, c ∷ rest)
unfolding program_of strip_prefix
program_of-id id rest c h e = rw (span-append is_base58 id rest c h.1 e) (rw h.0 refl)

digits_loop-filled :
    (rounds n b : ℕ) (out : List ℕ) → is_empty (digits_loop rounds n (b ∷ out)) ≡ false
unfolding digits_loop
digits_loop-filled zero n b out = refl
digits_loop-filled (suc rounds) n b out = elim (Bool-cases (ltb n 10)) [
  | inl e ↦ rw (e, digits_loop) refl
  | inr e ↦ rw (e, digits_loop) (digits_loop-filled rounds (n / 10) (48 + n % 10) (b ∷ out))
]

decimal-filled : (n : ℕ) → is_empty (decimal n) ≡ false
unfolding decimal digits_loop
decimal-filled n = elim (Bool-cases (ltb n 10)) [
  | inl e ↦ rw (e, digits_loop) refl
  | inr e ↦ rw (e, digits_loop) (digits_loop-filled n (n / 10) (48 + n % 10) [])
]

digits-All : (s : Text) → All IsDigit s → All (λ (c : ℕ). is_digit c ≡ true) s
digits-All [] h = tt
digits-All (c ∷ s) (d, h) = (ground arith, digits-All s h)

depth_ends-decimal : (n : ℕ) → depth_ends (decimal n ++ (93 ∷ [])) ≡ true
unfolding depth_ends arrays_equal
depth_ends-decimal n =
    rw (span-append is_digit (decimal n) [] 93 (digits-All (decimal n) (decimal-All n)) refl)
      (rw (decimal-filled n) refl)

-- The three kinds of lines are told apart.
invoke_match-invoke_line :
    (id : Text) (depth : ℕ) → IsId id → invoke_match (invoke_line id depth) ≡ some id
unfolding invoke_match strip_prefix
invoke_match-invoke_line id depth h =
    let found =
      program_of-id id (105 ∷ 110 ∷ 118 ∷ 111 ∷ 107 ∷ 101 ∷ 32 ∷ 91 ∷ (decimal depth ++ (93 ∷ [])))
        32 h refl in
    rw (found, invoke_match) (rw (depth_ends-decimal depth) refl)

success_line-Closes :
    (id : Text)
    → IsId id
    → (invoke_match (success_line id) ≡ none) × (success_test (success_line id) ≡ true)
unfolding invoke_match success_test strip_prefix arrays_equal
success_line-Closes id h =
    let found = program_of-id id (115 ∷ 117 ∷ 99 ∷ 99 ∷ 101 ∷ 115 ∷ 115 ∷ []) 32 h refl in
    (rw (found, invoke_match) refl, rw (found, success_test) refl)

data_line-IsPlain :
    (s : Text)
    → (invoke_match (program_text ++ (data_text ++ s)) ≡ none)
      × (success_test (program_text ++ (data_text ++ s)) ≡ false)
unfolding invoke_match success_test program_of strip_prefix span arrays_equal
data_line-IsPlain s = (refl, refl)

module _ {E : Type 0} (decode : Text → Option (Event E)) (program_id event_name : Text) where
  -- The events of a run, by the stack of the calls that it is in: those that the program itself logs.
  abbrev pub events_of : List Text → Trace → List E
  events_of stack ended = []
  events_of stack (emit s rest) =
      (if top_is program_id stack then event_of decode program_id event_name s else [])
      ++ events_of stack rest
  events_of stack (note s rest) = events_of stack rest
  events_of stack (call id body rest) = events_of (id ∷ stack) body ++ events_of stack rest

  abbrev loop : List Text → List E → List Text → List E
  loop stack results logs = events_loop decode program_id event_name stack results logs

  closes :
      (id : Text) (stack : List Text) (results : List E) (logs : List Text)
      → IsId id
      → loop (id ∷ stack) results (success_line id ∷ logs) ≡ loop stack results logs
  unfolding events_loop
  closes id stack results logs h =
      let (no_call, success) = success_line-Closes id h in rw (no_call, success, events_loop) refl

  events_loop-log_of :
      (t : Trace) (depth : ℕ) (stack : List Text) (results : List E) (more : List Text)
      → IsTrace t
      → loop stack results (log_of depth t ++ more) ≡ loop stack (results ++ events_of stack t) more
  unfolding events_loop data_of strip_prefix
  events_loop-log_of ended depth stack results more h = rw (append-nil results) refl
  events_loop-log_of (emit s rest) depth stack results more h =
      let (plain, open_line) = data_line-IsPlain s in
      let here = if top_is program_id stack then event_of decode program_id event_name s else [] in
      rw (plain, open_line, events_loop)
        (events_loop-log_of rest depth stack (results ++ here) more h
          ∙ ap (λ (r : List E). loop stack r more)
              (append_assoc results here (events_of stack rest)))
  events_loop-log_of (note s rest) depth stack results more (a, b, c, h) =
      let none_here : data_of decode program_id event_name stack s ≡ [] = rw (c, data_of) refl in
      rw (a, b, events_loop)
        (ap (λ (r : List E). loop stack (results ++ r) (log_of depth rest ++ more)) none_here
          ∙ ap (λ (r : List E). loop stack r (log_of depth rest ++ more)) (append-nil results)
          ∙ events_loop-log_of rest depth stack results more h)
  events_loop-log_of (call id body rest) depth stack results more (hid, hb, hr) =
      let inner = log_of (suc depth) body in
      let outer = log_of depth rest in
      let inside = events_of (id ∷ stack) body in
      rw (invoke_match-invoke_line id depth hid, events_loop)
        (ap (loop (id ∷ stack) results) (append_assoc inner (success_line id ∷ outer) more)
          ∙ events_loop-log_of body (suc depth) (id ∷ stack) results
              (success_line id ∷ (outer ++ more)) hb
          ∙ closes id stack (results ++ inside) (outer ++ more) hid
          ∙ events_loop-log_of rest depth stack (results ++ inside) more hr
          ∙ ap (λ (r : List E). loop stack r more)
              (append_assoc results inside (events_of stack rest)))

  -- From the log of a run in which every call succeeds, however the calls are nested, getEvents reads
  -- the events that the program itself has logged, of the name that is asked for and in their order;
  -- what other programs log, even in calls by or of the program, is left out.
  pub get_events-log_of :
      (t : Trace) (depth : ℕ)
      → IsTrace t
      → get_events decode program_id event_name (log_of depth t) ≡ events_of [] t
  unfolding get_events events_loop
  get_events-log_of t depth h =
      ap (loop [] []) (sym (append-nil (log_of depth t))) ∙ events_loop-log_of t depth [] [] [] h
