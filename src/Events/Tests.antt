-- ===== src/Events/Tests.antt =====
-- Runs.
use mootvote.Base.{◌≡◌, refl, [], ◌∷◌, Option, some}
use mootvote.Blob.{Text}
use mootvote.Events.{Event, strip_prefix, span, program_of, invoke_match, success_test, get_events}
use mootvote.Events.Traces.{
  Trace, ended, emit, note, call, log_of, IsTrace, events_of, get_events-log_of,
}

abbrev decode : Text → Option (Event Text)
decode s = some (record { name = 86 ∷ []; payload = s })

-- The program "A" logs data, calls "B", which logs data too, and logs again.
abbrev nested : Trace
nested =
    call (65 ∷ [])
      (emit (1 ∷ []) (call (66 ∷ []) (emit (2 ∷ []) ended) (note (80 ∷ []) (emit (3 ∷ []) ended))))
      ended

nested-IsTrace : IsTrace nested
unfolding invoke_match success_test program_of strip_prefix span
nested-IsTrace = ((refl, (refl, tt)), ((refl, (refl, tt)), tt, (refl, refl, refl, tt)), tt)

get_events-log_of_example :
    get_events decode (65 ∷ []) (86 ∷ []) (log_of 1 nested)
    ≡ events_of decode (65 ∷ []) (86 ∷ []) [] nested
get_events-log_of_example = get_events-log_of decode (65 ∷ []) (86 ∷ []) nested 1 nested-IsTrace
