-- ===== src/PollCreate/Tests.antt =====
-- A run of the form that creates a poll, with a small clock.
use mootvote.Base.{
  ℕ, ◌+◌, ◌*◌, ◌/◌, ◌%◌, ◌≤◌, ◌<◌, ◌≡◌, refl, arith, List, [], ◌∷◌, Option, none, some, true, false,
  replicate, length, All, ◌↔◌,
}
use mootvote.Blob.{Text}
use mootvote.Decimal.Value.{decimal_value}
use mootvote.Keyring.{trim_start, trim_end, Keyring, BabyJubKeypair}
use mootvote.Sdk.{Chain, Transaction}
use mootvote.PollCreate.{FormValues, Dates, CreateWorld}
use mootvote.PollCreate.Form.{
  local_input_to_unix_seconds, base_valid, all_filled, all_digits, is_root_text, split_at, part,
}
use mootvote.PollCreate.Handler.{Submitted, cleaned_choices, on_submit}
use mootvote.Decimal.{decimal, digits_loop}
use mootvote.PollCreate.LocalInput.{LocalParts, IsCalendar, to_local_input_value, two_digits}
use mootvote.PollCreate.Description.{
  max_title_len, check_description, described, bad_title, Fits, check_description-IsAccepted,
}
use mootvote.PollCreate.Trim.{rust_trim, js_trim}

abbrev clock : Dates
clock = record {
  date_parse = λ s. none;
  number_of = λ t. some (decimal_value 0 t);
  local_date = λ y m d hh mm. 60000 * (mm + 60 * hh);
}

abbrev in_ms : Option ℕ → Option ℕ
in_ms none = none
in_ms (some t) = some (1000 * t)

abbrev small_dates : Dates
small_dates = record clock { date_parse = λ s. in_ms (local_input_to_unix_seconds clock s) }

-- "1-1-1T10:00" and "1-1-1T11:00"
abbrev at_hour : ℕ → Text
at_hour h = 49 ∷ 45 ∷ 49 ∷ 45 ∷ 49 ∷ 84 ∷ 49 ∷ h ∷ 58 ∷ 48 ∷ 48 ∷ []

abbrev a_form : FormValues
a_form = record {
  title = 84 ∷ [];
  choices = (65 ∷ []) ∷ (32 ∷ 66 ∷ []) ∷ (32 ∷ []) ∷ [];
  active_tallier = true;
  tallier_x = [];
  tallier_y = [];
  start_at = at_hour 48;
  end_at = at_hour 49;
  fee_lamports = 53 ∷ [];
  census_bytes = replicate 32 7;
  census_count = some 1;
  census_root_hex = 48 ∷ 120 ∷ replicate 64 97;
}

abbrev creator : BabyJubKeypair
creator = record { name = 97 ∷ []; prv = 1 ∷ []; sk = 1; pub_key = (2, 3); created_at = 4 }

abbrev keyring : Keyring
keyring = record {
  locked = false;
  pass = [];
  accounts = creator ∷ [];
  active = 0;
  has_keyring = some true;
  import_status = none;
  db = none;
  saved_active = none;
}

abbrev small_chain : Chain
small_chain = record {
  program_id = 1 ∷ [];
  relayer_program_id = 2 ∷ [];
  system_program = 0 ∷ [];
  find_program_address = λ seeds program. some (length seeds ∷ program);
}

abbrev small_world : CreateWorld
small_world = record {
  wallet = some (3 ∷ []);
  can_sign = true;
  devnet = true;
  upload_item = λ bs content_type. some (length bs ∷ []);
  id_bytes = 9 ∷ [];
  blockhash = some (5 ∷ []);
  send_transaction = λ tx. true;
}

abbrev small_json : Text × List Text → List ℕ
small_json (title, choices) = length title ∷ length choices ∷ []

abbrev submitted : Submitted
submitted = on_submit small_dates small_json small_chain keyring small_world a_form

abbrev or_empty : Option Transaction → Transaction
or_empty none = record { units = 0; instructions = []; recent_blockhash = []; fee_payer = [] }
or_empty (some tx) = tx

abbrev parts_of : ℕ → LocalParts
parts_of ms = record { year = 1; month = 0; day = 1; hour = ms / 3600000; minute = ms / 60000 % 60 }

start-IsCalendar : IsCalendar small_dates parts_of (36025000 + 60000)
unfolding local_input_to_unix_seconds split_at part to_local_input_value two_digits decimal
    digits_loop
start-IsCalendar = record { from_1 = omega arith; same_minute = refl; parsed = refl }

end-IsCalendar : IsCalendar small_dates parts_of (36025000 + 3660000)
unfolding local_input_to_unix_seconds split_at part to_local_input_value two_digits decimal
    digits_loop
end-IsCalendar = record { from_1 = omega arith; same_minute = refl; parsed = refl }

check_description-IsAccepted_example :
    let cleaned = cleaned_choices a_form.choices in
    check_description (length cleaned) (js_trim a_form.title) cleaned
      ≡ described (js_trim a_form.title) cleaned
    ↔ (0 < length (js_trim a_form.title))
      × (length (js_trim a_form.title) ≤ max_title_len)
      × (0 < length cleaned)
      × All Fits cleaned
unfolding base_valid all_filled all_digits is_root_text trim_start trim_end cleaned_choices
check_description-IsAccepted_example =
    check_description-IsAccepted a_form refl (refl, tt) ((refl, tt), ((refl, tt), tt))

-- The form takes a title of 150 characters, the indexer does not.
abbrev long_form : FormValues
long_form = record a_form { title = replicate 150 84 }

long_valid : base_valid long_form ≡ true
unfolding base_valid all_filled all_digits is_root_text
long_valid = refl

long_refused :
    check_description 2 (js_trim long_form.title) (cleaned_choices long_form.choices) ≡ bad_title
unfolding check_description rust_trim trim_start trim_end
long_refused = refl
