-- ===== src/PollCreate/LocalInput.antt =====
-- The dates that the form of frontend/src/pages/PollCreatePage.tsx opens with: `toLocalInputValue`,
-- and what `localInputToUnixSeconds` and the schema make of them.
use mootvote.Base.{
  ℕ, zero, suc, ◌+◌, ◌-◌, ◌*◌, ◌/◌, ◌≤◌, ◌<◌, ◌≡◌, ◌≢◌, refl, ap, ◌∙◌, arith, List, [], ◌∷◌, ◌++◌,
  none, some, false, ◌==◌, length, replicate, All, get_elem?,
}
use mootvote.Blob.{Text}
use mootvote.Bytes.{pad_start}
use mootvote.Decimal.{decimal}
use mootvote.Decimal.Value.{
  IsDigit, decimal_value, decimal_value-decimal, decimal-All, decimal_value-replicate,
}
use mootvote.Tagged.Numbers.{decimal_nonempty}
use mootvote.PollCreate.{Dates}
use mootvote.PollCreate.Form.{split_at, part, or_else, local_input_to_unix_seconds, date_issue}

-- A date by the getters of `Date`, in local time; the month is from 0.
pub record LocalParts : Type 0 where
  pub year : ℕ
  pub month : ℕ
  pub day : ℕ
  pub hour : ℕ
  pub minute : ℕ

-- `String(n).padStart(2, "0")`
unfoldable pub two_digits : ℕ → Text
two_digits n = pad_start 2 (decimal n)

unfoldable pub to_local_input_value : LocalParts → Text
to_local_input_value d =
    (decimal d.year ++ (45 ∷ (two_digits (d.month + 1) ++ (45 ∷ two_digits d.day))))
    ++ (84 ∷ (two_digits d.hour ++ (58 ∷ two_digits d.minute)))

-- The default values of `start` and `end`, at a time in milliseconds.
unfoldable pub default_start : (ℕ → LocalParts) → ℕ → Text
default_start parts_of now = to_local_input_value (parts_of (now + 60000))

unfoldable pub default_end : (ℕ → LocalParts) → ℕ → Text
default_end parts_of now = to_local_input_value (parts_of (now + 3660000))

Apart : ℕ → Text → Type 0
Apart sep s = All (λ c. (c == sep) ≡ false) s

digits-Apart :
    (sep : ℕ) (s : Text) → ((c : ℕ) → IsDigit c → (c == sep) ≡ false) → All IsDigit s → Apart sep s
unfolding Apart
digits-Apart sep [] h d = tt
digits-Apart sep (c ∷ s) h d = (h c d.0, digits-Apart sep s h d.1)

append-Apart :
    (sep : ℕ) (s : Text) (c : ℕ) (t : Text)
    → Apart sep s
    → (c == sep) ≡ false
    → Apart sep t
    → Apart sep (s ++ (c ∷ t))
unfolding Apart
append-Apart sep [] c t h e k = (e, k)
append-Apart sep (d ∷ s) c t h e k = (h.0, append-Apart sep s c t h.1 e k)

split_at-Apart : (sep : ℕ) (s : Text) → Apart sep s → split_at sep s ≡ s ∷ []
unfolding split_at Apart
split_at-Apart sep [] h = refl
split_at-Apart sep (c ∷ s) h = rw h.0 (rw (split_at-Apart sep s h.1) refl)

split_at-append :
    (sep : ℕ) (s t : Text) → Apart sep s → split_at sep (s ++ (sep ∷ t)) ≡ s ∷ split_at sep t
unfolding split_at Apart
split_at-append sep [] t h = ground arith
split_at-append sep (c ∷ s) t h = rw h.0 (rw (split_at-append sep s t h.1) refl)

replicate-All : (k : ℕ) (s : Text) → All IsDigit s → All IsDigit (replicate k 48 ++ s)
replicate-All zero s h = h
replicate-All (suc k) s h = (omega arith, replicate-All k s h)

replicate_nonempty : (k : ℕ) (s : Text) → length s ≢ 0 → length (replicate k 48 ++ s) ≢ 0
replicate_nonempty zero s h e = h e
replicate_nonempty (suc k) s h e = absurd (omega arith)

two_digits-All : (n : ℕ) → All IsDigit (two_digits n)
unfolding two_digits
two_digits-All n = replicate-All (2 - length (decimal n)) (decimal n) (decimal-All n)

abbrev date_text : LocalParts → Text
date_text d = decimal d.year ++ (45 ∷ (two_digits (d.month + 1) ++ (45 ∷ two_digits d.day)))

abbrev time_text : LocalParts → Text
time_text d = two_digits d.hour ++ (58 ∷ two_digits d.minute)

split_date :
    (d : LocalParts)
    → split_at 45 (date_text d) ≡ decimal d.year ∷ two_digits (d.month + 1) ∷ two_digits d.day ∷ []
split_date d =
    let dash = λ (s : Text) (h : All IsDigit s). digits-Apart 45 s (λ c r. ground arith) h in
    split_at-append 45 (decimal d.year) _ (dash _ (decimal-All d.year))
    ∙ ap (λ t. decimal d.year ∷ t)
        (split_at-append 45 (two_digits (d.month + 1)) _ (dash _ (two_digits-All (d.month + 1)))
          ∙ ap (λ t. two_digits (d.month + 1) ∷ t)
              (split_at-Apart 45 (two_digits d.day) (dash _ (two_digits-All d.day))))

split_time :
    (d : LocalParts) → split_at 58 (time_text d) ≡ two_digits d.hour ∷ two_digits d.minute ∷ []
split_time d =
    let colon = λ (s : Text) (h : All IsDigit s). digits-Apart 58 s (λ c r. ground arith) h in
    split_at-append 58 (two_digits d.hour) _ (colon _ (two_digits-All d.hour))
    ∙ ap (λ t. two_digits d.hour ∷ t)
        (split_at-Apart 58 (two_digits d.minute) (colon _ (two_digits-All d.minute)))

split_whole :
    (d : LocalParts) → split_at 84 (to_local_input_value d) ≡ date_text d ∷ time_text d ∷ []
unfolding to_local_input_value
split_whole d =
    let tee = λ (s : Text) (h : All IsDigit s). digits-Apart 84 s (λ c r. ground arith) h in
    split_at-append 84 (date_text d) (time_text d) (
      append-Apart 84 (decimal d.year) 45 _ (tee _ (decimal-All d.year)) refl (
        append-Apart 84 (two_digits (d.month + 1)) 45 _ (tee _ (two_digits-All (d.month + 1))) refl
          (tee _ (two_digits-All d.day))))
    ∙ ap (λ t. date_text d ∷ t)
        (split_at-Apart 84 (time_text d) (
          append-Apart 84 (two_digits d.hour) 58 _ (tee _ (two_digits-All d.hour)) refl
            (tee _ (two_digits-All d.minute))))

-- What is relied on of `Number`: the texts of decimal digits.
abbrev pub ReadsDigits : Dates → Type 0
ReadsDigits dates =
    (s : Text) → All IsDigit s → length s ≢ 0 → dates.number_of s ≡ some (decimal_value 0 s)

module _ (dates : Dates) (reads : ReadsDigits dates) where
  number_of-two_digits : (n : ℕ) → dates.number_of (two_digits n) ≡ some n
  unfolding two_digits
  number_of-two_digits n =
      let k = 2 - length (decimal n) in
      reads (two_digits n) (two_digits-All n)
        (replicate_nonempty k (decimal n) (decimal_nonempty n))
      ∙ ap some (decimal_value-replicate k (decimal n) ∙ decimal_value-decimal n)

  number_of-decimal : (n : ℕ) → dates.number_of (decimal n) ≡ some n
  number_of-decimal n =
      reads (decimal n) (decimal-All n) (decimal_nonempty n) ∙ ap some (decimal_value-decimal n)

  part-split_at :
      (sep i n : ℕ) (s t : Text) (l : List Text)
      → split_at sep s ≡ l
      → get_elem? l i ≡ some t
      → dates.number_of t ≡ some n
      → part dates sep i s ≡ some n
  unfolding part
  part-split_at sep i n s t l split at value = rw (split, part) (rw at value)

  -- What is written for a date is read as that date, to the minute; the days of a month are from 1.
  pub local_input_to_unix_seconds-to_local_input_value :
      (d : LocalParts)
      → 1 ≤ d.day
      → local_input_to_unix_seconds dates (to_local_input_value d)
        ≡ some (dates.local_date d.year d.month d.day d.hour d.minute / 1000)
  unfolding local_input_to_unix_seconds
  local_input_to_unix_seconds-to_local_input_value d h =
      let e0 = part-split_at 45 0 d.year _ _ _ (split_date d) refl (number_of-decimal d.year) in
      let e1 =
        part-split_at 45 1 (d.month + 1) _ _ _ (split_date d) refl
          (number_of-two_digits (d.month + 1)) in
      let e2 = part-split_at 45 2 d.day _ _ _ (split_date d) refl (number_of-two_digits d.day) in
      let e3 = part-split_at 58 0 d.hour _ _ _ (split_time d) refl (number_of-two_digits d.hour) in
      let e4 =
        part-split_at 58 1 d.minute _ _ _ (split_time d) refl (number_of-two_digits d.minute) in
      let m : or_else (some (d.month + 1)) 1 - 1 ≡ d.month = ground arith in
      let dd : or_else (some d.day) 1 ≡ d.day = ground arith in
      let hh : or_else (some d.hour) 0 ≡ d.hour = ground arith in
      let mm : or_else (some d.minute) 0 ≡ d.minute = ground arith in
      rw (split_whole d, local_input_to_unix_seconds)
        (rw e0 (rw (e1, e2, e3, e4) (rw (m, dd, hh, mm) refl)))

-- What is relied on of the local calendar: days are from 1, a local date is in the minute that it
-- names, and a text of a local date is parsed as that date.
pub record IsCalendar (dates : Dates) (parts_of : ℕ → LocalParts) (ms : ℕ) : Type 0 where
  pub from_1 : 1 ≤ (parts_of ms).day
  pub same_minute :
      let d = parts_of ms in
      dates.local_date d.year d.month d.day d.hour d.minute ≡ ms / 60000 * 60000
  pub parsed : dates.date_parse (to_local_input_value (parts_of ms)) ≡ some (ms / 60000 * 60000)

-- The form opens with dates that it accepts: whatever the time is, a poll of one hour that starts in the
-- next minute, at a full minute, as the schema parses the two texts and as they are sent. At both times
-- the local date names its minute and its text is parsed as that minute, and `Number` reads digits.
pub default_dates :
    (dates : Dates) (parts_of : ℕ → LocalParts) (now : ℕ)
    → ReadsDigits dates
    → IsCalendar dates parts_of (now + 60000)
    → IsCalendar dates parts_of (now + 3660000)
    → (start_at : ℕ) × (local_input_to_unix_seconds dates (default_start parts_of now)
        ≡ some start_at)
      × (local_input_to_unix_seconds dates (default_end parts_of now) ≡ some (start_at + 3600))
      × (now < start_at * 1000)
      × (start_at * 1000 ≤ now + 60000)
      × (date_issue
            (dates.date_parse (default_start parts_of now))
            (dates.date_parse (default_end parts_of now))
          ≡ none)
unfolding default_start default_end date_issue
default_dates dates parts_of now reads s e = (
  (now + 60000) / 60000 * 60,
  local_input_to_unix_seconds-to_local_input_value dates reads (parts_of (now + 60000)) s.from_1
      ∙ ap some (omega (arith, s.same_minute)),
  local_input_to_unix_seconds-to_local_input_value dates reads (parts_of (now + 3660000)) e.from_1
      ∙ ap some (omega (arith, e.same_minute)),
  omega arith,
  omega arith,
  rw (s.parsed, e.parsed) (ground arith),
)
