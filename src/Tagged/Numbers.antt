-- ===== src/Tagged/Numbers.antt =====
-- A bigint as a text: `toString`, and `BigInt` of a text, which reads what `toString` writes.
use mootvote.Base.{
  ℕ, zero, suc, ◌+◌, ◌-◌, ◌*◌, ◌/◌, ◌%◌, ◌≢◌, ◌≤◌, ◌<◌, ◌≡◌, refl, ap, ◌∙◌, arith, [], ◌∷◌, Option,
  none, some, false, ◌||◌, ◌&&◌, ◌==◌, leb, ltb, if◌then◌else◌, length, All, inl, inr, Bool-cases,
}
use mootvote.Base.Int.{ℤ, pos, negsuc}
use mootvote.Blob.{Text}
use mootvote.Decimal.{decimal, digits_loop}
use mootvote.Decimal.Value.{decimal_value, IsDigit, decimal_value-decimal, decimal-All}
use mootvote.Keyring.{trim_start, trim_end}

-- `toString` of a bigint.
unfoldable pub bigint_to_string : ℤ → Text
bigint_to_string (pos n) = decimal n
bigint_to_string (negsuc n) = 45 ∷ decimal (suc n)

-- The value of a digit, and 36 for any other character.
unfoldable pub digit_value : ℕ → ℕ
digit_value c =
    if leb 48 c && leb c 57
    then c - 48
    else if leb 97 c && leb c 122
    then c - 87
    else if leb 65 c && leb c 90
    then c - 55
    else 36

unfoldable pub radix_loop : ℕ → ℕ → Text → Option ℕ
radix_loop radix x [] = some x
radix_loop radix x (c ∷ s) =
    let rest = radix_loop radix (x * radix + digit_value c) s in
    if ltb (digit_value c) radix then rest else none

-- At least one digit.
unfoldable pub read_digits : ℕ → Text → Option ℕ
read_digits radix [] = none
read_digits radix (c ∷ s) = radix_loop radix 0 (c ∷ s)

abbrev pub negated : ℕ → ℤ
negated zero = pos 0
negated (suc n) = negsuc n

abbrev pub signed : (ℕ → ℤ) → Option ℕ → Option ℤ
signed sign none = none
signed sign (some n) = some (sign n)

-- After a first zero: the letter of a radix, or more decimal digits.
unfoldable pub read_zero : Text → Option ℕ
read_zero [] = some 0
read_zero (c ∷ s) =
    if c == 120 || c == 88
    then read_digits 16 s
    else if c == 111 || c == 79
    then read_digits 8 s
    else if c == 98 || c == 66
    then read_digits 2 s
    else radix_loop 10 0 (c ∷ s)

unfoldable pub read_integer : Text → Option ℤ
read_integer [] = some (pos 0)
read_integer (c ∷ s) =
    if c == 45
    then signed negated (read_digits 10 s)
    else if c == 43
    then signed pos (read_digits 10 s)
    else if c == 48
    then signed pos (read_zero s)
    else signed pos (read_digits 10 (c ∷ s))

-- `BigInt` of a text.
unfoldable pub string_to_bigint : Text → Option ℤ
string_to_bigint s = read_integer (trim_end (trim_start s))

radix_loop-digits :
    (x : ℕ) (s : Text) → All IsDigit s → radix_loop 10 x s ≡ some (decimal_value x s)
unfolding radix_loop digit_value
radix_loop-digits x [] h = refl
radix_loop-digits x (c ∷ s) h = ground (arith, radix_loop-digits (x * 10 + (c - 48)) s)

trim_end-digits : (s : Text) → All IsDigit s → trim_end s ≡ s
unfolding trim_end
trim_end-digits [] h = refl
trim_end-digits (c ∷ []) h = ground arith
trim_end-digits (c ∷ d ∷ s) h = rw (trim_end-digits (d ∷ s) h.1) refl

trim_start-digits : (s : Text) → All IsDigit s → trim_start s ≡ s
unfolding trim_start
trim_start-digits [] h = refl
trim_start-digits (c ∷ s) h = ground arith

read_zero-digits : (s : Text) → All IsDigit s → read_zero s ≡ some (decimal_value 0 s)
unfolding read_zero
read_zero-digits [] h = refl
read_zero-digits (c ∷ s) h = ground (arith, radix_loop-digits 0 (c ∷ s) h)

read_integer-digits :
    (c : ℕ) (s : Text)
    → All IsDigit (c ∷ s)
    → read_integer (c ∷ s) ≡ some (pos (decimal_value 0 (c ∷ s)))
unfolding read_integer read_digits
read_integer-digits c s h =
    let not_minus : (c == 45) ≡ false = ground arith in
    let not_plus : (c == 43) ≡ false = ground arith in
    rw not_minus (
      rw not_plus (elim (Bool-cases (c == 48)) [
        | inl e ↦
            rw (e, read_zero-digits s h.1)
              (ap (λ (t : ℕ). some (pos (decimal_value t s))) (ground arith))
        | inr e ↦ rw (e, radix_loop-digits 0 (c ∷ s) h) refl
      ]))

string_to_bigint-digits :
    (s : Text) → All IsDigit s → length s ≢ 0 → string_to_bigint s ≡ some (pos (decimal_value 0 s))
unfolding string_to_bigint
string_to_bigint-digits [] h ne = absurd (ne refl)
string_to_bigint-digits (c ∷ s) h ne =
    rw (trim_start-digits (c ∷ s) h, trim_end-digits (c ∷ s) h) (read_integer-digits c s h)

trim_end-minus : (s : Text) → All IsDigit s → trim_end (45 ∷ s) ≡ 45 ∷ s
unfolding trim_end
trim_end-minus [] h = refl
trim_end-minus (c ∷ s) h = rw (trim_end-digits (c ∷ s) h) refl

read_digits-digits :
    (s : Text) → All IsDigit s → length s ≢ 0 → read_digits 10 s ≡ some (decimal_value 0 s)
unfolding read_digits
read_digits-digits [] h ne = absurd (ne refl)
read_digits-digits (c ∷ s) h ne = radix_loop-digits 0 (c ∷ s) h

string_to_bigint-minus :
    (s : Text)
    → All IsDigit s
    → length s ≢ 0
    → string_to_bigint (45 ∷ s) ≡ some (negated (decimal_value 0 s))
unfolding string_to_bigint trim_start read_integer
string_to_bigint-minus s h ne = rw (trim_end-minus s h, read_digits-digits s h ne) refl

length-digits_loop_le : (rounds n : ℕ) (out : Text) → length out ≤ length (digits_loop rounds n out)
unfolding digits_loop
length-digits_loop_le zero n out = omega arith
length-digits_loop_le (suc rounds) n out = elim (Bool-cases (ltb n 10)) [
  | inl e ↦ rw (e, digits_loop) (omega arith)
  | inr e ↦
      let rest = length-digits_loop_le rounds (n / 10) ((48 + n % 10) ∷ out) in
      rw (e, digits_loop) (omega arith)
]

length-digits_loop_lt :
    (rounds n : ℕ) (out : Text) → length out < length (digits_loop (suc rounds) n out)
unfolding digits_loop
length-digits_loop_lt rounds n out = elim (Bool-cases (ltb n 10)) [
  | inl e ↦ rw (e, digits_loop) (omega arith)
  | inr e ↦
      let rest = length-digits_loop_le rounds (n / 10) ((48 + n % 10) ∷ out) in
      rw (e, digits_loop) (omega arith)
]

pub decimal_nonempty : (n : ℕ) → length (decimal n) ≢ 0
unfolding decimal
decimal_nonempty n e = let longer = length-digits_loop_lt n n [] in absurd (omega arith)

-- `BigInt` reads what `toString` writes, of negative numbers too.
pub string_to_bigint-bigint_to_string : (n : ℤ) → string_to_bigint (bigint_to_string n) ≡ some n
unfolding bigint_to_string
string_to_bigint-bigint_to_string (pos n) =
    string_to_bigint-digits (decimal n) (decimal-All n) (decimal_nonempty n)
    ∙ ap (λ t. some (pos t)) (decimal_value-decimal n)
string_to_bigint-bigint_to_string (negsuc n) =
    string_to_bigint-minus (decimal (suc n)) (decimal-All (suc n)) (decimal_nonempty (suc n))
    ∙ ap (λ t. some (negated t)) (decimal_value-decimal (suc n))
