-- ===== src/Decimal/Value.antt =====
-- The number that decimal digits spell.
use mootvote.Base.{
  ℕ, zero, suc, ◌+◌, ◌-◌, ◌*◌, ◌/◌, ◌%◌, ◌^◌, ◌≤◌, ◌<◌, ◌≡◌, refl, ap, ◌∙◌, arith, List, [], ◌∷◌,
  ◌++◌, false, ltb, All, length, inl, inr, Bool-cases, replicate,
}
use mootvote.Decimal.{digits_loop, decimal}
use native.Mathlib.Nat.{pow-suc}

abbrev pub decimal_value : ℕ → List ℕ → ℕ
decimal_value x [] = x
decimal_value x (c ∷ s) = decimal_value (x * 10 + (c - 48)) s

abbrev pub IsDigit : ℕ → Type 0
IsDigit c = (48 ≤ c) × (c ≤ 57)

-- The loop writes digits that spell `n` in front, if it has enough rounds.
pub digits_loop-value :
    (rounds n : ℕ) (out : List ℕ)
    → n < rounds
    → (decimal_value 0 (digits_loop rounds n out) ≡ decimal_value n out)
      × (All IsDigit out → All IsDigit (digits_loop rounds n out))
unfolding digits_loop
digits_loop-value zero n out h = absurd (omega arith)
digits_loop-value (suc rounds) n out h = elim (Bool-cases (ltb n 10)) [
  | inl e ↦
      rw (e, digits_loop)
        (ap (λ (t : ℕ). decimal_value t out) (omega arith), λ d. (ground arith, d))
  | inr e ↦
      let rest = digits_loop-value rounds (n / 10) ((48 + n % 10) ∷ out) (ground arith) in
      rw (e, digits_loop)
        (rest.0 ∙ ap (λ (t : ℕ). decimal_value t out) (omega arith), λ d. rest.1 (omega arith, d))
]

pub length-digits_loop :
    (rounds n k : ℕ) (out : List ℕ)
    → n < 10 ^ suc k
    → length (digits_loop rounds n out) ≤ suc k + length out
unfolding digits_loop
length-digits_loop zero n k out h = omega arith
length-digits_loop (suc rounds) n k out h = elim (Bool-cases (ltb n 10)) [
  | inl e ↦ rw (e, digits_loop) (omega arith)
  | inr e ↦
      rw (e, digits_loop)
        (longer k h e (λ j lt. length-digits_loop rounds (n / 10) j ((48 + n % 10) ∷ out) lt))
]
  where
    longer :
        (k : ℕ)
        → n < 10 ^ suc k
        → ltb n 10 ≡ false
        → ((j : ℕ)
            → n / 10 < 10 ^ suc j
            → length (digits_loop rounds (n / 10) ((48 + n % 10) ∷ out)) ≤ suc j + suc (length out))
        → length (digits_loop rounds (n / 10) ((48 + n % 10) ∷ out)) ≤ suc k + length out
    longer zero h e rest = let big : 10 ≤ n = ground arith in absurd (omega arith)
    longer (suc k) h e rest = omega (arith, rest k (omega (arith, pow-suc 10 (suc k))))

pub decimal_value-decimal : (n : ℕ) → decimal_value 0 (decimal n) ≡ n
unfolding decimal
decimal_value-decimal n = (digits_loop-value (suc n) n [] (omega arith)).0

pub decimal-All : (n : ℕ) → All IsDigit (decimal n)
unfolding decimal
decimal-All n = (digits_loop-value (suc n) n [] (omega arith)).1 tt

pub decimal_value-replicate :
    (k : ℕ) (s : List ℕ) → decimal_value 0 (replicate k 48 ++ s) ≡ decimal_value 0 s
decimal_value-replicate zero s = refl
decimal_value-replicate (suc k) s = decimal_value-replicate k s
