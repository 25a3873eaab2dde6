-- ===== src/PollPage/Double.antt =====
-- The numbers of JavaScript, which frontend/src/pages/PollDetailPage.tsx divides, multiplies and
-- rounds: doubles, rounded to even at half, for operands from 0 to 2^53.
use native.Mathlib.Nat.{div-lt_iff_lt-mul, one-le-pow, mul-mod_left, mul-le-mul_right, pow-suc}
use mootvote.Base.{
  ℕ, zero, suc, ◌+◌, ◌*◌, ◌/◌, ◌%◌, ◌^◌, ◌<◌, ◌≤◌, ◌≡◌, ap, ◌∙◌, dec_lt, arith, true, ltb, leb,
  if◌then◌else◌, inl, inr, Bool-cases,
}

-- `mantissa` / 2 ^ `exponent`
pub record Double : Type 0 where
  pub mantissa : ℕ
  pub exponent : ℕ

-- The nearest integer to `n` / `d`, the even one if two are.
unfoldable pub nearest : ℕ → ℕ → ℕ
nearest n d =
    let q = n / d in
    let r = n % d in if ltb (2 * r) d then q else if ltb d (2 * r) then q + 1 else q + q % 2

-- The least exponent for which the mantissa of `n` / `d` has 53 bits, by the doublings left.
unfoldable pub exponent_of : ℕ → ℕ → ℕ → ℕ
exponent_of zero n d = 0
exponent_of (suc k) n d =
    let rest = exponent_of k (2 * n) d in if leb (2 ^ 52 * d) n then 0 else suc rest

-- `n / d` below 2^53. A quotient of numbers up to 2^53 that is not 0 needs at most 105 doublings
-- (`exponent_of-to_double`).
unfoldable pub to_double : ℕ → ℕ → Double
to_double n d =
    let e = exponent_of 106 n d in record { mantissa = nearest (n * 2 ^ e) d; exponent = e }

-- `x * k`
unfoldable pub times : Double → ℕ → Double
times x k = to_double (x.mantissa * k) (2 ^ x.exponent)

-- `Math.round`, upwards at half.
unfoldable pub math_round : Double → ℕ
math_round x = (2 * x.mantissa + 2 ^ x.exponent) / (2 * 2 ^ x.exponent)

doubled : (n k : ℕ) → n * 2 ^ suc k ≡ 2 * n * 2 ^ k
doubled n k = ap (λ (t : ℕ). n * t) (pow-suc 2 k) ∙ moved (2 ^ k)
  where
    moved : (p : ℕ) → n * (p * 2) ≡ 2 * n * p
    moved p = omega arith

-- With as many doublings as `n` needs to reach 2^52 * `d`, the mantissa has 53 bits.
exponent_of-enough :
    (k n d : ℕ) → 2 ^ 52 * d ≤ n * 2 ^ k → 2 ^ 52 * d ≤ n * 2 ^ exponent_of (suc k) n d
unfolding exponent_of
exponent_of-enough zero n d h =
    let now : leb (2 ^ 52 * d) n ≡ true = ground arith in rw (now, exponent_of) (omega (arith, h))
exponent_of-enough (suc k) n d h = elim (Bool-cases (leb (2 ^ 52 * d) n)) [
  | inl now ↦ rw (now, exponent_of) (ground arith)
  | inr later ↦
      let rest = exponent_of-enough k (2 * n) d (omega (arith, h, doubled n k)) in
      rw (later, exponent_of) (omega (arith, rest, doubled n (exponent_of (suc k) (2 * n) d)))
]

-- So the 106 rounds of `to_double` suffice for a quotient of numbers up to 2^53 that is not 0.
exponent_of-to_double : (n d : ℕ) → 0 < n → d ≤ 2 ^ 53 → 2 ^ 52 * d ≤ n * 2 ^ exponent_of 106 n d
exponent_of-to_double n d some_votes small = exponent_of-enough 105 n d (omega arith)

nearest-le : (n d k : ℕ) → 0 < d → n ≤ k * d → nearest n d ≤ k
unfolding nearest
nearest-le n d k pos h = elim (dec_lt n (k * d)) [
  | yes lt ↦ let below : n / d < k = (div-lt_iff_lt-mul pos).1 lt in ground arith
  | no ge ↦
      let same : n ≡ k * d = omega arith in
      let whole : n / d < suc k = (div-lt_iff_lt-mul pos).1 (ground arith) in
      let even : n % d ≡ 0 = rw same (mul-mod_left k d) in ground arith
]

-- At most the integer `k`.
abbrev pub IsUpToDouble : ℕ → Double → Type 0
IsUpToDouble k x = x.mantissa ≤ k * 2 ^ x.exponent

pub to_double-IsUpToDouble : (n d k : ℕ) → 0 < d → n ≤ k * d → IsUpToDouble k (to_double n d)
unfolding to_double
to_double-IsUpToDouble n d k pos h =
    let e = 2 ^ exponent_of 106 n d in
    nearest-le (n * e) d (k * e) pos
      (let scaled : n * e ≤ k * d * e = mul-le-mul_right e h in grind arith)

pub times-IsUpToDouble : (x : Double) (k : ℕ) → IsUpToDouble 1 x → IsUpToDouble k (times x k)
unfolding times
times-IsUpToDouble x k h =
    to_double-IsUpToDouble (x.mantissa * k) (2 ^ x.exponent) k
      (one-le-pow x.exponent 2 (omega arith))
      (let grown : x.mantissa * k ≤ 1 * 2 ^ x.exponent * k = mul-le-mul_right k h in grind arith)

pub math_round-le : (x : Double) (k : ℕ) → IsUpToDouble k x → math_round x ≤ k
unfolding math_round
math_round-le x k h =
    let one : 1 ≤ 2 ^ x.exponent = one-le-pow x.exponent 2 (omega arith) in
    let wide : 0 < 2 * 2 ^ x.exponent = omega (arith, one) in
    let small : 2 * x.mantissa + 2 ^ x.exponent < suc k * (2 * 2 ^ x.exponent) =
      grind (arith, one, h) in
    let below = (div-lt_iff_lt-mul wide).1 small in omega (arith, below)
