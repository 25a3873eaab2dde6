-- ===== src/Decimal/Sol.antt =====
-- An amount in SOL is read back (`formatLamportsAsSol` of frontend/src/utils.ts).
use mootvote.Base.{
  ℕ, zero, suc, ◌+◌, ◌-◌, ◌*◌, ◌/◌, ◌%◌, ◌^◌, ◌≤◌, ◌<◌, ◌≡◌, ◌≢◌, refl, sym, ap, ◌∙◌, arith, List,
  [], ◌∷◌, ◌++◌, append-nil, none, some, false, ◌==◌, if◌then◌else◌, length, All, replicate, inl,
  inr, Bool-cases, ==_iff, length-append, length-replicate,
}
use mootvote.Base.Int.{pos, negsuc}
use mootvote.Bytes.{pad_start}
use mootvote.Decimal.{decimal, lamports_per_sol, trim_zeros, format_lamports_as_sol}
use mootvote.Decimal.Value.{
  decimal_value, IsDigit, decimal_value-decimal, decimal-All, decimal_value-replicate,
  length-digits_loop,
}
use native.Mathlib.Nat.{pow-suc}

-- The lamports that a text with at most 9 digits behind the point spells: the digits behind the point,
-- and the whole text.
abbrev pub read_frac : ℕ → ℕ → List ℕ → ℕ
read_frac k x [] = x * 10 ^ k
read_frac zero x (c ∷ s) = x
read_frac (suc k) x (c ∷ s) = read_frac k (x * 10 + (c - 48)) s

abbrev pub read_sol : ℕ → List ℕ → ℕ
read_sol x [] = x * lamports_per_sol
read_sol x (c ∷ s) =
    if c == 46 then x * lamports_per_sol + read_frac 9 0 s else read_sol (x * 10 + (c - 48)) s

read_frac-decimal_value :
    (k x : ℕ) (s : List ℕ) → length s ≡ k → read_frac k x s ≡ decimal_value x s
read_frac-decimal_value zero x [] h = omega arith
read_frac-decimal_value zero x (c ∷ s) h = absurd (omega arith)
read_frac-decimal_value (suc k) x [] h = absurd (omega arith)
read_frac-decimal_value (suc k) x (c ∷ s) h =
    read_frac-decimal_value k (x * 10 + (c - 48)) s (omega arith)

read_frac-trim_zeros :
    (k x : ℕ) (s : List ℕ) → length s ≤ k → read_frac k x (trim_zeros s) ≡ read_frac k x s
unfolding trim_zeros
read_frac-trim_zeros k x [] h = refl
read_frac-trim_zeros zero x (c ∷ s) h = absurd (omega arith)
read_frac-trim_zeros (suc k) x (c ∷ s) h =
    kept (trim_zeros s) (read_frac-trim_zeros k (x * 10 + (c - 48)) s (omega arith))
  where
    kept :
        (rest : List ℕ)
        → read_frac k (x * 10 + (c - 48)) rest ≡ read_frac k (x * 10 + (c - 48)) s
        → read_frac
            (suc k)
            x
            (elim rest [ [] ↦ if c == 48 then [] else c ∷ [] | d ∷ ds ↦ c ∷ d ∷ ds ])
          ≡ read_frac k (x * 10 + (c - 48)) s
    kept [] e = elim (Bool-cases (c == 48)) [
      | inl zero_digit ↦
          let at_zero : c ≡ 48 = (==_iff c 48).0 zero_digit in
          let shifted : (x * 10 + (c - 48)) * 10 ^ k ≡ x * 10 * 10 ^ k =
            ap (λ (t : ℕ). t * 10 ^ k) (omega arith) in
          rw zero_digit (omega (arith, e, shifted, ap (λ (t : ℕ). x * t) (pow-suc 10 k)))
      | inr other ↦ rw other e
    ]
    kept (d ∷ ds) e = e

read_sol-decimal :
    (x : ℕ) (ds rest : List ℕ)
    → All IsDigit ds
    → read_sol x (ds ++ rest) ≡ read_sol (decimal_value x ds) rest
read_sol-decimal x [] rest h = refl
read_sol-decimal x (c ∷ ds) rest h =
    let digit : (c == 46) ≡ false = ground arith in
    rw digit (read_sol-decimal (x * 10 + (c - 48)) ds rest h.1)

-- A text does not end in the digit 0.
abbrev pub IsTrimmed : List ℕ → Type 0
IsTrimmed [] = Unit
IsTrimmed (c ∷ []) = c ≢ 48
IsTrimmed (c ∷ d ∷ s) = IsTrimmed (d ∷ s)

trim_zeros-IsTrimmed : (s : List ℕ) → IsTrimmed (trim_zeros s)
unfolding trim_zeros
trim_zeros-IsTrimmed [] = tt
trim_zeros-IsTrimmed (c ∷ s) = kept (trim_zeros s) (trim_zeros-IsTrimmed s)
  where
    kept :
        (rest : List ℕ)
        → IsTrimmed rest
        → IsTrimmed (elim rest [ [] ↦ if c == 48 then [] else c ∷ [] | d ∷ ds ↦ c ∷ d ∷ ds ])
    kept [] t = elim (Bool-cases (c == 48)) [ inl e ↦ rw e tt | inr e ↦ rw e (λ q. ground arith) ]
    kept (d ∷ ds) t = t

pad_start-Fits :
    (r : ℕ)
    → r < lamports_per_sol
    → (length (pad_start 9 (decimal r)) ≡ 9) × (decimal_value 0 (pad_start 9 (decimal r)) ≡ r)
unfolding decimal
pad_start-Fits r h =
    let short = length-digits_loop (suc r) r 8 [] (omega arith) in
    let zeros : List ℕ = replicate (9 - length (decimal r)) 48 in
    (
      omega (
        arith,
        short,
        length-append zeros (decimal r),
        length-replicate {A = ℕ} (9 - length (decimal r)) 48,
      ),
      decimal_value-replicate (9 - length (decimal r)) (decimal r) ∙ decimal_value-decimal r,
    )

-- A text of whole SOL and, behind a point, the digits `frac`, if any.
abbrev pub sol_text : ℕ → List ℕ → List ℕ
sol_text whole [] = decimal whole
sol_text whole (d ∷ ds) = decimal whole ++ (46 ∷ d ∷ ds)

read_sol-sol_text :
    (whole : ℕ) (frac : List ℕ)
    → read_sol 0 (sol_text whole frac) ≡ whole * lamports_per_sol + read_frac 9 0 frac
read_sol-sol_text whole [] =
    ap (read_sol 0) (sym (append-nil (decimal whole)))
    ∙ read_sol-decimal 0 (decimal whole) [] (decimal-All whole)
    ∙ omega (arith, decimal_value-decimal whole)
read_sol-sol_text whole (d ∷ ds) =
    read_sol-decimal 0 (decimal whole) (46 ∷ d ∷ ds) (decimal-All whole)
    ∙ omega (arith, decimal_value-decimal whole)

-- An amount that is not negative has a text from which the same lamports are read, with no needless
-- zeroes behind the point; a negative one has none.
pub read_sol-format_lamports_as_sol :
    (n : ℕ)
    → ((frac : List ℕ) × (format_lamports_as_sol (pos n)
          ≡ some (sol_text (n / lamports_per_sol) frac))
        × IsTrimmed frac
        × (read_sol 0 (sol_text (n / lamports_per_sol) frac) ≡ n))
      × (format_lamports_as_sol (negsuc n) ≡ none)
unfolding format_lamports_as_sol
read_sol-format_lamports_as_sol n =
    let padded = pad_start 9 (decimal (n % lamports_per_sol)) in
    let (len, value) = pad_start-Fits (n % lamports_per_sol) (omega arith) in
    let back =
      read_frac-trim_zeros 9 0 padded (omega arith)
      ∙ read_frac-decimal_value 9 0 padded len
      ∙ value in
    (
      (
        trim_zeros padded,
        chosen (trim_zeros padded),
        trim_zeros-IsTrimmed padded,
        read_sol-sol_text (n / lamports_per_sol) (trim_zeros padded) ∙ omega (arith, back),
      ),
      refl,
    )
  where
    chosen :
        (t : List ℕ)
        → (elim t [
          | [] ↦ some (decimal (n / lamports_per_sol))
          | d ∷ ds ↦ some (decimal (n / lamports_per_sol) ++ (46 ∷ d ∷ ds))
        ])
          ≡ some (sol_text (n / lamports_per_sol) t)
    chosen [] = refl
    chosen (d ∷ ds) = refl
