-- ===== src/Decimal.antt =====
-- Decimal texts: `toString` of a bigint, and `formatLamportsAsSol` of frontend/src/utils.ts.
pub mod Value
pub mod Sol
mod Tests
use mootvote.Base.{
  ℕ, zero, suc, ◌+◌, ◌/◌, ◌%◌, ◌^◌, List, [], ◌∷◌, ◌++◌, Option, none, some, Bool, true, false,
  ◌==◌, ltb, if◌then◌else◌,
}
use mootvote.Base.Int.{ℤ, pos, negsuc}
use mootvote.Bytes.{pad_start}

-- The digits of `n` in front of `out`; more rounds than `n` are enough.
unfoldable pub digits_loop : ℕ → ℕ → List ℕ → List ℕ
digits_loop zero n out = out
digits_loop (suc rounds) n out = elim (ltb n 10) [
  | true ↦ (48 + n) ∷ out
  | false ↦ digits_loop rounds (n / 10) ((48 + n % 10) ∷ out)
]

unfoldable pub decimal : ℕ → List ℕ
decimal n = digits_loop (suc n) n []

-- `LAMPORTS_PER_SOL`
abbrev pub lamports_per_sol : ℕ
lamports_per_sol = 1000000000

-- `replace(/0+$/, "")`
unfoldable pub trim_zeros : List ℕ → List ℕ
trim_zeros [] = []
trim_zeros (c ∷ s) =
    let rest = trim_zeros s in
    elim rest [ [] ↦ if c == 48 then [] else c ∷ [] | d ∷ ds ↦ c ∷ d ∷ ds ]

unfoldable pub format_lamports_as_sol : ℤ → Option (List ℕ)
format_lamports_as_sol (negsuc n) = none
format_lamports_as_sol (pos lamports) =
    let whole = decimal (lamports / lamports_per_sol) in
    let frac = pad_start 9 (decimal (lamports % lamports_per_sol)) in
    elim (trim_zeros frac) [ [] ↦ some whole | d ∷ ds ↦ some (whole ++ (46 ∷ d ∷ ds)) ]
