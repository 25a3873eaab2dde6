-- ===== src/Decimal/Tests.antt =====
-- Runs.
use mootvote.Base.{ℕ, ◌/◌, ◌≡◌, List, none, some}
use mootvote.Base.Int.{pos, negsuc}
use mootvote.Decimal.{format_lamports_as_sol, lamports_per_sol}
use mootvote.Decimal.Sol.{sol_text, IsTrimmed, read_sol, read_sol-format_lamports_as_sol}

read_sol-format_lamports_as_sol_example :
    ((frac : List ℕ) × (format_lamports_as_sol (pos 1020000000)
        ≡ some (sol_text (1020000000 / lamports_per_sol) frac))
      × IsTrimmed frac
      × (read_sol 0 (sol_text (1020000000 / lamports_per_sol) frac) ≡ 1020000000))
    × (format_lamports_as_sol (negsuc 1020000000) ≡ none)
read_sol-format_lamports_as_sol_example = read_sol-format_lamports_as_sol 1020000000
