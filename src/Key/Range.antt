-- ===== src/Key/Range.antt =====
-- The range of the scalars of helpers/key.ts.
use mootvote.Base.{ℕ, zero, suc, ◌%◌, ◌^◌, ◌≤◌, ◌<◌, arith, List, [], ◌∷◌, All, length}
use mootvote.Bytes.Value.{IsByte, value_from}
use mootvote.Key.{random_scalar, from_rpr_le}
use native.Mathlib.Nat.{pow-suc}

-- A random scalar is a scalar of the group: not zero, and below the order, whatever the random bytes
-- are; the order is at least 2.
pub random_scalar-lt :
    (bytes : List ℕ) (modulus : ℕ)
    → 2 ≤ modulus
    → (1 ≤ random_scalar bytes modulus) × (random_scalar bytes modulus < modulus)
unfolding random_scalar
random_scalar-lt bytes (suc (suc k)) h =
    let small : value_from 0 bytes % suc k < suc k = omega arith in
    (omega arith, omega (arith, small))
random_scalar-lt bytes (suc zero) h = absurd (omega arith)
random_scalar-lt bytes zero h = absurd (omega arith)

from_rpr_le-lt : (bs : List ℕ) → All IsByte bs → from_rpr_le bs < 256 ^ length bs
unfolding from_rpr_le
from_rpr_le-lt [] h = omega arith
from_rpr_le-lt (b ∷ bs) (small, hs) =
    omega (arith, small, from_rpr_le-lt bs hs, pow-suc 256 (length bs))
