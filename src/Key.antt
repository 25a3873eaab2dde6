-- ===== src/Key.antt =====
-- Keys (helpers/key.ts).
pub mod Range
use mootvote.Base.{ℕ, ◌+◌, ◌-◌, ◌*◌, ◌/◌, ◌%◌, ◌^◌, List, [], ◌∷◌, take}
use mootvote.Bytes.Value.{value_from}

-- `bytes` are the 32 random bytes. The source has a RangeError where `mod` (`modulus`) is 1, and is never called
-- with less than 2.
unfoldable pub random_scalar : List ℕ → ℕ → ℕ
random_scalar bytes modulus = let x = value_from 0 bytes in x % (modulus - 1) + 1

-- `Scalar.fromRprLE`: the number that bytes spell, lowest first.
unfoldable pub from_rpr_le : List ℕ → ℕ
from_rpr_le [] = 0
from_rpr_le (b ∷ bs) = b + 256 * from_rpr_le bs

pub record Generated : Type 0 where
  pub prv : List ℕ
  pub sk : ℕ
  pub pub_key : ℕ × ℕ

module _ (blake512 prune_buffer : List ℕ → List ℕ) where
  unfoldable pub prv2sk : List ℕ → ℕ
  prv2sk prv =
      let s_buff = prune_buffer (blake512 prv) in let s = from_rpr_le (take 32 s_buff) in s / 2 ^ 3

  -- `prv` is random.
  unfoldable pub gen_baby_jub_keypair : (ℕ × ℕ → ℕ → ℕ × ℕ) → ℕ × ℕ → List ℕ → Generated
  gen_baby_jub_keypair mul_point_escalar base8 prv =
      let sk = prv2sk prv in record { prv = prv; sk = sk; pub_key = mul_point_escalar base8 sk }
