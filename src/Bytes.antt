-- ===== src/Bytes.antt =====
-- The byte and hexadecimal codecs of helpers/utils.ts (and their copies in helpers/compressSolana.ts,
-- helpers/exportSolana.ts and frontend/src/auth.ts). A bigint that may be negative is a ℤ, a byte
-- array is a list of numbers, and a string is the list of its code points. `x & 0xffn` is `x % 256`
-- and `x >> 8n` is `x / 256`.
pub mod Value
pub mod Hex
mod Tests
use mootvote.Base.{
  ℕ, zero, suc, ◌+◌, ◌-◌, ◌*◌, ◌/◌, ◌%◌, ◌≤◌, ◌<◌, List, [], ◌∷◌, ◌++◌, Option, none, some, Bool,
  true, false, ◌&&◌, ◌||◌, ◌==◌, leb, ltb, if◌then◌else◌, length, get_elem?, replicate,
}
use mootvote.Base.Int.{ℤ, pos, negsuc}

-- `FP`, the order of the scalar field of BN254.
abbrev pub fp : ℕ
fp = 21888242871839275222246405745257275088548364400416034343698204186575808495617

-- `((n0 % FP) + FP) % FP`. JavaScript's remainder has the sign of the dividend, so that of -(n + 1)
-- is -((n + 1) % FP).
unfoldable pub norm_fp : ℤ → ℕ
norm_fp (pos n) = (n % fp + fp) % fp
norm_fp (negsuc n) = (fp - suc n % fp) % fp

-- `for (let i = k - 1; i >= 0; i--) { out[i] = n & 0xff; n >>= 8 }`; `out` holds what is written.
unfoldable pub be_loop : ℕ → ℕ → List ℕ → List ℕ
be_loop zero n out = out
be_loop (suc i) n out = be_loop i (n / 256) (n % 256 ∷ out)

unfoldable pub to_bytes_be32_buf : ℤ → List ℕ
to_bytes_be32_buf n0 = be_loop 32 (norm_fp n0) []

-- `for (let i = 0; i < k; i++) x = (x << 8n) | BigInt(u8[off + i])`; `none`: `BigInt(undefined)` throws.
unfoldable pub big_loop : ℕ → List ℕ → ℕ → ℕ → Option ℕ
big_loop zero u8 off x = some x
big_loop (suc k) u8 off x = elim (get_elem? u8 off) [
  | none ↦ none
  | some b ↦ big_loop k u8 (suc off) (x * 256 + b)
]

unfoldable pub bytes32_to_big : List ℕ → ℕ → Option ℕ
bytes32_to_big u8 off = big_loop 32 u8 off 0

-- One digit of `toString(16)`.
abbrev pub hex_digit : ℕ → ℕ
hex_digit d = if ltb d 10 then 48 + d else 87 + d

-- `b.toString(16)` of a byte.
abbrev pub byte_to_string16 : ℕ → List ℕ
byte_to_string16 b =
    if ltb b 16 then hex_digit b ∷ [] else hex_digit (b / 16) ∷ hex_digit (b % 16) ∷ []

-- `s.padStart(n, "0")`
abbrev pub pad_start : ℕ → List ℕ → List ℕ
pad_start n s = replicate (n - length s) 48 ++ s

-- `Array.from(out).map((b) => b.toString(16).padStart(2, "0")).join("")`
unfoldable pub bytes_to_hex : List ℕ → List ℕ
bytes_to_hex [] = []
bytes_to_hex (b ∷ bs) = pad_start 2 (byte_to_string16 b) ++ bytes_to_hex bs

unfoldable pub to_hex32 : ℕ → List ℕ
to_hex32 n = bytes_to_hex (be_loop 32 n [])

pub data HexError : Type 0 where
  too_long invalid : HexError

pub data HexResult : Type 0 where
  bytes : List ℕ → HexResult
  throws : HexError → HexResult

-- `hex.replace(/^0x/i, "")`
abbrev pub strip_0x : List ℕ → List ℕ
strip_0x (c ∷ d ∷ rest) = if c == 48 && (d == 120 || d == 88) then rest else c ∷ d ∷ rest
strip_0x s = s

-- `[0-9a-fA-F]`
abbrev pub is_hex : ℕ → Bool
is_hex c = leb 48 c && leb c 57 || leb 97 c && leb c 102 || leb 65 c && leb c 70

abbrev pub all_hex : List ℕ → Bool
all_hex [] = true
all_hex (c ∷ s) = is_hex c && all_hex s

-- The value of one digit under `parseInt(…, 16)`.
abbrev pub hex_value : ℕ → ℕ
hex_value c = if leb c 57 then c - 48 else if leb c 70 then c - 55 else c - 87

-- `out[i] = parseInt(s.slice(i * 2, i * 2 + 2), 16)` for `k` rounds; an empty slice is NaN, stored as 0.
unfoldable pub pairs_loop : ℕ → List ℕ → List ℕ
pairs_loop zero s = []
pairs_loop (suc k) [] = 0 ∷ pairs_loop k []
pairs_loop (suc k) (c ∷ []) = hex_value c ∷ pairs_loop k []
pairs_loop (suc k) (c ∷ d ∷ s) = (hex_value c * 16 + hex_value d) ∷ pairs_loop k s

-- `if (s.length % 2 === 1) s = "0" + s`
abbrev pub make_even : List ℕ → List ℕ
make_even s = if length s % 2 == 1 then 48 ∷ s else s

-- The part of `hexToBytes32` after the prefix is gone.
unfoldable pub digits_to_bytes32 : List ℕ → HexResult
digits_to_bytes32 s =
    if ltb 64 (length s)
    then throws too_long
    else if all_hex s
    then bytes (pairs_loop 32 (pad_start 64 (make_even s)))
    else throws invalid

unfoldable pub hex_to_bytes32 : List ℕ → HexResult
hex_to_bytes32 hex = digits_to_bytes32 (strip_0x hex)
