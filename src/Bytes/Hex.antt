-- ===== src/Bytes/Hex.antt =====
-- The hexadecimal text of 32 bytes: `toHex32` and `hexToBytes32` of helpers/utils.ts.
use mootvote.Base.{
  ℕ, zero, suc, ◌+◌, ◌-◌, ◌*◌, ◌/◌, ◌%◌, ◌^◌, ◌<◌, ◌≤◌, ◌≡◌, refl, ap, ◌∙◌, arith, List, [], ◌∷◌,
  ◌++◌, true, false, inl, inr, length, All, replicate, length-append, length-replicate, Bool-cases,
  ltb, ◌==◌,
}
use mootvote.Bytes.{
  be_loop, hex_digit, byte_to_string16, pad_start, bytes_to_hex, to_hex32, HexResult, bytes, throws,
  too_long, invalid, strip_0x, is_hex, all_hex, hex_value, pairs_loop, make_even, hex_to_bytes32,
  digits_to_bytes32,
}
use mootvote.Bytes.Value.{IsByte, value_from, value-be_loop, be_loop-All, length-be_loop}

pub byte_pair :
    (b : ℕ)
    → b < 256
    → pad_start 2 (byte_to_string16 b) ≡ hex_digit (b / 16) ∷ hex_digit (b % 16) ∷ []
byte_pair b h = ground arith

pub length-bytes_to_hex : (bs : List ℕ) → All IsByte bs → length (bytes_to_hex bs) ≡ 2 * length bs
unfolding bytes_to_hex
length-bytes_to_hex [] h = refl
length-bytes_to_hex (b ∷ bs) h = rw (byte_pair b h.0) (omega (arith, length-bytes_to_hex bs h.1))

digit_is_hex : (d : ℕ) → d < 16 → is_hex (hex_digit d) ≡ true
digit_is_hex d h = ground arith

digit_value : (d : ℕ) → d < 16 → hex_value (hex_digit d) ≡ d
digit_value d h = ground arith

all_hex-bytes_to_hex : (bs : List ℕ) → All IsByte bs → all_hex (bytes_to_hex bs) ≡ true
unfolding bytes_to_hex
all_hex-bytes_to_hex [] h = refl
all_hex-bytes_to_hex (b ∷ bs) h = rw (byte_pair b h.0) (
    rw (digit_is_hex (b / 16) (omega arith), digit_is_hex (b % 16) (omega arith))
      (all_hex-bytes_to_hex bs h.1))

pub pairs_loop-bytes_to_hex :
    (k : ℕ) (bs : List ℕ) → length bs ≡ k → All IsByte bs → pairs_loop k (bytes_to_hex bs) ≡ bs
unfolding bytes_to_hex pairs_loop
pairs_loop-bytes_to_hex zero [] e h = refl
pairs_loop-bytes_to_hex zero (b ∷ bs) e h = absurd (omega arith)
pairs_loop-bytes_to_hex (suc k) [] e h = absurd (omega arith)
pairs_loop-bytes_to_hex (suc k) (b ∷ bs) e h = rw (byte_pair b h.0) (
    rw
      (
        digit_value (b / 16) (omega arith),
        digit_value (b % 16) (omega arith),
        pairs_loop-bytes_to_hex k bs (omega arith) h.1,
      )
      (ap (λ (t : ℕ). t ∷ bs) (omega arith)))

no_prefix : (bs : List ℕ) → All IsByte bs → strip_0x (bytes_to_hex bs) ≡ bytes_to_hex bs
unfolding bytes_to_hex
no_prefix [] h = refl
no_prefix (b ∷ bs) h = rw (byte_pair b h.0) (ground arith)

pad_start_full : (n : ℕ) (s : List ℕ) → length s ≡ n → pad_start n s ≡ s
pad_start_full n s h = let z : n - length s ≡ 0 = omega arith in rw z

digits_full :
    (s : List ℕ) → length s ≡ 64 → all_hex s ≡ true → digits_to_bytes32 s ≡ bytes (pairs_loop 32 s)
unfolding digits_to_bytes32
digits_full s len ok = rw (len, ok) (ap bytes (ap (pairs_loop 32) (pad_start_full 64 s len)))

-- `hexToBytes32` reads 32 bytes back from their hexadecimal text, with or without `0x`.
pub hex_to_bytes32-bytes_to_hex :
    (bs : List ℕ)
    → length bs ≡ 32
    → All IsByte bs
    → (hex_to_bytes32 (bytes_to_hex bs) ≡ bytes bs)
      × (hex_to_bytes32 (48 ∷ 120 ∷ bytes_to_hex bs) ≡ bytes bs)
unfolding hex_to_bytes32
hex_to_bytes32-bytes_to_hex bs len h = (ap digits_to_bytes32 (no_prefix bs h) ∙ decoded, decoded)
  where
    decoded : digits_to_bytes32 (bytes_to_hex bs) ≡ bytes bs
    decoded =
        digits_full (bytes_to_hex bs) (omega (arith, length-bytes_to_hex bs h))
          (all_hex-bytes_to_hex bs h)
        ∙ ap bytes (pairs_loop-bytes_to_hex 32 bs len h)

-- `hexToBytes32` reads the bytes of `n` back from `toHex32(n)`, with or without `0x`.
pub hex_to_bytes32-to_hex32 :
    (n : ℕ)
    → (hex_to_bytes32 (to_hex32 n) ≡ bytes (be_loop 32 n []))
      × (hex_to_bytes32 (48 ∷ 120 ∷ to_hex32 n) ≡ bytes (be_loop 32 n []))
unfolding to_hex32
hex_to_bytes32-to_hex32 n =
    hex_to_bytes32-bytes_to_hex (be_loop 32 n []) (length-be_loop 32 n []) (be_loop-All 32 n [] tt)

-- The number that hexadecimal digits spell, after `x`.
abbrev pub hex_number : ℕ → List ℕ → ℕ
hex_number x [] = x
hex_number x (c ∷ s) = hex_number (x * 16 + hex_value c) s

hex_value-lt : (c : ℕ) → is_hex c ≡ true → hex_value c < 16
hex_value-lt c h = ground arith

abbrev IsPairs : ℕ → List ℕ → List ℕ → Type 0
IsPairs x s bs = All IsByte bs × (value_from x bs ≡ hex_number x s)

length-pairs_loop : (k : ℕ) (s : List ℕ) → length (pairs_loop k s) ≡ k
unfolding pairs_loop
length-pairs_loop zero s = refl
length-pairs_loop (suc k) [] = ap suc (length-pairs_loop k [])
length-pairs_loop (suc k) (c ∷ []) = ap suc (length-pairs_loop k [])
length-pairs_loop (suc k) (c ∷ d ∷ s) = ap suc (length-pairs_loop k s)

pairs_loop-IsPairs :
    (k x : ℕ) (s : List ℕ) → length s ≡ 2 * k → all_hex s ≡ true → IsPairs x s (pairs_loop k s)
unfolding pairs_loop
pairs_loop-IsPairs zero x [] e h = (tt, refl)
pairs_loop-IsPairs zero x (c ∷ s) e h = absurd (omega arith)
pairs_loop-IsPairs (suc k) x [] e h = absurd (omega arith)
pairs_loop-IsPairs (suc k) x (c ∷ []) e h = absurd (omega arith)
pairs_loop-IsPairs (suc k) x (c ∷ d ∷ s) e h =
    let hc : is_hex c ≡ true = ground arith in
    let hd : is_hex d ≡ true = ground arith in
    let hs : all_hex s ≡ true = ground arith in
    let byte : IsByte (hex_value c * 16 + hex_value d) =
      omega (arith, hex_value-lt c hc, hex_value-lt d hd) in
    let rest =
      pairs_loop-IsPairs k (x * 256 + (hex_value c * 16 + hex_value d)) s (omega arith) hs in
    ((byte, rest.0), rest.1 ∙ ap (λ (t : ℕ). hex_number t s) (omega arith))

padded :
    (n : ℕ) (s : List ℕ)
    → all_hex s ≡ true
    → (all_hex (replicate n 48 ++ s) ≡ true) × (hex_number 0 (replicate n 48 ++ s) ≡ hex_number 0 s)
padded zero s h = (h, refl)
padded (suc n) s h = padded n s h

-- What `hexToBytes32` answers for the digits `s` that follow an optional prefix.
abbrev pub Decodes : List ℕ → HexResult → Type 0
Decodes s (bytes bs) =
    (length s ≤ 64)
    × (all_hex s ≡ true)
    × (length bs ≡ 32)
    × All IsByte bs
    × (value_from 0 bs ≡ hex_number 0 s)
Decodes s (throws too_long) = 64 < length s
Decodes s (throws invalid) = (length s ≤ 64) × (all_hex s ≡ false)

evened :
    (s : List ℕ)
    → length s ≤ 64
    → all_hex s ≡ true
    → (length (make_even s) ≤ 64)
      × (all_hex (make_even s) ≡ true)
      × (hex_number 0 (make_even s) ≡ hex_number 0 s)
evened s fits h = elim (Bool-cases (length s % 2 == 1)) [
  | inl odd ↦ rw odd (ground arith, h, refl)
  | inr even ↦ rw even (fits, h, refl)
]

decoded_pairs :
    (s : List ℕ)
    → length s ≤ 64
    → all_hex s ≡ true
    → Decodes s (bytes (pairs_loop 32 (pad_start 64 (make_even s))))
decoded_pairs s fits h =
    let (fits', h', same) = evened s fits h in
    let (h'', same') = padded (64 - length (make_even s)) (make_even s) h' in
    let len : length (pad_start 64 (make_even s)) ≡ 64 = omega (
      arith,
      length-append (replicate (64 - length (make_even s)) 48) (make_even s),
      length-replicate {A = ℕ} (64 - length (make_even s)) 48,
    ) in
    let pairs = pairs_loop-IsPairs 32 0 (pad_start 64 (make_even s)) len h'' in
    (fits, h, length-pairs_loop 32 _, pairs.0, pairs.1 ∙ same' ∙ same)

digits_to_bytes32-Decodes : (s : List ℕ) → Decodes s (digits_to_bytes32 s)
unfolding digits_to_bytes32
digits_to_bytes32-Decodes s = elim (Bool-cases (ltb 64 (length s))) [
  | inl long ↦ rw long (ground arith)
  | inr short ↦ elim (Bool-cases (all_hex s)) [
    | inr bad ↦ rw (short, bad) (ground arith, bad)
    | inl ok ↦ rw (short, ok) (decoded_pairs s (ground arith) ok)
  ]
]

-- On every string `hexToBytes32` drops an optional `0x`, then: it refuses more than 64 digits; else it
-- refuses a character that is no hexadecimal digit; else it gives 32 bytes that spell the number.
pub hex_to_bytes32-Decodes : (hex : List ℕ) → Decodes (strip_0x hex) (hex_to_bytes32 hex)
unfolding hex_to_bytes32
hex_to_bytes32-Decodes hex = digits_to_bytes32-Decodes (strip_0x hex)

hex_number-bytes_to_hex :
    (x : ℕ) (bs : List ℕ) → All IsByte bs → hex_number x (bytes_to_hex bs) ≡ value_from x bs
unfolding bytes_to_hex
hex_number-bytes_to_hex x [] h = refl
hex_number-bytes_to_hex x (b ∷ bs) h = rw (byte_pair b h.0) (
    ap (λ (t : ℕ). hex_number t (bytes_to_hex bs))
      (omega (arith, digit_value (b / 16) (omega arith), digit_value (b % 16) (omega arith)))
    ∙ hex_number-bytes_to_hex (x * 256 + b) bs h.1)

-- The number that `toHex32(n)` spells is `n`, if `n` has at most 256 bits.
pub hex_number-to_hex32 : (n : ℕ) → n < 256 ^ 32 → hex_number 0 (to_hex32 n) ≡ n
unfolding to_hex32
hex_number-to_hex32 n h =
    hex_number-bytes_to_hex 0 (be_loop 32 n []) (be_loop-All 32 n [] tt)
    ∙ value-be_loop 32 n 0 [] h
    ∙ omega arith
