-- ===== src/Compress/Reads.antt =====
-- What can be read from compressed points (helpers/compressSolana.ts).
use mootvote.Base.{
  ℕ, ◌+◌, ◌-◌, ◌*◌, ◌%◌, ◌^◌, ◌≤◌, ◌<◌, ◌≡◌, sym, ap, ◌∙◌, arith, List, [], ◌∷◌, Bool, true, false,
  not, leb, ltb, length, if◌then◌else◌, length-append,
}
use mootvote.Base.Int.{ℤ, pos}
use mootvote.Bytes.{fp, norm_fp, be_loop}
use mootvote.Bytes.Value.{value_from, value-be_loop, length-be_loop, norm_fp-lt, norm_fp_small}
use mootvote.Compress.{
  gt_fp, be32, set_sign, neg_fp, compress_g1, compress_g2, lex_largest_fp2, negate_g1, Groth16Proof,
  compress_proof,
}
use native.Mathlib.Nat.{pow-suc}

-- The sign in the top bit, and the number that the other bits spell.
abbrev pub sign_of : List ℕ → Bool
sign_of [] = false
sign_of (b ∷ bs) = leb 128 b

abbrev pub unsigned : List ℕ → ℕ
unsigned [] = 0
unsigned (b ∷ bs) = value_from (b % 128) bs

-- A number is larger than its negative modulo `FP`.
abbrev pub is_larger : ℕ → Bool
is_larger n = gt_fp n (neg_fp n)

value_from-ge : (x : ℕ) (bs : List ℕ) → x * 256 ^ length bs ≤ value_from x bs
value_from-ge x [] = omega arith
value_from-ge x (b ∷ bs) =
    let rest = value_from-ge (x * 256 + b) bs in
    let P = 256 ^ length bs in omega (arith, rest, ap (λ (t : ℕ). x * t) (pow-suc 256 (length bs)))

set_sign-Reads :
    (s : Bool) (bs : List ℕ)
    → length bs ≡ 32
    → value_from 0 bs < 2 ^ 255
    → (sign_of (set_sign s bs) ≡ s)
      × (unsigned (set_sign s bs) ≡ value_from 0 bs)
      × (length (set_sign s bs) ≡ 32)
unfolding set_sign
set_sign-Reads s [] len small = absurd (omega arith)
set_sign-Reads s (b ∷ bs) len small =
    let ge : b * 256 ^ length bs ≤ value_from 0 (b ∷ bs) =
      omega (arith, value_from-ge (0 * 256 + b) bs) in
    let size : length bs ≡ 31 = omega arith in
    let scaled : b * 256 ^ length bs ≡ b * 256 ^ 31 = ap (λ (k : ℕ). b * 256 ^ k) size in
    let low : b < 128 = omega (arith, ge, scaled, small) in
    (signed s, ap (λ (t : ℕ). value_from t bs) (same s low), len)
  where
    signed : (s : Bool) → leb 128 (if s then b % 128 + 128 else b % 128) ≡ s
    signed true = ground arith
    signed false = ground arith

    same : (s : Bool) → b < 128 → (if s then b % 128 + 128 else b % 128) % 128 ≡ 0 * 256 + b
    same true low = omega arith
    same false low = omega arith

-- What a compressed point says of `x` and `y`: the sign of `y` and `x`, both modulo `FP`.
abbrev pub Reads : ℕ → Bool → List ℕ → Type 0
Reads x s out = (sign_of out ≡ s) × (unsigned out ≡ x) × (length out ≡ 32)

be32-Reads : (z : ℤ) (s : Bool) → Reads (norm_fp z) s (set_sign s (be32 z))
unfolding be32
be32-Reads z s =
    let value : value_from 0 (be_loop 32 (norm_fp z) []) ≡ norm_fp z =
      value-be_loop 32 (norm_fp z) 0 [] (omega (arith, norm_fp-lt z)) ∙ omega arith in
    let r =
      set_sign-Reads s (be_loop 32 (norm_fp z) []) (length-be_loop 32 (norm_fp z) [])
        (omega (arith, value, norm_fp-lt z)) in
    (r.0, r.1 ∙ value, r.2)

is_larger-neg_fp : (n : ℕ) → 0 < n → n < fp → is_larger (neg_fp n) ≡ not (is_larger n)
unfolding gt_fp
is_larger-neg_fp n h lt =
    let once : neg_fp n ≡ fp - n = omega arith in
    let twice : neg_fp (fp - n) ≡ n = omega arith in
    let flip : ltb n (fp - n) ≡ not (ltb (fp - n) n) = ground arith in rw once (rw twice flip)

-- A compressed G1 point whose `y` is no multiple of `FP` has 32 bytes, from which `x` and the sign of
-- `y` are read, both modulo `FP`; of `y` and `FP - y`, which is no
-- negative of `y` in the field of the coordinates, exactly one has the sign.
compress_g1-Reads :
    (x y : ℤ)
    → 0 < norm_fp y
    → Reads (norm_fp x) (is_larger (norm_fp y)) (compress_g1 x y)
      × (sign_of (compress_g1 x (pos (fp - norm_fp y))) ≡ not (sign_of (compress_g1 x y)))
unfolding compress_g1
compress_g1-Reads x y h =
    let small = norm_fp-lt y in
    let reduced : norm_fp (pos (fp - norm_fp y)) ≡ neg_fp (norm_fp y) =
      norm_fp_small (fp - norm_fp y) (omega arith) ∙ omega arith in
    (
      be32-Reads x (is_larger (norm_fp y)),
      (be32-Reads x (is_larger (norm_fp (pos (fp - norm_fp y))))).0
          ∙ ap is_larger reduced
          ∙ is_larger-neg_fp (norm_fp y) h small
          ∙ ap not (sym (be32-Reads x (is_larger (norm_fp y))).0),
    )

length-be32 : (z : ℤ) → length (be32 z) ≡ 32
unfolding be32
length-be32 z = length-be_loop 32 (norm_fp z) []

-- The parts of a compressed proof have the sizes that the program declares: 32, 64 and 32 bytes.
pub compress_proof_sizes :
    (proof : Groth16Proof)
    → (length (compress_proof proof).a ≡ 32)
      × (length (compress_proof proof).b ≡ 64)
      × (length (compress_proof proof).c ≡ 32)
unfolding compress_proof compress_g1 compress_g2 negate_g1
compress_proof_sizes proof =
    let ((x0, x1), (y0, y1)) = proof.pi_b in
    (
      (be32-Reads (pos proof.pi_a.0) _).2,
      length-append (set_sign (lex_largest_fp2 y0 y1) (be32 (pos x1))) (be32 (pos x0))
          ∙ omega (arith, (be32-Reads (pos x1) (lex_largest_fp2 y0 y1)).2, length-be32 (pos x0)),
      (be32-Reads (pos proof.pi_c.0) _).2,
    )
