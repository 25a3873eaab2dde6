-- ===== src/Compress.antt =====
-- Proofs for Solana: helpers/compressSolana.ts, and the uncompressed form of helpers/exportSolana.ts.
pub mod Reads
use mootvote.Base.{
  ℕ, suc, ◌+◌, ◌-◌, ◌%◌, List, [], ◌∷◌, ◌++◌, Bool, true, false, ◌==◌, not, ltb, if◌then◌else◌,
}
use mootvote.Base.Int.{ℤ, pos, sub_ℕ}
use mootvote.Bytes.{fp, norm_fp, be_loop}
use mootvote.VoteData.{CompressedProof}

-- `FQ`, the order of the field of the points' coordinates.
abbrev pub fq : ℕ
fq = 21888242871839275222246405745257275088696311157297823662689037894645226208583

unfoldable pub gt_fp : ℕ → ℕ → Bool
gt_fp a b = ltb b a

unfoldable pub be32 : ℤ → List ℕ
be32 n0 = be_loop 32 (norm_fp n0) []

-- `if (sign) out[0] |= 0x80; else out[0] &= 0x7f`, on a byte.
unfoldable pub set_sign : Bool → List ℕ → List ℕ
set_sign sign [] = []
set_sign sign (b ∷ out) = (if sign then b % 128 + 128 else b % 128) ∷ out

-- `(FP - n) % FP` for a reduced `n`.
abbrev pub neg_fp : ℕ → ℕ
neg_fp n = (fp - n) % fp

unfoldable pub compress_g1 : ℤ → ℤ → List ℕ
compress_g1 x y = set_sign (gt_fp (norm_fp y) (neg_fp (norm_fp y))) (be32 x)

unfoldable pub lex_largest_fp2 : ℕ → ℕ → Bool
lex_largest_fp2 y0 y1 =
    let ny0 = neg_fp (norm_fp (pos y0)) in
    let ny1 = neg_fp (norm_fp (pos y1)) in if not (y1 == ny1) then gt_fp y1 ny1 else gt_fp y0 ny0

unfoldable pub compress_g2 : ℕ × ℕ → ℕ × ℕ → List ℕ
compress_g2 (x0, x1) (y0, y1) = set_sign (lex_largest_fp2 y1 y0) (be32 (pos x0)) ++ be32 (pos x1)

-- snarkjs' proof, by the numbers that its strings spell: `pi_a[0..1]`, `pi_b[0..1]` and `pi_c[0..1]`.
pub record Groth16Proof : Type 0 where
  pub pi_a : ℕ × ℕ
  pub pi_b : (ℕ × ℕ) × (ℕ × ℕ)
  pub pi_c : ℕ × ℕ

unfoldable pub negate_g1 : ℕ × ℕ → ℕ × ℤ
negate_g1 (x, y) = (x, sub_ℕ fq y)

unfoldable pub compress_proof : Groth16Proof → CompressedProof
compress_proof proof =
    let (ax, ay) = negate_g1 proof.pi_a in
    let (cx, cy) = proof.pi_c in
    let ((x0, x1), (y0, y1)) = proof.pi_b in
    record {
      a = compress_g1 (pos ax) ay;
      b = compress_g2 (x1, x0) (y1, y0);
      c = compress_g1 (pos cx) (pos cy);
    }

unfoldable pub ser_g1 : ℕ × ℤ → List ℕ
ser_g1 (x, y) = be32 (pos x) ++ be32 y

unfoldable pub ser_g2 : (ℕ × ℕ) × (ℕ × ℕ) → List ℕ
ser_g2 ((x0, x1), (y0, y1)) = be32 (pos x1) ++ (be32 (pos x0) ++ (be32 (pos y1) ++ be32 (pos y0)))

-- `negate` is `true` by default.
unfoldable pub ser_proof : Groth16Proof → Bool → CompressedProof
ser_proof proof negate =
    let (ax, ay) = proof.pi_a in
    let (cx, cy) = proof.pi_c in
    record {
      a = if negate then ser_g1 (negate_g1 proof.pi_a) else ser_g1 (ax, pos ay);
      b = ser_g2 proof.pi_b;
      c = ser_g1 (cx, pos cy);
    }
