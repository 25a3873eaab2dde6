-- ===== src/Bytes/Value.antt =====
-- Bytes and the number that they spell.
use mootvote.Base.{
  ℕ, zero, suc, ◌+◌, ◌*◌, ◌/◌, ◌%◌, ◌^◌, ◌<◌, ◌≡◌, refl, sym, ap, ◌∙◌, arith, List, [], ◌∷◌, ◌++◌,
  append_assoc, some, length, All, get_elem?, length-append,
}
use mootvote.Base.Int.{ℤ, pos, negsuc}
use mootvote.Bytes.{fp, norm_fp, be_loop, to_bytes_be32_buf, big_loop, bytes32_to_big}
use native.Mathlib.Nat.{pow-suc}

abbrev pub IsByte : ℕ → Type 0
IsByte b = b < 256

-- The number whose bytes, highest first, are those of `x` and then the list.
abbrev pub value_from : ℕ → List ℕ → ℕ
value_from x [] = x
value_from x (b ∷ bs) = value_from (x * 256 + b) bs

pub value-be_loop :
    (k n x : ℕ) (out : List ℕ)
    → n < 256 ^ k
    → value_from x (be_loop k n out) ≡ value_from (x * 256 ^ k + n) out
unfolding be_loop
value-be_loop zero n x out h = ap (λ (t : ℕ). value_from t out) (omega arith)
value-be_loop (suc k) n x out h =
    value-be_loop k (n / 256) x (n % 256 ∷ out) (omega (arith, pow-suc 256 k))
    ∙ ap (λ (t : ℕ). value_from t out) (omega (arith, ap (λ (t : ℕ). x * t) (pow-suc 256 k)))

pub be_loop-All : (k n : ℕ) (out : List ℕ) → All IsByte out → All IsByte (be_loop k n out)
unfolding be_loop
be_loop-All zero n out h = h
be_loop-All (suc k) n out h = be_loop-All k (n / 256) (n % 256 ∷ out) (omega arith, h)

pub length-be_loop : (k n : ℕ) (out : List ℕ) → length (be_loop k n out) ≡ k + length out
unfolding be_loop
length-be_loop zero n out = omega arith
length-be_loop (suc k) n out = omega (arith, length-be_loop k (n / 256) (n % 256 ∷ out))

pub get_elem?-append :
    (front : List ℕ) (b : ℕ) (rest : List ℕ)
    → get_elem? (front ++ (b ∷ rest)) (length front) ≡ some b
get_elem?-append [] b rest = refl
get_elem?-append (x ∷ xs) b rest = get_elem?-append xs b rest

-- The reading loop on an array that holds `bs` at `off`.
pub big_loop-value :
    (front bs back : List ℕ) (off x : ℕ)
    → length front ≡ off
    → big_loop (length bs) (front ++ (bs ++ back)) off x ≡ some (value_from x bs)
unfolding big_loop
big_loop-value front [] back off x e = refl
big_loop-value front (b ∷ bs) back off x e =
    let here : get_elem? (front ++ (b ∷ (bs ++ back))) off ≡ some b =
      rw (← e) (get_elem?-append front b (bs ++ back)) in
    rw (here, big_loop)
      (rw (← append_assoc front (b ∷ []) (bs ++ back)) (
        big_loop-value (front ++ (b ∷ [])) bs back (suc off) (x * 256 + b)
          (omega (arith, length-append front (b ∷ []), e))))

-- A ℤ below `FP` in absolute value, taken modulo `FP`.
pub norm_fp-lt : (z : ℤ) → norm_fp z < fp
unfolding norm_fp
norm_fp-lt (pos n) = omega arith
norm_fp-lt (negsuc n) = omega arith

pub norm_fp_small : (n : ℕ) → n < fp → norm_fp (pos n) ≡ n
unfolding norm_fp
norm_fp_small n h = omega arith

big_loop-be_loop :
    (k n : ℕ) (front back : List ℕ)
    → n < 256 ^ k
    → big_loop k (front ++ (be_loop k n [] ++ back)) (length front) 0 ≡ some n
big_loop-be_loop k n front back h =
    let len : length (be_loop k n []) ≡ k = omega (arith, length-be_loop k n []) in
    ap (λ (t : ℕ). big_loop t (front ++ (be_loop k n [] ++ back)) (length front) 0) (sym len)
    ∙ big_loop-value front (be_loop k n []) back (length front) 0 refl
    ∙ ap some (value-be_loop k n 0 [] h ∙ omega arith)

-- `toBytesBE32` gives 32 bytes, and `bytes32ToBig` reads the argument modulo `FP` back from them, at
-- the offset where they stand in an array.
pub bytes32_to_big-to_bytes_be32_buf :
    (z : ℤ) (front back : List ℕ)
    → (length (to_bytes_be32_buf z) ≡ 32)
      × All IsByte (to_bytes_be32_buf z)
      × (bytes32_to_big (front ++ (to_bytes_be32_buf z ++ back)) (length front) ≡ some (norm_fp z))
unfolding to_bytes_be32_buf bytes32_to_big
bytes32_to_big-to_bytes_be32_buf z front back = (
  length-be_loop 32 (norm_fp z) [],
  be_loop-All 32 (norm_fp z) [] tt,
  big_loop-be_loop 32 (norm_fp z) front back (omega (arith, norm_fp-lt z)),
)
