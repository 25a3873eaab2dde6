-- ===== src/Census/Parse.antt =====
-- Reading a census file back, and searching it.
use mathlib.Core.Option.{some-injective}
use mootvote.Base.{
  ℕ, zero, suc, ◌+◌, ◌*◌, ◌/◌, ◌%◌, ◌≡◌, ◌≢◌, ◌⊎◌, inl, inr, ◌≤◌, refl, ap, arith, List, [], ◌∷◌,
  ◌++◌, append_assoc, map, Option, none, some, All, if◌then◌else◌, length, get_elem?, length-append,
  get_or, get_elem?-get_or, ◌==◌, Bool-cases, Option-cases,
}
use mootvote.Base.Int.{ℤ}
use mootvote.Bytes.{norm_fp, to_bytes_be32_buf, bytes32_to_big, big_loop}
use mootvote.Bytes.Value.{bytes32_to_big-to_bytes_be32_buf}
use mootvote.Census.{parse_loop, parse_uploaded_census, census_bin, find_loop}

length-census_bin : (zs : List ℤ) → length (census_bin zs) ≡ 32 * length zs
unfolding census_bin
length-census_bin [] = refl
length-census_bin (z ∷ zs) = omega (
  arith,
  length-append (to_bytes_be32_buf z) (census_bin zs),
  (bytes32_to_big-to_bytes_be32_buf z [] []).0,
  length-census_bin zs,
)

parse_loop-census_bin :
    (zs : List ℤ) (front : List ℕ) (i rounds : ℕ)
    → length front ≡ i
    → length zs ≡ rounds
    → parse_loop rounds (front ++ census_bin zs) i ≡ some (map norm_fp zs)
unfolding parse_loop census_bin
parse_loop-census_bin [] front i zero e r = refl
parse_loop-census_bin [] front i (suc n) e r = absurd (omega arith)
parse_loop-census_bin (z ∷ zs) front i zero e r = absurd (omega arith)
parse_loop-census_bin (z ∷ zs) front i (suc n) e r =
    let (len, _, leaf) = bytes32_to_big-to_bytes_be32_buf z front (census_bin zs) in
    let rest =
      parse_loop-census_bin zs (front ++ to_bytes_be32_buf z) (i + 32) n
        (omega (arith, length-append front (to_bytes_be32_buf z), len)) (omega arith) in
    let rest' = rw (append_assoc front (to_bytes_be32_buf z) (census_bin zs)) at rest in
    let leaf' = rw e at leaf in rw (leaf', rest', parse_loop)

-- `parseUploadedCensus` reads the leaves, modulo `FP`, back from the file that is the concatenation of
-- their `toBytesBE32Buf`.
pub parse_uploaded_census-census_bin :
    (zs : List ℤ) → parse_uploaded_census (census_bin zs) ≡ some (map norm_fp zs)
unfolding parse_uploaded_census
parse_uploaded_census-census_bin zs =
    let whole : length (census_bin zs) % 32 ≡ 0 = omega (arith, length-census_bin zs) in
    let rounds : length (census_bin zs) / 32 ≡ length zs = omega (arith, length-census_bin zs) in
    rw (whole, rounds) (parse_loop-census_bin zs [] 0 (length zs) refl refl)

big_loop_total :
    (k : ℕ) (u8 : List ℕ) (off x : ℕ)
    → off + k ≤ length u8
    → (v : ℕ) × (big_loop k u8 off x ≡ some v)
unfolding big_loop
big_loop_total zero u8 off x h = (x, refl)
big_loop_total (suc k) u8 off x h =
    let here : get_elem? u8 off ≡ some (get_or u8 off 0) =
      get_elem?-get_or u8 off 0 (omega arith) in
    let (v, e) = big_loop_total k u8 (suc off) (x * 256 + get_or u8 off 0) (omega arith) in
    (v, rw (here, big_loop) e)

parse_loop_total :
    (rounds : ℕ) (buf : List ℕ) (i : ℕ)
    → i + 32 * rounds ≤ length buf
    → (leaves : List ℕ) × (parse_loop rounds buf i ≡ some leaves) × (length leaves ≡ rounds)
unfolding parse_loop bytes32_to_big
parse_loop_total zero buf i h = ([], refl, refl)
parse_loop_total (suc n) buf i h =
    let (v, e) = big_loop_total 32 buf i 0 (omega arith) in
    let (leaves, e', len) = parse_loop_total n buf (i + 32) (omega arith) in
    (v ∷ leaves, rw (e, e', parse_loop), ap suc len)

-- A file is read exactly if its length is a multiple of 32, and then gives one leaf for 32 bytes.
pub parse_uploaded_census_total :
    (buf : List ℕ)
    → (length buf % 32 ≡ 0)
        × ((leaves : List ℕ) × (parse_uploaded_census buf ≡ some leaves)
            × (parse_loop (length buf / 32) buf 0 ≡ some leaves)
            × (32 * length leaves ≡ length buf))
      ⊎ (length buf % 32 ≢ 0) × (parse_uploaded_census buf ≡ none)
unfolding parse_uploaded_census
parse_uploaded_census_total buf = elim (Bool-cases (length buf % 32 == 0)) [
  | inl e ↦
      let whole : length buf % 32 ≡ 0 = ground arith in
      let (leaves, e', len) = parse_loop_total (length buf / 32) buf 0 (omega arith) in
      inl (whole, (leaves, rw e e', e', omega arith))
  | inr e ↦ inr (ground arith, rw e)
]

-- `f` is the first index at which the leaf stands.
abbrev pub First : ℕ → List ℕ → ℕ → Type 0
First leaf [] f = ⊥
First leaf (x ∷ xs) zero = x ≡ leaf
First leaf (x ∷ xs) (suc f) = (x ≢ leaf) × First leaf xs f

abbrev pub Found : ℕ → List ℕ → ℕ → Option ℕ → Type 0
Found leaf leaves i none = All (λ x. x ≢ leaf) leaves
Found leaf leaves i (some at) = (f : ℕ) × (at ≡ i + f) × First leaf leaves f

Found-step :
    (x leaf i : ℕ) (xs : List ℕ) (r : Option ℕ)
    → Found leaf xs (suc i) r
    → Found leaf (x ∷ xs) i (if x == leaf then some i else r)
Found-step x leaf i xs r h = elim (Bool-cases (x == leaf)) [
  | inl e ↦ rw e (0, omega arith, ground arith)
  | inr e ↦ rw e (later (ground arith) r h)
]
  where
    later : x ≢ leaf → (r : Option ℕ) → Found leaf xs (suc i) r → Found leaf (x ∷ xs) i r
    later differs none h = (differs, h)
    later differs (some at) (f, q, first) = (suc f, omega arith, (differs, first))

-- The voter's search finds the first index at which the leaf stands, or the leaf is absent.
pub find_loop-Found :
    (rounds : ℕ) (buf : List ℕ) (off i leaf : ℕ) (leaves : List ℕ)
    → parse_loop rounds buf off ≡ some leaves
    → Found leaf leaves i (find_loop rounds buf off i leaf)
unfolding parse_loop find_loop
find_loop-Found zero buf off i leaf [] e = tt
find_loop-Found zero buf off i leaf (x ∷ xs) e = cc
find_loop-Found (suc n) buf off i leaf leaves e = elim (Option-cases (bytes32_to_big buf off)) [
  | inl z ↦ cc (rw (z, parse_loop) at e)
  | inr (x, ex) ↦ elim (Option-cases (parse_loop n buf (off + 32))) [
    | inl z ↦ cc (rw (ex, z, parse_loop) at e)
    | inr (xs, exs) ↦
        let q = some-injective (x ∷ xs) leaves (rw (ex, exs, parse_loop) at e) in
        rw (← q) (
          rw (ex, find_loop)
            (Found-step x leaf i xs (find_loop n buf (off + 32) (suc i) leaf)
              (find_loop-Found n buf (off + 32) (suc i) leaf xs exs)))
  ]
]
