-- ===== src/PollPage/TallierKey.antt =====
-- `isTallier` of frontend/src/pages/PollDetailPage.tsx on the key that the indexer gives: the
-- hexadecimal text of 32 bytes for each coordinate.
use mootvote.Base.{
  ℕ, zero, suc, ◌+◌, ◌*◌, ◌/◌, ◌%◌, ◌^◌, ◌<◌, ◌≤◌, ◌≡◌, ◌↔◌, ◌⊎◌, refl, sym, ap, ap₂, ◌∙◌, arith,
  List, [], ◌∷◌, ◌++◌, Option, none, some, Bool, true, false, ◌&&◌, length, replicate,
  length-append, length-replicate, get_elem?, ltb, inl, inr, Bool-cases, All,
}
use mootvote.Blob.{Text}
use mootvote.Bytes.{hex_digit, pad_start, byte_to_string16, bytes_to_hex, be_loop, to_hex32}
use mootvote.Bytes.Value.{IsByte, be_loop-All}
use mootvote.Bytes.Hex.{hex_number-to_hex32, byte_pair, hex_number}
use mootvote.Keyring.{BabyJubKeypair, arrays_equal, to_lower}
use mootvote.Keyring.Checks.{arrays_equal→eq, arrays_equal_refl}
use mootvote.PollPage.Tabs.{hex_loop, hex_string, drop_0x, is_tallier}

-- `k` digits of `n` in front of `out`.
unfoldable nib_loop : ℕ → ℕ → Text → Text
nib_loop zero n out = out
nib_loop (suc k) n out = nib_loop k (n / 16) (hex_digit (n % 16) ∷ out)

length-nib_loop : (k n : ℕ) (out : Text) → length (nib_loop k n out) ≡ k + length out
unfolding nib_loop
length-nib_loop zero n out = omega arith
length-nib_loop (suc k) n out = omega (arith, length-nib_loop k (n / 16) (hex_digit (n % 16) ∷ out))

nib_loop_cong :
    (k a b : ℕ) (out out' : Text) → a ≡ b → out ≡ out' → nib_loop k a out ≡ nib_loop k b out'
nib_loop_cong k a b out out' e f = ap₂ (nib_loop k) e f

twice : (k : ℕ) → suc (suc (2 * k)) ≡ 2 * suc k
twice k = omega arith

bytes_to_hex-be_loop :
    (k n : ℕ) (out : List ℕ)
    → bytes_to_hex (be_loop k n out) ≡ nib_loop (2 * k) n (bytes_to_hex out)
unfolding be_loop nib_loop bytes_to_hex
bytes_to_hex-be_loop zero n out = refl
bytes_to_hex-be_loop (suc k) n out =
    bytes_to_hex-be_loop k (n / 256) (n % 256 ∷ out)
    ∙ nib_loop_cong (2 * k) (n / 256) (n / 16 / 16)
        (pad_start 2 (byte_to_string16 (n % 256)) ++ bytes_to_hex out)
        (hex_digit (n / 16 % 16) ∷ hex_digit (n % 16) ∷ bytes_to_hex out) (omega arith)
        (rw (byte_pair (n % 256) (omega arith)) (
          ap₂ (λ (a b : ℕ). hex_digit a ∷ hex_digit b ∷ bytes_to_hex out) (omega arith)
            (omega arith)))
    ∙ ap (λ (j : ℕ). nib_loop j n (bytes_to_hex out)) (twice k)

replicate_snoc : (j : ℕ) (s : Text) → replicate j 48 ++ (48 ∷ s) ≡ 48 ∷ (replicate j 48 ++ s)
replicate_snoc zero s = refl
replicate_snoc (suc j) s = ap (λ t. 48 ∷ t) (replicate_snoc j s)

nib_loop_zero : (k : ℕ) (out : Text) → nib_loop k 0 out ≡ replicate k 48 ++ out
unfolding nib_loop
nib_loop_zero zero out = refl
nib_loop_zero (suc k) out = nib_loop_zero k (48 ∷ out) ∙ replicate_snoc k out

div_lt : (n k : ℕ) → n < 16 * 16 ^ suc k → n / 16 < 16 ^ suc k
div_lt n k h = omega arith

-- The text of a number below 16 ^ k is its `k` digits without the zeroes in front.
hex_loop-nib_loop :
    (k rounds n : ℕ) (out : Text)
    → n < rounds
    → n < 16 ^ suc k
    → (j : ℕ) × (replicate j 48 ++ hex_loop rounds n out ≡ nib_loop (suc k) n out)
unfolding hex_loop nib_loop
hex_loop-nib_loop k zero n out h b = absurd (omega arith)
hex_loop-nib_loop zero (suc rounds) n out h b =
    let small : ltb n 16 ≡ true = ground arith in
    (0, rw (small, hex_loop) (ap (λ (t : ℕ). hex_digit t ∷ out) (omega arith)))
hex_loop-nib_loop (suc k) (suc rounds) n out h b = elim (Bool-cases (ltb n 16)) [
  | inl e ↦ (
    suc k,
    rw (e, hex_loop)
        (sym (nib_loop_zero (suc k) (hex_digit n ∷ out))
          ∙ nib_loop_cong (suc k) 0 (n / 16) (hex_digit n ∷ out) (hex_digit (n % 16) ∷ out)
              (ground arith) (ap (λ (t : ℕ). hex_digit t ∷ out) (ground arith))),
  )
  | inr e ↦
      let large : 16 ≤ n = ground arith in
      let bound : n < 16 * 16 ^ suc k = omega (arith, b) in
      let (j, r) =
        hex_loop-nib_loop k rounds (n / 16) (hex_digit (n % 16) ∷ out) (omega arith)
          (div_lt n k bound) in
      (j, rw (e, hex_loop) r)
]

-- A coordinate, padded to 64 digits, is the text of its 32 bytes.
pub pad_start-hex_string : (n : ℕ) → n < 256 ^ 32 → pad_start 64 (hex_string n) ≡ to_hex32 n
unfolding hex_string to_hex32 bytes_to_hex
pad_start-hex_string n h =
    let (j, r) = hex_loop-nib_loop 63 (suc n) n [] (omega arith) (omega (arith, h)) in
    let whole : j + length (hex_loop (suc n) n []) ≡ 64 = omega (
      arith,
      ap length r,
      length-append (replicate j 48) (hex_loop (suc n) n []),
      length-replicate {A = ℕ} j 48,
      length-nib_loop 64 n [],
    ) in
    ap (λ (i : ℕ). replicate i 48 ++ hex_loop (suc n) n []) (omega (arith, whole))
    ∙ r
    ∙ sym (bytes_to_hex-be_loop 32 n [])

abbrev IsDigit : ℕ → Type 0
IsDigit c = (48 ≤ c) × (c ≤ 57) ⊎ (97 ≤ c) × (c ≤ 102)

hex_digit-IsDigit : (d : ℕ) → d < 16 → IsDigit (hex_digit d)
hex_digit-IsDigit d h = ground arith

pub bytes_to_hex-IsDigit : (bs : List ℕ) → All IsByte bs → All IsDigit (bytes_to_hex bs)
unfolding bytes_to_hex
bytes_to_hex-IsDigit [] h = tt
bytes_to_hex-IsDigit (b ∷ bs) h = rw (byte_pair b h.0) (
  hex_digit-IsDigit (b / 16) (omega arith),
  (hex_digit-IsDigit (b % 16) (omega arith), bytes_to_hex-IsDigit bs h.1),
)

pub to_lower-IsDigit : (s : Text) → All IsDigit s → to_lower s ≡ s
unfolding to_lower
to_lower-IsDigit [] h = refl
to_lower-IsDigit (c ∷ s) h =
    ap₂ (λ (a : ℕ) (t : Text). a ∷ t) (ground arith) (to_lower-IsDigit s h.1)

drop_0x-IsDigit : (s : Text) → All IsDigit s → drop_0x s ≡ s
unfolding drop_0x
drop_0x-IsDigit [] h = refl
drop_0x-IsDigit (c ∷ []) h = refl
drop_0x-IsDigit (c ∷ d ∷ s) h = ground arith

to_hex32-IsDigit : (n : ℕ) → All IsDigit (to_hex32 n)
unfolding to_hex32
to_hex32-IsDigit n = bytes_to_hex-IsDigit (be_loop 32 n []) (be_loop-All 32 n [] tt)

to_hex32_inj : (x y : ℕ) → x < 256 ^ 32 → y < 256 ^ 32 → to_hex32 x ≡ to_hex32 y → x ≡ y
to_hex32_inj x y hx hy e =
    sym (hex_number-to_hex32 x hx) ∙ ap (hex_number 0) e ∙ hex_number-to_hex32 y hy

-- The comparison of one coordinate.
abbrev same_as : ℕ → ℕ → Bool
same_as x y =
    arrays_equal (to_lower (pad_start 64 (hex_string x))) (to_lower (drop_0x (to_hex32 y)))

and_true : {a b : Bool} → (a && b) ≡ true → (a ≡ true) × (b ≡ true)
and_true h = ground arith

same_coordinate : (x y : ℕ) → x < 256 ^ 32 → y < 256 ^ 32 → same_as x y ≡ true ↔ x ≡ y
same_coordinate x y hx hy =
    rw
      (
        pad_start-hex_string x hx,
        drop_0x-IsDigit (to_hex32 y) (to_hex32-IsDigit y),
        to_lower-IsDigit (to_hex32 x) (to_hex32-IsDigit x),
        to_lower-IsDigit (to_hex32 y) (to_hex32-IsDigit y),
      )
      (
        (λ h. to_hex32_inj x y hx hy (arrays_equal→eq (to_hex32 x) (to_hex32 y) h)),
        (λ e. rw e (arrays_equal_refl (to_hex32 y))),
      )

-- `isTallier` holds on the key text of the indexer exactly if the keyring is open and its active
-- account has that public key. Coordinates are below 2 ^ 256.
pub is_tallier_lem :
    (x y : ℕ) (locked : Bool) (accounts : List BabyJubKeypair) (active : ℕ)
    → x < 256 ^ 32
    → y < 256 ^ 32
    → All (λ a. (a.pub_key.0 < 256 ^ 32) × (a.pub_key.1 < 256 ^ 32)) accounts
    → is_tallier (some (to_hex32 x, to_hex32 y)) locked accounts active ≡ true
      ↔ (locked ≡ false)
        × ((acc : BabyJubKeypair) × (get_elem? accounts active ≡ some acc) × (acc.pub_key ≡ (x, y)))
unfolding is_tallier
is_tallier_lem x y true accounts active hx hy h = ((λ e. cc), (λ e. cc))
is_tallier_lem x y false [] active hx hy h = ((λ e. cc), (λ e. cc))
is_tallier_lem x y false (a ∷ rest) zero hx hy h =
    let at_x = same_coordinate a.pub_key.0 x h.0.0 hx in
    let at_y = same_coordinate a.pub_key.1 y h.0.1 hy in
    (
      (λ e.
          let both = and_true {a = same_as a.pub_key.0 x} {b = same_as a.pub_key.1 y} e in
          (refl, (a, refl, ap₂ (λ p q. (p, q)) (at_x.0 both.0) (at_y.0 both.1)))),
      (λ (r, (acc, e, k)).
          let key : a.pub_key ≡ (x, y) =
            ap (λ (o : Option BabyJubKeypair). elim o [ none ↦ (0, 0) | some c ↦ c.pub_key ]) e
            ∙ k in
          rw (at_x.1 (ap (λ p. p.0) key), at_y.1 (ap (λ p. p.1) key)) refl),
    )
is_tallier_lem x y false (a ∷ rest) (suc active) hx hy h =
    is_tallier_lem x y false rest active hx hy h.1
