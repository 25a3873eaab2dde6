-- ===== src/PollList/Words.antt =====
-- The texts that the query for a page of polls has for keys and leaves (frontend/src/pages/PollListPage.tsx and
-- indexer/src/server.rs).
use mootvote.Base.{
  ℕ, ◌^◌, ◌<◌, ◌≡◌, refl, sym, ap, ap₂, ◌∙◌, arith, List, [], ◌∷◌, ◌++◌, length, take, drop, All,
  take-append_left, drop-append_left, append_assoc,
}
use mootvote.Bytes.{
  fp, be_loop, pad_start, byte_to_string16, bytes_to_hex, to_hex32, to_bytes_be32_buf,
}
use mootvote.Bytes.Value.{IsByte, be_loop-All, length-be_loop, norm_fp_small}
use mootvote.Keyring.{to_lower}
use mootvote.PollList.{key_to_leaf_hex, tallier_text}
use mootvote.PollPage.TallierKey.{pad_start-hex_string, to_lower-IsDigit, bytes_to_hex-IsDigit}

-- The 32 bytes of a coordinate or a leaf, as the database has them.
abbrev pub word : ℕ → List ℕ
word n = be_loop 32 n []

pub bytes_to_hex-append :
    (xs ys : List ℕ) → bytes_to_hex (xs ++ ys) ≡ bytes_to_hex xs ++ bytes_to_hex ys
unfolding bytes_to_hex
bytes_to_hex-append [] ys = refl
bytes_to_hex-append (x ∷ xs) ys =
    ap (λ t. pad_start 2 (byte_to_string16 x) ++ t) (bytes_to_hex-append xs ys)
    ∙ sym (append_assoc (pad_start 2 (byte_to_string16 x)) (bytes_to_hex xs) (bytes_to_hex ys))

pub word-All : (n : ℕ) → All IsByte (word n)
word-All n = be_loop-All 32 n [] tt

pub length-word : (n : ℕ) → length (word n) ≡ 32
length-word n = omega (arith, length-be_loop 32 n [])

pub All-append : (xs ys : List ℕ) → All IsByte xs → All IsByte ys → All IsByte (xs ++ ys)
All-append [] ys h k = k
All-append (x ∷ xs) ys h k = (h.0, All-append xs ys h.1 k)

-- The texts of the query are those of the bytes in the database.
pub tallier_text_lem :
    (key : ℕ × ℕ)
    → key.0 < 256 ^ 32
    → key.1 < 256 ^ 32
    → tallier_text key ≡ bytes_to_hex (word key.0 ++ word key.1)
unfolding tallier_text to_hex32
tallier_text_lem key hx hy =
    ap₂ (λ a b. to_lower (a ++ b)) (pad_start-hex_string key.0 hx) (pad_start-hex_string key.1 hy)
    ∙ ap to_lower (sym (bytes_to_hex-append (word key.0) (word key.1)))
    ∙ to_lower-IsDigit (bytes_to_hex (word key.0 ++ word key.1)) (
        bytes_to_hex-IsDigit (word key.0 ++ word key.1)
          (All-append (word key.0) (word key.1) (word-All key.0) (word-All key.1)))

pub key_to_leaf_hex_lem :
    (poseidon : List ℕ → ℕ) (key : ℕ × ℕ)
    → poseidon (key.0 ∷ key.1 ∷ []) < fp
    → key_to_leaf_hex poseidon key ≡ bytes_to_hex (word (poseidon (key.0 ∷ key.1 ∷ [])))
unfolding key_to_leaf_hex to_bytes_be32_buf
key_to_leaf_hex_lem poseidon key h =
    ap (λ (n : ℕ). bytes_to_hex (be_loop 32 n [])) (norm_fp_small (poseidon (key.0 ∷ key.1 ∷ [])) h)

pub halves :
    (x y : ℕ) → (take 32 (word x ++ word y) ≡ word x) × (drop 32 (word x ++ word y) ≡ word y)
halves x y = (
  ap (λ (n : ℕ). take n (word x ++ word y)) (sym (length-word x))
      ∙ take-append_left (word x) (word y),
  ap (λ (n : ℕ). drop n (word x ++ word y)) (sym (length-word x))
      ∙ drop-append_left (word x) (word y),
)
