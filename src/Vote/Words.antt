-- ===== src/Vote/Words.antt =====
-- The words of a ciphertext, as bytes and read back.
use mootvote.Base.{
  ℕ, suc, ◌+◌, ◌*◌, ◌/◌, ◌%◌, ◌<◌, ◌≡◌, refl, ◌∙◌, arith, List, [], ◌∷◌, ◌++◌, append_assoc, map,
  some, All, length, length-append,
}
use mootvote.Base.Int.{pos}
use mootvote.Bytes.{fp, norm_fp, to_bytes_be32_buf, bytes32_to_big}
use mootvote.Bytes.Value.{
  value_from, value-be_loop, length-be_loop, norm_fp_small, bytes32_to_big-to_bytes_be32_buf,
}
use mootvote.Tally.Defs.{ok}
use mootvote.Tally.Batch.{words_loop, ct_words_of}
use mootvote.VoteData.Layout.{concat}

abbrev pub word_bytes : ℕ → List ℕ
word_bytes c = to_bytes_be32_buf (pos c)

pub length-word_bytes : (c : ℕ) → length (word_bytes c) ≡ 32
unfolding to_bytes_be32_buf
length-word_bytes c = length-be_loop 32 (norm_fp (pos c)) []

pub value_from-word_bytes : (c : ℕ) → c < fp → value_from 0 (word_bytes c) ≡ c
unfolding to_bytes_be32_buf
value_from-word_bytes c h =
    let small = norm_fp_small c h in
    value-be_loop 32 (norm_fp (pos c)) 0 [] (omega (arith, small)) ∙ omega (arith, small)

pub length-concat :
    (ws : List ℕ) → length (concat (map (λ (c : ℕ). word_bytes c) ws)) ≡ 32 * length ws
length-concat [] = refl
length-concat (c ∷ ws) = omega (
  arith,
  length-append (word_bytes c) (concat (map (λ (c : ℕ). word_bytes c) ws)),
  length-word_bytes c,
  length-concat ws,
)

words_loop-concat :
    (ws front : List ℕ) (i : ℕ)
    → length front ≡ i
    → All (λ (c : ℕ). c < fp) ws
    → words_loop (length ws) (front ++ concat (map (λ (c : ℕ). word_bytes c) ws)) i ≡ some ws
unfolding words_loop bytes32_to_big
words_loop-concat [] front i e h = refl
words_loop-concat (c ∷ ws) front i e (small, hs) =
    let others = concat (map (λ (c : ℕ). word_bytes c) ws) in
    let (len, _, word) = bytes32_to_big-to_bytes_be32_buf (pos c) front others in
    let rest =
      words_loop-concat ws (front ++ word_bytes c) (i + 32)
        (omega (arith, length-append front (word_bytes c), len)) hs in
    let rest' = rw (append_assoc front (word_bytes c) others) at rest in
    let word' = rw (e, norm_fp_small c small) at word in
    joined (front ++ (word_bytes c ++ others)) c word' rest'
  where
    joined :
        (buf : List ℕ) (c : ℕ)
        → bytes32_to_big buf i ≡ some c
        → words_loop (length ws) buf (i + 32) ≡ some ws
        → words_loop (suc (length ws)) buf i ≡ some (c ∷ ws)
    joined buf c word rest = rw (word, rest, words_loop) refl

-- The words of a ciphertext are read back from the concatenation of their bytes.
pub ct_words_of-concat :
    (ws : List ℕ)
    → All (λ (c : ℕ). c < fp) ws
    → ct_words_of (concat (map (λ (c : ℕ). word_bytes c) ws)) ≡ ok ws
unfolding ct_words_of
ct_words_of-concat ws h =
    let whole : length (concat (map (λ (c : ℕ). word_bytes c) ws)) % 32 ≡ 0 =
      omega (arith, length-concat ws) in
    let rounds : length (concat (map (λ (c : ℕ). word_bytes c) ws)) / 32 ≡ length ws =
      omega (arith, length-concat ws) in
    rw (whole, rounds, words_loop-concat ws [] 0 refl h) refl
