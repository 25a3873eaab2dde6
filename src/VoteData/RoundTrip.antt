-- ===== src/VoteData/RoundTrip.antt =====
-- The program reads the vote back from the bytes of `serializeVoteData`: the arguments `eph_pk`,
-- `nonce`, `ciphertext` and `proof` of `vote_with_relayer`, fixed-size fields one after the other with
-- the nonce lowest byte first.
use mootvote.Base.{
  ℕ, zero, suc, ◌+◌, ◌*◌, ◌/◌, ◌^◌, ◌≡◌, ◌<◌, refl, sym, ap, ◌∙◌, arith, List, [], ◌∷◌, ◌++◌,
  append-nil, append_assoc, Option, none, some, length, true, take, drop, All, length-append,
  take-append_left, drop-append_left, leb, if◌then◌else◌,
}
use mootvote.VoteData.{VoteParams, le_bytes, serialize_vote_data, ◌>>=◌}
use mootvote.VoteData.Layout.{concat, packed, allocated, serialize_vote_data_lem}
use native.Mathlib.Nat.{pow-suc}

-- The next `n` bytes and what follows them; `none`: the data end too early.
read : ℕ → List ℕ → Option (List ℕ × List ℕ)
read n bs = if leb n (length bs) then some (take n bs, drop n bs) else none

read_rows : ℕ → List ℕ → Option (List (List ℕ) × List ℕ)
read_rows zero bs = some ([], bs)
read_rows (suc k) bs = do (row, bs) ← read 32 bs; (rows, bs) ← read_rows k bs; some (row ∷ rows, bs)

abbrev from_le : List ℕ → ℕ
from_le [] = 0
from_le (b ∷ bs) = b + 256 * from_le bs

pub read_vote_args : List ℕ → Option (VoteParams × List ℕ)
read_vote_args bs = do
  (x, bs) ← read 32 bs
  (y, bs) ← read 32 bs
  (nonce, bs) ← read 8 bs
  (ciphertext, bs) ← read_rows 7 bs
  (a, bs) ← read 32 bs
  (b, bs) ← read 64 bs
  (c, bs) ← read 32 bs
  some (
    record {
      ciphertext = ciphertext;
      proof = record { a = a; b = b; c = c };
      eph_pk = record { x = x; y = y };
      nonce = from_le nonce;
    },
    bs,
  )

-- The sizes of the types in the program's signature.
pub record IsSized (p : VoteParams) : Type 0 where
  pub x_size : length p.eph_pk.x ≡ 32
  pub y_size : length p.eph_pk.y ≡ 32
  pub nonce_size : p.nonce < 2 ^ 64
  pub row_count : length p.ciphertext ≡ 7
  pub row_size : All (λ row. length row ≡ 32) p.ciphertext
  pub a_size : length p.proof.a ≡ 32
  pub b_size : length p.proof.b ≡ 64
  pub c_size : length p.proof.c ≡ 32

read-append :
    (n : ℕ) (field rest : List ℕ) → length field ≡ n → read n (field ++ rest) ≡ some (field, rest)
unfolding read
read-append n field rest e =
    let fits : leb n (length (field ++ rest)) ≡ true = ground (arith, length-append field rest) in
    let front : take n (field ++ rest) ≡ field =
      ap (λ (t : ℕ). take t (field ++ rest)) (sym e) ∙ take-append_left field rest in
    let back : drop n (field ++ rest) ≡ rest =
      ap (λ (t : ℕ). drop t (field ++ rest)) (sym e) ∙ drop-append_left field rest in
    rw (fits, front, back)

read_rows-concat :
    (k : ℕ) (rows : List (List ℕ)) (rest : List ℕ)
    → length rows ≡ k
    → All (λ row. length row ≡ 32) rows
    → read_rows k (concat rows ++ rest) ≡ some (rows, rest)
unfolding read_rows
read_rows-concat zero [] rest e h = refl
read_rows-concat zero (r ∷ rows) rest e h = absurd (omega arith)
read_rows-concat (suc k) [] rest e h = absurd (omega arith)
read_rows-concat (suc k) (r ∷ rows) rest e h = rw (append_assoc r (concat rows) rest) (
    rw (read-append 32 r (concat rows ++ rest) h.0)
      (rw (read_rows-concat k rows rest (omega arith) h.1)))

length-le_bytes : (k n : ℕ) → length (le_bytes k n) ≡ k
unfolding le_bytes
length-le_bytes zero n = refl
length-le_bytes (suc k) n = ap suc (length-le_bytes k (n / 256))

from_le-le_bytes : (k n : ℕ) → n < 256 ^ k → from_le (le_bytes k n) ≡ n
unfolding le_bytes
from_le-le_bytes zero n h = omega arith
from_le-le_bytes (suc k) n h =
    omega (arith, from_le-le_bytes k (n / 256) (omega (arith, pow-suc 256 k)))

read_vote_args-packed :
    (p : VoteParams) (rest : List ℕ)
    → IsSized p
    → read_vote_args (packed p ++ rest) ≡ some (p, rest)
unfolding read_vote_args
read_vote_args-packed p rest h = simp append_assoc (
    rw (read-append 32 p.eph_pk.x _ h.x_size) (
      rw (read-append 32 p.eph_pk.y _ h.y_size) (
        rw (read-append 8 (le_bytes 8 p.nonce) _ (length-le_bytes 8 p.nonce)) (
          rw (read_rows-concat 7 p.ciphertext _ h.row_count h.row_size) (
            rw (read-append 32 p.proof.a _ h.a_size) (
              rw (read-append 64 p.proof.b _ h.b_size) (
                rw (read-append 32 p.proof.c rest h.c_size)
                  (rw (from_le-le_bytes 8 p.nonce h.nonce_size)))))))))

length-concat :
    (rows : List (List ℕ))
    → All (λ row. length row ≡ 32) rows
    → length (concat rows) ≡ length rows * 32
length-concat [] h = refl
length-concat (r ∷ rows) h = omega (arith, length-append r (concat rows), length-concat rows h.1)

length-packed : (p : VoteParams) → IsSized p → length (packed p) ≡ 424
length-packed p h = simp length-append (
    omega (
      arith,
      h.x_size,
      h.y_size,
      length-le_bytes 8 p.nonce,
      length-concat p.ciphertext h.row_size,
      h.row_count,
      h.a_size,
      h.b_size,
      h.c_size,
    ))

first_row :
    (rows : List (List ℕ))
    → length rows ≡ 7
    → All (λ row. length row ≡ 32) rows
    → (first : List ℕ) × (others : List (List ℕ)) × (rows ≡ first ∷ others) × (length first ≡ 32)
first_row [] e h = absurd (omega arith)
first_row (r ∷ rows) e h = (r, rows, refl, h.0)

-- A vote of the sizes that the program declares is packed into 424 bytes, and the program's reader
-- gets the same vote from them, with whatever follows left over.
pub read_vote_args-serialize_vote_data :
    (p : VoteParams) (rest : List ℕ)
    → IsSized p
    → (bs : List ℕ) × (serialize_vote_data p ≡ some bs)
      × (length bs ≡ 424)
      × (read_vote_args (bs ++ rest) ≡ some (p, rest))
read_vote_args-serialize_vote_data p rest h =
    let (first, others, e, size) = first_row p.ciphertext h.row_count h.row_size in
    let len = length-packed p h in
    let room : allocated p first ≡ 424 = omega (
      arith,
      h.x_size,
      h.y_size,
      ap (λ (t : ℕ). t * length first) h.row_count,
      size,
      h.a_size,
      h.b_size,
      h.c_size,
    ) in
    (
      packed p,
      serialize_vote_data_lem p first others e h.nonce_size
          ∙ rw (len, room) (ap some (append-nil (packed p))),
      len,
      read_vote_args-packed p rest h,
    )
