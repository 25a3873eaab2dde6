-- ===== src/VoteData.antt =====
-- `serializeVoteData` of ts-sdk/src/instructions.ts, which packs a vote into the bytes that the relayer
-- passes on, and the layout that the program reads (`vote_with_relayer` of programs/mootvote).
pub mod Layout
pub mod RoundTrip
mod Tests
use mootvote.Base.{
  ℕ, zero, suc, ◌+◌, ◌*◌, ◌/◌, ◌%◌, ◌^◌, List, [], ◌∷◌, ◌++◌, Option, none, some, ltb, leb, ◌==◌,
  if◌then◌else◌, length, take, drop, replicate,
}

pub record Point : Type 0 where
  pub x : List ℕ
  pub y : List ℕ

pub record CompressedProof : Type 0 where
  pub a : List ℕ
  pub b : List ℕ
  pub c : List ℕ

-- `SerializeVoteDataParams`; a BN or a bigint is a number.
pub record VoteParams : Type 0 where
  pub ciphertext : List (List ℕ)
  pub proof : CompressedProof
  pub eph_pk : Point
  pub nonce : ℕ

infixl 5 ◌>>=◌
abbrev pub ◌>>=◌ : {A B : Type 0} → Option A → (A → Option B) → Option B
none >>= f = none
some a >>= f = f a

-- `toArrayLike(Buffer, "le", k)`: the bytes, lowest first.
unfoldable pub le_bytes : ℕ → ℕ → List ℕ
le_bytes zero n = []
le_bytes (suc k) n = n % 256 ∷ le_bytes k (n / 256)

-- bn.js refuses a number that takes more bytes.
unfoldable pub to_array_like_le8 : ℕ → Option (List ℕ)
to_array_like_le8 n = if ltb n (2 ^ 64) then some (le_bytes 8 n) else none

-- The buffer and the offset that the next write begins at.
pub record Cursor : Type 0 where
  pub res : List ℕ
  pub offset : ℕ

-- `res.set(bytes, offset); offset += bytes.length`; a write past the end is a RangeError.
unfoldable pub put : List ℕ → Cursor → Option Cursor
put bytes s =
    if leb (s.offset + length bytes) (length s.res)
    then some (record {
      res = take s.offset s.res ++ (bytes ++ drop (s.offset + length bytes) s.res);
      offset = s.offset + length bytes;
    })
    else none

-- `for (const c of ciphertext) …`
unfoldable pub put_all : List (List ℕ) → Cursor → Option Cursor
put_all [] s = some s
put_all (c ∷ cs) s = put c s >>= put_all cs

-- `none`: it throws, as where `ciphertext[0]` is undefined.
unfoldable pub serialize_vote_data : VoteParams → Option (List ℕ)
serialize_vote_data p = elim p.ciphertext [
  | [] ↦ none
  | first ∷ others ↦ do
    let total =
        length p.eph_pk.x
        + length p.eph_pk.y
        + 8
        + length (first ∷ others) * length first
        + length p.proof.a
        + length p.proof.b
        + length p.proof.c
    s ← put p.eph_pk.x (record { res = replicate total 0; offset = 0 })
    s ← put p.eph_pk.y s
    nonce ← to_array_like_le8 p.nonce
    s ← put nonce s
    s ← put_all (first ∷ others) s
    s ← put p.proof.a s
    s ← put p.proof.b s
    s ← put p.proof.c s
    some s.res
]
