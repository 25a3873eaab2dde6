-- ===== src/Blob/Tests.antt =====
-- A small cipher, and texts for values, to run the code on.
use mootvote.Base.{
  ℕ, zero, suc, ◌≡◌, refl, ap, arith, List, [], ◌∷◌, Option, none, some, ◌==◌, if◌then◌else◌,
  length,
}
use mootvote.Blob.{Bytes, WebCrypto, Json, CryptoLaws, Parses, ◌>>=◌}

-- The key is the length of the passphrase, which the ciphertext begins with.
abbrev open_with : ℕ → Bytes → Option Bytes
open_with key [] = none
open_with key (k ∷ pt) = if key == k then some pt else none

abbrev pub small_crypto : WebCrypto
small_crypto = record {
  Key = ℕ;
  pbkdf2 = λ pass salt. length pass;
  encrypt = λ iv key pt. key ∷ pt;
  decrypt = λ iv key ct. open_with key ct;
  btoa = λ bs. bs;
  atob = λ s. some s;
}

open_with_same : (key : ℕ) (pt : Bytes) → open_with key (key ∷ pt) ≡ some pt
open_with_same key pt = ground arith

pub small_crypto_laws : CryptoLaws small_crypto
small_crypto_laws = record {
  decrypt-encrypt = λ iv key pt. open_with_same key pt;
  atob-btoa = λ bs. refl;
}

-- A value in front of what follows it.
pub record Codec (A : Type 0) : Type 0 where
  pub write : A → Bytes → Bytes
  pub read : Bytes → Option (A × Bytes)
  pub read-write : (a : A) (rest : Bytes) → read (write a rest) ≡ some (a, rest)

abbrev read_number : Bytes → Option (ℕ × Bytes)
read_number [] = none
read_number (n ∷ rest) = some (n, rest)

abbrev pub number : Codec ℕ
number = record { write = λ n rest. n ∷ rest; read = read_number; read-write = λ n rest. refl }

module _ {A B : Type 0} (a : Codec A) (b : Codec B) where
  abbrev read_pair : Bytes → Option ((A × B) × Bytes)
  read_pair bs = a.read bs >>= λ p. b.read p.1 >>= λ q. some ((p.0, q.0), q.1)

  pub read_pair-write :
      (x : A) (y : B) (rest : Bytes) → read_pair (a.write x (b.write y rest)) ≡ some ((x, y), rest)
  read_pair-write x y rest = rw (a.read-write x (b.write y rest)) (rw (b.read-write y rest) refl)

  abbrev pub pair : Codec (A × B)
  pair = record {
    write = λ p rest. a.write p.0 (b.write p.1 rest);
    read = read_pair;
    read-write = λ p rest. read_pair-write p.0 p.1 rest;
  }

module _ {A : Type 0} (a : Codec A) where
  abbrev write_all : List A → Bytes → Bytes
  write_all [] rest = rest
  write_all (x ∷ xs) rest = a.write x (write_all xs rest)

  abbrev read_all : ℕ → Bytes → Option (List A × Bytes)
  read_all zero bs = some ([], bs)
  read_all (suc k) bs = a.read bs >>= λ p. read_all k p.1 >>= λ q. some (p.0 ∷ q.0, q.1)

  pub read_all-write_all :
      (xs : List A) (rest : Bytes) → read_all (length xs) (write_all xs rest) ≡ some (xs, rest)
  read_all-write_all [] rest = refl
  read_all-write_all (x ∷ xs) rest =
      rw (a.read-write x (write_all xs rest)) (rw (read_all-write_all xs rest) refl)

  abbrev read_list : Bytes → Option (List A × Bytes)
  read_list [] = none
  read_list (n ∷ bs) = read_all n bs

  abbrev pub list : Codec (List A)
  list = record {
    write = λ xs rest. length xs ∷ write_all xs rest;
    read = read_list;
    read-write = read_all-write_all;
  }

module _ {A B : Type 0} (a : Codec A) (to : A → B) (from : B → A)
    (back : (y : B) → to (from y) ≡ y) where
  abbrev read_as : Bytes → Option (B × Bytes)
  read_as bs = a.read bs >>= λ p. some (to p.0, p.1)

  pub read_as-write : (y : B) (rest : Bytes) → read_as (a.write (from y) rest) ≡ some (y, rest)
  read_as-write y rest = rw (a.read-write (from y) rest) (ap (λ z. some (z, rest)) (back y))

  abbrev pub via : Codec B
  via = record {
    write = λ y rest. a.write (from y) rest;
    read = read_as;
    read-write = read_as-write;
  }

module _ {A : Type 0} (a : Codec A) where
  abbrev parse_one : Bytes → Option A
  parse_one bs = a.read bs >>= λ p. some p.0

  abbrev pub json_of : Json A
  json_of = record { stringify = λ x. a.write x []; parse = parse_one }

  pub json_of-Parses : Parses json_of
  json_of-Parses x = rw (a.read-write x []) refl
