-- ===== src/Tally/Tests.antt =====
-- A small instance of the libraries of frontend/src/components/Tally.tsx.
mod Examples
mod Clicked
use mootvote.Base.{
  ℕ, ◌+◌, ◌*◌, ◌%◌, ◌^◌, ◌<◌, ◌≡◌, refl, ap, arith, List, [], ◌∷◌, ◌++◌, Option, none, some, Bool,
  true, false, ◌==◌, if◌then◌else◌, replicate,
}
use mootvote.Base.Int.{ℤ, pos, negsuc}
use mootvote.Tally.Defs.{VoteRow, Message, CircomProof, Attempt, done, already_exists, Library}
use mootvote.Tally.Laws.{Lawful}

-- A tree is the list of its writes, the last one first.
abbrev Writes : Type 0
Writes = List (ℕ × ℕ)

abbrev pub find : Writes → ℕ → Option ℕ
find [] j = none
find ((k, v) ∷ t) j = if k == j then some v else find t j

abbrev sum : List ℕ → ℕ
sum [] = 1
sum (x ∷ xs) = x + 10 * sum xs

abbrev sum_int : List ℤ → ℕ
sum_int [] = 1
sum_int (pos x ∷ xs) = x + 10 * sum_int xs
sum_int (negsuc x ∷ xs) = 7 + x + 10 * sum_int xs

abbrev a_proof : CircomProof
a_proof = record { is_old0 = true; fnc = 0; old_key = 0; old_value = 0; siblings = [] }

abbrev add_write : Writes → ℕ → ℕ → Attempt Writes
add_write t k v = elim (find t k) [ none ↦ done ((k, v) ∷ t) | some u ↦ already_exists ]

abbrev add_with_proof : Writes → ℕ → ℕ → Attempt (Writes × CircomProof)
add_with_proof t k v = elim (find t k) [
  | none ↦ done ((k, v) ∷ t, a_proof)
  | some u ↦ already_exists
]

abbrev update_write : Writes → ℕ → ℕ → Option (Writes × CircomProof)
update_write t k v = elim (find t k) [ none ↦ none | some u ↦ some ((k, v) ∷ t, a_proof) ]

abbrev read_message : List ℕ → ℕ × ℕ → ℕ → Option Message
read_message (a ∷ b ∷ c ∷ d ∷ []) p nonce =
    some (record { nu = a; choice = b; revoting_key_old = c; revoting_key_new = d })
read_message _ p nonce = none

abbrev value_or_zero : Option ℕ → ℕ
value_or_zero none = 0
value_or_zero (some v) = v

abbrev pub small_lib : Library
small_lib = record {
  poseidon = sum;
  poseidon_int = sum_int;
  mul_point_escalar = λ p k. p;
  poseidon_decrypt = read_message;
  Tree = Writes;
  empty_tree = [];
  add = add_write;
  update = update_write;
  add_and_get_circom_proof = add_with_proof;
  generate_circom_verifier_proof = λ t k. some a_proof;
  root = λ t. value_or_zero (find t 5) % 256 ^ 32;
}

add_write_fresh : (t : Writes) (k v : ℕ) → find t k ≡ none → add_write t k v ≡ done ((k, v) ∷ t)
add_write_fresh t k v h = rw (h, add_write) refl

add_write_present : (t : Writes) (k v u : ℕ) → find t k ≡ some u → add_write t k v ≡ already_exists
add_write_present t k v u h = rw (h, add_write) refl

add_with_proof_fresh :
    (t : Writes) (k v : ℕ) → find t k ≡ none → add_with_proof t k v ≡ done ((k, v) ∷ t, a_proof)
add_with_proof_fresh t k v h = rw (h, add_with_proof) refl

add_with_proof_present :
    (t : Writes) (k v u : ℕ) → find t k ≡ some u → add_with_proof t k v ≡ already_exists
add_with_proof_present t k v u h = rw (h, add_with_proof) refl

update_write_present :
    (t : Writes) (k v u : ℕ) → find t k ≡ some u → update_write t k v ≡ some ((k, v) ∷ t, a_proof)
update_write_present t k v u h = rw (h, update_write) refl

pub small_laws : Lawful small_lib
small_laws = record {
  get = find;
  get-empty_tree = λ k. refl;
  add_fresh = λ t k v small h. ((k, v) ∷ t, add_write_fresh t k v h, λ j. refl);
  add_present = add_write_present;
  add_and_get_fresh =
      λ t k v small h. ((k, v) ∷ t, a_proof, add_with_proof_fresh t k v h, λ j. refl);
  add_and_get_present = add_with_proof_present;
  update_present = λ t k v u h. ((k, v) ∷ t, a_proof, update_write_present t k v u h, λ j. refl);
  generate_total = λ t k. (a_proof, refl);
  root_ext = λ s t h. ap (λ o. value_or_zero o % 256 ^ 32) (h 5);
  root-lt = λ t. omega arith;
}

-- 32 bytes that spell a small number.
abbrev word : ℕ → List ℕ
word b = replicate 31 0 ++ (b ∷ [])

abbrev vote_of : ℕ → List ℕ → VoteRow
vote_of id ct = record { id = id; eph_x = 1; eph_y = 2; nonce = 3; ciphertext = ct }

abbrev pub first_vote : VoteRow
first_vote = vote_of 7 (word 5 ++ word 2 ++ word 10 ++ word 4)

-- The vote of nullifier 5 for choice 2 with the hash of 0, 10, as its revoting key, then one that
-- changes the choice to 1, then one with a wrong key.
abbrev pub three_votes : List VoteRow
three_votes =
    first_vote
    ∷ vote_of 8 (word 5 ++ word 1 ++ word 4 ++ word 6)
    ∷ vote_of 9 (word 5 ++ word 2 ++ word 4 ++ word 6)
    ∷ []
