-- ===== src/VoteData/Tests.antt =====
-- Runs of `serializeVoteData`.
use mootvote.Base.{
  ℕ, ◌-◌, ◌≡◌, refl, arith, List, [], ◌∷◌, ◌++◌, none, some, length, replicate, leb, if◌then◌else◌,
}
use mootvote.VoteData.{VoteParams, serialize_vote_data}
use mootvote.VoteData.Layout.{packed, allocated, serialize_vote_data_lem}
use mootvote.VoteData.RoundTrip.{read_vote_args, IsSized, read_vote_args-serialize_vote_data}

-- A vote of the program's sizes.
abbrev vote : VoteParams
vote = record {
  ciphertext = replicate 7 (replicate 32 4);
  proof = record { a = replicate 32 5; b = replicate 64 6; c = replicate 32 7 };
  eph_pk = record { x = replicate 32 1; y = replicate 32 2 };
  nonce = 770;
}

vote-IsSized : IsSized vote
vote-IsSized = record {
  x_size = refl;
  y_size = refl;
  nonce_size = omega arith;
  row_count = refl;
  row_size = (refl, (refl, (refl, (refl, (refl, (refl, (refl, tt)))))));
  a_size = refl;
  b_size = refl;
  c_size = refl;
}

read_vote_args-serialize_vote_data_example :
    (bs : List ℕ) × (serialize_vote_data vote ≡ some bs)
    × (length bs ≡ 424)
    × (read_vote_args (bs ++ (9 ∷ [])) ≡ some (vote, 9 ∷ []))
read_vote_args-serialize_vote_data_example =
    read_vote_args-serialize_vote_data vote (9 ∷ []) vote-IsSized

-- A vote whose rows differ in length: it does not fit.
abbrev ragged : VoteParams
ragged = record vote { ciphertext = (1 ∷ []) ∷ (2 ∷ 3 ∷ []) ∷ [] }

serialize_vote_data_lem_example : serialize_vote_data ragged ≡ (
    if leb (length (packed ragged)) (allocated ragged (1 ∷ []))
    then some (packed ragged ++ replicate (allocated ragged (1 ∷ []) - length (packed ragged)) 0)
    else none)
serialize_vote_data_lem_example =
    serialize_vote_data_lem ragged (1 ∷ []) ((2 ∷ 3 ∷ []) ∷ []) refl (omega arith)
