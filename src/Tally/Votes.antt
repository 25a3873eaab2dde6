-- ===== src/Tally/Votes.antt =====
-- The votes that the indexer serves to the tallier (indexer/src/server.rs, `list_votes`), and the
-- prefixes of them that the tally works through.
use mootvote.Base.{
  ℕ, zero, suc, ◌+◌, ◌<◌, ◌≤◌, ◌≡◌, refl, sym, ap, ◌∙◌, arith, List, [], ◌∷◌, ◌++◌, Option, none,
  some, false, ltb, lt→ltb, if◌then◌else◌, length, take, drop, All, min,
}
use mootvote.Tally.Defs.{VoteRow, Library, Leaves}
use mootvote.Tally.Laws.{Lawful}
use mootvote.Tally.Step.{cast}
use mootvote.Tally.Runs.{Readable, cast_all}
use mootvote.Tally.Next.{last_id}

-- `id > $2 ORDER BY id ASC`, of votes that are in the order of their ids.
unfoldable pub votes_after : ℕ → List VoteRow → List VoteRow
votes_after after [] = []
votes_after after (v ∷ vs) =
    let rest = votes_after after vs in if ltb after v.id then v ∷ rest else rest

-- `query.after.unwrap_or(0)` and `query.limit`.
unfoldable pub list_votes : Option ℕ → ℕ → List VoteRow → List VoteRow
list_votes none limit votes = take limit (votes_after 0 votes)
list_votes (some after) limit votes = take limit (votes_after after votes)

-- The ids grow, above `b`.
abbrev pub Ascending : ℕ → List VoteRow → Type 0
Ascending b [] = Unit
Ascending b (v ∷ vs) = (b < v.id) × Ascending v.id vs

last_id-ge : (b k : ℕ) (votes : List VoteRow) → Ascending b votes → b ≤ last_id b (take k votes)
unfolding last_id
last_id-ge b zero votes h = omega arith
last_id-ge b (suc k) [] h = omega arith
last_id-ge b (suc k) (v ∷ vs) h = omega (arith, h.0, last_id-ge v.id k vs h.1)

votes_after_all :
    (a b : ℕ) (votes : List VoteRow) → a ≤ b → Ascending b votes → votes_after a votes ≡ votes
unfolding votes_after
votes_after_all a b [] le h = refl
votes_after_all a b (v ∷ vs) le h =
    rw (lt→ltb a v.id (omega (arith, h.0)))
      (ap (λ t. v ∷ t) (votes_after_all a v.id vs (omega (arith, h.0)) h.1))

-- After the last vote of a prefix come the votes behind it.
pub votes_after-last_id :
    (b k : ℕ) (votes : List VoteRow)
    → Ascending b votes
    → votes_after (last_id b (take k votes)) votes ≡ drop k votes
unfolding votes_after last_id
votes_after-last_id b zero votes h = votes_after_all b b votes (omega arith) h
votes_after-last_id b (suc k) [] h = refl
votes_after-last_id b (suc k) (v ∷ vs) h =
    let past = last_id-ge v.id k vs h.1 in
    let skipped : ltb (last_id v.id (take k vs)) v.id ≡ false = ground arith in
    rw skipped (votes_after-last_id v.id k vs h.1)

pub last_id-append :
    (a : ℕ) (xs ys : List VoteRow) → last_id a (xs ++ ys) ≡ last_id (last_id a xs) ys
unfolding last_id
last_id-append a [] ys = refl
last_id-append a (x ∷ xs) ys = last_id-append x.id xs ys

pub All-take-drop :
    (P : VoteRow → Type 0) (j k : ℕ) (votes : List VoteRow)
    → All P votes
    → All P (take j (drop k votes))
All-take-drop P zero zero votes h = tt
All-take-drop P (suc j) zero [] h = tt
All-take-drop P (suc j) zero (v ∷ vs) h = (h.0, All-take-drop P j zero vs h.1)
All-take-drop P zero (suc k) [] h = tt
All-take-drop P (suc j) (suc k) [] h = tt
All-take-drop P j (suc k) (v ∷ vs) h = All-take-drop P j k vs h.1

retake : (a b : ℕ) (votes : List VoteRow) → a ≡ b → take a votes ≡ take b votes
retake a b votes e = ap (λ (t : ℕ). take t votes) e

take_nil : (k : ℕ) → take {A = VoteRow} k [] ≡ []
take_nil zero = refl
take_nil (suc k) = refl

take-min : (x : ℕ) (votes : List VoteRow) → take x votes ≡ take (min (length votes) x) votes
take-min zero votes = retake 0 (min (length votes) 0) votes (omega arith)
take-min (suc x) [] = sym (take_nil (min 0 (suc x)))
take-min (suc x) (v ∷ vs) =
    ap (λ t. v ∷ t) (take-min x vs)
    ∙ retake (suc (min (length vs) x)) (min (suc (length vs)) (suc x)) (v ∷ vs) (omega arith)

take-append-drop-take :
    (j k : ℕ) (votes : List VoteRow) → take k votes ++ take j (drop k votes) ≡ take (k + j) votes
take-append-drop-take j zero votes = retake j (0 + j) votes (omega arith)
take-append-drop-take j (suc k) [] = take_nil j ∙ sym (take_nil (suc k + j))
take-append-drop-take j (suc k) (v ∷ vs) =
    ap (λ t. v ∷ t) (take-append-drop-take j k vs)
    ∙ retake (suc (k + j)) (suc k + j) (v ∷ vs) (omega arith)

-- A prefix and the batch behind it are a longer prefix.
pub take-append-batch :
    (j k : ℕ) (votes : List VoteRow)
    → take k votes ++ take j (drop k votes) ≡ take (min (length votes) (k + j)) votes
take-append-batch j k votes = take-append-drop-take j k votes ∙ take-min (k + j) votes

module _ (lib : Library) (laws : Lawful lib) where
  pub cast_all-append :
      (n sk : ℕ) (leaves : Leaves) (xs ys : List VoteRow)
      → All (Readable lib laws n sk) xs
      → cast_all lib laws sk leaves (xs ++ ys)
        ≡ cast_all lib laws sk (cast_all lib laws sk leaves xs) ys
  unfolding cast_all
  cast_all-append n sk leaves [] ys h = refl
  cast_all-append n sk leaves (v ∷ vs) ys ((ct, m, e, small), h) =
      rw (e, cast_all) (cast_all-append n sk (cast lib laws leaves m) vs ys h)
