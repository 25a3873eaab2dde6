-- ===== src/VoteData/Layout.antt =====
-- What `serializeVoteData` writes.
use mootvote.Base.{
  ℕ, zero, suc, ◌+◌, ◌-◌, ◌*◌, ◌^◌, ◌≡◌, ◌<◌, refl, sym, ap, ◌∙◌, arith, List, [], ◌∷◌, ◌++◌,
  append-nil, append_assoc, Option, none, some, Bool, true, false, inl, inr, Bool-cases,
  Option-cases, length, take, drop, replicate, length-append, length-replicate, take-append_left,
  drop-append_left, leb, lt→ltb, if◌then◌else◌,
}
use mootvote.VoteData.{
  VoteParams, le_bytes, to_array_like_le8, Cursor, put, put_all, serialize_vote_data, ◌>>=◌,
}

-- The rows one after the other.
abbrev pub concat : List (List ℕ) → List ℕ
concat [] = []
concat (r ∷ rs) = r ++ concat rs

-- A buffer whose first part is written and whose rest is zeroes.
abbrev written : List ℕ → ℕ → Cursor
written front room = record { res = front ++ replicate room 0; offset = length front }

replicate_add : (m n : ℕ) → replicate {A = ℕ} (m + n) 0 ≡ replicate m 0 ++ replicate n 0
replicate_add zero n = let e : 0 + n ≡ n = omega arith in rw e
replicate_add (suc m) n =
    let e : suc m + n ≡ suc (m + n) = omega arith in rw e (ap (λ r. 0 ∷ r) (replicate_add m n))

drop-append_add :
    (front : List ℕ) (n : ℕ) (rest : List ℕ) → drop (length front + n) (front ++ rest) ≡ drop n rest
drop-append_add [] n rest = let e : 0 + n ≡ n = omega arith in rw e
drop-append_add (x ∷ xs) n rest =
    let e : suc (length xs) + n ≡ suc (length xs + n) = omega arith in
    rw e (drop-append_add xs n rest)

-- A write where there is room replaces as many bytes.
put_fits :
    (front bytes : List ℕ) (room : ℕ)
    → put bytes (written front (length bytes + room)) ≡ some (written (front ++ bytes) room)
unfolding put
put_fits front bytes room =
    let whole = front ++ replicate (length bytes + room) 0 in
    let fits : leb (length front + length bytes) (length whole) ≡ true = ground (
      arith,
      length-append front (replicate (length bytes + room) 0),
      length-replicate {A = ℕ} (length bytes + room) 0,
    ) in
    let kept : take (length front) whole ≡ front = take-append_left front _ in
    let rest : drop (length front + length bytes) whole ≡ replicate room 0 =
      drop-append_add front (length bytes) (replicate (length bytes + room) 0)
      ∙ ap (drop (length bytes)) (replicate_add (length bytes) room)
      ∙ ap (λ t. drop t (replicate (length bytes) 0 ++ replicate room 0))
          (sym (length-replicate {A = ℕ} (length bytes) 0))
      ∙ drop-append_left (replicate (length bytes) 0) (replicate room 0) in
    rw fits (
      rw (kept, rest, length-append front bytes) (rw (append_assoc front bytes (replicate room 0))))

put_overflows :
    (front bytes : List ℕ) (room : ℕ) → room < length bytes → put bytes (written front room) ≡ none
unfolding put
put_overflows front bytes room h =
    let long : leb (length front + length bytes) (length (front ++ replicate room 0)) ≡ false =
      ground (arith, length-append front (replicate room 0), length-replicate {A = ℕ} room 0) in
    rw long

-- A run of writes into what is left of the buffer.
abbrev run_writes : List ℕ → List ℕ → ℕ → Option Cursor
run_writes front bytes room =
    if leb (length bytes) room then some (written (front ++ bytes) (room - length bytes)) else none

put-run_writes :
    (front bytes : List ℕ) (room : ℕ) → put bytes (written front room) ≡ run_writes front bytes room
put-run_writes front bytes room = elim (Bool-cases (leb (length bytes) room)) [
  | inl e ↦
      let split : room ≡ length bytes + (room - length bytes) = ground arith in
      rw e (
        ap (λ (t : ℕ). put bytes (written front t)) split
        ∙ put_fits front bytes (room - length bytes))
  | inr e ↦ rw e (put_overflows front bytes room (ground arith))
]

Run_split :
    (front r rest : List ℕ) (room : ℕ)
    → leb (length r) room ≡ true
    → run_writes (front ++ r) rest (room - length r) ≡ run_writes front (r ++ rest) room
Run_split front r rest room e =
    let test : leb (length rest) (room - length r) ≡ leb (length r + length rest) room =
      ground arith in
    let left : room - length r - length rest ≡ room - (length r + length rest) = omega arith in
    rw (length-append r rest, test, left, append_assoc front r rest)

put_all-run_writes :
    (rows : List (List ℕ)) (front : List ℕ) (room : ℕ)
    → put_all rows (written front room) ≡ run_writes front (concat rows) room
unfolding put_all
put_all-run_writes [] front room = rw (append-nil front) (ground arith)
put_all-run_writes (r ∷ rows) front room = elim (Bool-cases (leb (length r) room)) [
  | inl e ↦
      let first : put r (written front room) ≡ some (written (front ++ r) (room - length r)) =
        put-run_writes front r room ∙ rw e refl in
      rw first (
        put_all-run_writes rows (front ++ r) (room - length r)
        ∙ Run_split front r (concat rows) room e)
  | inr e ↦
      let first : put r (written front room) ≡ none = put-run_writes front r room ∙ rw e refl in
      let long : leb (length (r ++ concat rows)) room ≡ false =
        ground (arith, length-append r (concat rows)) in
      rw (first, long)
]

>>=-assoc :
    {A B C : Type 0} (m : Option A) (f : A → Option B) (g : B → Option C)
    → (m >>= f) >>= g ≡ m >>= (λ a. f a >>= g)
>>=-assoc none f g = refl
>>=-assoc (some a) f g = refl

put_all-append :
    (rows more : List (List ℕ)) (s : Cursor)
    → put_all (rows ++ more) s ≡ put_all rows s >>= put_all more
unfolding put_all
put_all-append [] more s = refl
put_all-append (r ∷ rows) more s = elim (Option-cases (put r s)) [
  | inl e ↦ rw e
  | inr (s', e) ↦ rw e (put_all-append rows more s')
]

-- What the writes of a vote are, in order.
abbrev segments : VoteParams → List ℕ → List (List ℕ)
segments p nonce =
    p.eph_pk.x ∷ p.eph_pk.y ∷ nonce ∷ (p.ciphertext ++ (p.proof.a ∷ p.proof.b ∷ p.proof.c ∷ []))

-- The number of bytes that `serializeVoteData` allocates.
abbrev pub allocated : VoteParams → List ℕ → ℕ
allocated p first =
    length p.eph_pk.x
    + length p.eph_pk.y
    + 8
    + length p.ciphertext * length first
    + length p.proof.a
    + length p.proof.b
    + length p.proof.c

-- The fields in the order in which they are written.
abbrev pub packed : VoteParams → List ℕ
packed p =
    p.eph_pk.x
    ++ (p.eph_pk.y
        ++ (le_bytes 8 p.nonce ++ (concat p.ciphertext ++ (p.proof.a ++ (p.proof.b ++ p.proof.c)))))

abbrev only_res : Option Cursor → Option (List ℕ)
only_res m = m >>= λ s. some s.res

concat-append : (rows more : List (List ℕ)) → concat (rows ++ more) ≡ concat rows ++ concat more
concat-append [] more = refl
concat-append (r ∷ rows) more =
    rw (concat-append rows more) (sym (append_assoc r (concat rows) (concat more)))

concat-segments : (p : VoteParams) → concat (segments p (le_bytes 8 p.nonce)) ≡ packed p
concat-segments p =
    rw (concat-append p.ciphertext (p.proof.a ∷ p.proof.b ∷ p.proof.c ∷ [])) (rw append-nil)

serialize-segments :
    (p : VoteParams) (first : List ℕ) (others : List (List ℕ))
    → p.ciphertext ≡ first ∷ others
    → p.nonce < 2 ^ 64
    → serialize_vote_data p
      ≡ only_res (
          put_all
            (segments p (le_bytes 8 p.nonce))
            (record { res = replicate (allocated p first) 0; offset = 0 }))
unfolding serialize_vote_data to_array_like_le8 put_all
serialize-segments p first others e small =
    rw (e, lt→ltb _ _ small) (simp (>>=-assoc, put_all-append))

-- For a vote with a ciphertext and a 64-bit nonce, `serializeVoteData` gives the fields in order, and
-- zeroes up to the length that it allocates by the first row; it throws exactly if they do not fit.
pub serialize_vote_data_lem :
    (p : VoteParams) (first : List ℕ) (others : List (List ℕ))
    → p.ciphertext ≡ first ∷ others
    → p.nonce < 2 ^ 64
    → serialize_vote_data p ≡ (
        if leb (length (packed p)) (allocated p first)
        then some (packed p ++ replicate (allocated p first - length (packed p)) 0)
        else none)
serialize_vote_data_lem p first others e small =
    serialize-segments p first others e small
    ∙ ap only_res (put_all-run_writes (segments p (le_bytes 8 p.nonce)) [] (allocated p first))
    ∙ ap (λ t. only_res (run_writes [] t (allocated p first))) (concat-segments p)
    ∙ finish (leb (length (packed p)) (allocated p first))
  where
    finish :
        (b : Bool)
        → only_res
            (if b then some (written (packed p) (allocated p first - length (packed p))) else none)
          ≡ (if b
              then some (packed p ++ replicate (allocated p first - length (packed p)) 0)
              else none)
    finish true = refl
    finish false = refl
