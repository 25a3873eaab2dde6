-- ===== src/Merkle/InPlace.antt =====
-- The inner loop of helpers/merkletree.ts overwrites `level` while it reads it. It has the same effect
-- as hashing the pairs of the old level.
use mootvote.Base.{
  ℕ, zero, suc, ◌+◌, ◌*◌, ◌/◌, ◌<◌, ◌≤◌, ◌≡◌, refl, sym, ◌∙◌, arith, dec_lt, List, [], ◌∷◌, length,
  get_or, set, take, length-set, length-take, get_or-set_self, get_or-set_ne, get_or-take,
  eq_of_get_or,
}
use mootvote.Merkle.{halve_loop, next_level}

module _ {A : Type 0} (poseidon2 : A → A → A) (hash0 : A) where
  -- The hashes of the pairs of a level; `d` stands in for a missing right child.
  pub pair_up : A → List A → List A
  pair_up d [] = []
  pair_up d (x ∷ []) = poseidon2 x d ∷ []
  pair_up d (x ∷ y ∷ rest) = poseidon2 x y ∷ pair_up d rest

  pub length-pair_up : (d : A) (xs : List A) → length (pair_up d xs) ≡ (length xs + 1) / 2
  unfolding pair_up
  length-pair_up d [] = refl
  length-pair_up d (x ∷ []) = refl
  length-pair_up d (x ∷ y ∷ rest) = omega (arith, length-pair_up d rest)

  double_suc : (i : ℕ) → 2 * suc i ≡ suc (suc (2 * i))
  double_suc i = omega arith

  double_suc_add : (i : ℕ) → 2 * suc i + 1 ≡ suc (suc (2 * i + 1))
  double_suc_add i = omega arith

  -- Entry `i` of the pairs, read with any default beyond the end.
  pub get_or-pair_up :
      (d : A) (xs : List A) (i : ℕ) (e : A)
      → i < (length xs + 1) / 2
      → get_or (pair_up d xs) i e ≡ poseidon2 (get_or xs (2 * i) d) (get_or xs (2 * i + 1) d)
  unfolding pair_up
  get_or-pair_up d [] i e h = absurd (omega arith)
  get_or-pair_up d (x ∷ []) zero e h = refl
  get_or-pair_up d (x ∷ []) (suc i) e h = absurd (omega arith)
  get_or-pair_up d (x ∷ y ∷ rest) zero e h = refl
  get_or-pair_up d (x ∷ y ∷ rest) (suc i) e h =
      rw (double_suc_add i, double_suc i) (get_or-pair_up d rest i e (omega arith))

  length-halve_loop :
      (n j : ℕ) (d : A) (level : List A)
      → length (halve_loop poseidon2 hash0 n j d level) ≡ length level
  unfolding halve_loop
  length-halve_loop zero j d level = refl
  length-halve_loop (suc n) j d level = length-halve_loop n (suc j) d _ ∙ length-set level j _

  -- What the loop leaves at index `i`, when it has reached `j` and `old` still stands from `j` on.
  get_or-halve_loop :
      (n j : ℕ) (d : A) (old level : List A) (i : ℕ)
      → length level ≡ length old
      → n + j ≤ length old
      → ((k : ℕ) → j ≤ k → get_or level k d ≡ get_or old k d)
      → ((k : ℕ)
          → k < j
          → get_or level k d ≡ poseidon2 (get_or old (2 * k) d) (get_or old (2 * k + 1) d))
      → i < n + j
      → get_or (halve_loop poseidon2 hash0 n j d level) i d
        ≡ poseidon2 (get_or old (2 * i) d) (get_or old (2 * i + 1) d)
  unfolding halve_loop
  get_or-halve_loop zero j d old level i e fits after before h = before i (omega arith)
  get_or-halve_loop (suc n) j d old level i e fits after before h =
      get_or-halve_loop n (suc j) d old (set level j v) i (length-set level j v ∙ e) (omega arith)
        (λ k p. get_or-set_ne level j k v d (omega arith) ∙ after k (omega arith)) upto
        (omega arith)
    where
      v : A
      v = poseidon2 (get_or level (2 * j) d) (get_or level (2 * j + 1) d)

      here : v ≡ poseidon2 (get_or old (2 * j) d) (get_or old (2 * j + 1) d)
      here = cc (after (2 * j) (omega arith), after (2 * j + 1) (omega arith))

      upto :
          (k : ℕ)
          → k < suc j
          → get_or (set level j v) k d ≡ poseidon2 (get_or old (2 * k) d) (get_or old (2 * k + 1) d)
      upto k p = elim (dec_lt k j) [
        | yes q ↦ get_or-set_ne level j k v d (omega arith) ∙ before k q
        | no q ↦
            let e' : k ≡ j = omega arith in rw e' (get_or-set_self level j v d (omega arith) ∙ here)
      ]

  -- The in-place loop leaves the hashes of the pairs of the level that it was given.
  pub next_level-eq-pair_up :
      (d : A) (level : List A) → next_level poseidon2 hash0 d level ≡ pair_up d level
  unfolding next_level
  next_level-eq-pair_up d level = eq_of_get_or _ (pair_up d level) d len (λ i h.
      get_or-take m _ i d (in_range i h)
      ∙ get_or-halve_loop m 0 d level level i refl (omega arith) (λ k p. refl) (λ k p. elim p [ ])
          (omega (arith, in_range i h))
      ∙ sym (get_or-pair_up d level i d (in_range i h)))
    where
      m : ℕ
      m = (length level + 1) / 2

      len : length (take m (halve_loop poseidon2 hash0 m 0 d level)) ≡ length (pair_up d level)
      len = omega (
        arith,
        length-take m (halve_loop poseidon2 hash0 m 0 d level),
        length-halve_loop m 0 d level,
        length-pair_up d level,
      )

      in_range : (i : ℕ) → i < length (take m (halve_loop poseidon2 hash0 m 0 d level)) → i < m
      in_range i h = omega (arith, len, length-pair_up d level)
