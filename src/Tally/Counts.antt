-- ===== src/Tally/Counts.antt =====
-- Counting the leaves by choice, and what `adjust` does to the counts.
use mathlib.Core.Option.{some-injective}
use mootvote.Base.{
  ℕ, zero, suc, ◌+◌, ◌-◌, ◌<◌, ◌≤◌, ◌≡◌, refl, sym, ap, ◌∙◌, arith, List, [], ◌∷◌, Option, none,
  some, Bool, true, false, ◌==◌, if◌then◌else◌, length, get_elem?, set, length-set, inl, inr,
  Bool-cases, All,
}
use mootvote.Base.Int.{ℤ}
use mootvote.Tally.Defs.{LeafData, Leaves, lookup, insert, ok}
use mootvote.Tally.Batch.{adjust}

abbrev pub one_if : Bool → ℕ
one_if true = 1
one_if false = 0

-- How many leaves hold the choice `c`.
abbrev pub count : ℕ → Leaves → ℕ
count c [] = 0
count c ((_, leaf) ∷ m) = one_if (leaf.choice == c) + count c m

-- Whether a leaf, if it is there, holds the choice `c`.
abbrev pub hit : ℕ → Option LeafData → ℕ
hit c none = 0
hit c (some leaf) = one_if (leaf.choice == c)

pub count-insert :
    (c k : ℕ) (leaf : LeafData) (m : Leaves)
    → count c (insert k leaf m) + hit c (lookup k m) ≡ count c m + one_if (leaf.choice == c)
unfolding insert lookup
count-insert c k leaf [] = omega arith
count-insert c k leaf ((j, old) ∷ m) = elim (Bool-cases (j == k)) [
  | inl e ↦ rw e (omega arith)
  | inr e ↦ rw e (omega (arith, count-insert c k leaf m))
]

pub lookup-insert :
    (j k : ℕ) (leaf : LeafData) (m : Leaves)
    → lookup j (insert k leaf m) ≡ (if k == j then some leaf else lookup j m)
unfolding insert lookup
lookup-insert j k leaf [] = refl
lookup-insert j k leaf ((i, old) ∷ m) = ground (arith, lookup-insert j k leaf m)

-- A property of all leaves holds of the one that is found, and after an insertion.
pub lookup-All :
    (P : ℕ × LeafData → Type 0) (k : ℕ) (m : Leaves) {leaf : LeafData}
    → All P m
    → lookup k m ≡ some leaf
    → P (k, leaf)
unfolding lookup
lookup-All P k [] h e = cc
lookup-All P k ((j, old) ∷ m) h e = elim (Bool-cases (j == k)) [
  | inl t ↦
      let same : old ≡ _ = some-injective old _ (rw t at e) in
      let key : j ≡ k = ground arith in rw (← same) (rw (← key) h.0)
  | inr t ↦ lookup-All P k m h.1 (rw t at e)
]

pub insert-All :
    (P : ℕ × LeafData → Type 0) (k : ℕ) (leaf : LeafData) (m : Leaves)
    → All P m
    → P (k, leaf)
    → All P (insert k leaf m)
unfolding insert
insert-All P k leaf [] h p = (p, tt)
insert-All P k leaf ((j, old) ∷ m) h p = elim (Bool-cases (j == k)) [
  | inl t ↦ rw t (p, h.1)
  | inr t ↦ rw t (h.0, insert-All P k leaf m h.1 p)
]

get_elem?-set :
    (counts : List ℤ) (i c : ℕ) (v : ℤ) {n : ℤ}
    → get_elem? counts c ≡ some n
    → get_elem? (set counts i v) c ≡ some (if c == i then v else n)
get_elem?-set [] i c v e = cc
get_elem?-set (x ∷ xs) zero zero v e = refl
get_elem?-set (x ∷ xs) zero (suc c) v e = ground arith
get_elem?-set (x ∷ xs) (suc i) zero v e = ground arith
get_elem?-set (x ∷ xs) (suc i) (suc c) v e = ground (arith, get_elem?-set xs i c v e)

get_elem?_total :
    (counts : List ℤ) (i : ℕ) → i < length counts → (n : ℤ) × (get_elem? counts i ≡ some n)
get_elem?_total [] i h = elim h [ ]
get_elem?_total (x ∷ xs) zero h = (x, refl)
get_elem?_total (x ∷ xs) (suc i) h = get_elem?_total xs i (omega arith)

adjust-suc :
    (f : ℤ → ℤ) (i : ℕ) (counts : List ℤ) {old : ℤ}
    → get_elem? counts i ≡ some old
    → adjust f (suc i) counts ≡ ok (set counts i (f old))
unfolding adjust
adjust-suc f i counts e =
    let nonzero : (suc i == 0) ≡ false = ground arith in
    let index : suc i - 1 ≡ i = omega arith in rw nonzero (rw index (rw e (rw index)))

-- With a choice that the array has, only its count changes.
pub adjust_lem :
    (f : ℤ → ℤ) (choice : ℕ) (counts : List ℤ)
    → choice ≤ length counts
    → (counts' : List ℤ) × (adjust f choice counts ≡ ok counts')
      × (length counts' ≡ length counts)
      × ((c : ℕ) (n : ℤ)
          → get_elem? counts c ≡ some n
          → get_elem? counts' c ≡ some (if suc c == choice then f n else n))
unfolding adjust
adjust_lem f zero counts h = (counts, refl, refl, λ c n e. e ∙ ground arith)
adjust_lem f (suc i) counts h =
    let (old, e) = get_elem?_total counts i (omega arith) in
    (
      set counts i (f old),
      adjust-suc f i counts e,
      length-set counts i (f old),
      λ c n e'. get_elem?-set counts i c (f old) e' ∙ ap some (same c n e e'),
    )
  where
    same :
        {old : ℤ} (c : ℕ) (n : ℤ)
        → get_elem? counts i ≡ some old
        → get_elem? counts c ≡ some n
        → (if c == i then f old else n) ≡ (if suc c == suc i then f n else n)
    same {old} c n e e' = elim (Bool-cases (c == i)) [
      | inr t ↦ ground arith
      | inl t ↦
          let q : c ≡ i = ground arith in
          let agree : old ≡ n = some-injective old n (sym e ∙ ap (get_elem? counts) (sym q) ∙ e') in
          ground arith
    ]

-- No key stands twice.
abbrev pub Distinct : Leaves → Type 0
Distinct [] = Unit
Distinct ((k, _) ∷ m) = (lookup k m ≡ none) × Distinct m

pub insert-Distinct :
    (k : ℕ) (leaf : LeafData) (m : Leaves) → Distinct m → Distinct (insert k leaf m)
unfolding insert
insert-Distinct k leaf [] h = (unfold lookup in refl, tt)
insert-Distinct k leaf ((j, old) ∷ m) h = elim (Bool-cases (j == k)) [
  | inl t ↦ let e : j ≡ k = ground arith in rw t (rw e at h.0, h.1)
  | inr t ↦ rw t (lookup-insert j k leaf m ∙ ground (arith, h.0), insert-Distinct k leaf m h.1)
]
