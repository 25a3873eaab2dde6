-- ===== src/Tally/Rebuild.antt =====
-- The tree that `onTallyNext` builds from the stored leaves (frontend/src/components/Tally.tsx).
use mootvote.Base.{
  ℕ, ◌^◌, ◌<◌, ◌≡◌, refl, sym, ap, ◌∙◌, arith, [], ◌∷◌, Option, none, some, false, ◌==◌,
  if◌then◌else◌, inl, inr, Bool-cases, All, ==_iff,
}
use mootvote.Tally.Defs.{LeafData, Leaves, lookup, Library, ok}
use mootvote.Tally.Counts.{Distinct}
use mootvote.Tally.Laws.{Lawful}
use mootvote.Tally.Invariant.{hash_of}
use mootvote.Tally.Next.{add_leaf, rebuild}

-- What a tree holds at a key after leaves are written into it.
abbrev pub over : Option LeafData → Option ℕ → Option ℕ
over none g = g
over (some leaf) g = some leaf.hash

over-hash_of : (o : Option LeafData) → over o none ≡ hash_of o
over-hash_of none = refl
over-hash_of (some leaf) = refl

over-if :
    (j k : ℕ) (leaf : LeafData) (o : Option LeafData) (g : Option ℕ)
    → ((j ≡ k) → o ≡ none)
    → over o (if j == k then some leaf.hash else g) ≡ over (if j == k then some leaf else o) g
over-if j k leaf o g h = elim (Bool-cases (j == k)) [
  | inl e ↦ let missing : o ≡ none = h ((==_iff j k).0 e) in rw (e, missing) refl
  | inr e ↦ rw e refl
]

module _ (lib : Library) (laws : Lawful lib) where
  still_free :
      (t t' : lib.Tree) (k v : ℕ) (m : Leaves)
      → ((j : ℕ) → laws.get t' j ≡ (if k == j then some v else laws.get t j))
      → lookup k m ≡ none
      → All (λ e. laws.get t e.0 ≡ none) m
      → All (λ e. laws.get t' e.0 ≡ none) m
  unfolding lookup
  still_free t t' k v [] view h f = tt
  still_free t t' k v ((j, leaf) ∷ m) view h f = elim (Bool-cases (j == k)) [
    | inl e ↦ let found : some leaf ≡ none = rw e at h in cc
    | inr e ↦ (
      view j ∙ (let other : (k == j) ≡ false = ground arith in rw other f.0),
      still_free t t' k v m view (rw e at h) f.1,
    )
  ]

  rebuild-over :
      (t : lib.Tree) (m : Leaves)
      → Distinct m
      → All (λ e. e.0 < 2 ^ 64) m
      → All (λ e. laws.get t e.0 ≡ none) m
      → (t' : lib.Tree) × (rebuild lib t m ≡ ok t')
        × ((k : ℕ) → laws.get t' k ≡ over (lookup k m) (laws.get t k))
  unfolding rebuild add_leaf lookup
  rebuild-over t [] d b f = (t, refl, λ k. refl)
  rebuild-over t ((j, leaf) ∷ m) d b f =
      let (t1, e1, view1) = laws.add_fresh t j leaf.hash b.0 f.0 in
      let (t2, e2, view2) =
        rebuild-over t1 m d.1 b.1 (still_free t t1 j leaf.hash m view1 d.0 f.1) in
      (
        t2,
        rw (e1, add_leaf) e2,
        λ k.
            view2 k
            ∙ ap (over (lookup k m)) (view1 k)
            ∙ over-if j k leaf (lookup k m) (laws.get t k)
                (λ e. ap (λ i. lookup i m) (sym e) ∙ d.0),
      )

  -- The tree is built without an exception from leaves with different keys of 64 bits, and holds at
  -- every key the hash of the leaf that stands there, in whatever order they are listed.
  pub rebuild-hash_of :
      (m : Leaves)
      → Distinct m
      → All (λ e. e.0 < 2 ^ 64) m
      → (t : lib.Tree) × (rebuild lib lib.empty_tree m ≡ ok t)
        × ((k : ℕ) → laws.get t k ≡ hash_of (lookup k m))
  rebuild-hash_of m d b =
      let (t, e, view) = rebuild-over lib.empty_tree m d b (all_free m) in
      (
        t,
        e,
        λ k. view k ∙ ap (over (lookup k m)) (laws.get-empty_tree k) ∙ over-hash_of (lookup k m),
      )
    where
      all_free : (m : Leaves) → All (λ e. laws.get lib.empty_tree e.0 ≡ none) m
      all_free [] = tt
      all_free ((k, leaf) ∷ m) = (laws.get-empty_tree k, all_free m)
