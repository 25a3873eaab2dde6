-- ===== src/Drawer/Keys.antt =====
-- The revoting keys that the panel lists (frontend/src/components/AccountDrawer.tsx).
use mathlib.Core.List.{Perm}
use mathlib.Core.List.Perm
use mootvote.Base.{
  ℕ, ◌≡◌, ◌⊎◌, refl, sym, ap, ◌∙◌, arith, List, [], ◌∷◌, ◌++◌, Option, none, some, Bool, true,
  false, ◌&&◌, ◌||◌, ◌==◌, ltb, if◌then◌else◌, map, get_elem?, All, inl, inr, Bool-cases,
}
use mootvote.Base.Int.{ℤ, pos, negsuc}
use mootvote.Blob.{Text}
use mootvote.Decimal.{decimal}
use mootvote.Decimal.Value.{IsDigit, decimal-All, decimal_value, decimal_value-decimal}
use mootvote.Keyring.{Keyring, BabyJubKeypair}
use mootvote.PollPage.Bars.{is_after}
use mootvote.Revo.{Revo, RevoKey, PollKeys, get_account}
use mootvote.Tagged.{codes}
use mootvote.Vote.Seal.{id_for_account}

-- An entry of `Object.entries`.
abbrev pub KeyEntry : Type 0
KeyEntry = Text × RevoKey

-- `<` of strings.
unfoldable pub text_lt : Text → Text → Bool
text_lt s [] = false
text_lt [] (d ∷ t) = true
text_lt (c ∷ s) (d ∷ t) = ltb c d || (c == d) && text_lt s t

-- `String([key, object])`, which `<` compares where the entries themselves stand.
unfoldable pub string_of : KeyEntry → Text
string_of e = e.0 ++ codes ",[object Object]"

-- The comparison of `sort`.
unfoldable pub compare_entries : KeyEntry → KeyEntry → ℤ
compare_entries a b =
    if text_lt b.0 a.0
    then pos 1
    else if text_lt (string_of a) (string_of b)
    then negsuc 0
    else pos 0

unfoldable pub insert_entry : KeyEntry → List KeyEntry → List KeyEntry
insert_entry a [] = a ∷ []
insert_entry a (b ∷ bs) =
    let rest = insert_entry a bs in if is_after (compare_entries a b) then b ∷ rest else a ∷ b ∷ bs

-- `sort`, which is stable.
unfoldable pub sort_entries : List KeyEntry → List KeyEntry
sort_entries [] = []
sort_entries (e ∷ es) = insert_entry e (sort_entries es)

unfoldable pub entries_of : PollKeys → List KeyEntry
entries_of keys = map (λ k. (decimal k.0, k.1)) keys

-- The list for the active account; `none` where the panel shows no list.
unfoldable pub revo_entries : Keyring → Revo → Option (List KeyEntry)
revo_entries kr rk =
    if rk.loaded
    then elim (get_elem? kr.accounts kr.active) [
      | none ↦ none
      | some acct ↦ some (sort_entries (entries_of (get_account (id_for_account acct) rk.map)))
    ]
    else none

text_lt_irrefl : (s : Text) → text_lt s s ≡ false
unfolding text_lt
text_lt_irrefl [] = refl
text_lt_irrefl (c ∷ s) = ground (arith, text_lt_irrefl s)

-- What follows the keys does not change their order.
text_lt-string_of :
    (s t : Text)
    → All IsDigit s
    → All IsDigit t
    → text_lt (s ++ codes ",[object Object]") (t ++ codes ",[object Object]") ≡ text_lt s t
unfolding text_lt
text_lt-string_of [] [] hs ht = refl
text_lt-string_of [] (d ∷ t) hs ht = ground arith
text_lt-string_of (c ∷ s) [] hs ht = ground arith
text_lt-string_of (c ∷ s) (d ∷ t) hs ht =
    ap (λ b. ltb c d || (c == d) && b) (text_lt-string_of s t hs.1 ht.1)

text_lt_asym : (s t : Text) → text_lt s t ≡ true → text_lt t s ≡ false
unfolding text_lt
text_lt_asym s [] h = cc
text_lt_asym [] (d ∷ t) h = refl
text_lt_asym (c ∷ s) (d ∷ t) h = ground (arith, text_lt_asym s t)

text_lt_connex : (s t : Text) → text_lt s t ≡ false → text_lt t s ≡ false → s ≡ t
unfolding text_lt
text_lt_connex [] [] h k = refl
text_lt_connex [] (d ∷ t) h k = cc
text_lt_connex (c ∷ s) [] h k = cc
text_lt_connex (c ∷ s) (d ∷ t) h k =
    let head : c ≡ d = ground arith in
    let behind : text_lt s t ≡ false = ground arith in
    let before : text_lt t s ≡ false = ground arith in
    ap (λ z. z ∷ s) head ∙ ap (λ zs. d ∷ zs) (text_lt_connex s t behind before)

decimal_inj : (p q : ℕ) → decimal p ≡ decimal q → p ≡ q
decimal_inj p q e = sym (decimal_value-decimal p) ∙ ap (decimal_value 0) e ∙ decimal_value-decimal q

-- Although the second test compares the entries themselves, the comparison is the order of the ids as
-- texts: it is positive, negative or zero as the first id is behind, before or equal to the other.
compare_entries-cases :
    (p q : ℕ) (k l : RevoKey)
    → ((compare_entries (decimal p, k) (decimal q, l) ≡ pos 1)
        × (text_lt (decimal q) (decimal p) ≡ true))
      ⊎ (((compare_entries (decimal p, k) (decimal q, l) ≡ negsuc 0)
            × (text_lt (decimal p) (decimal q) ≡ true))
          ⊎ ((compare_entries (decimal p, k) (decimal q, l) ≡ pos 0) × (p ≡ q)))
unfolding compare_entries string_of
compare_entries-cases p q k l =
    let same = text_lt-string_of (decimal p) (decimal q) (decimal-All p) (decimal-All q) in
    elim (Bool-cases (text_lt (decimal q) (decimal p))) [
      | inl e ↦ inl (rw e refl, e)
      | inr e ↦ elim (Bool-cases (text_lt (decimal p) (decimal q))) [
        | inl f ↦ inr (inl (rw (e, same) (rw f refl), f))
        | inr f ↦ inr (
            inr (
              rw (e, same) (rw f refl),
              decimal_inj p q (text_lt_connex (decimal p) (decimal q) f e),
            ))
      ]
    ]

-- No id is behind the next one.
abbrev pub IsOrdered : List KeyEntry → Type 0
IsOrdered [] = Unit
IsOrdered (a ∷ []) = Unit
IsOrdered (a ∷ b ∷ es) = (text_lt b.0 a.0 ≡ false) × IsOrdered (b ∷ es)

compare_entries-after : (a b : KeyEntry) → is_after (compare_entries a b) ≡ text_lt b.0 a.0
unfolding compare_entries is_after
compare_entries-after a b = elim (Bool-cases (text_lt b.0 a.0)) [
  | inl e ↦ rw e refl
  | inr e ↦ elim (Bool-cases (text_lt (string_of a) (string_of b))) [
    | inl f ↦ rw (e, f) refl
    | inr f ↦ rw (e, f) refl
  ]
]

insert_entry-Led :
    (c a : KeyEntry) (es : List KeyEntry)
    → text_lt a.0 c.0 ≡ false
    → IsOrdered (c ∷ es)
    → IsOrdered (c ∷ insert_entry a es)
unfolding insert_entry
insert_entry-Led c a [] ca h = (ca, tt)
insert_entry-Led c a (b ∷ es) ca h = elim (Bool-cases (text_lt b.0 a.0)) [
  | inl e ↦
      rw (compare_entries-after a b)
        (rw e (h.0, insert_entry-Led b a es (text_lt_asym b.0 a.0 e) h.1))
  | inr e ↦ rw (compare_entries-after a b) (rw e (ca, (e, h.1)))
]

insert_entry-IsOrdered :
    (a : KeyEntry) (es : List KeyEntry) → IsOrdered es → IsOrdered (insert_entry a es)
unfolding insert_entry
insert_entry-IsOrdered a [] h = tt
insert_entry-IsOrdered a (b ∷ es) h = elim (Bool-cases (text_lt b.0 a.0)) [
  | inl e ↦
      rw (compare_entries-after a b) (rw e (insert_entry-Led b a es (text_lt_asym b.0 a.0 e) h))
  | inr e ↦ rw (compare_entries-after a b) (rw e (e, h))
]

sort_entries-IsOrdered : (es : List KeyEntry) → IsOrdered (sort_entries es)
unfolding sort_entries
sort_entries-IsOrdered [] = tt
sort_entries-IsOrdered (e ∷ es) =
    insert_entry-IsOrdered e (sort_entries es) (sort_entries-IsOrdered es)

insert_entry-perm : (a : KeyEntry) (es : List KeyEntry) → Perm (insert_entry a es) (a ∷ es)
unfolding insert_entry
insert_entry-perm a [] = Perm.refl (a ∷ [])
insert_entry-perm a (b ∷ es) = elim (Bool-cases (is_after (compare_entries a b))) [
  | inl e ↦ rw e (Perm.trans (Perm.cons b (insert_entry-perm a es)) (Perm.swap a b es))
  | inr e ↦ rw e (Perm.refl (a ∷ b ∷ es))
]

sort_entries-perm : (es : List KeyEntry) → Perm (sort_entries es) es
unfolding sort_entries
sort_entries-perm [] = Perm.refl []
sort_entries-perm (e ∷ es) =
    Perm.trans (insert_entry-perm e (sort_entries es)) (Perm.cons e (sort_entries-perm es))

-- For an active account, once the keys are loaded, the panel lists every revoting key of the account
-- once under the decimal text of its poll's id, no id behind the next one.
pub revo_entries-IsOrdered :
    (kr : Keyring) (rk : Revo) (acct : BabyJubKeypair)
    → rk.loaded ≡ true
    → get_elem? kr.accounts kr.active ≡ some acct
    → (es : List KeyEntry) × (revo_entries kr rk ≡ some es)
      × Perm es (map (λ k. (decimal k.0, k.1)) (get_account (id_for_account acct) rk.map))
      × IsOrdered es
unfolding revo_entries entries_of
revo_entries-IsOrdered kr rk acct loaded active =
    let entries = entries_of (get_account (id_for_account acct) rk.map) in
    (
      sort_entries entries,
      rw (loaded, active) refl,
      sort_entries-perm entries,
      sort_entries-IsOrdered entries,
    )
