-- ===== src/Keyring/Checks.antt =====
-- The checks of `importPrv` (frontend/src/keyring.tsx).
use mootvote.Base.{
  ℕ, ◌≤◌, ◌<◌, ◌≡◌, ◌≢◌, ◌⊎◌, refl, ap, ◌∙◌, arith, List, [], ◌∷◌, true, false, ◌==◌, length, All,
  ltb, inl, inr, Bool-cases, ==_iff,
}
use mootvote.Bytes.{strip_0x, all_hex, HexResult, bytes, throws, too_long, invalid, hex_to_bytes32}
use mootvote.Bytes.Value.{value_from}
use mootvote.Bytes.Hex.{hex_number, Decodes, hex_to_bytes32-Decodes}
use mootvote.Blob.{Bytes, Text}
use mootvote.Keyring.{
  BabyJubKeypair, empty_name, invalid_hex, bad_length, name_exists, key_exists, imported, Import,
  refused, accepted, uncaught, trim_start, trim_end, to_lower, arrays_equal, any_account, check_key,
  check_import,
}

pub arrays_equal→eq : (xs ys : List ℕ) → arrays_equal xs ys ≡ true → xs ≡ ys
unfolding arrays_equal
arrays_equal→eq [] [] h = refl
arrays_equal→eq [] (y ∷ ys) h = cc
arrays_equal→eq (x ∷ xs) [] h = cc
arrays_equal→eq (x ∷ xs) (y ∷ ys) h =
    let head : x ≡ y = ground arith in
    let tail : arrays_equal xs ys ≡ true = ground arith in
    ap (λ z. z ∷ xs) head ∙ ap (λ zs. y ∷ zs) (arrays_equal→eq xs ys tail)

pub arrays_equal_refl : (xs : List ℕ) → arrays_equal xs xs ≡ true
unfolding arrays_equal
arrays_equal_refl [] = refl
arrays_equal_refl (x ∷ xs) = ground (arith, arrays_equal_refl xs)

-- The field of an account that a check compares with a value.
none_equal :
    (field : BabyJubKeypair → List ℕ) (value : List ℕ) (accounts : List BabyJubKeypair)
    → any_account (λ a. arrays_equal (field a) value) accounts ≡ false
    → All (λ a. field a ≢ value) accounts
unfolding any_account
none_equal field value [] h = tt
none_equal field value (a ∷ rest) h =
    let here : arrays_equal (field a) value ≡ false = ground arith in
    let later : any_account (λ a. arrays_equal (field a) value) rest ≡ false = ground arith in
    (
      λ same.
          (let both : arrays_equal (field a) value ≡ true = rw same (arrays_equal_refl value) in
            cc),
      none_equal field value rest later,
    )

-- Some account has the field.
abbrev pub Holds : (BabyJubKeypair → List ℕ) → List ℕ → List BabyJubKeypair → Type 0
Holds field value [] = ⊥
Holds field value (a ∷ rest) = (field a ≡ value) ⊎ Holds field value rest

some_equal :
    (field : BabyJubKeypair → List ℕ) (value : List ℕ) (accounts : List BabyJubKeypair)
    → any_account (λ a. arrays_equal (field a) value) accounts ≡ true
    → Holds field value accounts
unfolding any_account
some_equal field value [] h = cc
some_equal field value (a ∷ rest) h = elim (Bool-cases (arrays_equal (field a) value)) [
  | inl same ↦ inl (arrays_equal→eq (field a) value same)
  | inr other ↦ inr (some_equal field value rest (ground arith))
]

strip_0x_digits : (s : List ℕ) → all_hex s ≡ true → strip_0x s ≡ s
strip_0x_digits [] h = refl
strip_0x_digits (a ∷ []) h = refl
strip_0x_digits (a ∷ b ∷ s) h = ground arith

-- The digits that `importPrv` reads.
abbrev pub digits_of : Text → Text
digits_of prv_hex = strip_0x (to_lower (trim_end (trim_start prv_hex)))

-- What a result of the checks says.
abbrev pub IsChecked : List BabyJubKeypair → Text → Text → Import → Type 0
IsChecked accounts name prv_hex (accepted prv) =
    (0 < length name)
    × (0 < length (digits_of prv_hex))
    × (length prv ≡ 32)
    × (value_from 0 prv ≡ hex_number 0 (digits_of prv_hex))
    × All (λ a. a.name ≢ name) accounts
    × All (λ a. a.prv ≢ prv) accounts
IsChecked accounts name prv_hex uncaught = ⊥
IsChecked accounts name prv_hex (refused empty_name) = length name ≡ 0
IsChecked accounts name prv_hex (refused invalid_hex) =
    (all_hex (digits_of prv_hex) ≡ false) ⊎ (length (digits_of prv_hex) ≡ 0)
IsChecked accounts name prv_hex (refused bad_length) = 64 < length (digits_of prv_hex)
IsChecked accounts name prv_hex (refused name_exists) = Holds (λ a. a.name) name accounts
IsChecked accounts name prv_hex (refused key_exists) =
    (prv : Bytes) × (value_from 0 prv ≡ hex_number 0 (digits_of prv_hex))
    × Holds (λ a. a.prv) prv accounts
IsChecked accounts name prv_hex (refused imported) = ⊥

check_key-IsChecked :
    (accounts : List BabyJubKeypair) (name prv_hex : Text)
    → 0 < length name
    → 0 < length (digits_of prv_hex)
    → length (digits_of prv_hex) ≤ 64
    → all_hex (digits_of prv_hex) ≡ true
    → All (λ a. a.name ≢ name) accounts
    → (r : HexResult) → Decodes (digits_of prv_hex) r
    → IsChecked accounts name prv_hex (check_key accounts r)
unfolding check_key
check_key-IsChecked accounts name prv_hex named some_digits short hex fresh (throws too_long) d =
    absurd (omega arith)
check_key-IsChecked accounts name prv_hex named some_digits short hex fresh (throws invalid) d =
    let bad = d.1 in absurd cc
check_key-IsChecked accounts name prv_hex named some_digits short hex fresh (bytes prv) d =
    elim (Bool-cases (any_account (λ a. arrays_equal a.prv prv) accounts)) [
      | inl e ↦ rw e (prv, d.4, some_equal (λ a. a.prv) prv accounts e)
      | inr e ↦ rw e (named, some_digits, d.2, d.4, fresh, none_equal (λ a. a.prv) prv accounts e)
    ]

-- The checks of an import are exact: each refusal has the reason that its message gives, an accepted
-- key is the number that the digits spell, in 32 bytes, with a name and a key that no account has, and
-- `hexToBytes32` never throws after them.
pub check_import-IsChecked :
    (accounts : List BabyJubKeypair) (name prv_hex : Text)
    → IsChecked accounts name prv_hex (check_import accounts name prv_hex)
unfolding check_import
check_import-IsChecked accounts name prv_hex =
    let hex = digits_of prv_hex in
    elim (Bool-cases (length name == 0)) [
      | inl e ↦ rw e ((==_iff (length name) 0).0 e)
      | inr e1 ↦ elim (Bool-cases (all_hex hex)) [
        | inr e ↦ rw (e1, e) (inl e)
        | inl e2 ↦ elim (Bool-cases (length hex == 0)) [
          | inl e ↦ rw (e1, e2, e) (inr ((==_iff (length hex) 0).0 e))
          | inr e3 ↦ elim (Bool-cases (ltb 64 (length hex))) [
            | inl e ↦ rw (e1, e2, e3, e) (ground arith)
            | inr e4 ↦
                let some_digits : 0 < length hex = ground arith in
                let enough : ltb (length hex) 1 ≡ false = ground arith in
                elim (Bool-cases (any_account (λ a. arrays_equal a.name name) accounts)) [
                  | inl e ↦
                      rw (e1, e2, e3, e4, enough, e) (some_equal (λ a. a.name) name accounts e)
                  | inr e5 ↦
                      let decoded : Decodes hex (hex_to_bytes32 hex) =
                        rw (strip_0x_digits hex e2) at (hex_to_bytes32-Decodes hex) in
                      rw (e1, e2, e3, e4, enough, e5)
                        (check_key-IsChecked accounts name prv_hex (ground arith) some_digits
                          (ground arith) e2 (none_equal (λ a. a.name) name accounts e5)
                          (hex_to_bytes32 hex) decoded)
                ]
          ]
        ]
      ]
    ]
