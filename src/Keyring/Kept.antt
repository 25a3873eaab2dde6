-- ===== src/Keyring/Kept.antt =====
-- The keyring in memory is the one in the browser's storage (frontend/src/keyring.tsx).
use mootvote.Base.{
  ℕ, zero, suc, ◌-◌, ◌≤◌, ◌<◌, ◌≡◌, ◌⊎◌, refl, ap, ◌∙◌, arith, List, [], ◌∷◌, ◌++◌, Option, none,
  some, Bool, true, false, if◌then◌else◌, length, get_elem?, leb, ltb, inl, inr, Bool-cases,
  Option-cases, length-append,
}
use mootvote.Blob.{
  Bytes, Text, WebCrypto, Json, EncryptedBlob, encrypt_to_blob, decrypt_from_blob, CryptoLaws,
  Parses, decrypt_from_blob-encrypt_to_blob,
}
use mootvote.Keyring.{
  BabyJubKeypair, ImportStatus, Keyring, Import, refused, accepted, uncaught, check_import, persist,
  unlock, add_new, import_prv, remove_at, set_active, splice1,
}

-- `splice` takes one element away and moves the later ones down.
get_elem?-splice1 :
    {A : Type 0} (xs : List A) (idx i : ℕ)
    → get_elem? (splice1 xs idx) i ≡ (if ltb i idx then get_elem? xs i else get_elem? xs (suc i))
unfolding splice1
get_elem?-splice1 [] idx i = ground arith
get_elem?-splice1 (x ∷ xs) zero i = ground arith
get_elem?-splice1 (x ∷ xs) (suc idx) zero = ground arith
get_elem?-splice1 (x ∷ xs) (suc idx) (suc i) = get_elem?-splice1 xs idx i ∙ ground arith

length-splice1 :
    {A : Type 0} (xs : List A) (idx : ℕ)
    → idx < length xs
    → suc (length (splice1 xs idx)) ≡ length xs
unfolding splice1
length-splice1 [] idx h = absurd (omega arith)
length-splice1 (x ∷ xs) zero h = refl
length-splice1 (x ∷ xs) (suc idx) h = ap suc (length-splice1 xs idx (omega arith))

get_elem?-lt :
    {A : Type 0} (xs : List A) (i : ℕ) → i < length xs → (a : A) × (get_elem? xs i ≡ some a)
get_elem?-lt [] i h = absurd (omega arith)
get_elem?-lt (x ∷ xs) zero h = (x, refl)
get_elem?-lt (x ∷ xs) (suc i) h = get_elem?-lt xs i (omega arith)

Import-cases :
    (r : Import)
    → ((prv : Bytes) × (r ≡ accepted prv))
      ⊎ (((status : ImportStatus) × (r ≡ refused status)) ⊎ (r ≡ uncaught))
Import-cases (accepted prv) = inl (prv, refl)
Import-cases (refused status) = inr (inl (status, refl))
Import-cases uncaught = inr (inr refl)

module _ (w : WebCrypto) (json : Json (List BabyJubKeypair)) (laws : CryptoLaws w)
    (parses : Parses json) where
  -- The keyring is open, the active index is one of its accounts (0 if it has none), and the browser
  -- holds a blob that the passphrase opens to the same accounts.
  pub record IsKept (kr : Keyring) : Type 0 where
    pub unlocked : kr.locked ≡ false
    pub in_range : kr.active ≤ length kr.accounts - 1
    pub blob : EncryptedBlob
    pub stored : kr.db ≡ some blob
    pub opens : decrypt_from_blob w json kr.pass blob ≡ some kr.accounts

  persist-IsKept :
      (salt iv : Bytes) (next : List BabyJubKeypair) (kr : Keyring)
      → kr.locked ≡ false
      → kr.active ≤ length next - 1
      → IsKept (persist w json salt iv next kr)
  unfolding persist
  persist-IsKept salt iv next kr open_now small = record {
    unlocked = open_now;
    in_range = small;
    blob = encrypt_to_blob w json salt iv kr.pass next;
    stored = refl;
    opens = decrypt_from_blob-encrypt_to_blob w json laws parses salt iv kr.pass next;
  }

  -- `unlock` succeeds and leaves a kept keyring: a new empty one, or the accounts that the stored blob
  -- opens to; or it changes nothing, and then there is a blob that the passphrase does not open.
  pub unlock-IsKept :
      (salt iv : Bytes) (kr : Keyring)
      → (((unlock w json salt iv kr).1 ≡ true)
          × IsKept (unlock w json salt iv kr).0
          × ((kr.db ≡ none) × ((unlock w json salt iv kr).0.accounts ≡ [])
              ⊎ (blob : EncryptedBlob) × (kr.db ≡ some blob)
                × (decrypt_from_blob w json kr.pass blob
                    ≡ some (unlock w json salt iv kr).0.accounts)))
        ⊎ (unlock w json salt iv kr ≡ (kr, false))
          × (blob : EncryptedBlob) × (kr.db ≡ some blob)
          × (decrypt_from_blob w json kr.pass blob ≡ none)
  unfolding unlock set_active
  unlock-IsKept salt iv kr = elim (Option-cases kr.db) [
    | inl e ↦ rw e (
        inl (
          refl,
          record {
            unlocked = refl;
            in_range = omega arith;
            blob = encrypt_to_blob w json salt iv kr.pass [];
            stored = refl;
            opens = decrypt_from_blob-encrypt_to_blob w json laws parses salt iv kr.pass [];
          },
          inl (refl, refl),
        ))
    | inr (blob, e) ↦ elim (Option-cases (decrypt_from_blob w json kr.pass blob)) [
      | inl wrong ↦ rw e (rw (wrong, unlock) (inr (refl, blob, refl, wrong)))
      | inr (accs, right) ↦ rw e (
          rw (right, unlock)
            (inl (
              refl,
              record {
                unlocked = refl;
                in_range = omega arith;
                blob = blob;
                stored = refl;
                opens = right;
              },
              inr (blob, refl, right),
            )))
    ]
  ]

  pub add_new-IsKept :
      (salt iv : Bytes) (k : BabyJubKeypair) (kr : Keyring)
      → IsKept kr
      → IsKept (add_new w json salt iv k kr)
  unfolding add_new
  add_new-IsKept salt iv k kr h =
      persist-IsKept salt iv (kr.accounts ++ (k ∷ [])) kr h.unlocked
        (omega (arith, h.in_range, length-append kr.accounts (k ∷ [])))

  pub with_status :
      (kr : Keyring) (status : Option ImportStatus)
      → IsKept kr
      → IsKept (record kr { import_status = status })
  with_status kr status h = record {
    unlocked = h.unlocked;
    in_range = h.in_range;
    blob = h.blob;
    stored = h.stored;
    opens = h.opens;
  }

  -- `importPrv` keeps a kept keyring. If the checks accept the key, its account is appended and the
  -- status says so; if one refuses, the accounts and what the browser holds stay as they are and the
  -- status says which one; if the conversion of the key throws, they stay too, without a status.
  pub import_prv-IsKept :
      (derive : Text → Bytes → BabyJubKeypair) (salt iv : Bytes) (name prv_hex : Text)
      (kr : Keyring)
      → IsKept kr
      → IsKept (import_prv w json derive salt iv name prv_hex kr)
        × (((prv : Bytes) × (check_import kr.accounts name prv_hex ≡ accepted prv)
              × ((import_prv w json derive salt iv name prv_hex kr).accounts
                  ≡ kr.accounts ++ (derive name prv ∷ []))
              × ((import_prv w json derive salt iv name prv_hex kr).import_status
                  ≡ some ImportStatus.imported))
            ⊎ (((status : ImportStatus) × (check_import kr.accounts name prv_hex ≡ refused status)
                  × ((import_prv w json derive salt iv name prv_hex kr).accounts ≡ kr.accounts)
                  × ((import_prv w json derive salt iv name prv_hex kr).db ≡ kr.db)
                  × ((import_prv w json derive salt iv name prv_hex kr).import_status
                      ≡ some status))
                ⊎ (check_import kr.accounts name prv_hex ≡ uncaught)
                  × ((import_prv w json derive salt iv name prv_hex kr).accounts ≡ kr.accounts)
                  × ((import_prv w json derive salt iv name prv_hex kr).db ≡ kr.db)
                  × ((import_prv w json derive salt iv name prv_hex kr).import_status ≡ none)))
  unfolding import_prv persist add_new
  import_prv-IsKept derive salt iv name prv_hex kr h =
      elim (Import-cases (check_import kr.accounts name prv_hex)) [
        | inl (prv, e) ↦
            rw (e, import_prv)
              (
                with_status _ (some ImportStatus.imported)
                    (add_new-IsKept salt iv (derive name prv) kr h),
                inl (prv, refl, refl, refl),
              )
        | inr (inl (status, e)) ↦
            rw (e, import_prv)
              (with_status kr (some status) h, inr (inl (status, refl, refl, refl, refl)))
        | inr (inr e) ↦
            rw (e, import_prv) (with_status kr none h, inr (inr (refl, refl, refl, refl)))
      ]

  -- `removeAt` of an account keeps a kept keyring and takes that account away, one index later for those
  -- behind it; if the dialog is refused nothing changes.
  pub remove_at-IsKept :
      (salt iv : Bytes) (confirmed : Bool) (idx : ℕ) (kr : Keyring)
      → IsKept kr
      → idx < length kr.accounts
      → (kr' : Keyring) × (remove_at w json salt iv confirmed idx kr ≡ some kr')
        × IsKept kr'
        × (if confirmed
            then (suc (length kr'.accounts) ≡ length kr.accounts)
              × ((i : ℕ)
                  → get_elem? kr'.accounts i ≡ (
                      if ltb i idx then get_elem? kr.accounts i else get_elem? kr.accounts (suc i)))
            else kr' ≡ kr)
  unfolding remove_at persist set_active
  remove_at-IsKept salt iv confirmed idx kr h small =
      let (a, e) = get_elem?-lt kr.accounts idx small in removed confirmed a e
    where
      removed :
          (confirmed : Bool) (a : BabyJubKeypair)
          → get_elem? kr.accounts idx ≡ some a
          → (kr' : Keyring) × (remove_at w json salt iv confirmed idx kr ≡ some kr')
            × IsKept kr'
            × (if confirmed
                then (suc (length kr'.accounts) ≡ length kr.accounts)
                  × ((i : ℕ)
                      → get_elem? kr'.accounts i ≡ (
                          if ltb i idx
                          then get_elem? kr.accounts i
                          else get_elem? kr.accounts (suc i)))
                else kr' ≡ kr)
      removed false a e = (kr, rw (e, remove_at) refl, h, refl)
      removed true a e =
          let next = splice1 kr.accounts idx in
          let left = length-splice1 kr.accounts idx small in
          let kept = persist w json salt iv next kr in
          elim (Bool-cases (leb (length next) kr.active)) [
            | inl over ↦ (
              set_active (length next - 1) kept,
              rw (e, remove_at) (rw over refl),
              record {
                unlocked = h.unlocked;
                in_range = omega arith;
                blob = encrypt_to_blob w json salt iv kr.pass next;
                stored = refl;
                opens = decrypt_from_blob-encrypt_to_blob w json laws parses salt iv kr.pass next;
              },
              (left, get_elem?-splice1 kr.accounts idx),
            )
            | inr under ↦ (
              kept,
              rw (e, remove_at) (rw under refl),
              persist-IsKept salt iv next kr h.unlocked (ground arith),
              (left, get_elem?-splice1 kr.accounts idx),
            )
          ]
