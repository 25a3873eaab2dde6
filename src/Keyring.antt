-- ===== src/Keyring.antt =====
-- The keyring of frontend/src/keyring.tsx (`useKeyring`).
pub mod Kept
pub mod Checks
pub mod Tests
use mootvote.Base.{
  ℕ, zero, suc, ◌+◌, ◌-◌, List, [], ◌∷◌, ◌++◌, Option, none, some, Bool, true, false, ◌==◌, ◌&&◌,
  ◌||◌, not, if◌then◌else◌, length, get_elem?, take, drop, ltb, leb, min,
}
use mootvote.Bytes.{strip_0x, all_hex, HexResult, bytes, throws, hex_to_bytes32}
use mootvote.Blob.{Bytes, Text, WebCrypto, Json, EncryptedBlob, encrypt_to_blob, decrypt_from_blob}

pub record BabyJubKeypair : Type 0 where
  pub name : Text
  pub prv : Bytes
  pub sk : ℕ
  pub pub_key : ℕ × ℕ
  pub created_at : ℕ

pub data ImportStatus : Type 0 where
  empty_name invalid_hex bad_length name_exists key_exists imported : ImportStatus

-- The state of the hook, with what is written under `KEYRING_DB_KEY` and `ACTIVE_IDX_KEY`.
-- `has_keyring` is `none` until the browser's database has answered.
pub record Keyring : Type 0 where
  pub locked : Bool
  pub pass : Text
  pub accounts : List BabyJubKeypair
  pub active : ℕ
  pub has_keyring : Option Bool
  pub import_status : Option ImportStatus
  pub db : Option EncryptedBlob
  pub saved_active : Option ℕ

-- The white space that `trim` takes off.
abbrev pub is_space : ℕ → Bool
is_space c =
    (leb 9 c && leb c 13)
    || (c == 32)
    || (c == 160)
    || (c == 5760)
    || (leb 8192 c && leb c 8202)
    || (c == 8232)
    || (c == 8233)
    || (c == 8239)
    || (c == 8287)
    || (c == 12288)
    || (c == 65279)

unfoldable pub trim_start : Text → Text
trim_start [] = []
trim_start (c ∷ s) = let rest = trim_start s in if is_space c then rest else c ∷ s

unfoldable pub trim_end : Text → Text
trim_end [] = []
trim_end (c ∷ s) =
    let rest = trim_end s in
    elim rest [ [] ↦ if is_space c then [] else c ∷ [] | d ∷ ds ↦ c ∷ d ∷ ds ]

unfoldable pub to_lower : Text → Text
to_lower [] = []
to_lower (c ∷ s) = (if leb 65 c && leb c 90 then c + 32 else c) ∷ to_lower s

-- Both `arraysEqual` and `===` of strings.
unfoldable pub arrays_equal : List ℕ → List ℕ → Bool
arrays_equal [] [] = true
arrays_equal [] (y ∷ ys) = false
arrays_equal (x ∷ xs) [] = false
arrays_equal (x ∷ xs) (y ∷ ys) = (x == y) && arrays_equal xs ys

-- `accounts.some(…)`
unfoldable pub any_account : (BabyJubKeypair → Bool) → List BabyJubKeypair → Bool
any_account p [] = false
any_account p (a ∷ rest) = p a || any_account p rest

-- `next.splice(idx, 1)`
unfoldable pub splice1 : {A : Type 0} → List A → ℕ → List A
splice1 [] idx = []
splice1 (x ∷ xs) zero = xs
splice1 (x ∷ xs) (suc idx) = x ∷ splice1 xs idx

unfoldable pub set_active : ℕ → Keyring → Keyring
set_active idx kr = record kr { active = idx; saved_active = some idx }

-- The result of the checks of `importPrv`, by the accounts, the name and the text of the key.
pub data Import : Type 0 where
  refused : ImportStatus → Import
  accepted : Bytes → Import
  uncaught : Import

unfoldable pub check_key : List BabyJubKeypair → HexResult → Import
check_key accounts (throws e) = uncaught
check_key accounts (bytes prv) =
    if any_account (λ a. arrays_equal a.prv prv) accounts then refused key_exists else accepted prv

unfoldable pub check_import : List BabyJubKeypair → Text → Text → Import
check_import accounts name prv_hex =
    let hex = strip_0x (to_lower (trim_end (trim_start prv_hex))) in
    if length name == 0
    then refused empty_name
    else if not (all_hex hex && not (length hex == 0))
    then refused invalid_hex
    else if ltb 64 (length hex) || ltb (length hex) 1
    then refused bad_length
    else if any_account (λ a. arrays_equal a.name name) accounts
    then refused name_exists
    else check_key accounts (hex_to_bytes32 hex)

abbrev pub saved_or_zero : Option ℕ → ℕ
saved_or_zero none = 0
saved_or_zero (some i) = i

-- `derive` is the key pair of a private key (circomlibjs and helpers/key.ts) with its name and time.
module _ (w : WebCrypto) (json : Json (List BabyJubKeypair)) where
  unfoldable pub persist : Bytes → Bytes → List BabyJubKeypair → Keyring → Keyring
  persist salt iv next kr = record kr {
    accounts = next;
    db = some (encrypt_to_blob w json salt iv kr.pass next);
  }

  unfoldable pub unlock : Bytes → Bytes → Keyring → Keyring × Bool
  unlock salt iv kr = elim kr.db [
    | none ↦ (
      record kr {
        accounts = [];
        locked = false;
        has_keyring = some true;
        active = 0;
        db = some (encrypt_to_blob w json salt iv kr.pass []);
        saved_active = some 0;
      },
      true,
    )
    | some blob ↦ elim (decrypt_from_blob w json kr.pass blob) [
      | none ↦ (kr, false)
      | some accs ↦ (
        set_active (min (saved_or_zero kr.saved_active) (length accs - 1))
            (record kr { accounts = accs; locked = false }),
        true,
      )
    ]
  ]

  unfoldable pub add_new : Bytes → Bytes → BabyJubKeypair → Keyring → Keyring
  add_new salt iv k kr = persist salt iv (kr.accounts ++ (k ∷ [])) kr

  unfoldable pub import_prv :
      (Text → Bytes → BabyJubKeypair) → Bytes → Bytes → Text → Text → Keyring → Keyring
  import_prv derive salt iv name prv_hex kr = elim (check_import kr.accounts name prv_hex) [
    | refused status ↦ record kr { import_status = some status }
    | uncaught ↦ record kr { import_status = none }
    | accepted prv ↦ record (persist salt iv (kr.accounts ++ (derive name prv ∷ [])) kr) {
      import_status = some imported;
    }
  ]

  -- `none`: `accounts[idx]` is undefined, a TypeError.
  unfoldable pub remove_at : Bytes → Bytes → Bool → ℕ → Keyring → Option Keyring
  remove_at salt iv confirmed idx kr = elim (get_elem? kr.accounts idx) [
    | none ↦ none
    | some a ↦
        if not confirmed
        then some kr
        else let next = splice1 kr.accounts idx in
          let kept = persist salt iv next kr in
          some (if leb (length next) kr.active then set_active (length next - 1) kept else kept)
  ]
