-- ===== src/Keyring/Tests.antt =====
-- Runs of the keyring on a small cipher.
use mootvote.Base.{
  ℕ, suc, ◌≡◌, ◌⊎◌, refl, arith, List, [], ◌∷◌, ◌++◌, none, some, true, false, length, get_elem?,
  ltb, if◌then◌else◌,
}
use mootvote.Blob.{
  Bytes, Text, Json, EncryptedBlob, encrypt_to_blob, decrypt_from_blob,
  decrypt_from_blob-encrypt_to_blob,
}
use mootvote.Blob.Tests.{
  small_crypto, small_crypto_laws, number, pair, list, via, json_of, json_of-Parses, Codec,
}
use mootvote.Keyring.{
  ImportStatus, refused, uncaught, BabyJubKeypair, Keyring, accepted, check_import, unlock,
  import_prv, remove_at,
}
use mootvote.Keyring.Checks.{IsChecked, check_import-IsChecked}
use mootvote.Keyring.Kept.{IsKept, unlock-IsKept, import_prv-IsKept, remove_at-IsKept}

abbrev flat : (List ℕ × (List ℕ × (ℕ × ((ℕ × ℕ) × ℕ)))) → BabyJubKeypair
flat (name, (prv, (sk, (key, time)))) = record {
  name = name;
  prv = prv;
  sk = sk;
  pub_key = key;
  created_at = time;
}

abbrev fields : BabyJubKeypair → (List ℕ × (List ℕ × (ℕ × ((ℕ × ℕ) × ℕ))))
fields a = (a.name, (a.prv, (a.sk, (a.pub_key, a.created_at))))

abbrev pub account : Codec BabyJubKeypair
account =
    via (pair (list number) (pair (list number) (pair number (pair (pair number number) number))))
      flat fields (λ a. refl)

abbrev pub json : Json (List BabyJubKeypair)
json = json_of (list account)

-- `derive` with a small number for the public key.
abbrev pub derive : Text → Bytes → BabyJubKeypair
derive name prv = record { name = name; prv = prv; sk = 1; pub_key = (2, 3); created_at = 4 }

abbrev two_accounts : List BabyJubKeypair
two_accounts = derive (97 ∷ []) (1 ∷ []) ∷ derive (98 ∷ []) (2 ∷ []) ∷ []

abbrev pub locked_keyring : Keyring
locked_keyring = record {
  locked = true;
  pass = 112 ∷ [];
  accounts = [];
  active = 0;
  has_keyring = some true;
  import_status = none;
  db = some (encrypt_to_blob small_crypto json [] [] (112 ∷ []) two_accounts);
  saved_active = some 7;
}

abbrev open_keyring : Keyring
open_keyring = record locked_keyring {
  locked = false;
  accounts = two_accounts;
  active = 1;
  saved_active = some 1;
}

open_keyring-IsKept :
    IsKept small_crypto json small_crypto_laws (json_of-Parses (list account)) open_keyring
open_keyring-IsKept = record {
  unlocked = refl;
  in_range = omega arith;
  blob = encrypt_to_blob small_crypto json [] [] (112 ∷ []) two_accounts;
  stored = refl;
  opens =
      decrypt_from_blob-encrypt_to_blob small_crypto json small_crypto_laws
        (json_of-Parses (list account)) [] [] (112 ∷ []) two_accounts;
}

unlock-IsKept_example :
    (((unlock small_crypto json [] [] locked_keyring).1 ≡ true)
      × IsKept small_crypto json small_crypto_laws
          (json_of-Parses (list account))
          (unlock small_crypto json [] [] locked_keyring).0
      × ((locked_keyring.db ≡ none)
            × ((unlock small_crypto json [] [] locked_keyring).0.accounts ≡ [])
          ⊎ (blob : EncryptedBlob) × (locked_keyring.db ≡ some blob)
            × (decrypt_from_blob small_crypto json (112 ∷ []) blob
                ≡ some (unlock small_crypto json [] [] locked_keyring).0.accounts)))
    ⊎ (unlock small_crypto json [] [] locked_keyring ≡ (locked_keyring, false))
      × (blob : EncryptedBlob) × (locked_keyring.db ≡ some blob)
      × (decrypt_from_blob small_crypto json (112 ∷ []) blob ≡ none)
unlock-IsKept_example =
    unlock-IsKept small_crypto json small_crypto_laws (json_of-Parses (list account)) [] []
      locked_keyring

-- The name "c" and the key "0xA1 ".
abbrev after_import : Keyring
after_import =
    import_prv small_crypto json derive [] [] (99 ∷ []) (48 ∷ 120 ∷ 65 ∷ 49 ∷ 32 ∷ []) open_keyring

import_prv-IsKept_example :
    IsKept small_crypto json small_crypto_laws (json_of-Parses (list account)) after_import
    × (((prv : Bytes) × (check_import open_keyring.accounts (99 ∷ []) (48 ∷ 120 ∷ 65 ∷ 49 ∷ 32 ∷ [])
            ≡ accepted prv)
          × (after_import.accounts ≡ open_keyring.accounts ++ (derive (99 ∷ []) prv ∷ []))
          × (after_import.import_status ≡ some ImportStatus.imported))
        ⊎ (((status : ImportStatus) × (check_import open_keyring.accounts
                  (99 ∷ [])
                  (48 ∷ 120 ∷ 65 ∷ 49 ∷ 32 ∷ [])
                ≡ refused status)
              × (after_import.accounts ≡ open_keyring.accounts)
              × (after_import.db ≡ open_keyring.db)
              × (after_import.import_status ≡ some status))
            ⊎ (check_import open_keyring.accounts (99 ∷ []) (48 ∷ 120 ∷ 65 ∷ 49 ∷ 32 ∷ [])
                ≡ uncaught)
              × (after_import.accounts ≡ open_keyring.accounts)
              × (after_import.db ≡ open_keyring.db)
              × (after_import.import_status ≡ none)))
import_prv-IsKept_example =
    import_prv-IsKept small_crypto json small_crypto_laws (json_of-Parses (list account)) derive []
      [] (99 ∷ []) (48 ∷ 120 ∷ 65 ∷ 49 ∷ 32 ∷ []) open_keyring open_keyring-IsKept

remove_at-IsKept_example :
    (kr' : Keyring) × (remove_at small_crypto json [] [] true 0 open_keyring ≡ some kr')
    × IsKept small_crypto json small_crypto_laws (json_of-Parses (list account)) kr'
    × (if true
        then (suc (length kr'.accounts) ≡ length open_keyring.accounts)
          × ((i : ℕ)
              → get_elem? kr'.accounts i ≡ (
                  if ltb i 0
                  then get_elem? open_keyring.accounts i
                  else get_elem? open_keyring.accounts (suc i)))
        else kr' ≡ open_keyring)
remove_at-IsKept_example =
    remove_at-IsKept small_crypto json small_crypto_laws (json_of-Parses (list account)) [] [] true
      0 open_keyring open_keyring-IsKept (omega arith)

check_import-IsChecked_example :
    IsChecked two_accounts
      (99 ∷ [])
      (48 ∷ 120 ∷ 65 ∷ 49 ∷ 32 ∷ [])
      (check_import two_accounts (99 ∷ []) (48 ∷ 120 ∷ 65 ∷ 49 ∷ 32 ∷ []))
check_import-IsChecked_example =
    check_import-IsChecked two_accounts (99 ∷ []) (48 ∷ 120 ∷ 65 ∷ 49 ∷ 32 ∷ [])
