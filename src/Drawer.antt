-- ===== src/Drawer.antt =====
-- The panel of accounts (frontend/src/components/AccountDrawer.tsx), on the keyring of
-- frontend/src/keyring.tsx.
pub mod Presses
pub mod Keys
mod Tests
use mootvote.Base.{
  ℕ, ◌+◌, List, [], ◌∷◌, ◌++◌, Option, none, some, Bool, true, false, not, ◌||◌, ◌&&◌, ◌==◌, ltb,
  if◌then◌else◌, length,
}
use mootvote.Blob.{Bytes, Text, WebCrypto, Json}
use mootvote.Decimal.{decimal}
use mootvote.Keyring.{
  BabyJubKeypair, Keyring, arrays_equal, set_active, unlock, add_new, import_prv, remove_at,
}

pub data UnlockAlert : Type 0 where
  too_short mismatch : UnlockAlert

-- The keyring with the panel's fields and its last alert.
pub record Panel : Type 0 where
  pub keyring : Keyring
  pub new_name : Text
  pub import_name : Text
  pub import_text : Text
  pub confirm_pass : Text
  pub alert : Option UnlockAlert

-- The checks before a keyring is created.
unfoldable pub check_pass : Text → Text → Option UnlockAlert
check_pass pass confirm_pass =
    if (length pass == 0) || ltb (length pass) 4
    then some too_short
    else if not (arrays_equal pass confirm_pass)
    then some mismatch
    else none

-- `newName || `acct-${KR.accounts.length + 1}``
unfoldable pub name_or_default : Text → ℕ → Text
name_or_default name count =
    if length name == 0 then 97 ∷ 99 ∷ 99 ∷ 116 ∷ 45 ∷ decimal (count + 1) else name

-- The effect of closing the panel.
unfoldable pub close_panel : Panel → Panel
close_panel p = record p {
  keyring = record p.keyring { import_status = none };
  new_name = [];
  import_name = [];
  import_text = [];
}

-- `creating`: the database has answered, and it has no keyring.
unfoldable pub is_creating : Panel → Bool
is_creating p = elim p.keyring.has_keyring [ none ↦ false | some there ↦ not there ]

-- What the user does. A locked keyring shows the fields of the passphrase only. With a press come its
-- random bytes, the new key for a name, and the answer to a dialog.
pub data Press : Type 0 where
  type_pass type_confirm_pass type_new_name type_import_name type_import_text : Text → Press
  press_unlock : Bytes → Bytes → Press
  press_new : Bytes → Bytes → (Text → BabyJubKeypair) → Press
  press_import : Bytes → Bytes → (Text → Bytes → BabyJubKeypair) → Press
  press_use : ℕ → Press
  press_delete : Bytes → Bytes → Bool → ℕ → Press
  close : Press

module _ (w : WebCrypto) (json : Json (List BabyJubKeypair)) where
  unfoldable pub click_unlock : Bytes → Bytes → Panel → Panel
  click_unlock salt iv p =
      let opened = record p { keyring = (unlock w json salt iv p.keyring).0 } in
      if is_creating p
      then elim (check_pass p.keyring.pass p.confirm_pass) [
        | some alert ↦ record p { alert = some alert }
        | none ↦ opened
      ]
      else opened

  unfoldable pub press_locked : Press → Panel → Panel
  press_locked (type_pass s) p = record p { keyring = record p.keyring { pass = s } }
  press_locked (type_confirm_pass s) p = record p { confirm_pass = s }
  press_locked (press_unlock salt iv) p = click_unlock salt iv p
  press_locked close p = close_panel p
  press_locked other p = p

  -- The buttons of an account are there for accounts only.
  unfoldable pub press_open : Press → Panel → Panel
  press_open (type_new_name s) p = record p { new_name = s }
  press_open (type_import_name s) p = record p { import_name = s }
  press_open (type_import_text s) p = record p { import_text = s }
  press_open (press_new salt iv generate) p =
      let name = name_or_default p.new_name (length p.keyring.accounts) in
      record p { keyring = add_new w json salt iv (generate name) p.keyring }
  press_open (press_import salt iv derive) p = record p {
    keyring = import_prv w json derive salt iv p.import_name p.import_text p.keyring;
  }
  press_open (press_use idx) p =
      if ltb idx (length p.keyring.accounts)
      then record p { keyring = set_active idx p.keyring }
      else p
  press_open (press_delete salt iv confirmed idx) p =
      if ltb idx (length p.keyring.accounts)
      then elim (remove_at w json salt iv confirmed idx p.keyring) [
        | none ↦ p
        | some kr ↦ record p { keyring = kr }
      ]
      else p
  press_open close p = close_panel p
  press_open other p = p

  unfoldable pub press : Press → Panel → Panel
  press a p = if p.keyring.locked then press_locked a p else press_open a p

  unfoldable pub presses : List Press → Panel → Panel
  presses [] p = p
  presses (a ∷ rest) p = presses rest (press a p)
