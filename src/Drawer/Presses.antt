-- ===== src/Drawer/Presses.antt =====
-- What a first visit to the panel leads to (frontend/src/components/AccountDrawer.tsx).
use mathlib.Core.Path.{subst}
use mootvote.Base.{
  ℕ, ◌≤◌, ◌≡◌, ◌⊎◌, refl, sym, ◌∙◌, arith, List, [], ◌∷◌, none, some, Bool, true, false, ltb,
  length, inl, inr, Bool-cases, Option-cases,
}
use mootvote.Blob.{Bytes, Text, WebCrypto, Json, CryptoLaws, Parses}
use mootvote.Keyring.{
  BabyJubKeypair, Keyring, set_active, unlock, add_new, import_prv, remove_at, persist,
}
use mootvote.Keyring.Kept.{
  IsKept, with_status, unlock-IsKept, add_new-IsKept, import_prv-IsKept, remove_at-IsKept,
}
use mootvote.Drawer.{
  Panel, Press, type_pass, type_confirm_pass, type_new_name, type_import_name, type_import_text,
  press_unlock, press_new, press_import, press_use, press_delete, close, UnlockAlert, check_pass,
  is_creating, click_unlock, press_locked, press_open, press, presses, close_panel,
}

check_pass-none : (pass confirm_pass : Text) → check_pass pass confirm_pass ≡ none → 4 ≤ length pass
unfolding check_pass
check_pass-none pass confirm_pass h = ground arith

module _ (w : WebCrypto) (json : Json (List BabyJubKeypair)) where
  unlock-pass : (salt iv : Bytes) (kr : Keyring) → (unlock w json salt iv kr).0.pass ≡ kr.pass
  unfolding unlock set_active
  unlock-pass salt iv kr = ground arith

  import_prv-pass :
      (derive : Text → Bytes → BabyJubKeypair) (salt iv : Bytes) (name prv_hex : Text)
      (kr : Keyring)
      → (import_prv w json derive salt iv name prv_hex kr).pass ≡ kr.pass
  unfolding import_prv persist
  import_prv-pass derive salt iv name prv_hex kr = ground arith

  remove_at-pass :
      (salt iv : Bytes) (confirmed : Bool) (idx : ℕ) (kr kr' : Keyring)
      → remove_at w json salt iv confirmed idx kr ≡ some kr'
      → kr'.pass ≡ kr.pass
  unfolding remove_at persist set_active
  remove_at-pass salt iv confirmed idx kr kr' h = ground arith

  known_absent : (p : Panel) → p.keyring.has_keyring ≡ some false → is_creating p ≡ true
  unfolding is_creating
  known_absent p h = rw h refl

  click_refused :
      (salt iv : Bytes) (p : Panel) (alert : UnlockAlert)
      → p.keyring.has_keyring ≡ some false
      → check_pass p.keyring.pass p.confirm_pass ≡ some alert
      → click_unlock w json salt iv p ≡ record p { alert = some alert }
  unfolding click_unlock
  click_refused salt iv p alert h e = rw (known_absent p h, e, click_unlock) refl

  click_created :
      (salt iv : Bytes) (p : Panel)
      → p.keyring.has_keyring ≡ some false
      → check_pass p.keyring.pass p.confirm_pass ≡ none
      → click_unlock w json salt iv p ≡ record p { keyring = (unlock w json salt iv p.keyring).0 }
  unfolding click_unlock
  click_created salt iv p h e = rw (known_absent p h, e, click_unlock) refl

module _ (w : WebCrypto) (json : Json (List BabyJubKeypair)) (laws : CryptoLaws w)
    (parses : Parses json) where
  -- Nothing is stored and the keyring is locked, or the keyring is kept in storage under a passphrase
  -- of at least four characters.
  abbrev pub IsSafe : Panel → Type 0
  IsSafe p =
      ((p.keyring.locked ≡ true) × (p.keyring.has_keyring ≡ some false) × (p.keyring.db ≡ none))
      ⊎ (IsKept w json laws parses p.keyring × (4 ≤ length p.keyring.pass))

  unlock-IsSafe :
      (salt iv : Bytes) (p : Panel)
      → p.keyring.db ≡ none
      → 4 ≤ length p.keyring.pass
      → IsSafe (record p { keyring = (unlock w json salt iv p.keyring).0 })
  unlock-IsSafe salt iv p d long = elim (unlock-IsKept w json laws parses salt iv p.keyring) [
    | inl (done, kept, from_blob) ↦ inr (kept, rw (unlock-pass w json salt iv p.keyring) long)
    | inr (same, blob, e, closed) ↦ absurd (let both : none ≡ some blob = sym d ∙ e in cc)
  ]

  click_unlock-IsSafe :
      (salt iv : Bytes) (p : Panel)
      → p.keyring.locked ≡ true
      → p.keyring.has_keyring ≡ some false
      → p.keyring.db ≡ none
      → IsSafe (click_unlock w json salt iv p)
  click_unlock-IsSafe salt iv p l h d =
      elim (Option-cases (check_pass p.keyring.pass p.confirm_pass)) [
        | inr (alert, e) ↦
            subst IsSafe (sym (click_refused w json salt iv p alert h e)) (inl (l, h, d))
        | inl e ↦
            subst IsSafe (sym (click_created w json salt iv p h e))
              (unlock-IsSafe salt iv p d (check_pass-none p.keyring.pass p.confirm_pass e))
      ]

  used :
      (idx : ℕ) (p : Panel)
      → ltb idx (length p.keyring.accounts) ≡ true
      → IsKept w json laws parses p.keyring
      → IsKept w json laws parses (set_active idx p.keyring)
  unfolding set_active
  used idx p e k = record {
    unlocked = k.unlocked;
    in_range = ground arith;
    blob = k.blob;
    stored = k.stored;
    opens = k.opens;
  }

  press_open-IsSafe :
      (a : Press) (p : Panel)
      → IsKept w json laws parses p.keyring
      → 4 ≤ length p.keyring.pass
      → IsSafe (press_open w json a p)
  unfolding press_open add_new persist close_panel set_active
  press_open-IsSafe (type_new_name s) p k h = inr (k, h)
  press_open-IsSafe (type_import_name s) p k h = inr (k, h)
  press_open-IsSafe (type_import_text s) p k h = inr (k, h)
  press_open-IsSafe (press_new salt iv generate) p k h =
      inr (add_new-IsKept w json laws parses salt iv _ p.keyring k, h)
  press_open-IsSafe (press_import salt iv derive) p k h = inr (
    (import_prv-IsKept w json laws parses derive salt iv p.import_name p.import_text p.keyring k).0,
    rw (import_prv-pass w json derive salt iv p.import_name p.import_text p.keyring) h,
  )
  press_open-IsSafe (press_use idx) p k h =
      elim (Bool-cases (ltb idx (length p.keyring.accounts))) [
        | inl e ↦ rw e (inr (used idx p e k, h))
        | inr e ↦ rw e (inr (k, h))
      ]
  press_open-IsSafe (press_delete salt iv confirmed idx) p k h =
      elim (Bool-cases (ltb idx (length p.keyring.accounts))) [
        | inl e ↦
            let (kr, removed, kept, _) =
              remove_at-IsKept w json laws parses salt iv confirmed idx p.keyring k
                (ground arith) in
            rw (e, press_open)
              (rw (removed, press_open)
                (inr
                  (kept, rw (remove_at-pass w json salt iv confirmed idx p.keyring kr removed) h)))
        | inr e ↦ rw e (inr (k, h))
      ]
  press_open-IsSafe close p k h = inr (with_status w json laws parses p.keyring none k, h)
  press_open-IsSafe other p k h = inr (k, h)

  press_locked-IsSafe :
      (a : Press) (p : Panel)
      → p.keyring.locked ≡ true
      → p.keyring.has_keyring ≡ some false
      → p.keyring.db ≡ none
      → IsSafe (press_locked w json a p)
  unfolding press_locked close_panel
  press_locked-IsSafe (type_pass s) p l h d = inl (l, h, d)
  press_locked-IsSafe (type_confirm_pass s) p l h d = inl (l, h, d)
  press_locked-IsSafe (press_unlock salt iv) p l h d = click_unlock-IsSafe salt iv p l h d
  press_locked-IsSafe close p l h d = inl (l, h, d)
  press_locked-IsSafe other p l h d = inl (l, h, d)

  press-IsSafe : (a : Press) (p : Panel) → IsSafe p → IsSafe (press w json a p)
  unfolding press
  press-IsSafe a p (inl (l, h, d)) = simp l (press_locked-IsSafe a p l h d)
  press-IsSafe a p (inr (k, h)) = simp (k.unlocked) (press_open-IsSafe a p k h)

  -- After a first visit's presses, whatever they are, on a page that has learned from the browser's
  -- database that there is no keyring, either nothing is stored and
  -- the keyring is locked, or it is open and kept in the browser's storage: the stored blob opens to its accounts
  -- with its passphrase, which has at least four characters, and the active index is one of theirs or
  -- 0. The cipher, base 64 and JSON can be undone.
  pub presses-IsSafe :
      (actions : List Press) (p : Panel)
      → p.keyring.locked ≡ true
      → p.keyring.has_keyring ≡ some false
      → p.keyring.db ≡ none
      → IsSafe (presses w json actions p)
  unfolding presses
  presses-IsSafe actions p l h d = go actions p (inl (l, h, d))
    where
      go : (actions : List Press) (p : Panel) → IsSafe p → IsSafe (presses w json actions p)
      go [] p safe = safe
      go (a ∷ rest) p safe = go rest (press w json a p) (press-IsSafe a p safe)
