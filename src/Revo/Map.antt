-- ===== src/Revo/Map.antt =====
-- The revoting keys as a map from accounts and polls (frontend/src/keyring.tsx).
use mootvote.Base.{
  ℕ, ◌≡◌, refl, sym, ap, ◌∙◌, arith, [], ◌∷◌, Option, none, some, Bool, true, false, ◌==◌, ◌&&◌,
  if◌then◌else◌, inl, inr, Bool-cases,
}
use mootvote.Blob.{
  Bytes, Text, WebCrypto, Json, CryptoLaws, Parses, decrypt_from_blob-encrypt_to_blob,
}
use mootvote.Keyring.{arrays_equal}
use mootvote.Keyring.Checks.{arrays_equal→eq, arrays_equal_refl}
use mootvote.Revo.{
  RevoKey, PollKeys, RevoKeysMap, get_poll, put_poll, delete_poll, get_account, put_account, Revo,
  get_for_poll, reload, persist, set_for_poll, remove_for_poll,
}

get_poll-put_poll :
    (p q : ℕ) (rk : RevoKey) (m : PollKeys)
    → get_poll q (put_poll p rk m) ≡ (if p == q then some rk else get_poll q m)
unfolding get_poll put_poll
get_poll-put_poll p q rk [] = refl
get_poll-put_poll p q rk ((j, old) ∷ m) = ground (arith, get_poll-put_poll p q rk m)

get_poll-delete_poll :
    (p q : ℕ) (m : PollKeys)
    → get_poll q (delete_poll p m) ≡ (if p == q then none else get_poll q m)
unfolding get_poll delete_poll
get_poll-delete_poll p q [] = ground arith
get_poll-delete_poll p q ((j, rk) ∷ m) = ground (arith, get_poll-delete_poll p q m)

merged :
    {A : Type 0} (t : Bool) (x y z : A)
    → (if t then x else z) ≡ (if t then x else if t then y else z)
merged true x y z = refl
merged false x y z = refl

differs :
    (a b c : Text) → arrays_equal c b ≡ true → arrays_equal c a ≡ false → arrays_equal a b ≡ false
differs a b c same other = elim (Bool-cases (arrays_equal a b)) [
  | inr e ↦ e
  | inl e ↦
      let q : c ≡ a = arrays_equal→eq c b same ∙ sym (arrays_equal→eq a b e) in
      let both : arrays_equal c a ≡ true = rw q (arrays_equal_refl a) in absurd cc
]

get_account-put_account :
    (a b : Text) (m : PollKeys) (map : RevoKeysMap)
    → get_account b (put_account a m map) ≡ (if arrays_equal a b then m else get_account b map)
unfolding get_account put_account
get_account-put_account a b m [] = refl
get_account-put_account a b m ((c, old) ∷ map) = elim (Bool-cases (arrays_equal c a)) [
  | inl e ↦
      rw (e, put_account)
        (rw (arrays_equal→eq c a e) (merged (arrays_equal a b) m old (get_account b map)))
  | inr e ↦
      rw (e, put_account)
        (elim (Bool-cases (arrays_equal c b)) [
          | inr e' ↦ rw (e', get_account) (get_account-put_account a b m map)
          | inl e' ↦
              let apart : arrays_equal a b ≡ false = differs a b c e' e in
              rw (e', get_account) (rw apart refl)
        ])
]

module _ (w : WebCrypto) (json : Json RevoKeysMap) (pass : Text) where
  -- With an open keyring a key that is set is the one that its account and poll have from then on, and
  -- a key that is removed is gone; the keys of all other accounts and polls stay.
  pub get_for_poll-set_for_poll :
      (salt iv : Bytes) (a b : Text) (p q : ℕ) (rk : RevoKey) (r : Revo)
      → (get_for_poll (set_for_poll w json false pass salt iv a p rk r) b q
          ≡ (if arrays_equal a b && (p == q) then some rk else get_for_poll r b q))
        × (get_for_poll (remove_for_poll w json false pass salt iv a p r) b q
            ≡ (if arrays_equal a b && (p == q) then none else get_for_poll r b q))
  unfolding get_for_poll set_for_poll remove_for_poll persist
  get_for_poll-set_for_poll salt iv a b p q rk r = (
    written (put_poll p rk) (some rk) (get_poll-put_poll p q rk (get_account a r.map)),
    written (delete_poll p) none (get_poll-delete_poll p q (get_account a r.map)),
  )
    where
      written :
          (change : PollKeys → PollKeys) (there : Option RevoKey)
          → get_poll q (change (get_account a r.map))
            ≡ (if p == q then there else get_poll q (get_account a r.map))
          → get_poll q (get_account b (put_account a (change (get_account a r.map)) r.map))
            ≡ (if arrays_equal a b && (p == q) then there else get_poll q (get_account b r.map))
      written change there h =
          ap (get_poll q) (get_account-put_account a b (change (get_account a r.map)) r.map)
          ∙ elim (Bool-cases (arrays_equal a b)) [
            | inl e ↦ rw e (rw (← arrays_equal→eq a b e) h)
            | inr e ↦ rw e refl
          ]

  reload_map :
      CryptoLaws w
      → Parses json
      → (salt iv : Bytes) (a : Text) (p : ℕ) (rk : RevoKey) (r later : Revo)
      → later.db ≡ (set_for_poll w json false pass salt iv a p rk r).db
      → (reload w json false pass later).map ≡ (set_for_poll w json false pass salt iv a p rk r).map
  unfolding reload set_for_poll persist
  reload_map laws parses salt iv a p rk r later same =
      rw (same, reload)
        (rw
          (decrypt_from_blob-encrypt_to_blob w json laws parses salt iv pass
            (put_account a (put_poll p rk (get_account a r.map)) r.map))
          refl)

  -- What one run of the page has set, a later one that is unlocked with the same passphrase loads: it
  -- finds the key for its account and poll, and for all others the keys that the first run had.
  pub reload-set_for_poll :
      CryptoLaws w
      → Parses json
      → (salt iv : Bytes) (a b : Text) (p q : ℕ) (rk : RevoKey) (r later : Revo)
      → later.db ≡ (set_for_poll w json false pass salt iv a p rk r).db
      → (get_for_poll (reload w json false pass later) a p ≡ some rk)
        × (get_for_poll (reload w json false pass later) b q
            ≡ (if arrays_equal a b && (p == q) then some rk else get_for_poll r b q))
  unfolding get_for_poll
  reload-set_for_poll laws parses salt iv a b p q rk r later same =
      let loaded = reload_map laws parses salt iv a p rk r later same in
      let set = (get_for_poll-set_for_poll salt iv a a p p rk r).0 in
      (
        rw loaded (set ∙ own_key _ (arrays_equal_refl a)),
        rw loaded ((get_for_poll-set_for_poll salt iv a b p q rk r).0),
      )
    where
      own_key :
          (x : Option RevoKey)
          → arrays_equal a a ≡ true
          → (if arrays_equal a a && (p == p) then some rk else x) ≡ some rk
      own_key x e = ground arith
