-- ===== src/Tagged/Stored.antt =====
-- The accounts and the revoting keys as they are stored (frontend/src/keyring.tsx): JSON with the
-- replacer, under the passphrase (frontend/src/blob.ts).
use mathlib.Core.Path.{subst}
use mootvote.Base.{
  ℕ, ◌≡◌, ◌≢◌, ◌⊎◌, inl, inr, refl, arith, List, [], ◌∷◌, ◌++◌, none, some, false, All, length,
  take_all, append-nil,
}
use mootvote.Base.Int.{pos}
use mootvote.Blob.{
  Bytes, Text, WebCrypto, Json, CryptoLaws, encrypt_to_blob, decrypt_from_blob,
  decrypt_from_blob-encrypt_to_blob_at,
}
use mootvote.Decimal.{decimal}
use mootvote.Decimal.Value.{IsDigit, decimal-All}
use mootvote.Keyring.{BabyJubKeypair, arrays_equal}
use mootvote.Revo.{RevoKey, PollKeys, RevoKeysMap}
use mootvote.Vote.Seal.{id_for_account}
use mootvote.Tagged.{
  codes, Value, Items, Fields, num, text, bigint, view, array, object, nil, cons, end, field,
  Runtime, get_field, find_constructor, replaced, revived,
}
use mootvote.Tagged.Numbers.{decimal_nonempty}
use mootvote.Tagged.RoundTrip.{IsPlain, ItemsPlain, FieldsPlain, revived-replaced}

-- The JSON of blob.ts, from that of values without bigints and typed arrays: `JSON.stringify` with
-- `jsonReplacer` and `JSON.parse` with `jsonReviver`.
unfoldable pub tagged_json : Runtime → Json Value → Json Value
tagged_json js plain = record {
  stringify = λ v. plain.stringify (replaced js v);
  parse = λ bs. elim (plain.parse bs) [ none ↦ none | some v ↦ revived js v ];
}

unfoldable pub account_value : BabyJubKeypair → Value
account_value a = object (
    field (codes "name") (text a.name) (
      field (codes "prv") (view (codes "Uint8Array") a.prv) (
        field (codes "sk") (bigint (pos a.sk)) (
          field (codes "pub")
            (array (cons (bigint (pos a.pub_key.0)) (cons (bigint (pos a.pub_key.1)) nil)))
            (field (codes "createdAt") (num a.created_at) end)))))

unfoldable pub account_items : List BabyJubKeypair → Items
account_items [] = nil
account_items (a ∷ rest) = cons (account_value a) (account_items rest)

unfoldable pub revo_key_value : RevoKey → Value
revo_key_value rk = object (
    field (codes "sk") (bigint (pos rk.sk))
      (field (codes "updatedAt") (num rk.updated_at) (field (codes "title") (text rk.title) end)))

unfoldable pub poll_fields : PollKeys → Fields
poll_fields [] = end
poll_fields ((p, rk) ∷ m) = field (decimal p) (revo_key_value rk) (poll_fields m)

unfoldable pub map_fields : RevoKeysMap → Fields
map_fields [] = end
map_fields ((a, m) ∷ map) = field a (object (poll_fields m)) (map_fields map)

-- The map is kept by the ids of accounts.
abbrev pub ByAccounts : RevoKeysMap → Type 0
ByAccounts map = All (λ e. (a : BabyJubKeypair) × (e.0 ≡ id_for_account a)) map

account_value-IsPlain : (a : BabyJubKeypair) → IsPlain (account_value a)
unfolding account_value IsPlain get_field arrays_equal find_constructor
account_value-IsPlain a = (
  refl,
  refl,
  (tt, ((1, refl, take_all _ a.prv (omega arith)), (tt, ((tt, (tt, tt)), (tt, tt))))),
)

pub account_items-Plain : (accounts : List BabyJubKeypair) → ItemsPlain (account_items accounts)
unfolding account_items IsPlain
account_items-Plain [] = tt
account_items-Plain (a ∷ rest) = (account_value-IsPlain a, account_items-Plain rest)

revo_key_value-IsPlain : (rk : RevoKey) → IsPlain (revo_key_value rk)
unfolding revo_key_value IsPlain get_field arrays_equal
revo_key_value-IsPlain rk = (refl, refl, (tt, (tt, (tt, tt))))

-- A key that starts with a digit is not a tag.
StartsWithDigit : Text → Type 0
StartsWithDigit [] = ⊥
StartsWithDigit (c ∷ s) = IsDigit c

decimal-StartsWithDigit : (n : ℕ) (s : Text) → StartsWithDigit (decimal n ++ s)
unfolding StartsWithDigit
decimal-StartsWithDigit n s = go (decimal n) (decimal-All n) (decimal_nonempty n)
  where
    go : (t : Text) → All IsDigit t → length t ≢ 0 → StartsWithDigit (t ++ s)
    go [] h ne = absurd (ne refl)
    go (c ∷ t) h ne = h.0

arrays_equal-tag : (k s : Text) → StartsWithDigit k → arrays_equal k (95 ∷ s) ≡ false
unfolding StartsWithDigit arrays_equal
arrays_equal-tag [] s h = absurd h
arrays_equal-tag (c ∷ k) s h = ground arith

id_for_account-StartsWithDigit : (a : BabyJubKeypair) → StartsWithDigit (id_for_account a)
unfolding id_for_account
id_for_account-StartsWithDigit a = decimal-StartsWithDigit a.pub_key.0 (58 ∷ decimal a.pub_key.1)

pub poll_fields-no_tag : (s : Text) (m : PollKeys) → get_field (95 ∷ s) (poll_fields m) ≡ none
unfolding get_field poll_fields
poll_fields-no_tag s [] = refl
poll_fields-no_tag s ((p, rk) ∷ m) =
    let digit : StartsWithDigit (decimal p) =
      subst StartsWithDigit (append-nil (decimal p)) (decimal-StartsWithDigit p []) in
    rw (arrays_equal-tag (decimal p) s digit, get_field) (poll_fields-no_tag s m)

pub poll_fields-Plain : (m : PollKeys) → FieldsPlain (poll_fields m)
unfolding poll_fields IsPlain
poll_fields-Plain [] = tt
poll_fields-Plain ((p, rk) ∷ m) = (revo_key_value-IsPlain rk, poll_fields-Plain m)

pub map_fields-no_tag :
    (s : Text) (map : RevoKeysMap) → ByAccounts map → get_field (95 ∷ s) (map_fields map) ≡ none
unfolding get_field map_fields
map_fields-no_tag s [] h = refl
map_fields-no_tag s ((k, m) ∷ map) ((a, e), h) =
    rw (arrays_equal-tag k s (rw e (id_for_account-StartsWithDigit a)), get_field)
      (map_fields-no_tag s map h)

pub map_fields-Plain : (map : RevoKeysMap) → FieldsPlain (map_fields map)
unfolding map_fields IsPlain
map_fields-Plain [] = tt
map_fields-Plain ((k, m) ∷ map) =
    ((poll_fields-no_tag _ m, poll_fields-no_tag _ m, poll_fields-Plain m), map_fields-Plain map)

abbrev pub Encodes : Runtime → Type 0
Encodes js = (bs : Bytes) → js.atob (js.btoa bs) ≡ some bs

module _ (w : WebCrypto) (js : Runtime) (plain : Json Value) (laws : CryptoLaws w)
    (encodes : Encodes js) where
  decrypt_tagged :
      (salt iv : Bytes) (pass : Text) (v : Value)
      → IsPlain v
      → plain.parse (plain.stringify (replaced js v)) ≡ some (replaced js v)
      → decrypt_from_blob w
          (tagged_json js plain)
          pass
          (encrypt_to_blob w (tagged_json js plain) salt iv pass v)
        ≡ some v
  unfolding tagged_json
  decrypt_tagged salt iv pass v h parses =
      decrypt_from_blob-encrypt_to_blob_at w (tagged_json js plain) laws salt iv pass v
        (rw parses (revived-replaced js v encodes h))

  -- The keyring's accounts and the map of revoting keys are read back from their blobs with the
  -- passphrase that they were written under, whatever the random bytes: private keys as byte arrays
  -- and secrets as bigints. WebCrypto and base 64 can be undone, the map is kept by the ids of
  -- accounts, and the text of JSON without bigints and typed arrays is read back.
  pub decrypt_from_blob-stored :
      (salt iv : Bytes) (pass : Text) (accounts : List BabyJubKeypair) (map : RevoKeysMap)
      → ByAccounts map
      → ((v : Value)
          → (v ≡ array (account_items accounts)) ⊎ (v ≡ object (map_fields map))
          → plain.parse (plain.stringify (replaced js v)) ≡ some (replaced js v))
      → (decrypt_from_blob w
            (tagged_json js plain)
            pass
            (encrypt_to_blob w (tagged_json js plain) salt iv pass (array (account_items accounts)))
          ≡ some (array (account_items accounts)))
        × (decrypt_from_blob w
              (tagged_json js plain)
              pass
              (encrypt_to_blob w (tagged_json js plain) salt iv pass (object (map_fields map)))
            ≡ some (object (map_fields map)))
  unfolding IsPlain
  decrypt_from_blob-stored salt iv pass accounts map h parses = (
    decrypt_tagged salt iv pass (array (account_items accounts)) (account_items-Plain accounts)
        (parses _ (inl refl)),
    decrypt_tagged salt iv pass (object (map_fields map))
        (map_fields-no_tag _ map h, map_fields-no_tag _ map h, map_fields-Plain map)
        (parses _ (inr refl)),
  )
