-- ===== src/Tagged/Tests.antt =====
-- Runs of `jsonReplacer` and `jsonReviver`, with a small text form of values.
use mootvote.Base.{
  ℕ, zero, suc, ◌≡◌, refl, [], ◌∷◌, ◌++◌, inl, inr, Option, none, some, true, false, ◌⊎◌, length,
  take, drop,
}
use mootvote.Base.Int.{negsuc}
use mootvote.Blob.{Bytes, Json, ◌>>=◌, encrypt_to_blob, decrypt_from_blob}
use mootvote.Blob.Tests.{small_crypto, small_crypto_laws}
use mootvote.Keyring.{BabyJubKeypair, arrays_equal}
use mootvote.Revo.{RevoKeysMap}
use mootvote.Tagged.{
  codes, Value, Items, Fields, null, bool, num, text, bigint, view, array, object, nil, cons, end,
  field, Runtime, bigint_tag, replaced, revived, get_field, find_constructor, json_replacer,
}
use mootvote.Vote.Seal.{id_for_account}
use mootvote.Tagged.Numbers.{bigint_to_string}
use mootvote.Decimal.{decimal, digits_loop}
use mootvote.Tagged.RoundTrip.{IsPlain, revived-replaced}
use mootvote.Tagged.Stored.{
  tagged_json, account_items, map_fields, decrypt_from_blob-stored, ByAccounts, account_value,
  poll_fields, revo_key_value,
}

abbrev runtime : Runtime
runtime = record { btoa = λ bs. bs; atob = λ s. some s; to_string = λ v. codes "[object Object]" }

mutual
  write : Value → Bytes
  write null = 0 ∷ []
  write (bool true) = 1 ∷ []
  write (bool false) = 2 ∷ []
  write (num n) = 3 ∷ n ∷ []
  write (text s) = 4 ∷ length s ∷ s
  write (array xs) = 5 ∷ write_items xs
  write (object fs) = 6 ∷ write_fields fs
  write v = []

  write_items : Items → Bytes
  write_items nil = 0 ∷ []
  write_items (cons v xs) = 1 ∷ (write v ++ write_items xs)

  write_fields : Fields → Bytes
  write_fields end = 0 ∷ []
  write_fields (field k v fs) = 1 ∷ length k ∷ (k ++ (write v ++ write_fields fs))

mutual
  read : ℕ → Bytes → Option (Value × Bytes)
  read zero bs = none
  read (suc f) [] = none
  read (suc f) (t ∷ bs) = elim t [
    | zero ↦ some (null, bs)
    | suc t1 ↦ elim t1 [
      | zero ↦ some (bool true, bs)
      | suc t2 ↦ elim t2 [
        | zero ↦ some (bool false, bs)
        | suc t3 ↦ elim t3 [
          | zero ↦ elim bs [ [] ↦ none | n ∷ rest ↦ some (num n, rest) ]
          | suc t4 ↦ elim t4 [
            | zero ↦ elim bs [ [] ↦ none | n ∷ rest ↦ some (text (take n rest), drop n rest) ]
            | suc t5 ↦ elim t5 [
              | zero ↦ read_items f bs >>= λ p. some (array p.0, p.1)
              | suc t6 ↦ read_fields f bs >>= λ p. some (object p.0, p.1)
            ]
          ]
        ]
      ]
    ]
  ]

  read_items : ℕ → Bytes → Option (Items × Bytes)
  read_items zero bs = none
  read_items (suc f) [] = none
  read_items (suc f) (t ∷ bs) = elim t [
    | zero ↦ some (nil, bs)
    | suc more ↦ read f bs >>= λ p. read_items f p.1 >>= λ q. some (cons p.0 q.0, q.1)
  ]

  read_fields : ℕ → Bytes → Option (Fields × Bytes)
  read_fields zero bs = none
  read_fields (suc f) [] = none
  read_fields (suc f) (t ∷ bs) = elim t [
    | zero ↦ some (end, bs)
    | suc more ↦ elim bs [
      | [] ↦ none
      | n ∷ rest ↦ read f (drop n rest) >>= λ p.
          read_fields f p.1 >>= λ q. some (field (take n rest) p.0 q.0, q.1)
    ]
  ]

abbrev plain_json : Json Value
plain_json = record { stringify = write; parse = λ bs. read (length bs) bs >>= λ p. some p.0 }

abbrev nested : Value
nested = object (
    field (codes "a") (array (cons (bigint (negsuc 11)) (cons null nil)))
      (field (codes "b") (view (codes "Uint16Array") (1 ∷ 2 ∷ 3 ∷ 4 ∷ [])) end))

nested-IsPlain : IsPlain nested
unfolding IsPlain get_field arrays_equal find_constructor
nested-IsPlain = (refl, refl, ((tt, (tt, tt)), ((2, refl, refl), tt)))

revived-replaced_example : revived runtime (replaced runtime nested) ≡ some nested
revived-replaced_example = revived-replaced runtime nested (λ bs. refl) nested-IsPlain

abbrev tagged : Fields
tagged = field (codes "x") (num 1) (field bigint_tag (text (codes "12")) end)

tagged-bigint : get_field bigint_tag tagged ≡ some (text (codes "12"))
unfolding get_field arrays_equal
tagged-bigint = refl

abbrev alice : BabyJubKeypair
alice = record {
  name = codes "alice";
  prv = 7 ∷ 255 ∷ [];
  sk = 12;
  pub_key = (3, 40);
  created_at = 9;
}

abbrev keys : RevoKeysMap
keys = (codes "3:40", (10, record { sk = 5; updated_at = 8; title = codes "poll" }) ∷ []) ∷ []

alice-parses :
    plain_json.parse (plain_json.stringify (replaced runtime (array (account_items (alice ∷ [])))))
    ≡ some (replaced runtime (array (account_items (alice ∷ []))))
unfolding replaced account_items write read account_value json_replacer bigint_to_string decimal
    digits_loop
alice-parses = refl

keys-parse :
    plain_json.parse (plain_json.stringify (replaced runtime (object (map_fields keys))))
    ≡ some (replaced runtime (object (map_fields keys)))
unfolding replaced map_fields write read poll_fields decimal digits_loop revo_key_value
    json_replacer bigint_to_string
keys-parse = refl

parses :
    (v : Value)
    → (v ≡ array (account_items (alice ∷ []))) ⊎ (v ≡ object (map_fields keys))
    → plain_json.parse (plain_json.stringify (replaced runtime v)) ≡ some (replaced runtime v)
parses v (inl e) = rw e alice-parses
parses v (inr e) = rw e keys-parse

keys-ByAccounts : ByAccounts keys
unfolding id_for_account decimal digits_loop
keys-ByAccounts = ((alice, refl), tt)

decrypt_from_blob-stored_example :
    (decrypt_from_blob small_crypto (tagged_json runtime plain_json) (1 ∷ []) (
        encrypt_to_blob small_crypto
          (tagged_json runtime plain_json)
          []
          (6 ∷ [])
          (1 ∷ [])
          (array (account_items (alice ∷ []))))
      ≡ some (array (account_items (alice ∷ []))))
    × (decrypt_from_blob small_crypto (tagged_json runtime plain_json) (1 ∷ []) (
          encrypt_to_blob small_crypto
            (tagged_json runtime plain_json)
            []
            (6 ∷ [])
            (1 ∷ [])
            (object (map_fields keys)))
        ≡ some (object (map_fields keys)))
decrypt_from_blob-stored_example =
    decrypt_from_blob-stored small_crypto runtime plain_json small_crypto_laws (λ bs. refl) []
      (6 ∷ []) (1 ∷ []) (alice ∷ []) keys keys-ByAccounts parses
