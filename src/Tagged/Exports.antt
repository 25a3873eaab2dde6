-- ===== src/Tagged/Exports.antt =====
-- The files that the keyring exports (frontend/src/keyring.tsx). `plain` is JSON without bigints and
-- typed arrays, its texts indented by two; the click that saves a file is the browser's.
use mootvote.Base.{◌≡◌, ◌++◌, List, Option, none, some, take}
use mootvote.Blob.{Bytes, Text, Json}
use mootvote.Keyring.{BabyJubKeypair}
use mootvote.Revo.{RevoKeysMap, get_account}
use mootvote.Tagged.{codes, Value, array, object, Runtime, replaced}
use mootvote.Tagged.RoundTrip.{IsPlain, revived-replaced}
use mootvote.Tagged.Stored.{
  tagged_json, account_items, map_fields, poll_fields, ByAccounts, Encodes, account_items-Plain,
  map_fields-no_tag, map_fields-Plain, poll_fields-no_tag, poll_fields-Plain,
}

-- A file with its name.
pub record Download : Type 0 where
  pub name : Text
  pub contents : Bytes

module _ (js : Runtime) (plain : Json Value) where
  abbrev pub download : Text → Value → Download
  download name v = record { name = name; contents = (tagged_json js plain).stringify v }

  -- `exportJson` of the accounts.
  unfoldable pub export_accounts : List BabyJubKeypair → Download
  export_accounts accounts =
      download (codes "babyjub-keyring.json") (array (account_items accounts))

  -- `exportJson` of the revoting keys.
  unfoldable pub export_keys : RevoKeysMap → Download
  export_keys map = download (codes "revo-keys.json") (object (map_fields map))

  -- `filename ?? `revo-keys-${accountId.slice(0, 8)}.json``
  unfoldable pub file_name : Text → Option Text → Text
  file_name account_id (some name) = name
  file_name account_id none = codes "revo-keys-" ++ (take 8 account_id ++ codes ".json")

  unfoldable pub export_revo : Text → Option Text → RevoKeysMap → Download
  export_revo account_id filename map =
      download (file_name account_id filename) (object (poll_fields (get_account account_id map)))

  module _ (encodes : Encodes js) where
    read_back :
        (name : Text) (v : Value)
        → IsPlain v
        → plain.parse (plain.stringify (replaced js v)) ≡ some (replaced js v)
        → (tagged_json js plain).parse (download name v).contents ≡ some v
    unfolding tagged_json
    read_back name v h parses = rw parses (revived-replaced js v encodes h)

    -- An exported file holds the accounts, all revoting keys or those of one account: the reviver reads
    -- them back from it, where the text of JSON without bigints and typed arrays is read back.
    pub exports-read :
        (accounts : List BabyJubKeypair) (map : RevoKeysMap) (account_id : Text)
        (filename : Option Text)
        → ByAccounts map
        → ((v : Value) → plain.parse (plain.stringify (replaced js v)) ≡ some (replaced js v))
        → ((tagged_json js plain).parse (export_accounts accounts).contents
            ≡ some (array (account_items accounts)))
          × ((tagged_json js plain).parse (export_keys map).contents
              ≡ some (object (map_fields map)))
          × ((tagged_json js plain).parse (export_revo account_id filename map).contents
              ≡ some (object (poll_fields (get_account account_id map))))
    unfolding export_accounts export_keys export_revo IsPlain
    exports-read accounts map account_id filename h parses =
        let m = get_account account_id map in
        (
          read_back (codes "babyjub-keyring.json") (array (account_items accounts))
              (account_items-Plain accounts) (parses (array (account_items accounts))),
          read_back (codes "revo-keys.json") (object (map_fields map))
              (map_fields-no_tag _ map h, map_fields-no_tag _ map h, map_fields-Plain map)
              (parses (object (map_fields map))),
          read_back (file_name account_id filename) (object (poll_fields m))
              (poll_fields-no_tag _ m, poll_fields-no_tag _ m, poll_fields-Plain m)
              (parses (object (poll_fields m))),
        )
