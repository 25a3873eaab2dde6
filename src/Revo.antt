-- ===== src/Revo.antt =====
-- The revoting keys of frontend/src/keyring.tsx (`RevoKeysProvider`).
pub mod Map
mod Tests
use mootvote.Base.{ℕ, List, [], ◌∷◌, Option, none, some, Bool, true, false, ◌==◌, if◌then◌else◌}
use mootvote.Blob.{Bytes, Text, WebCrypto, Json, EncryptedBlob, encrypt_to_blob, decrypt_from_blob}
use mootvote.Keyring.{arrays_equal}

pub record RevoKey : Type 0 where
  pub sk : ℕ
  pub updated_at : ℕ
  pub title : Text

-- `Record<string, RevoKey>`, by the numbers that the poll ids spell.
abbrev pub PollKeys : Type 0
PollKeys = List (ℕ × RevoKey)

-- `RevoKeysMapType`, by account ids.
abbrev pub RevoKeysMap : Type 0
RevoKeysMap = List (Text × PollKeys)

unfoldable pub get_poll : ℕ → PollKeys → Option RevoKey
get_poll p [] = none
get_poll p ((q, rk) ∷ m) = if q == p then some rk else get_poll p m

-- `m[String(pollId)] = rk`
unfoldable pub put_poll : ℕ → RevoKey → PollKeys → PollKeys
put_poll p rk [] = (p, rk) ∷ []
put_poll p rk ((q, old) ∷ m) = if q == p then (p, rk) ∷ m else (q, old) ∷ put_poll p rk m

-- `delete m[String(pollId)]`
unfoldable pub delete_poll : ℕ → PollKeys → PollKeys
delete_poll p [] = []
delete_poll p ((q, rk) ∷ m) = let rest = delete_poll p m in if q == p then rest else (q, rk) ∷ rest

-- `map[accountId] || {}`
unfoldable pub get_account : Text → RevoKeysMap → PollKeys
get_account a [] = []
get_account a ((b, m) ∷ map) = if arrays_equal b a then m else get_account a map

-- `{ ...map, [accountId]: m }`
unfoldable pub put_account : Text → PollKeys → RevoKeysMap → RevoKeysMap
put_account a m [] = (a, m) ∷ []
put_account a m ((b, old) ∷ map) =
    if arrays_equal b a then (a, m) ∷ map else (b, old) ∷ put_account a m map

-- The provider's state, and what is written under `REVO_DB_KEY`.
pub record Revo : Type 0 where
  pub map : RevoKeysMap
  pub loaded : Bool
  pub db : Option EncryptedBlob

unfoldable pub get_for_poll : Revo → Text → ℕ → Option RevoKey
get_for_poll r account_id poll_id = get_poll poll_id (get_account account_id r.map)

-- `locked` and `pass` are the keyring's; `salt` and `iv` are random.
module _ (w : WebCrypto) (json : Json RevoKeysMap) (locked : Bool) (pass : Text) where
  unfoldable pub reload : Revo → Revo
  reload r = if locked then r else elim r.db [
    | none ↦ record r { map = []; loaded = true }
    | some blob ↦ elim (decrypt_from_blob w json pass blob) [
      | none ↦ record r { map = []; loaded = true }
      | some obj ↦ record r { map = obj; loaded = true }
    ]
  ]

  unfoldable pub persist : Bytes → Bytes → RevoKeysMap → Revo → Revo
  persist salt iv next r =
      if locked
      then r
      else record r { map = next; db = some (encrypt_to_blob w json salt iv pass next) }

  unfoldable pub set_for_poll : Bytes → Bytes → Text → ℕ → RevoKey → Revo → Revo
  set_for_poll salt iv account_id poll_id rk r =
      let m = put_poll poll_id rk (get_account account_id r.map) in
      persist salt iv (put_account account_id m r.map) r

  unfoldable pub remove_for_poll : Bytes → Bytes → Text → ℕ → Revo → Revo
  remove_for_poll salt iv account_id poll_id r =
      let m = delete_poll poll_id (get_account account_id r.map) in
      persist salt iv (put_account account_id m r.map) r
