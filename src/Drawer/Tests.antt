-- ===== src/Drawer/Tests.antt =====
-- A first visit to the panel: a passphrase that is too short, then one that is typed twice, and a new
-- account without a name.
use mathlib.Core.List.{Perm}
use mootvote.Base.{some, true, ◌≡◌, refl, List, [], ◌∷◌, none, false, map}
use mootvote.Blob.{Text}
use mootvote.Blob.Tests.{small_crypto, small_crypto_laws, json_of-Parses, list}
use mootvote.Decimal.{decimal, digits_loop}
use mootvote.Keyring.{Keyring, arrays_equal, unlock, add_new, persist}
use mootvote.Keyring.Tests.{account, json, derive, locked_keyring}
use mootvote.Drawer.{
  is_creating, Panel, Press, type_pass, type_confirm_pass, press_unlock, press_new, presses, press,
  press_locked, press_open, click_unlock, check_pass, name_or_default,
}
use mootvote.Drawer.Keys.{
  KeyEntry, revo_entries, sort_entries, insert_entry, compare_entries, entries_of, text_lt,
  string_of, IsOrdered, revo_entries-IsOrdered,
}
use mootvote.PollPage.Bars.{is_after}
use mootvote.Revo.{Revo, RevoKey, get_account}
use mootvote.Vote.Seal.{id_for_account}
use mootvote.Drawer.Presses.{IsSafe, presses-IsSafe}

abbrev a_key : RevoKey
a_key = record { sk = 1; updated_at = 2; title = [] }

abbrev first_panel : Panel
first_panel = record {
  keyring = record locked_keyring { pass = []; has_keyring = some false; db = none };
  new_name = [];
  import_name = [];
  import_text = [];
  confirm_pass = [];
  alert = none;
}

abbrev pass : Text
pass = 112 ∷ 97 ∷ 115 ∷ 115 ∷ []

abbrev visit : List Press
visit =
    type_pass (112 ∷ [])
    ∷ press_unlock [] []
    ∷ type_pass pass
    ∷ type_confirm_pass pass
    ∷ press_unlock [] []
    ∷ press_new [] [] (λ name. derive name (7 ∷ []))
    ∷ []

presses-IsSafe_example :
    IsSafe small_crypto json small_crypto_laws
      (json_of-Parses (list account))
      (presses small_crypto json visit first_panel)
presses-IsSafe_example =
    presses-IsSafe small_crypto json small_crypto_laws (json_of-Parses (list account)) visit
      first_panel refl refl refl

-- The account is named "acct-1".
visit_names :
    map (λ a. a.name) (presses small_crypto json visit first_panel).keyring.accounts
    ≡ (97 ∷ 99 ∷ 99 ∷ 116 ∷ 45 ∷ 49 ∷ []) ∷ []
unfolding presses press press_locked press_open click_unlock is_creating check_pass arrays_equal
    unlock add_new persist name_or_default decimal digits_loop
visit_names = refl

-- Keys of the polls 10 and 9: the text "10" is before "9".
abbrev two_keys : Revo
two_keys = record {
  map = (id_for_account (derive [] []), (9, a_key) ∷ (10, a_key) ∷ []) ∷ [];
  loaded = true;
  db = none;
}

abbrev one_open : Keyring
one_open = record locked_keyring { locked = false; accounts = derive [] [] ∷ []; active = 0 }

listed : revo_entries one_open two_keys ≡ some ((decimal 10, a_key) ∷ (decimal 9, a_key) ∷ [])
unfolding revo_entries sort_entries insert_entry compare_entries is_after entries_of text_lt
    string_of get_account arrays_equal id_for_account decimal digits_loop
listed = refl

revo_entries-IsOrdered_example :
    (es : List KeyEntry) × (revo_entries one_open two_keys ≡ some es)
    × Perm es
        (map (λ k. (decimal k.0, k.1)) (get_account (id_for_account (derive [] [])) two_keys.map))
    × IsOrdered es
revo_entries-IsOrdered_example = revo_entries-IsOrdered one_open two_keys (derive [] []) refl refl
