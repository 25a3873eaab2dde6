-- ===== src/Revo/Tests.antt =====
-- Runs on a small cipher.
use mootvote.Base.{ℕ, ◌≡◌, refl, List, [], ◌∷◌, none, some, true, false, ◌==◌, ◌&&◌, if◌then◌else◌}
use mootvote.Keyring.{arrays_equal}
use mootvote.Blob.{Json}
use mootvote.Blob.Tests.{
  small_crypto, small_crypto_laws, number, pair, list, via, json_of, json_of-Parses, Codec,
}
use mootvote.Revo.{RevoKey, RevoKeysMap, Revo, reload, set_for_poll, get_for_poll}
use mootvote.Revo.Map.{reload-set_for_poll}

abbrev flat : (ℕ × (ℕ × List ℕ)) → RevoKey
flat (sk, (time, title)) = record { sk = sk; updated_at = time; title = title }

abbrev fields : RevoKey → (ℕ × (ℕ × List ℕ))
fields k = (k.sk, (k.updated_at, k.title))

abbrev revo_key : Codec RevoKey
revo_key = via (pair number (pair number (list number))) flat fields (λ k. refl)

abbrev json : Json RevoKeysMap
json = json_of (list (pair (list number) (list (pair number revo_key))))

abbrev a_key : RevoKey
a_key = record { sk = 3; updated_at = 4; title = [] }

abbrev one_key : Revo
one_key = record { map = (5 ∷ [], (1, a_key) ∷ []) ∷ []; loaded = true; db = none }

abbrev later : Revo
later = record {
  map = [];
  loaded = false;
  db = (set_for_poll small_crypto json false (9 ∷ []) [] [] (5 ∷ []) 2 a_key one_key).db;
}

reload-set_for_poll_example :
    (get_for_poll (reload small_crypto json false (9 ∷ []) later) (5 ∷ []) 2 ≡ some a_key)
    × (get_for_poll (reload small_crypto json false (9 ∷ []) later) (5 ∷ []) 1 ≡ (
        if arrays_equal (5 ∷ []) (5 ∷ []) && (2 == 1)
        then some a_key
        else get_for_poll one_key (5 ∷ []) 1))
reload-set_for_poll_example =
    reload-set_for_poll small_crypto json (9 ∷ []) small_crypto_laws
      (json_of-Parses (list (pair (list number) (list (pair number revo_key))))) [] [] (5 ∷ [])
      (5 ∷ []) 2 1 a_key one_key later refl
