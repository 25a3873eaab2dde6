-- ===== src/Blob.antt =====
-- Values under a passphrase (frontend/src/blob.ts). WebCrypto's key derivation and cipher, base 64 and
-- JSON with the replacer and the reviver of helpers/utils.ts are parameters; the random bytes are
-- arguments.
pub mod Tests
use mootvote.Base.{ℕ, ◌≡◌, refl, List, Option, none, some}

abbrev pub Bytes : Type 0
Bytes = List ℕ

abbrev pub Text : Type 0
Text = List ℕ

-- `decrypt` and `atob` give `none` where they throw.
pub record WebCrypto : Type 1 where
  pub Key : Type 0
  pub pbkdf2 : Text → Bytes → Key
  pub encrypt : Bytes → Key → Bytes → Bytes
  pub decrypt : Bytes → Key → Bytes → Option Bytes
  pub btoa : Bytes → Text
  pub atob : Text → Option Bytes

-- What a value is written as and read back from.
pub record Json (T : Type 0) : Type 0 where
  pub stringify : T → Bytes
  pub parse : Bytes → Option T

pub record EncryptedBlob : Type 0 where
  pub salt_b64 : Text
  pub iv_b64 : Text
  pub ct_b64 : Text

infixl 5 ◌>>=◌
abbrev pub ◌>>=◌ : {A B : Type 0} → Option A → (A → Option B) → Option B
none >>= f = none
some a >>= f = f a

-- What is relied on: the cipher is authenticated, and the encodings can be read back.
pub record CryptoLaws (w : WebCrypto) : Type 0 where
  pub decrypt-encrypt :
      (iv : Bytes) (key : w.Key) (pt : Bytes) → w.decrypt iv key (w.encrypt iv key pt) ≡ some pt
  pub atob-btoa : (bs : Bytes) → w.atob (w.btoa bs) ≡ some bs

abbrev pub Parses : {T : Type 0} → Json T → Type 0
Parses {T} j = (x : T) → j.parse (j.stringify x) ≡ some x

module _ (w : WebCrypto) {T : Type 0} (j : Json T) where
  unfoldable pub encrypt_to_blob : Bytes → Bytes → Text → T → EncryptedBlob
  encrypt_to_blob salt iv pass obj = record {
    salt_b64 = w.btoa salt;
    iv_b64 = w.btoa iv;
    ct_b64 = w.btoa (w.encrypt iv (w.pbkdf2 pass salt) (j.stringify obj));
  }

  -- `none`: it throws.
  unfoldable pub decrypt_from_blob : Text → EncryptedBlob → Option T
  decrypt_from_blob pass blob = do
    salt ← w.atob blob.salt_b64
    iv ← w.atob blob.iv_b64
    ct ← w.atob blob.ct_b64
    pt ← w.decrypt iv (w.pbkdf2 pass salt) ct
    j.parse pt

  -- For one value that is read back from its text.
  pub decrypt_from_blob-encrypt_to_blob_at :
      CryptoLaws w
      → (salt iv : Bytes) (pass : Text) (obj : T) → j.parse (j.stringify obj) ≡ some obj
      → decrypt_from_blob pass (encrypt_to_blob salt iv pass obj) ≡ some obj
  unfolding decrypt_from_blob encrypt_to_blob
  decrypt_from_blob-encrypt_to_blob_at laws salt iv pass obj parses = rw (laws.atob-btoa salt) (
      rw (laws.atob-btoa iv) (
        rw (laws.atob-btoa (w.encrypt iv (w.pbkdf2 pass salt) (j.stringify obj)))
          (rw (laws.decrypt-encrypt iv (w.pbkdf2 pass salt) (j.stringify obj)) parses)))

  -- A value is read back with the passphrase that it was written under, whatever the random bytes.
  pub decrypt_from_blob-encrypt_to_blob :
      CryptoLaws w
      → Parses j
      → (salt iv : Bytes) (pass : Text) (obj : T)
      → decrypt_from_blob pass (encrypt_to_blob salt iv pass obj) ≡ some obj
  decrypt_from_blob-encrypt_to_blob laws parses salt iv pass obj =
      decrypt_from_blob-encrypt_to_blob_at laws salt iv pass obj (parses obj)
