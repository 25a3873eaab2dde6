-- ===== src/PollCreate.antt =====
-- The form that creates a poll (frontend/src/pages/PollCreatePage.tsx), and the upload of its files
-- (frontend/src/arweave.ts).
pub mod Form
pub mod Upload
pub mod Pick
pub mod Handler
pub mod Bounds
pub mod Trim
pub mod Description
pub mod LocalInput
mod Tests
use mootvote.Base.{ℕ, List, Option, none, some, Bool}
use mootvote.Blob.{Text}
use mootvote.Bytes.{HexError}
use mootvote.Sdk.{Key, Transaction}

-- `FormValues`; `active_tallier` tells the mode "active" from "manual".
pub record FormValues : Type 0 where
  pub title : Text
  pub choices : List Text
  pub active_tallier : Bool
  pub tallier_x : Text
  pub tallier_y : Text
  pub start_at : Text
  pub end_at : Text
  pub fee_lamports : Text
  pub census_bytes : List ℕ
  pub census_count : Option ℕ
  pub census_root_hex : Text

-- What the page takes from the language: `Date.parse` in milliseconds and `Number`, `none` for NaN, and
-- the milliseconds of a local date, with its month from 0.
pub record Dates : Type 0 where
  pub date_parse : Text → Option ℕ
  pub number_of : Text → Option ℕ
  pub local_date : ℕ → ℕ → ℕ → ℕ → ℕ → ℕ

pub data CreateError : Type 0 where
  no_signer upload_refused upload_failed bad_date no_active_account no_census_count no_address :
      CreateError
  send_failed : CreateError
  bad_hex : HexError → CreateError

pub data CreateResult (A : Type 0) : Type 0 where
  made : A → CreateResult A
  thrown : CreateError → CreateResult A

infixl 5 ◌>>=◌
abbrev pub ◌>>=◌ : {A B : Type 0} → CreateResult A → (A → CreateResult B) → CreateResult B
made a >>= f = f a
thrown e >>= f = thrown e

abbrev pub want : {A : Type 0} → CreateError → Option A → CreateResult A
want e none = thrown e
want e (some a) = made a

pub data CreateStage : Type 0 where
  upload tx_sent poll_done : CreateStage

pub record CreatePage : Type 0 where
  pub err_msg : Option CreateError
  pub stage : Option CreateStage

-- What the outside answers to one submission.
pub record CreateWorld : Type 0 where
  pub wallet : Option Key
  pub can_sign : Bool
  pub devnet : Bool
  pub upload_item : List ℕ → Text → Option Text
  pub id_bytes : List ℕ
  pub blockhash : Option (List ℕ)
  pub send_transaction : Transaction → Bool
