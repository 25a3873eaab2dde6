-- ===== src/PollCreate/Upload.antt =====
-- `turboBatchUpload` (frontend/src/arweave.ts).
use mootvote.Base.{ℕ, ◌*◌, List, [], ◌∷◌, Bool, false, ◌&&◌, ◌||◌, ltb, if◌then◌else◌, length}
use mootvote.Blob.{Text}
use mootvote.PollCreate.{
  upload_refused, upload_failed, CreateResult, made, thrown, ◌>>=◌, want, CreateWorld,
}

-- `FREE_LIMIT`
abbrev pub free_limit : ℕ
free_limit = 100 * 1024

-- Bytes and their content type.
pub record TurboData : Type 0 where
  pub bytes_of : List ℕ
  pub content_type : Text

unfoldable pub any_big_files : List TurboData → Bool
any_big_files [] = false
any_big_files (x ∷ xs) = ltb free_limit (length x.bytes_of) || any_big_files xs

-- "https://arweave.net/"
abbrev pub arweave_url : Text → Text
arweave_url id =
    104 ∷ 116 ∷ 116 ∷ 112 ∷ 115 ∷ 58 ∷ 47 ∷ 47 ∷ 97 ∷ 114 ∷ 119 ∷ 101 ∷ 97 ∷ 118 ∷ 101 ∷ 46 ∷ 110
    ∷ 101 ∷ 116 ∷ 47 ∷ id

unfoldable pub upload_all : CreateWorld → List TurboData → CreateResult (List Text)
upload_all world [] = made []
upload_all world (item ∷ items) = do
  id ← want upload_failed (world.upload_item item.bytes_of item.content_type)
  urls ← upload_all world items
  made (arweave_url id ∷ urls)

unfoldable pub turbo_batch_upload : CreateWorld → List TurboData → CreateResult (List Text)
turbo_batch_upload world [] = made []
turbo_batch_upload world (item ∷ items) =
    if world.devnet && any_big_files (item ∷ items)
    then thrown upload_refused
    else upload_all world (item ∷ items)
