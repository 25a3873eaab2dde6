-- ===== src/PollCreate/Handler.antt =====
-- `onSubmit` (frontend/src/pages/PollCreatePage.tsx).
use mootvote.Base.{
  ℕ, ◌^◌, List, [], ◌∷◌, Option, none, some, Bool, true, false, not, ◌&&◌, ◌||◌, if◌then◌else◌,
  length, get_elem?,
}
use mootvote.Base.Int.{pos}
use mootvote.Blob.{Text}
use mootvote.Bytes.{HexResult, bytes, throws, hex_to_bytes32, to_bytes_be32_buf}
use mootvote.Decimal.Value.{decimal_value}
use mootvote.Key.{random_scalar}
use mootvote.Keyring.{Keyring, trim_start, trim_end}
use mootvote.Sdk.{Key, Transaction, Chain, to_transaction}
use mootvote.Sdk.Polls.{CreatePollParams, create_poll}
use mootvote.VoteData.{Point}
use mootvote.PollCreate.{
  FormValues, Dates, CreateError, no_signer, upload_failed, bad_date, no_active_account,
  no_census_count, no_address, send_failed, bad_hex, CreateResult, made, thrown, ◌>>=◌, want,
  CreateStage, upload, tx_sent, poll_done, CreatePage, CreateWorld,
}
use mootvote.PollCreate.Form.{is_filled, local_input_to_unix_seconds}
use mootvote.PollCreate.Upload.{TurboData, turbo_batch_upload}

-- The page, whether files have been uploaded, and the transaction that has been sent.
pub record Submitted : Type 0 where
  pub page : CreatePage
  pub uploaded : Bool
  pub sent : Option Transaction

abbrev pub of_hex : HexResult → CreateResult (List ℕ)
of_hex (bytes bs) = made bs
of_hex (throws e) = thrown (bad_hex e)

-- `data.choices.map((c) => c.value.trim()).filter((c) => c.length > 0)`
unfoldable pub cleaned_choices : List Text → List Text
cleaned_choices [] = []
cleaned_choices (c ∷ cs) =
    let rest = cleaned_choices cs in
    let t = trim_end (trim_start c) in if is_filled t then t ∷ rest else rest

-- The tallier's key, that of the active account or the one typed in.
unfoldable pub tallier_key_of : Keyring → FormValues → CreateResult Point
tallier_key_of kr d = elim d.active_tallier [
  | true ↦ elim (get_elem? kr.accounts kr.active) [
    | none ↦ thrown no_active_account
    | some acc ↦ made (record {
      x = to_bytes_be32_buf (pos acc.pub_key.0);
      y = to_bytes_be32_buf (pos acc.pub_key.1);
    })
  ]
  | false ↦ do
    kx ← of_hex (hex_to_bytes32 d.tallier_x)
    ky ← of_hex (hex_to_bytes32 d.tallier_y)
    made (record { x = kx; y = ky })
]

-- `json` writes the description's title and choices as UTF-8.
module _ (dates : Dates) (json : Text × List Text → List ℕ) (chain : Chain) (kr : Keyring)
    (world : CreateWorld) where
  -- The two files: "application/json" and "application/octet-stream".
  unfoldable pub files_of : FormValues → List TurboData
  files_of d =
      record {
        bytes_of = json (trim_end (trim_start d.title), cleaned_choices d.choices);
        content_type =
            97 ∷ 112 ∷ 112 ∷ 108 ∷ 105 ∷ 99 ∷ 97 ∷ 116 ∷ 105 ∷ 111 ∷ 110 ∷ 47 ∷ 106 ∷ 115 ∷ 111
            ∷ 110 ∷ [];
      }
      ∷ record {
        bytes_of = d.census_bytes;
        content_type =
            97 ∷ 112 ∷ 112 ∷ 108 ∷ 105 ∷ 99 ∷ 97 ∷ 116 ∷ 105 ∷ 111 ∷ 110 ∷ 47 ∷ 111 ∷ 99 ∷ 116 ∷ 101
            ∷ 116 ∷ 45 ∷ 115 ∷ 116 ∷ 114 ∷ 101 ∷ 97 ∷ 109 ∷ [];
      }
      ∷ []

  -- `const [descUrl, censusUrl] = await turboBatchUpload(…)`
  unfoldable pub upload_files : FormValues → CreateResult (Text × Text)
  upload_files d = do
    urls ← turbo_batch_upload world (files_of d)
    elim urls [
      | [] ↦ thrown upload_failed
      | desc_url ∷ others ↦ elim others [
        | [] ↦ thrown upload_failed
        | census_url ∷ more ↦ made (desc_url, census_url)
      ]
    ]

  -- The arguments of `createPoll`.
  unfoldable pub poll_params : FormValues → Key → Text × Text → CreateResult CreatePollParams
  poll_params d payer urls = do
    start ← want bad_date (local_input_to_unix_seconds dates d.start_at)
    end ← want bad_date (local_input_to_unix_seconds dates d.end_at)
    tallier_key ← tallier_key_of kr d
    census_root ← of_hex (hex_to_bytes32 d.census_root_hex)
    n_voters ← want no_census_count d.census_count
    made (record {
      payer = payer;
      id = random_scalar world.id_bytes (2 ^ 32);
      n_choices = length (cleaned_choices d.choices);
      description_url = urls.0;
      census_url = urls.1;
      tallier_key = tallier_key;
      census_root = census_root;
      voting_start_time = start;
      voting_end_time = end;
      fee = decimal_value 0 d.fee_lamports;
      fee_destination = payer;
      n_voters = n_voters;
    })

  -- From `setStage("tx")` on.
  unfoldable pub send_poll : FormValues → Key → Text × Text → CreateResult Transaction
  send_poll d payer urls = do
    params ← poll_params d payer urls
    ix ← want no_address (create_poll chain params)
    recent_blockhash ← want send_failed world.blockhash
    let tx = to_transaction (ix ∷ []) recent_blockhash payer
    if world.send_transaction tx then made tx else thrown send_failed

  abbrev pub stopped : CreateStage → Bool → CreateError → Submitted
  stopped stage uploaded e = record {
    page = record { err_msg = some e; stage = some stage };
    uploaded = uploaded;
    sent = none;
  }

  unfoldable pub on_submit : FormValues → Submitted
  on_submit d = elim world.wallet [
    | none ↦ stopped upload false no_signer
    | some payer ↦
        if not world.can_sign then stopped upload false no_signer else elim (upload_files d) [
          | thrown e ↦ stopped upload false e
          | made urls ↦ elim (send_poll d payer urls) [
            | thrown e ↦ stopped tx_sent true e
            | made tx ↦ record {
              page = record { err_msg = none; stage = some poll_done };
              uploaded = true;
              sent = some tx;
            }
          ]
        ]
  ]

  -- Whether the button is.
  unfoldable pub create_disabled : Bool → FormValues → Bool → Bool
  create_disabled is_submitting d is_valid =
      is_submitting
      || not is_valid
      || elim world.wallet [ none ↦ true | some payer ↦ false ]
      || d.active_tallier
        && elim (get_elem? kr.accounts kr.active) [ none ↦ true | some acc ↦ false ]
