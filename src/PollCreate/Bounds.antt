-- ===== src/PollCreate/Bounds.antt =====
-- The polls that frontend/src/pages/PollCreatePage.tsx creates.
use mootvote.Base.{ℕ, ◌-◌, ◌^◌, ◌≤◌, ◌<◌, ◌≡◌, arith, List, [], ◌∷◌, Option, some, true, length}
use mootvote.Blob.{Text}
use mootvote.Bytes.{bytes, hex_to_bytes32}
use mootvote.Keyring.{Keyring}
use mootvote.Sdk.{Key}
use mootvote.Sdk.Polls.{CreatePollParams}
use mootvote.Tally.Defs.{max_choices}
use mootvote.VoteData.{Point}
use mootvote.PollCreate.{FormValues}
use mootvote.PollCreate.Form.{max_poll_duration, base_valid}
use mootvote.PollCreate.Handler.{cleaned_choices}

pub length-cleaned_choices : (cs : List Text) → length (cleaned_choices cs) ≤ length cs
unfolding cleaned_choices
length-cleaned_choices [] = omega arith
length-cleaned_choices (c ∷ cs) = ground (arith, length-cleaned_choices cs)

-- Both coordinates of a key have the size that the program declares.
abbrev pub IsKey : Point → Type 0
IsKey k = (length k.x ≡ 32) × (length k.y ≡ 32)

-- What the program, the tally circuit and the clients expect of a poll from `a` to `b`.
pub record IsPoll (d : FormValues) (a b : ℕ) (p : CreatePollParams) : Type 0 where
  pub some_choice : 0 < p.n_choices
  pub few_choices : p.n_choices ≤ max_choices
  pub start_time : p.voting_start_time ≡ a
  pub end_time : p.voting_end_time ≡ b
  pub in_order : a < b
  pub not_long : b - a ≤ max_poll_duration
  pub root_size : length p.census_root ≡ 32
  pub key_size : IsKey p.tallier_key
  pub id_range : (1 ≤ p.id) × (p.id < 2 ^ 32)
  pub root_of_form : hex_to_bytes32 d.census_root_hex ≡ bytes p.census_root
  pub voters_of_form : d.census_count ≡ some p.n_voters
  pub own_fee : p.fee_destination ≡ p.payer

pub base_valid-choices : (d : FormValues) → base_valid d ≡ true → length d.choices ≤ max_choices
unfolding base_valid
base_valid-choices d h = ground arith
