-- ===== src/PollList.antt =====
-- The filters of the list of polls and the query for a page (frontend/src/pages/PollListPage.tsx), for
-- an open keyring with an active account; `keyToLeafHex` (frontend/src/keyring.tsx). The pages
-- themselves are Pager.Polls.
pub mod Service
pub mod Pages
pub mod Words
pub mod Asked
pub mod Shown
pub mod Lines
mod Tests
use mootvote.Base.{ℕ, ◌-◌, List, [], ◌∷◌, ◌++◌, Option, none, some, Bool, ◌&&◌, leb, if◌then◌else◌}
use mootvote.Base.Int.{pos}
use mootvote.Blob.{Text}
use mootvote.Bytes.{bytes_to_hex, to_bytes_be32_buf, pad_start}
use mootvote.Keyring.{to_lower}
use mootvote.Pager.{Page, Click, query}
use mootvote.Pager.Polls.{PollList, click, reset}
use mootvote.PollPage.Tabs.{hex_string}
use mootvote.Tagged.{codes}

pub data Role : Type 0 where
  all_roles voter tallier : Role

pub data Status : Type 0 where
  all_statuses active upcoming ended : Status

abbrev pub polls_page_limit : ℕ
polls_page_limit = 20

-- The parameters of the query; `none` is one that is not set.
pub record PollQuery : Type 0 where
  pub limit : ℕ
  pub role : Option Text
  pub tallier : Option Text
  pub voter_leaf : Option Text
  pub status : Option Text
  pub before : Option ℕ

unfoldable pub key_to_leaf_hex : (List ℕ → ℕ) → ℕ × ℕ → Text
key_to_leaf_hex poseidon key =
    bytes_to_hex (to_bytes_be32_buf (pos (poseidon (key.0 ∷ key.1 ∷ []))))

unfoldable pub tallier_text : ℕ × ℕ → Text
tallier_text key = to_lower (pad_start 64 (hex_string key.0) ++ pad_start 64 (hex_string key.1))

-- `status[0].toUpperCase() + status.slice(1)`
unfoldable pub capitalised : Text → Text
capitalised [] = []
capitalised (c ∷ s) = (if leb 97 c && leb c 122 then c - 32 else c) ∷ s

unfoldable pub role_param : Role → Option Text
role_param all_roles = none
role_param voter = some (codes "voter")
role_param tallier = some (codes "tallier")

unfoldable pub status_param : Status → Option Text
status_param all_statuses = none
status_param active = some (capitalised (codes "active"))
status_param upcoming = some (capitalised (codes "upcoming"))
status_param ended = some (capitalised (codes "ended"))

unfoldable pub tallier_param : Role → ℕ × ℕ → Option Text
tallier_param voter key = none
tallier_param _ key = some (tallier_text key)

unfoldable pub leaf_param : (List ℕ → ℕ) → Role → ℕ × ℕ → Option Text
leaf_param poseidon tallier key = none
leaf_param poseidon _ key = some (key_to_leaf_hex poseidon key)

unfoldable pub poll_query : (List ℕ → ℕ) → ℕ × ℕ → Role → Status → Option ℕ → PollQuery
poll_query poseidon key role status before = record {
  limit = polls_page_limit;
  role = role_param role;
  tallier = tallier_param role key;
  voter_leaf = leaf_param poseidon role key;
  status = status_param status;
  before = query before;
}

-- The page with its filters.
pub record Filtered : Type 0 where
  pub role : Role
  pub status : Status
  pub list : PollList

pub data FilterPress : Type 0 where
  set_role : Role → FilterPress
  set_status : Status → FilterPress
  turn_page : Click → FilterPress

-- `server` answers a request for the current filters; `none` where it fails.
module _ (server : Role → Status → Option ℕ → Option Page) where
  unfoldable pub first_view : Filtered
  first_view = record {
    role = all_roles;
    status = all_statuses;
    list = reset (server all_roles all_statuses) none;
  }

  -- The buttons of `PollFilters`, which also go back to the first page, and those of the pages.
  unfoldable pub press_filter : FilterPress → Filtered → Filtered
  press_filter (set_role r) s = record {
    role = r;
    status = s.status;
    list = reset (server r s.status) s.list.page;
  }
  press_filter (set_status t) s = record {
    role = s.role;
    status = t;
    list = reset (server s.role t) s.list.page;
  }
  press_filter (turn_page c) s = record {
    role = s.role;
    status = s.status;
    list = click (server s.role s.status) c s.list;
  }

  unfoldable pub press_filters : List FilterPress → Filtered → Filtered
  press_filters [] s = s
  press_filters (p ∷ ps) s = press_filters ps (press_filter p s)
