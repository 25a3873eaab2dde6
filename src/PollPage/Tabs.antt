-- ===== src/PollPage/Tabs.antt =====
-- The tabs of frontend/src/pages/PollDetailPage.tsx. The page's state is an argument: the poll's tally
-- and tallier, the keyring and the answer of `is_voter`.
use mootvote.Base.{
  ℕ, zero, suc, ◌/◌, ◌%◌, ltb, ◌≡◌, arith, List, [], ◌∷◌, Option, none, some, Bool, true, false,
  ◌&&◌, ◌||◌, not, ◌==◌, if◌then◌else◌, get_elem?,
}
use mootvote.Blob.{Text}
use mootvote.Bytes.{hex_digit, pad_start}
use mootvote.Keyring.{BabyJubKeypair, arrays_equal, to_lower}
use mootvote.PollPage.Clock.{PollClock}

pub data Tab : Type 0 where
  overview vote tally results : Tab

-- `toString(16)`; more rounds than `n` are enough.
unfoldable pub hex_loop : ℕ → ℕ → Text → Text
hex_loop zero n out = out
hex_loop (suc rounds) n out = elim (ltb n 16) [
  | true ↦ hex_digit n ∷ out
  | false ↦ hex_loop rounds (n / 16) (hex_digit (n % 16) ∷ out)
]

unfoldable pub hex_string : ℕ → Text
hex_string n = hex_loop (suc n) n []

-- `replace(/^0x/, "")`
unfoldable pub drop_0x : Text → Text
drop_0x [] = []
drop_0x (c ∷ []) = c ∷ []
drop_0x (c ∷ d ∷ s) = if c == 48 && d == 120 then s else c ∷ d ∷ s

-- `isTallier`
unfoldable pub is_tallier : Option (Text × Text) → Bool → List BabyJubKeypair → ℕ → Bool
is_tallier none locked accounts active = false
is_tallier (some key) locked accounts active =
    if locked then false else elim (get_elem? accounts active) [
      | none ↦ false
      | some acc ↦
          arrays_equal (to_lower (pad_start 64 (hex_string acc.pub_key.0)))
            (to_lower (drop_0x key.0))
          && arrays_equal (to_lower (pad_start 64 (hex_string acc.pub_key.1)))
              (to_lower (drop_0x key.1))
    ]

-- The tab that the effect selects when a poll is loaded.
unfoldable pub default_tab : Bool → Bool → Bool → PollClock → Tab
default_tab has_tally is_voter tallier clock =
    if has_tally || is_voter && clock.is_over
    then results
    else if tallier
    then tally
    else if is_voter
    then vote
    else overview

-- Whether the button of a tab is disabled.
unfoldable pub tab_disabled : Bool → Bool → Bool → Bool → PollClock → Tab → Bool
tab_disabled locked has_tally is_voter tallier clock overview = false
tab_disabled locked has_tally is_voter tallier clock vote =
    locked || has_tally || not is_voter || not clock.is_active
tab_disabled locked has_tally is_voter tallier clock tally = locked || has_tally || not tallier
tab_disabled locked has_tally is_voter tallier clock results = not clock.is_over

-- A click on the button of a tab.
unfoldable pub click_tab : Bool → Bool → Bool → Bool → PollClock → Tab → Tab → Tab
click_tab locked has_tally is_voter tallier clock clicked shown =
    if tab_disabled locked has_tally is_voter tallier clock clicked then shown else clicked

-- Where a tallied poll is over and the keyring shows no tallier while it is locked, the tab that is
-- selected has a button that can be clicked, but for a voter who is not the tallier before the start,
-- or with a locked keyring before the end.
pub default_tab-tab_disabled :
    (locked has_tally is_voter tallier : Bool) (clock : PollClock)
    → (has_tally && not clock.is_over) ≡ false
    → (locked && tallier) ≡ false
    → tab_disabled locked has_tally is_voter tallier clock
        (default_tab has_tally is_voter tallier clock)
      ≡ (is_voter && not tallier && not clock.is_over && (locked || not clock.is_active))
unfolding default_tab tab_disabled
default_tab-tab_disabled locked has_tally is_voter tallier clock h k = ground arith
