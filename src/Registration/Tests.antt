-- ===== src/Registration/Tests.antt =====
-- Runs of the pages: a form whose title and one of whose names are blank, and an invitation.
use mootvote.Base.{◌≡◌, refl, [], ◌∷◌, some, none, true}
use mootvote.Keyring.{trim_start, trim_end}
use mootvote.PollCreate.Form.{all_filled}
use mootvote.Registration.Create.{
  CensusValues, form_valid, without, press_member, press_members, add, remove, names_of, body_of,
  description_of, empty_form,
}
use mootvote.Registration.Join.{Preflight, new_page, load_preflight, answer, after_claim, joined}
use mootvote.Tagged.{codes}

abbrev blank : CensusValues
blank = record {
  title = codes " ";
  description = some (codes "  ");
  members = codes " Ann " ∷ codes " " ∷ [];
}

blank_valid : form_valid blank ≡ true
unfolding form_valid all_filled
blank_valid = refl

blank_sent : body_of blank ≡ record { title = []; description = none; members = codes "Ann" ∷ [] }
unfolding names_of description_of trim_start trim_end
blank_sent = refl

kept_one :
    press_members (remove 0 ∷ remove 0 ∷ remove 0 ∷ add ∷ []) empty_form.members ≡ [] ∷ [] ∷ []
unfolding press_members press_member without
kept_one = refl

abbrev invitation : Preflight
invitation = record { member_id = 4; name = codes "Ann"; census_title = codes "Town" }

loaded :
    load_preflight (some (answer (some invitation))) new_page
    ≡ record new_page { pf = some invitation }
unfolding load_preflight
loaded = refl

bound : (after_claim (some none) new_page).stage ≡ joined
unfolding after_claim
bound = refl
