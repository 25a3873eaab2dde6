-- ===== src/PollCreate/Description.antt =====
-- What the indexer makes of the description that the form uploads (indexer/src/description_manager.rs).
use mootvote.Base.{
  ℕ, ◌≤◌, ◌<◌, ◌≡◌, ◌↔◌, refl, arith, List, [], ◌∷◌, Option, none, some, true, false, not, ◌||◌,
  ◌==◌, ltb, if◌then◌else◌, length, All, inl, inr, Bool-cases,
}
use mootvote.Blob.{Text}
use mootvote.PollCreate.{FormValues}
use mootvote.PollCreate.Form.{is_filled, base_valid}
use mootvote.PollCreate.Handler.{cleaned_choices}
use mootvote.PollCreate.Bounds.{length-cleaned_choices, base_valid-choices}
use mootvote.PollCreate.Trim.{rust_trim, js_trim, NotNel, rust_trim-js_trim}

abbrev pub max_title_len : ℕ
max_title_len = 100

abbrev pub max_choice_len : ℕ
max_choice_len = 100

-- What becomes of a description; the first four are reasons of `mark_bad`.
pub data Described : Type 0 where
  bad_title bad_count other_count bad_choice : Described
  described : Text → List Text → Described

unfoldable pub add_choice : Text → Option (List Text) → Option (List Text)
add_choice t none = none
add_choice t (some ts) = some (t ∷ ts)

unfoldable pub describe : Text → Option (List Text) → Described
describe t none = bad_choice
describe t (some cs) = described t cs

unfoldable pub trim_choices : List Text → Option (List Text)
trim_choices [] = some []
trim_choices (c ∷ cs) =
    let rest = trim_choices cs in
    let t = rust_trim c in
    if not (is_filled t) || ltb max_choice_len (length t) then none else add_choice t rest

-- From the parsed description on; `n_choices` is that of the poll.
unfoldable pub check_description : ℕ → Text → List Text → Described
check_description n_choices title choices =
    let t = rust_trim title in
    if not (is_filled t) || ltb max_title_len (length t)
    then bad_title
    else if (length choices == 0) || ltb 11 (length choices)
    then bad_count
    else if not (length choices == n_choices)
    then other_count
    else describe t (trim_choices choices)

abbrev pub Fits : Text → Type 0
Fits t = length t ≤ max_choice_len

-- A choice as the form uploads it.
abbrev Clean : Text → Type 0
Clean c = (is_filled c ≡ true) × (rust_trim c ≡ c)

cleaned_choices-Clean :
    (cs : List Text) → All (All NotNel) (cleaned_choices cs) → All Clean (cleaned_choices cs)
unfolding cleaned_choices
cleaned_choices-Clean [] n = tt
cleaned_choices-Clean (c ∷ cs) n = elim (Bool-cases (is_filled (js_trim c))) [
  | inl e ↦ let m = rw e at n in rw e ((e, rust_trim-js_trim c m.0), cleaned_choices-Clean cs m.1)
  | inr e ↦ let m = rw e at n in rw e (cleaned_choices-Clean cs m)
]

add_choice_inv :
    (c : Text) (o : Option (List Text)) (cs : List Text)
    → add_choice c o ≡ some (c ∷ cs)
    → o ≡ some cs
unfolding add_choice
add_choice_inv c none cs e = cc
add_choice_inv c (some ts) cs e = cc

describe_inv :
    (t : Text) (o : Option (List Text)) (cs : List Text)
    → describe t o ≡ described t cs
    → o ≡ some cs
unfolding describe
describe_inv t none cs e = cc
describe_inv t (some ts) cs e = cc

trim_choices-Clean : (cs : List Text) → All Clean cs → trim_choices cs ≡ some cs ↔ All Fits cs
unfolding trim_choices add_choice
trim_choices-Clean [] h = ((λ e. tt), (λ f. refl))
trim_choices-Clean (c ∷ cs) h =
    let ih = trim_choices-Clean cs h.1 in
    elim (Bool-cases (ltb max_choice_len (length c))) [
      | inl e ↦
          rw (h.0.1, h.0.0, e) ((λ q. cc), (λ f. let le : length c ≤ 100 = f.0 in ground arith))
      | inr e ↦
          rw (h.0.1, h.0.0, e)
            (
              (λ q. (ground arith, ih.0 (add_choice_inv c (trim_choices cs) cs q))),
              (λ f. rw (ih.1 f.1) refl),
            )
    ]

-- The title and the choices that the form uploads are accepted by the indexer, as they are, exactly if
-- there is a choice left, the title is not blank, and neither it nor a choice is longer than 100
-- characters; a form that its schema accepts has few enough choices. No text holds U+0085.
pub check_description-IsAccepted :
    (d : FormValues)
    → base_valid d ≡ true
    → All NotNel (js_trim d.title)
    → All (All NotNel) (cleaned_choices d.choices)
    → let cleaned = cleaned_choices d.choices in
      check_description (length cleaned) (js_trim d.title) cleaned
        ≡ described (js_trim d.title) cleaned
      ↔ (0 < length (js_trim d.title))
        × (length (js_trim d.title) ≤ max_title_len)
        × (0 < length cleaned)
        × All Fits cleaned
unfolding check_description describe
check_description-IsAccepted d valid nt nc =
    let cleaned = cleaned_choices d.choices in
    let few : length cleaned ≤ 11 =
      omega (arith, length-cleaned_choices d.choices, base_valid-choices d valid) in
    let fits = trim_choices-Clean cleaned (cleaned_choices-Clean d.choices nc) in
    let t = js_trim d.title in
    rw (rust_trim-js_trim d.title nt) (
      (λ q. elim (Bool-cases (not (is_filled t) || ltb max_title_len (length t))) [
        | inl e ↦ let q' = rw e at q in cc
        | inr e ↦ elim (Bool-cases ((length cleaned == 0) || ltb 11 (length cleaned))) [
          | inl f ↦ let q' = rw (e, f) at q in cc
          | inr f ↦
              let same : (length cleaned == length cleaned) ≡ true = ground arith in
              let q' = rw (e, f, same) at q in
              let held = fits.0 (describe_inv t (trim_choices cleaned) cleaned q') in
              (ground arith, ground arith, ground arith, held)
        ]
      ]),
      (λ h.
          let e : (not (is_filled t) || ltb max_title_len (length t)) ≡ false = ground arith in
          let f : ((length cleaned == 0) || ltb 11 (length cleaned)) ≡ false = ground arith in
          let same : (length cleaned == length cleaned) ≡ true = ground arith in
          rw (e, f, same) (rw (fits.1 h.3) refl)),
    )
