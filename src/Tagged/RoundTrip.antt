-- ===== src/Tagged/RoundTrip.antt =====
-- What is written by way of `jsonReplacer` is read back by way of `jsonReviver`.
use mootvote.Base.{
  ℕ, ◌*◌, ◌/◌, ◌≡◌, ◌⊎◌, refl, ap, arith, Option, none, some, length, take, inl, inr, Bool-cases,
  Option-cases,
}
use mootvote.Base.Int.{ℤ}
use mootvote.Blob.{Bytes, Text}
use mootvote.Keyring.{arrays_equal}
use mootvote.Tagged.{
  Value, Items, Fields, null, bool, num, text, bigint, view, array, object, nil, cons, end, field,
  Runtime, bigint_tag, ta_tag, get_field, constructors, find_constructor, json_replacer,
  json_reviver, revive_object, revive_view, replaced, revived, replaced_fields, replaced_items,
  revived_items, revived_fields, to_bigint, property_key,
}
use mootvote.Tagged.Numbers.{string_to_bigint-bigint_to_string}

-- The bytes fill whole elements of a type that `constructors` has.
abbrev pub IsView : Text → Bytes → Type 0
IsView name bs =
    (size : ℕ) × (find_constructor name constructors ≡ some size)
    × (take (length bs / size * size) bs ≡ bs)

-- Each typed array can be made again, and no object has a field that is named like a tag.
unfoldable mutual
  pub IsPlain : Value → Type 0
  IsPlain (view name bs) = IsView name bs
  IsPlain (array xs) = ItemsPlain xs
  IsPlain (object fs) =
      (get_field bigint_tag fs ≡ none) × (get_field ta_tag fs ≡ none) × FieldsPlain fs
  IsPlain v = Unit

  pub ItemsPlain : Items → Type 0
  ItemsPlain nil = Unit
  ItemsPlain (cons v xs) = IsPlain v × ItemsPlain xs

  pub FieldsPlain : Fields → Type 0
  FieldsPlain end = Unit
  FieldsPlain (field k v fs) = IsPlain v × FieldsPlain fs

module _ (js : Runtime) (atob-btoa : (bs : Bytes) → js.atob (js.btoa bs) ≡ some bs) where
  revived-bigint : (n : ℤ) → revived js (replaced js (bigint n)) ≡ some (bigint n)
  unfolding revived replaced json_replacer json_reviver revive_object get_field to_bigint
      arrays_equal
  revived-bigint n =
      ap
        (λ (o : Option ℤ). elim o as (λ _. Option Value) [ none ↦ none | some m ↦ some (bigint m) ])
        (string_to_bigint-bigint_to_string n)

  revived-view :
      (name : Text) (bs : Bytes)
      → IsView name bs
      → revived js (replaced js (view name bs)) ≡ some (view name bs)
  unfolding revived replaced json_replacer json_reviver revive_object get_field revive_view
      property_key arrays_equal
  revived-view name bs (size, known, whole) =
      rw (known, revived, revive_object, revive_view)
        (rw (atob-btoa bs) (ap (λ t. some (view name t)) whole))

-- Whether a field is there does not depend on what the replacer makes of it.
get_field-replaced :
    (js : Runtime) (k : Text) (fs : Fields)
    → get_field k fs ≡ none
    → get_field k (replaced_fields js fs) ≡ none
unfolding get_field replaced
get_field-replaced js k end h = refl
get_field-replaced js k (field j v fs) h = ground (arith, get_field-replaced js k fs)

revive_object-plain :
    (js : Runtime) (fs : Fields)
    → get_field bigint_tag fs ≡ none
    → get_field ta_tag fs ≡ none
    → revive_object js fs ≡ some (object fs)
unfolding revive_object revive_view
revive_object-plain js fs h k = rw (h, revive_object) (rw (k, revive_view) refl)

mutual
  unfolding revived replaced json_reviver json_replacer IsPlain

  revived-replaced_of :
      (js : Runtime) (atob-btoa : (bs : Bytes) → js.atob (js.btoa bs) ≡ some bs) (v : Value)
      → IsPlain v
      → revived js (replaced js v) ≡ some v
  revived-replaced_of js laws null h = refl
  revived-replaced_of js laws (bool b) h = refl
  revived-replaced_of js laws (num n) h = refl
  revived-replaced_of js laws (text s) h = refl
  revived-replaced_of js laws (bigint n) h = revived-bigint js laws n
  revived-replaced_of js laws (view name bs) h = revived-view js laws name bs h
  revived-replaced_of js laws (array xs) h = rw (revived-replaced_items js laws xs h) refl
  revived-replaced_of js laws (object fs) h =
      rw (revived-replaced_fields js laws fs h.2) (revive_object-plain js fs h.0 h.1)

  revived-replaced_items :
      (js : Runtime) (atob-btoa : (bs : Bytes) → js.atob (js.btoa bs) ≡ some bs) (xs : Items)
      → ItemsPlain xs
      → revived_items js (replaced_items js xs) ≡ some xs
  revived-replaced_items js laws nil h = refl
  revived-replaced_items js laws (cons v xs) h =
      rw (revived-replaced_of js laws v h.0, revived-replaced_items js laws xs h.1) refl

  revived-replaced_fields :
      (js : Runtime) (atob-btoa : (bs : Bytes) → js.atob (js.btoa bs) ≡ some bs) (fs : Fields)
      → FieldsPlain fs
      → revived_fields js (replaced_fields js fs) ≡ some fs
  revived-replaced_fields js laws end h = refl
  revived-replaced_fields js laws (field k v fs) h =
      rw (revived-replaced_of js laws v h.0, revived-replaced_fields js laws fs h.1) refl

-- A value with bigints and typed arrays at any depth is read back as it was, if each of its typed
-- arrays is of a type that `constructors` lists and fills whole elements, and no object in it has a
-- field named `__bigint__` or `__typedarray__`.
pub revived-replaced :
    (js : Runtime) (v : Value)
    → ((bs : Bytes) → js.atob (js.btoa bs) ≡ some bs)
    → IsPlain v
    → revived js (replaced js v) ≡ some v
revived-replaced js v laws h = revived-replaced_of js laws v h

-- A field that is there stays there under both walks.
get_field-replaced_some :
    (js : Runtime) (k : Text) (fs : Fields) {v : Value}
    → get_field k fs ≡ some v
    → (w : Value) × (get_field k (replaced_fields js fs) ≡ some w)
unfolding get_field replaced
get_field-replaced_some js k end h = cc
get_field-replaced_some js k (field j w fs) h = elim (Bool-cases (arrays_equal j k)) [
  | inl e ↦ (replaced js w, rw (e, get_field) refl)
  | inr e ↦
      let rest = get_field-replaced_some js k fs (rw (e, get_field) at h) in
      (rest.0, rw (e, get_field) rest.1)
]

get_field-revived :
    (js : Runtime) (k : Text) (fs gs : Fields) {v : Value}
    → revived_fields js fs ≡ some gs
    → get_field k fs ≡ some v
    → (w : Value) × (get_field k gs ≡ some w)
unfolding get_field revived
get_field-revived js k end gs r h = cc
get_field-revived js k (field j u fs) gs r h = elim (Option-cases (revived js u)) [
  | inl e ↦ cc (rw e at r)
  | inr (u', e) ↦ elim (Option-cases (revived_fields js fs)) [
    | inl e' ↦ cc (rw (e, e') at r)
    | inr (gs', e') ↦
        let whole : gs ≡ field j u' gs' = cc (rw (e, e') at r) in
        rw whole (elim (Bool-cases (arrays_equal j k)) [
          | inl same ↦ (u', rw (same, get_field) refl)
          | inr other ↦
              let rest = get_field-revived js k fs gs' e' (rw (other, get_field) at h) in
              (rest.0, rw (other, get_field) rest.1)
        ])
  ]
]

revive_object-tagged :
    (js : Runtime) (gs : Fields) (w : Value)
    → get_field bigint_tag gs ≡ some w
    → (revive_object js gs ≡ none) ⊎ ((n : ℤ) × (revive_object js gs ≡ some (bigint n)))
unfolding revive_object
revive_object-tagged js gs w h = elim (Option-cases (to_bigint js w)) [
  | inl t ↦ inl (rw (h, revive_object) (rw t refl))
  | inr (n, t) ↦ inr (n, rw (h, revive_object) (rw t refl))
]

-- An object with a field named `__bigint__` is not read back, whatever the field holds: the reader
-- throws or gets a bigint.
pub revived-replaced_tagged :
    (js : Runtime) (fs : Fields) (v : Value)
    → get_field bigint_tag fs ≡ some v
    → (revived js (replaced js (object fs)) ≡ none)
      ⊎ ((n : ℤ) × (revived js (replaced js (object fs)) ≡ some (bigint n)))
unfolding revived replaced json_reviver
revived-replaced_tagged js fs v h =
    elim (Option-cases (revived_fields js (replaced_fields js fs))) [
      | inl e ↦ inl (rw e refl)
      | inr (gs, e) ↦
          let written = get_field-replaced_some js bigint_tag fs h in
          let kept = get_field-revived js bigint_tag (replaced_fields js fs) gs e written.1 in
          rw e (revive_object-tagged js gs kept.0 kept.1)
    ]
