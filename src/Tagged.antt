-- ===== src/Tagged.antt =====
-- JSON with bigints and typed arrays: `jsonReplacer` and `jsonReviver` of helpers/utils.ts, under the
-- walks of `JSON.stringify` and `JSON.parse`. A number is a natural number, which the program's are;
-- no value is undefined, a function or a `DataView`. The texts that the language converts arrays and
-- objects to, and base 64, are a parameter.
pub mod Numbers
pub mod RoundTrip
pub mod Stored
pub mod Exports
mod Tests
use Prim.Native.Char.{code}
use Prim.Native.String.{String}
use mootvote.Base.{
  ℕ, zero, suc, ◌+◌, ◌-◌, ◌*◌, ◌/◌, List, [], ◌∷◌, Option, none, some, Bool, true, false, ◌||◌,
  ◌&&◌, ◌==◌, leb, ltb, if◌then◌else◌, length, take,
}
use mootvote.Base.Int.{ℤ, pos, negsuc}
use mootvote.Blob.{Bytes, Text}
use mootvote.Tagged.Numbers.{bigint_to_string, string_to_bigint}
use mootvote.Keyring.{arrays_equal, trim_start, trim_end}

-- The code points of a text.
abbrev pub codes : String → Text
codes String.[] = []
codes (String.◌∷◌ c s) = code c ∷ codes s

-- A typed array has its constructor's name and its bytes. An object's fields are in order.
mutual
  pub data Value : Type 0 where
    null : Value
    bool : Bool → Value
    num : ℕ → Value
    text : Text → Value
    bigint : ℤ → Value
    view : Text → Bytes → Value
    array : Items → Value
    object : Fields → Value

  pub data Items : Type 0 where
    nil : Items
    cons : Value → Items → Items

  pub data Fields : Type 0 where
    end : Fields
    field : Text → Value → Fields → Fields

pub record Runtime : Type 0 where
  pub btoa : Bytes → Text
  pub atob : Text → Option Bytes
  pub to_string : Value → Text

abbrev pub bigint_tag : Text
bigint_tag = codes "__bigint__"

abbrev pub ta_tag : Text
ta_tag = codes "__typedarray__"

abbrev pub data_key : Text
data_key = codes "data"

-- `obj[key]`, of an object's own fields.
unfoldable pub get_field : Text → Fields → Option Value
get_field k end = none
get_field k (field j v fs) = if arrays_equal j k then some v else get_field k fs

-- `constructors`, with `BYTES_PER_ELEMENT` of each.
abbrev pub constructors : List (Text × ℕ)
constructors =
    (codes "Uint8Array", 1)
    ∷ (codes "Int8Array", 1)
    ∷ (codes "Uint16Array", 2)
    ∷ (codes "Int16Array", 2)
    ∷ (codes "Uint32Array", 4)
    ∷ (codes "Int32Array", 4)
    ∷ (codes "Float32Array", 4)
    ∷ (codes "Float64Array", 8)
    ∷ (codes "BigInt64Array", 8)
    ∷ (codes "BigUint64Array", 8)
    ∷ []

unfoldable pub find_constructor : Text → List (Text × ℕ) → Option ℕ
find_constructor k [] = none
find_constructor k ((j, size) ∷ rest) =
    if arrays_equal j k then some size else find_constructor k rest

module _ (js : Runtime) where
  -- `BigInt(v)`; `none`: it throws.
  unfoldable pub to_bigint : Value → Option ℤ
  to_bigint null = none
  to_bigint (bool true) = some (pos 1)
  to_bigint (bool false) = some (pos 0)
  to_bigint (num n) = some (pos n)
  to_bigint (text s) = string_to_bigint s
  to_bigint (bigint n) = some n
  to_bigint v = string_to_bigint (js.to_string v)

  -- The name that `constructors[v]` looks up.
  unfoldable pub property_key : Value → Text
  property_key (text s) = s
  property_key v = js.to_string v

  unfoldable pub json_replacer : Value → Value
  json_replacer (bigint n) = object (field bigint_tag (text (bigint_to_string n)) end)
  json_replacer (view name bs) =
      object (field ta_tag (text name) (field data_key (text (js.btoa bs)) end))
  json_replacer v = v

  -- `new ctor(bytes.buffer, bytes.byteOffset, bytes.byteLength / ctor.BYTES_PER_ELEMENT)`, whose
  -- length is rounded down.
  abbrev pub view_over : Text → ℕ → Bytes → Value
  view_over name size bs = view name (take (length bs / size * size) bs)

  -- With both tags read; `none`: `atob` throws.
  unfoldable pub revive_view : Option Value → Option Value → Fields → Option Value
  revive_view (some name) (some (text b64)) fs =
      elim (find_constructor (property_key name) constructors) [
        | none ↦ some (object fs)
        | some size ↦ elim (js.atob b64) [
          | none ↦ none
          | some bs ↦ some (view_over (property_key name) size bs)
        ]
      ]
  revive_view name v fs = some (object fs)

  unfoldable pub revive_object : Fields → Option Value
  revive_object fs = elim (get_field bigint_tag fs) [
    | some v ↦ elim (to_bigint v) [ none ↦ none | some n ↦ some (bigint n) ]
    | none ↦ revive_view (get_field ta_tag fs) (get_field data_key fs) fs
  ]

  unfoldable pub json_reviver : Value → Option Value
  json_reviver (object fs) = revive_object fs
  json_reviver v = some v

-- What `JSON.stringify` writes: the replacer is asked first and its answer is then walked. The
-- objects that the replacer makes hold texts, which it leaves as they are.
unfoldable mutual
  pub replaced : Runtime → Value → Value
  replaced js (array xs) = array (replaced_items js xs)
  replaced js (object fs) = object (replaced_fields js fs)
  replaced js v = json_replacer js v

  pub replaced_items : Runtime → Items → Items
  replaced_items js nil = nil
  replaced_items js (cons v xs) = cons (replaced js v) (replaced_items js xs)

  pub replaced_fields : Runtime → Fields → Fields
  replaced_fields js end = end
  replaced_fields js (field k v fs) = field k (replaced js v) (replaced_fields js fs)

abbrev then_revive : Runtime → Option Fields → Option Value
then_revive js none = none
then_revive js (some fs) = json_reviver js (object fs)

abbrev then_array : Option Items → Option Value
then_array none = none
then_array (some xs) = some (array xs)

abbrev then_cons : Option Value → Option Items → Option Items
then_cons (some v) (some xs) = some (cons v xs)
then_cons (some v) none = none
then_cons none xs = none

abbrev then_field : Text → Option Value → Option Fields → Option Fields
then_field k (some v) (some fs) = some (field k v fs)
then_field k (some v) none = none
then_field k none fs = none

-- What `JSON.parse` reads: the reviver is asked for the parts first, in order.
unfoldable mutual
  pub revived : Runtime → Value → Option Value
  revived js (array xs) = then_array (revived_items js xs)
  revived js (object fs) = then_revive js (revived_fields js fs)
  revived js v = json_reviver js v

  pub revived_items : Runtime → Items → Option Items
  revived_items js nil = some nil
  revived_items js (cons v xs) = then_cons (revived js v) (revived_items js xs)

  pub revived_fields : Runtime → Fields → Option Fields
  revived_fields js end = some end
  revived_fields js (field k v fs) = then_field k (revived js v) (revived_fields js fs)
