-- ===== src/Wire/Values.antt =====
-- What the program uses of encoding/json: values as JSON trees, and trees read into Go values. The
-- texts of trees and of times are parameters. A map is written in the order of its entries, and a
-- slice without elements as [], also where it is nil and Go writes null, which reads alike.
use socialpublish.Prelude.{
  ℕ, ◌+◌, String, Bool, ◌&&◌, Option, none, some, List, [], ◌∷◌, map, Bytes, codes, bytes_eq, leb,
  ◌==◌, if◌then◌else◌, ℤ, ◌≡◌,
}
use socialpublish.GoText.Decimal.{parse_int}
use socialpublish.Store.Json.{
  Json, null, boolean, number, text, array, object, Items, nil, cons, Fields, end, field,
}
use socialpublish.Store.Types.{Time}

-- The texts of trees; `parse` fails on what is no JSON.
pub record JsonText : Type 0 where
  pub print : Json → Bytes
  pub parse : Bytes → Option Json

-- What is written of a tree is read as that tree.
abbrev pub IsRead : JsonText → Json → Type 0
IsRead json j = json.parse (json.print j) ≡ some j

-- Time.MarshalJSON and Time.UnmarshalJSON.
pub record TimeText : Type 0 where
  pub print : Time → String
  pub parse : String → Option Time

-- The folding of encoding/json by which a key finds its field: the letters of ASCII, the long s and
-- the sign of the kelvin.
fold_code : ℕ → ℕ
fold_code c =
    if leb b'A' c && leb c b'Z'
    then c + 32
    else if c == 383
    then b's'
    else if c == 8490
    then b'k'
    else c

unfoldable pub is_key : (key name : String) → Bool
unfolding fold_code bytes_eq
is_key key name = bytes_eq (map fold_code (codes key)) (map fold_code (codes name))

-- A field of a struct under its name, and how a value is read into it.
abbrev pub Setter : Type 0 → Type 0
Setter A = String × (Json → A → Option A)

-- A key without a field is skipped.
unfoldable pub set_named : {A : Type 0} → List (Setter A) → String → Json → A → Option A
set_named [] key v a = some a
set_named ((name, set) ∷ rest) key v a =
    let other = set_named rest key v a in if is_key key name then set v a else other

unfoldable pub read_fields : {A : Type 0} → List (Setter A) → Fields → A → Option A
unfolding set_named is_key
read_fields setters end a = some a
read_fields setters (field k v fs) a = elim (set_named setters k v a) [
  | none ↦ none
  | some b ↦ read_fields setters fs b
]

-- A value read into a struct; null leaves it alone.
unfoldable pub read_struct : {A : Type 0} → List (Setter A) → Json → A → Option A
unfolding read_fields
read_struct setters (object fs) a = read_fields setters fs a
read_struct setters null a = some a
read_struct setters _ a = none

-- null leaves alone what is no pointer, slice or map.
abbrev pub plain : {A B : Type 0} → (Json → Option B) → (B → A → A) → Json → A → Option A
plain read put null a = some a
plain read put v a = elim (read v) [ none ↦ none | some b ↦ some (put b a) ]

abbrev pub nullable : {A B : Type 0} → (Json → Option B) → (B → A → A) → Json → A → Option A
nullable read put v a = elim (read v) [ none ↦ none | some b ↦ some (put b a) ]

abbrev pub as_text : Json → Option String
as_text (text s) = some s
as_text _ = none

abbrev pub as_boolean : Json → Option Bool
as_boolean (boolean b) = some b
as_boolean _ = none

abbrev pub as_int : Json → Option ℤ
as_int (number s) = parse_int (codes s)
as_int _ = none

abbrev pub as_time : TimeText → Json → Option Time
as_time times (text s) = times.parse s
as_time times _ = none

abbrev pub as_pointer : {A : Type 0} → (Json → Option A) → Json → Option (Option A)
as_pointer read null = some none
as_pointer read v = elim (read v) [ none ↦ none | some a ↦ some (some a) ]

-- An element is read into a zero value.
unfoldable pub read_items : {A : Type 0} → (Json → A → Option A) → A → Items → Option (List A)
read_items read zero_value nil = some []
read_items read zero_value (cons v vs) = elim (read v zero_value) [
  | none ↦ none
  | some a ↦ elim (read_items read zero_value vs) [
    | none ↦ none
    | some as_read ↦ some (a ∷ as_read)
  ]
]

unfoldable pub as_slice : {A : Type 0} → (Json → A → Option A) → A → Json → Option (List A)
unfolding read_items
as_slice read zero_value (array vs) = read_items read zero_value vs
as_slice read zero_value null = some []
as_slice read zero_value _ = none

abbrev pub into_text : Json → String → Option String
into_text = plain as_text (λ s old. s)

-- map[string]string, without the pairs of equal keys that a text may hold.
unfoldable pub read_text_map : Fields → Option (List (String × String))
read_text_map end = some []
read_text_map (field k v fs) = elim (into_text v "") [
  | none ↦ none
  | some s ↦ elim (read_text_map fs) [ none ↦ none | some rest ↦ some ((k, s) ∷ rest) ]
]

unfoldable pub as_text_map : Json → Option (List (String × String))
unfolding read_text_map
as_text_map (object fs) = read_text_map fs
as_text_map null = some []
as_text_map _ = none

unfoldable pub items_of : {A : Type 0} → (A → Json) → List A → Items
items_of write [] = nil
items_of write (a ∷ rest) = cons (write a) (items_of write rest)

abbrev pub slice : {A : Type 0} → (A → Json) → List A → Json
slice write xs = array (items_of write xs)

abbrev pub pointer : {A : Type 0} → (A → Json) → Option A → Json
pointer write none = null
pointer write (some a) = write a

-- A struct or a map literal: names with values.
unfoldable pub fields_of : List (String × Json) → Fields
fields_of [] = end
fields_of ((k, v) ∷ rest) = field k v (fields_of rest)

abbrev pub struct : List (String × Json) → Json
struct members = object (fields_of members)

-- map[string]string
unfoldable pub text_fields : List (String × String) → Fields
text_fields [] = end
text_fields ((k, s) ∷ rest) = field k (text s) (text_fields rest)

-- A field with omitempty, in front of the others.
abbrev pub unless : Bool → String × Json → List (String × Json) → List (String × Json)
unless omitted member rest = if omitted then rest else member ∷ rest
