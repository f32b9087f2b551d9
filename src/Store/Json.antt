-- ===== src/Store/Json.antt =====
-- The JSON values of metadata, configurations and payloads, and the operator || of jsonb, which
-- postStore.Update applies. A number is its literal.
use mathlib.Core.Option as Option
use socialpublish.Prelude.{String, Bool, Option, none, some, str_eq, if◌then◌else◌}

mutual
  pub data Json : Type 0 where
    null : Json
    boolean : Bool → Json
    number : String → Json
    text : String → Json
    array : Items → Json
    object : Fields → Json

  pub data Items : Type 0 where
    nil : Items
    cons : Json → Items → Items

  pub data Fields : Type 0 where
    end : Fields
    field : String → Json → Fields → Fields

unfoldable pub append_items : Items → Items → Items
append_items nil ys = ys
append_items (cons x xs) ys = cons x (append_items xs ys)

-- Writes a key, in its place if it is there.
unfoldable pub set_field : String → Json → Fields → Fields
set_field k v end = field k v end
set_field k v (field j w fs) =
    let rest = set_field k v fs in if str_eq j k then field k v fs else field j w rest

unfoldable pub merge_fields : Fields → Fields → Fields
unfolding set_field
merge_fields fs end = fs
merge_fields fs (field k v gs) = merge_fields (set_field k v fs) gs

unfoldable pub as_items : Json → Items
as_items (array xs) = xs
as_items v = cons v nil

-- a || b: objects are merged, the right one first; anything else is joined as arrays.
unfoldable pub concat : Json → Json → Json
unfolding append_items merge_fields as_items
concat (object fs) (object gs) = object (merge_fields fs gs)
concat (object fs) b = array (append_items (cons (object fs) nil) (as_items b))
concat a b = array (append_items (as_items a) (as_items b))

-- A value read into a map[string]any: an object, or null for the nil map.
unfoldable pub as_map : Json → Option Json
as_map (object fs) = some (object fs)
as_map null = some null
as_map _ = none

-- The numbers of a value that is read into interface values: each one is read as a float64, which is
-- the parameter `read_number`, and an error where it has none.
unfoldable mutual
  pub read_numbers : (read_number : String → Option String) → Json → Option Json
  read_numbers read_number (number s) = Option.map number (read_number s)
  read_numbers read_number (array xs) = Option.map array (read_items read_number xs)
  read_numbers read_number (object fs) = Option.map object (read_fields read_number fs)
  read_numbers read_number v = some v

  pub read_items : (read_number : String → Option String) → Items → Option Items
  read_items read_number nil = some nil
  read_items read_number (cons x xs) = elim (read_numbers read_number x) [
    | none ↦ none
    | some y ↦ Option.map (cons y) (read_items read_number xs)
  ]

  pub read_fields : (read_number : String → Option String) → Fields → Option Fields
  read_fields read_number end = some end
  read_fields read_number (field k x fs) = elim (read_numbers read_number x) [
    | none ↦ none
    | some y ↦ Option.map (field k y) (read_fields read_number fs)
  ]

-- A column read into a map[string]any.
unfoldable pub scan_map : (read_number : String → Option String) → Json → Option Json
unfolding as_map
scan_map read_number j = elim (read_numbers read_number j) [ none ↦ none | some v ↦ as_map v ]
