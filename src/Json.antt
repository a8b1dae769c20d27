-- ===== src/Json.antt =====
-- encoding/json as the program uses it: parsed values, and the decoding of an object into a Go struct.
-- A payload is kept as the value that its text parses to. As in encoding/json, keys match field names
-- without regard to case, unknown keys are skipped, `null` leaves a field alone, and a value of a wrong
-- type is an error that is returned after the other fields are filled.
pub mod Items
pub mod Codes
use boilerplate_go_be.Base.{
  ℤ, String, Bool, true, false, ◌||◌, List, [], ◌∷◌, fold_is, if◌then◌else◌,
}
use boilerplate_go_be.Dto.{Item, zero_item}

-- `frac` is a number that no Go int holds: with a fraction, an exponent or out of range.
mutual
  pub data Json : Type 0 where
    null : Json
    bool : Bool → Json
    num : ℤ → Json
    frac : String → Json
    str : String → Json
    arr : Elems → Json
    obj : Fields → Json

  pub data Elems : Type 0 where
    nil : Elems
    cons : Json → Elems → Elems

  pub data Fields : Type 0 where
    end : Fields
    field : String → Json → Fields → Fields

-- The bytes of a message or a body: JSON text, or text that does not parse.
pub data Payload : Type 0 where
  json : Json → Payload
  malformed : Payload

-- A decoded value and whether the decoder reports an error.
abbrev pub Decoded : Type 0 → Type 0
Decoded A = A × Bool

-- A value into an int field, and into a string field.
unfoldable pub decode_int : Json → ℤ → Decoded ℤ
decode_int (num z) old = (z, false)
decode_int null old = (old, false)
decode_int _ old = (old, true)

unfoldable pub decode_string : Json → String → Decoded String
decode_string (str s) old = (s, false)
decode_string null old = (old, false)
decode_string _ old = (old, true)

-- One entry of an object into an `Item`, whose field names are "id" and "name".
unfoldable pub item_field : String → Json → Decoded Item → Decoded Item
unfolding decode_int decode_string fold_is
item_field k v (it, bad) =
    if fold_is k "id"
    then (record it { id = (decode_int v it.id).0 }, bad || (decode_int v it.id).1)
    else if fold_is k "name"
    then (record it { name = (decode_string v it.name).0 }, bad || (decode_string v it.name).1)
    else (it, bad)

unfoldable pub item_fields : Fields → Decoded Item → Decoded Item
unfolding item_field
item_fields end d = d
item_fields (field k v rest) d = item_fields rest (item_field k v d)

-- A parsed value into an `Item` that holds `old`.
unfoldable pub decode_item_into : Json → Item → Decoded Item
unfolding item_fields
decode_item_into (obj fs) old = item_fields fs (old, false)
decode_item_into null old = (old, false)
decode_item_into _ old = (old, true)

-- `json.Unmarshal(data, &item)` at a fresh item.
unfoldable pub unmarshal_item : Payload → Decoded Item
unfolding decode_item_into
unmarshal_item (json j) = decode_item_into j zero_item
unmarshal_item malformed = (zero_item, true)

-- `json.Marshal` of an item.
unfoldable pub marshal_item : Item → Json
marshal_item it = obj (field "id" (num it.id) (field "name" (str it.name) end))

marshal_elems : List Item → Elems
unfolding marshal_item
marshal_elems [] = nil
marshal_elems (it ∷ rest) = cons (marshal_item it) (marshal_elems rest)

-- `json.Marshal` of a slice of items. The empty slices of the program are nil, which is written `null`.
unfoldable pub marshal_items : List Item → Json
unfolding marshal_elems
marshal_items [] = null
marshal_items (it ∷ rest) = arr (marshal_elems (it ∷ rest))

-- The elements of an array into a slice of items.
decode_elems : Elems → Decoded (List Item)
unfolding decode_item_into
decode_elems nil = ([], false)
decode_elems (cons j rest) =
    let (it, bad) = decode_item_into j zero_item in
    let (its, worse) = decode_elems rest in (it ∷ its, bad || worse)

-- A parsed value into a nil slice of items.
unfoldable pub decode_items : Json → Decoded (List Item)
unfolding decode_elems
decode_items (arr es) = decode_elems es
decode_items null = ([], false)
decode_items _ = ([], true)
