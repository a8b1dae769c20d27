-- ===== src/Json/Items.antt =====
-- The JSON of items, written and read.
use boilerplate_go_be.Base.{◌≡◌, refl, false, List, [], ◌∷◌, arith}
use boilerplate_go_be.Dto.{Item}
use boilerplate_go_be.Json.{
  json, unmarshal_item, marshal_item, marshal_elems, marshal_items, decode_elems, decode_items,
  decode_item_into,
}

pub decode-marshal_item : (it old : Item) → decode_item_into (marshal_item it) old ≡ (it, false)
unfolding decode_item_into marshal_item
decode-marshal_item it old = refl

pub unmarshal-marshal_item : (it : Item) → unmarshal_item (json (marshal_item it)) ≡ (it, false)
unfolding unmarshal_item marshal_item
unmarshal-marshal_item it = refl

decode-marshal_elems : (its : List Item) → decode_elems (marshal_elems its) ≡ (its, false)
unfolding decode_elems marshal_elems
decode-marshal_elems [] = refl
decode-marshal_elems (it ∷ its) = ground (arith, decode-marshal_elems its)

-- Writing a slice of items as JSON and decoding it gives back the items, and no error.
pub decode-marshal_items : (its : List Item) → decode_items (marshal_items its) ≡ (its, false)
unfolding decode_items marshal_items
decode-marshal_items [] = refl
decode-marshal_items (it ∷ its) = decode-marshal_elems (it ∷ its)
