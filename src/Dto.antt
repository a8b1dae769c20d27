-- ===== src/Dto.antt =====
-- infrastructure/dto: the items and the authenticated user.
pub mod Permissions
use boilerplate_go_be.Base.{
  ℕ, ℤ, pos, String, Bool, true, false, ◌&&◌, Option, List, [], ◌∷◌, str_eq, if◌then◌else◌,
}

-- dto/item/item.go.
pub record Item : Type 0 where
  pub id : ℤ
  pub name : String

-- `models.Item{}`.
abbrev pub zero_item : Item
zero_item = record { id = pos 0; name = "" }

-- dto/item/rest.go: what the item endpoints receive.
pub record CreateItemInput : Type 0 where
  pub body : Item

pub record IdPath : Type 0 where
  pub id : ℤ

pub record ListItemsInput : Type 0 where
  pub debug : String
  pub token : String
  pub limit : ℤ

pub record UpdateItemInput : Type 0 where
  pub id : ℤ
  pub body : Item

-- dto/userJWT.go. Of the registered claims, which golang-jwt declares, two are kept.
pub record RootPermission : Type 0 where
  pub action : List String

pub record Permission : Type 0 where
  pub item_management : RootPermission

pub record JwtData : Type 0 where
  pub user_id : String
  pub permission : Permission

pub record JwtUser : Type 0 where
  pub environment : String
  pub user_data : JwtData
  pub issuer : String
  pub expires_at : Option ℕ

unfoldable pub get_environment : JwtUser → String
get_environment u = u.environment

has_action_in : String → List String → Bool
has_action_in action [] = false
has_action_in action (a ∷ rest) = if str_eq a action then true else has_action_in action rest

unfoldable pub has_action : RootPermission → String → Bool
unfolding has_action_in
has_action p action = has_action_in action p.action

unfoldable pub can_create_item : RootPermission → Bool
can_create_item p = has_action p "create" && has_action p "read"

unfoldable pub can_read_item : RootPermission → Bool
can_read_item p = has_action p "read"

unfoldable pub can_update_item : RootPermission → Bool
can_update_item p = has_action p "update" && has_action p "read"

unfoldable pub can_delete_item : RootPermission → Bool
can_delete_item p = has_action p "delete" && has_action p "read"
