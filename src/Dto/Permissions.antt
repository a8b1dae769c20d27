-- ===== src/Dto/Permissions.antt =====
-- The permission checks of infrastructure/dto/userJWT.go.
use boilerplate_go_be.Base.{
  String, Bool, true, ◌≡◌, ◌⊎◌, ◌↔◌, List, [], ◌∷◌, ◌&&◌, arith, str_eq_iff,
}
use boilerplate_go_be.Dto.{
  RootPermission, has_action_in, has_action, can_create_item, can_read_item, can_update_item,
  can_delete_item,
}

-- The action is listed.
abbrev pub Lists : String → List String → Type 0
Lists a [] = ⊥
Lists a (b ∷ bs) = (b ≡ a) ⊎ Lists a bs

has_action_in_sound : (a : String) (bs : List String) → has_action_in a bs ≡ true → Lists a bs
unfolding has_action_in
has_action_in_sound a [] h = cc
has_action_in_sound a (b ∷ bs) h = grind (arith, str_eq_iff b a, has_action_in_sound a bs)

has_action_in_complete : (a : String) (bs : List String) → Lists a bs → has_action_in a bs ≡ true
unfolding has_action_in
has_action_in_complete a [] h = absurd h
has_action_in_complete a (b ∷ bs) h = grind (arith, str_eq_iff b a, has_action_in_complete a bs)

has_action_iff : (p : RootPermission) (a : String) → (has_action p a ≡ true) ↔ Lists a p.action
unfolding has_action
has_action_iff p a = (has_action_in_sound a p.action, has_action_in_complete a p.action)

and_iff :
    {a b : Bool} {A B : Type 0} → (a ≡ true) ↔ A → (b ≡ true) ↔ B → ((a && b) ≡ true) ↔ (A × B)
and_iff {a} {b} f g =
    (λ h. (f.0 (and_left a b h), g.0 (and_right a b h)), λ h. and_intro a b (f.1 h.0) (g.1 h.1))
  where
    and_left : (a b : Bool) → (a && b) ≡ true → a ≡ true
    and_left a b h = ground arith

    and_right : (a b : Bool) → (a && b) ≡ true → b ≡ true
    and_right a b h = ground arith

    and_intro : (a b : Bool) → a ≡ true → b ≡ true → (a && b) ≡ true
    and_intro a b h k = ground arith

-- A user may create, update or delete items exactly when both that action and "read" are listed, and
-- may read them exactly when "read" is.
pub permissions_iff :
    (p : RootPermission)
    → ((can_read_item p ≡ true) ↔ Lists "read" p.action)
      × ((can_create_item p ≡ true) ↔ (Lists "create" p.action × Lists "read" p.action))
      × ((can_update_item p ≡ true) ↔ (Lists "update" p.action × Lists "read" p.action))
      × ((can_delete_item p ≡ true) ↔ (Lists "delete" p.action × Lists "read" p.action))
unfolding can_create_item can_read_item can_update_item can_delete_item
permissions_iff p =
    let with_read = λ (a : String). and_iff (has_action_iff p a) (has_action_iff p "read") in
    (has_action_iff p "read", with_read "create", with_read "update", with_read "delete")
