-- ===== src/Tests/Values.antt =====
-- Witnesses for the pure parts.
use boilerplate_go_be.Validator.{
  FieldError, field_errors, validation_error, custom_error, field_message, sprintf,
}
use boilerplate_go_be.Base.{refl, codes, lookup, String, ◌≡◌, ◌↔◌, arith, true, List, [], ◌∷◌}
use boilerplate_go_be.Code.{err_not_found}
use boilerplate_go_be.Code.Agreement.{Agrees, kafka_name, grpc_of_http}
use boilerplate_go_be.Dto.{
  RootPermission, can_create_item, can_read_item, can_update_item, can_delete_item,
}
use boilerplate_go_be.Dto.Permissions.{Lists, permissions_iff}
use boilerplate_go_be.Aggregators.{new_repository, get_item_repository}
use boilerplate_go_be.Aggregators.Caching.{Ask, ask_http, ask_kafka, get_item_repository_again}
use boilerplate_go_be.Tests.Memory.{log}

not_found-Agrees : Agrees err_not_found
unfolding kafka_name grpc_of_http
not_found-Agrees = ground arith

abbrev writer : RootPermission
writer = record { action = "read" ∷ "create" ∷ [] }

permissions_iff_example :
    ((can_read_item writer ≡ true) ↔ Lists "read" writer.action)
    × ((can_create_item writer ≡ true)
        ↔ (Lists "create" writer.action × Lists "read" writer.action))
    × ((can_update_item writer ≡ true)
        ↔ (Lists "update" writer.action × Lists "read" writer.action))
    × ((can_delete_item writer ≡ true)
        ↔ (Lists "delete" writer.action × Lists "read" writer.action))
permissions_iff_example = permissions_iff writer

abbrev asked : List Ask
asked = ask_kafka ∷ ask_http ∷ []

get_item_repository_again_example :
    let (first, r) = get_item_repository (new_repository log) in
    let (second, _) = get_item_repository r in (first ≡ record { log = log }) × (second ≡ first)
get_item_repository_again_example = get_item_repository_again log

abbrev age_error : String → String → FieldError
age_error tag param = record {
  field = codes "Age";
  tag = tag;
  actual_tag = codes tag;
  param = codes param;
}

-- A parameter that is missing, or one that the template has no place for, shows in the message.
messages :
    (custom_error [] (field_errors (age_error "max" "9" ∷ []))
      ≡ validation_error (codes "Age value must be lower than 9"))
    × (custom_error [] (field_errors (age_error "max" "" ∷ []))
        ≡ validation_error (codes "Age value must be lower than %!s(MISSING)"))
    × (custom_error [] (field_errors (age_error "unique" "Id" ∷ []))
        ≡ validation_error (codes "Age must have a unique value%!(EXTRA string=Id)"))
unfolding custom_error field_message sprintf lookup
messages = (refl, refl, refl)
