-- ===== src/Json.antt =====
-- The part of cJSON that cbfuse calls. A tree is a value: where the program changes an array through
-- a pointer into an object, `set_member` gives the object after the change.
pub mod Lawful
pub mod Local
use cbfuse.Prelude.{ℕ, Bool, Option, List, CString}
use cbfuse.Platform.{Platform}

-- In order: cJSON_ParseWithLength, cJSON_PrintUnformatted, cJSON_CreateObject, cJSON_CreateArray,
-- cJSON_CreateString, cJSON_CreateStringReference, cJSON_AddItemToObject, cJSON_AddItemToArray,
-- cJSON_GetObjectItemCaseSensitive, the object after a change of a member in place,
-- cJSON_ReplaceItemInObjectCaseSensitive, cJSON_IsArray, the items that cJSON_ArrayForEach visits,
-- and cJSON_GetStringValue of an item that is a string.
pub record CJson (P : Platform) : Type 1 where
  pub Json : Type 0
  pub parse : Option (List ℕ) → P.State → Option Json × P.State
  pub print : Json → P.State → Option CString × P.State
  pub create_object : P.State → Option Json × P.State
  pub create_array : P.State → Option Json × P.State
  pub create_string : CString → P.State → Option Json × P.State
  pub create_string_reference : Option CString → P.State → Option Json × P.State
  pub add_item_to_object : Json → CString → Option Json → P.State → Option Json × P.State
  pub add_item_to_array : Option Json → Option Json → Option Json
  pub get_member : Json → CString → Option Json
  pub set_member : Json → CString → Json → Json
  pub replace_member : Json → CString → Option Json → P.State → Json × P.State
  pub is_array : Json → Bool
  pub items : Json → List Json
  pub string_value : Json → Option CString
