-- ===== src/Dentries.antt =====
-- cbfuse/dentries.c: the directory entries, JSON documents with the names of the children.
pub mod Codes
pub mod Shared
pub mod Overwrites
pub mod Entering
pub mod Entries
pub mod Removal
pub mod Creation
use cbfuse.Prelude.{
  ℕ, ℤ, pos, negate, Bool, true, false, Option, none, some, List, [], ◌∷◌, CString, str_eq, take,
  if◌then◌else◌,
}
use cbfuse.Common.{dentries, eio, dentry_dir_path, dentry_par_path, dentry_children}
use cbfuse.Io.{
  Io, pure, jump, perform, ◌>>=◌, ◌>>◌, Reply, ok, err, returning, finish, if_null, or_done,
}
use cbfuse.Platform.{StoreMode, Setting, in_collection, with_key, with_value, Platform}
use cbfuse.Sync.Commands.{get_document, store_document, remove_document}
use cbfuse.Json.{CJson}

-- The setters of a store of an entry, in their order.
abbrev pub dentry_settings : CString → CString → List Setting
dentry_settings dir_pkey text = in_collection dentries ∷ with_key dir_pkey ∷ with_value text ∷ []

-- The first n bytes behind a pointer, as an argument; NULL stays NULL.
abbrev pub sized : Option (List ℕ) → ℕ → Option (List ℕ)
sized none n = none
sized (some b) n = some (take n b)

-- A pointer that is NULL if the body has jumped to its label.
abbrev pub null_if_done : {A : Type 0} → Reply (Option A) → Option A
null_if_done (ok p) = p
null_if_done (err fr) = none

module _ (P : Platform) (J : CJson P) where
  open P use {State}
  open J use {
    Json, parse, print, create_object, create_array, create_string, create_string_reference,
    add_item_to_object, add_item_to_array, get_member, set_member, replace_member, is_array, items,
    string_value,
  }

  -- The NULL test is on the out-parameter itself, so a text that does not parse gives 0 and NULL.
  unfoldable pub get_dentry_json : CString → Io State (Reply (Option Json))
  get_dentry_json dir_pkey = returning do
    result ← get_document P dentries dir_pkey
    perform (parse (sized result.value result.nvalue))

  -- The loop of create_dentry over the names.
  unfoldable pub add_names : Option Json → List CString → Io State (Option Json)
  add_names children [] = pure children
  add_names children (name ∷ names) = do
    item ← perform (create_string_reference (some name))
    grown ← if_null (add_item_to_array children item) (pos 0)
    add_names (some grown) names

  -- A jump returns NULL: `dentry_string` is set last.
  unfoldable pub create_dentry : CString → Option CString → List CString → Io State (Option CString)
  create_dentry dir_path parent_path child_names = do
    ended ← returning do
      made ← perform create_object
      dentry ← if_null made (pos 0)
      dir ← perform (create_string_reference (some dir_path))
      added ← perform (add_item_to_object dentry dentry_dir_path dir)
      with_dir ← if_null added (pos 0)
      parent ← perform (create_string_reference parent_path)
      added' ← perform (add_item_to_object with_dir dentry_par_path parent)
      with_parent ← if_null added' (pos 0)
      array ← perform create_array
      children ← add_names array child_names
      added'' ← perform (add_item_to_object with_parent dentry_children children)
      complete ← if_null added'' (pos 0)
      perform (print complete)
    pure (null_if_done ended)

  -- Where create_dentry returns NULL the result is 0.
  unfoldable pub add_new_dentry : CString → CString → Option CString → Io State ℤ
  add_new_dentry dir_pkey dir_path parent_path = finish do
    dentry ← create_dentry dir_path parent_path []
    text ← if_null dentry (pos 0)
    store_document P StoreMode.insert (dentry_settings dir_pkey text)
    pure (pos 0)

  -- cJSON_GetObjectItemCaseSensitive of a tree that may be NULL
  abbrev pub children_of : Option Json → Option Json
  children_of none = none
  children_of (some j) = get_member j dentry_children

  -- IfFalseGotoDoneWithRef(cJSON_IsArray(children_json), -EIO, ...)
  unfoldable pub if_not_array : Option Json → ℤ → Io State Json
  if_not_array none fr = jump fr
  if_not_array (some j) fr = if is_array j then pure j else jump fr

  -- The last part of both changes of an entry.
  unfoldable pub replace_dentry : CString → Json → Io State ℤ
  replace_dentry dir_pkey dentry = do
    printed ← perform (print dentry)
    text ← if_null printed (negate eio)
    store_document P StoreMode.replace (dentry_settings dir_pkey text)
    pure (pos 0)

  unfoldable pub add_child_to_dentry : CString → CString → Io State ℤ
  add_child_to_dentry dir_pkey child_name = finish do
    got ← get_dentry_json dir_pkey
    parsed ← or_done got
    dentry ← if_null parsed (negate eio)
    children ← if_not_array (children_of parsed) (negate eio)
    item ← perform (create_string child_name)
    grown ← if_null (add_item_to_array (some children) item) (negate eio)
    replace_dentry dir_pkey (set_member dentry dentry_children grown)

  unfoldable pub remove_dentry : CString → Io State ℤ
  remove_dentry dir_pkey = finish do remove_document P dentries dir_pkey; pure (pos 0)

  -- One round of the loop: a string that is not the name is copied, all else is left out.
  unfoldable pub copy_other : CString → Option Json → Option CString → Io State (Option Json)
  copy_other child_name copied none = pure copied
  copy_other child_name copied (some text) = if str_eq text child_name then pure copied else (do
    item ← perform (create_string text)
    grown ← if_null (add_item_to_array copied item) (negate eio)
    pure (some grown))

  unfoldable pub copy_others : CString → Option Json → List Json → Io State (Option Json)
  copy_others child_name copied [] = pure copied
  copy_others child_name copied (child ∷ children) = do
    next ← copy_other child_name copied (string_value child)
    copy_others child_name next children

  unfoldable pub remove_child_from_dentry : CString → CString → Io State ℤ
  remove_child_from_dentry dir_pkey child_name = finish do
    got ← get_dentry_json dir_pkey
    parsed ← or_done got
    dentry ← if_null parsed (negate eio)
    children ← if_not_array (children_of parsed) (negate eio)
    new_children ← perform create_array
    copied ← copy_others child_name new_children (items children)
    replaced ← perform (replace_member dentry dentry_children copied)
    replace_dentry dir_pkey replaced
