-- ===== src/Json/Local.antt =====
-- cJSON where other clients use the bucket too: its calls may fail, and send no commands.
use cbfuse.Prelude.{ℕ, ◌≡◌, ◌≢◌, true, Option, none, some, List, [], ◌∷◌, ◌++◌, CString}
use cbfuse.Common.{dentry_children}
use cbfuse.Platform.{Platform}
use cbfuse.Platform.Shared.{IsShared, Quiet}
use cbfuse.Json.{CJson}
use cbfuse.Json.Lawful.{texts, HasNames}

module _ (P : Platform) where
  open P use {State}

  -- The calls of cJSON change no documents.
  pub record IsLocal (shared : IsShared P) (J : CJson P) : Type 0 where
    pub parse_quiet : (v : Option (List ℕ)) (s : State) → Quiet P shared s (J.parse v s).1
    pub print_quiet : (j : J.Json) (s : State) → Quiet P shared s (J.print j s).1
    pub object_quiet : (s : State) → Quiet P shared s (J.create_object s).1
    pub array_quiet : (s : State) → Quiet P shared s (J.create_array s).1
    pub string_quiet : (t : CString) (s : State) → Quiet P shared s (J.create_string t s).1
    pub reference_quiet :
        (t : Option CString) (s : State) → Quiet P shared s (J.create_string_reference t s).1
    pub member_quiet :
        (o : J.Json) (k : CString) (j : Option J.Json) (s : State)
        → Quiet P shared s (J.add_item_to_object o k j s).1
    pub replace_quiet :
        (o : J.Json) (k : CString) (j : Option J.Json) (s : State)
        → Quiet P shared s (J.replace_member o k j s).1

module _ {P : Platform} (J : CJson P) where
  -- Whatever parses from the text has an array of these names.
  abbrev pub Lists : CString → List CString → Type 0
  Lists text names =
      (s : P.State) (j : J.Json)
      → (J.parse (some text) s).0 ≡ some j
      → HasNames J j dentry_children names

  -- What the calls of cJSON give, where they do not fail.
  pub record IsSound : Type 0 where
    pub parse_null : (s : P.State) → (J.parse none s).0 ≡ none
    pub create_string_lem :
        (t : CString) (s : P.State) (j : J.Json)
        → (J.create_string t s).0 ≡ some j
        → J.string_value j ≡ some t
    pub append_null : (a : Option J.Json) → J.add_item_to_array a none ≡ none
    pub append_lem :
        (a j b : J.Json) (t : CString)
        → J.is_array a ≡ true
        → J.string_value j ≡ some t
        → J.add_item_to_array (some a) (some j) ≡ some b
        → (J.is_array b ≡ true) × (texts J b ≡ texts J a ++ (some t ∷ []))
    pub get-set :
        (o j : J.Json) (k : CString)
        → J.get_member o k ≢ none
        → J.get_member (J.set_member o k j) k ≡ some j
    pub print_lem :
        (j : J.Json) (s : P.State) (text : CString) (names : List CString)
        → (J.print j s).0 ≡ some text
        → HasNames J j dentry_children names
        → Lists text names
