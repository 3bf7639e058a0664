-- ===== src/Json/Lawful.antt =====
-- The documented behaviour of cJSON on the trees that the program makes, where memory suffices.
use cbfuse.Prelude.{◌≡◌, ◌≢◌, true, Option, none, some, List, [], ◌∷◌, ◌++◌, CString, map}
use cbfuse.Platform.{Platform}
use cbfuse.Platform.Reliable.{IsReliable}
use cbfuse.Sync.Rules.{Same}
use cbfuse.Json.{CJson}

module _ {P : Platform} (J : CJson P) where
  -- The texts of the items of an array; `none` is an item that is no string.
  abbrev pub texts : J.Json → List (Option CString)
  texts a = map J.string_value (J.items a)

  -- The member `k` of an object is an array of these strings.
  abbrev pub HasNames : J.Json → CString → List CString → Type 0
  HasNames j k names =
      (a : J.Json) × (J.get_member j k ≡ some a)
      × (J.is_array a ≡ true)
      × (texts a ≡ map some names)

module _ (P : Platform) (rel : IsReliable P) (J : CJson P) where
  open P use {State}
  open J use {Json}

  pub record IsLawful : Type 0 where
    pub create_object_lem :
        (s : State)
        → (o : Json) × ((J.create_object s).0 ≡ some o)
          × ((k : CString) → J.get_member o k ≡ none)
          × Same P rel s (J.create_object s).1
    pub create_array_lem :
        (s : State)
        → (a : Json) × ((J.create_array s).0 ≡ some a)
          × (J.is_array a ≡ true)
          × (J.items a ≡ [])
          × Same P rel s (J.create_array s).1
    pub create_string_lem :
        (t : CString) (s : State)
        → (j : Json) × ((J.create_string t s).0 ≡ some j)
          × (J.string_value j ≡ some t)
          × Same P rel s (J.create_string t s).1
    pub create_string_reference_lem :
        (t : Option CString) (s : State)
        → (j : Json) × ((J.create_string_reference t s).0 ≡ some j)
          × Same P rel s (J.create_string_reference t s).1
    -- A string goes to the end of an array.
    pub add_item_to_array_lem :
        (a j : Json) (t : CString)
        → J.is_array a ≡ true
        → J.string_value j ≡ some t
        → (b : Json) × (J.add_item_to_array (some a) (some j) ≡ some b)
          × (J.is_array b ≡ true)
          × (texts J b ≡ texts J a ++ (some t ∷ []))
    -- A member that is added is found under its name, and the others are as they were.
    pub add_item_to_object_lem :
        (o j : Json) (k : CString) (s : State)
        → J.get_member o k ≡ none
        → (b : Json) × ((J.add_item_to_object o k (some j) s).0 ≡ some b)
          × (J.get_member b k ≡ some j)
          × ((i : CString) → i ≢ k → J.get_member b i ≡ J.get_member o i)
          × Same P rel s (J.add_item_to_object o k (some j) s).1
    pub get-set :
        (o j : Json) (k : CString)
        → J.get_member o k ≢ none
        → J.get_member (J.set_member o k j) k ≡ some j
    pub get-replace :
        (o j : Json) (k : CString) (s : State)
        → J.get_member o k ≢ none
        → (J.get_member (J.replace_member o k (some j) s).0 k ≡ some j)
          × Same P rel s (J.replace_member o k (some j) s).1
    -- What is printed is parsed to a tree with the same arrays of strings.
    pub print_lem :
        (j : Json) (s : State)
        → (t : CString) × (i : Json) × ((J.print j s).0 ≡ some t)
          × ((u : State) → (J.parse (some t) u).0 ≡ some i)
          × ((k : CString) (names : List CString) → HasNames J j k names → HasNames J i k names)
          × Same P rel s (J.print j s).1
    pub parse_lem : (v : Option CString) (s : State) → Same P rel s (J.parse v s).1
