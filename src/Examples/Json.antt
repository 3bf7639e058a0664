-- ===== src/Examples/Json.antt =====
-- A cJSON whose trees are built member by member and item by item, with a printer and a parser, and
-- the library functions of the operations, for the server in memory.
use cbfuse.Prelude.{
  ℕ, zero, suc, pos, Bool, true, false, Option, none, some, List, [], ◌∷◌, ◌++◌, CString, codes,
  str_eq, if◌then◌else◌,
}
use cbfuse.Platform.{Platform}
use cbfuse.Examples.Server.{server}
use cbfuse.Json.{CJson}
use cbfuse.Cbfuse.{Fuse}

-- `string none` is the reference to a NULL; an array and an object grow at their end.
pub data Tree : Type 0 where
  string : Option CString → Tree
  no_items : Tree
  item : Tree → Tree → Tree
  no_members : Tree
  member : CString → Tree → Tree → Tree

unfoldable pub find : Tree → CString → Option Tree
find (string s) i = none
find no_items i = none
find (item a j) i = none
find no_members i = none
find (member k j o) i = if str_eq i k then some j else find o i

unfoldable pub is_list : Tree → Bool
is_list (string s) = false
is_list no_items = true
is_list (item a j) = is_list a
is_list no_members = false
is_list (member k j o) = false

unfoldable pub items_of : Tree → List Tree
items_of (string s) = []
items_of no_items = []
items_of (item a j) = items_of a ++ (j ∷ [])
items_of no_members = []
items_of (member k j o) = []

abbrev pub text_of : Tree → Option CString
text_of (string s) = s
text_of no_items = none
text_of (item a j) = none
text_of no_members = none
text_of (member k j o) = none

-- The first seven numbers are kept for instructions.
abbrev pub shifted : ℕ → ℕ
shifted c = suc (suc (suc (suc (suc (suc (suc c))))))

-- The text of a tree is a program for a stack of trees.
unfoldable pub print_codes : CString → CString
print_codes [] = 4 ∷ []
print_codes (c ∷ s) = print_codes s ++ (shifted c ∷ [])

unfoldable pub print_tree : Tree → CString
print_tree (string none) = 3 ∷ []
print_tree (string (some s)) = print_codes s
print_tree no_items = 1 ∷ []
print_tree (item a j) = print_tree a ++ (print_tree j ++ (5 ∷ []))
print_tree no_members = 2 ∷ []
print_tree (member k j o) = print_tree o ++ (print_codes k ++ (print_tree j ++ (6 ∷ [])))

abbrev pub add_item : List Tree → List Tree
add_item (j ∷ a ∷ st) = item a j ∷ st
add_item st = st

abbrev pub add_member : List Tree → List Tree
add_member (j ∷ string (some k) ∷ o ∷ st) = member k j o ∷ st
add_member st = st

abbrev pub add_code : ℕ → List Tree → List Tree
add_code n (string (some s) ∷ st) = string (some (n ∷ s)) ∷ st
add_code n st = st

abbrev pub step : ℕ → List Tree → List Tree
step zero st = st
step (suc zero) st = no_items ∷ st
step (suc (suc zero)) st = no_members ∷ st
step (suc (suc (suc zero))) st = string none ∷ st
step (suc (suc (suc (suc zero)))) st = string (some []) ∷ st
step (suc (suc (suc (suc (suc zero))))) st = add_item st
step (suc (suc (suc (suc (suc (suc zero)))))) st = add_member st
step (suc (suc (suc (suc (suc (suc (suc n))))))) st = add_code n st

unfoldable pub run : CString → List Tree → List Tree
run [] st = st
run (c ∷ s) st = run s (step c st)

abbrev pub top : List Tree → Option Tree
top [] = none
top (j ∷ st) = some j

abbrev pub parse_tree : Option (List ℕ) → Option Tree
parse_tree none = none
parse_tree (some v) = top (run v [])

abbrev pub add_to : Option Tree → Option Tree → Option Tree
add_to (some a) (some j) = some (item a j)
add_to (some a) none = none
add_to none j = none

abbrev pub add_named : Tree → CString → Option Tree → Option Tree
add_named o k (some j) = some (member k j o)
add_named o k none = none

abbrev pub replaced : Tree → CString → Option Tree → Tree
replaced o k (some j) = member k j o
replaced o k none = o

-- It works on the heap alone, on every platform.
abbrev pub trees_on : (P : Platform) → CJson P
trees_on P = record {
  Json = Tree;
  parse = λ v m. (parse_tree v, m);
  print = λ j m. (some (print_tree j), m);
  create_object = λ m. (some no_members, m);
  create_array = λ m. (some no_items, m);
  create_string = λ t m. (some (string (some t)), m);
  create_string_reference = λ t m. (some (string t), m);
  add_item_to_object = λ o k j m. (add_named o k j, m);
  add_item_to_array = add_to;
  get_member = find;
  set_member = λ o k j. member k j o;
  replace_member = λ o k j m. (replaced o k j, m);
  is_array = is_list;
  items = items_of;
  string_value = text_of;
}

abbrev pub trees : CJson server
trees = trees_on server

-- The functions for a file in the root directory.
abbrev pub in_root : CString → Fuse server
in_root name = record {
  dirname = λ p. some (codes "/");
  basename = λ p. some name;
  context = λ m. ((501, 20), m);
  filler = λ n off m. (pos 0, m);
}
