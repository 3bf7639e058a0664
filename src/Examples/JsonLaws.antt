-- ===== src/Examples/JsonLaws.antt =====
-- The trees meet the laws of cJSON.
use cbfuse.Prelude.{
  ◌≡◌, ◌≢◌, refl, ap, ◌∙◌, none, some, List, [], ◌∷◌, ◌++◌, CString, map, str_eq_refl, ne→str_eq,
}
use mathlib.Core.List.{map-append}
use cbfuse.Sync.Rules.{Same-refl}
use cbfuse.Json.Lawful.{IsLawful}
use cbfuse.Examples.Server.{server}
use cbfuse.Examples.Laws.{server-IsReliable}
use cbfuse.Examples.Json.{
  Tree, string, no_items, item, no_members, member, find, is_list, items_of, text_of, shifted,
  print_codes, print_tree, step, run, top, trees,
}

run-append : (a b : CString) (st : List Tree) → run (a ++ b) st ≡ run b (run a st)
unfolding run
run-append [] b st = refl
run-append (c ∷ a) b st = run-append a b (step c st)

run-print_codes : (s : CString) (st : List Tree) → run (print_codes s) st ≡ string (some s) ∷ st
unfolding run print_codes
run-print_codes [] st = refl
run-print_codes (c ∷ s) st =
    run-append (print_codes s) (shifted c ∷ []) st
    ∙ ap (run (shifted c ∷ [])) (run-print_codes s st)

-- The program of a tree pushes the tree.
pub run-print_tree : (j : Tree) (st : List Tree) → run (print_tree j) st ≡ j ∷ st
unfolding run print_tree
run-print_tree (string none) st = refl
run-print_tree (string (some s)) st = run-print_codes s st
run-print_tree no_items st = refl
run-print_tree (item a j) st =
    run-append (print_tree a) _ st
    ∙ ap (run (print_tree j ++ (5 ∷ []))) (run-print_tree a st)
    ∙ run-append (print_tree j) _ (a ∷ st)
    ∙ ap (run (5 ∷ [])) (run-print_tree j (a ∷ st))
run-print_tree no_members st = refl
run-print_tree (member k j o) st =
    run-append (print_tree o) _ st
    ∙ ap (run (print_codes k ++ (print_tree j ++ (6 ∷ [])))) (run-print_tree o st)
    ∙ run-append (print_codes k) _ (o ∷ st)
    ∙ ap (run (print_tree j ++ (6 ∷ []))) (run-print_codes k (o ∷ st))
    ∙ run-append (print_tree j) _ (string (some k) ∷ o ∷ st)
    ∙ ap (run (6 ∷ [])) (run-print_tree j (string (some k) ∷ o ∷ st))

pub find_new : (k : CString) (j o : Tree) → find (member k j o) k ≡ some j
unfolding find
find_new k j o = rw (str_eq_refl k) refl

find_other : (k i : CString) (j o : Tree) → i ≢ k → find (member k j o) i ≡ find o i
unfolding find
find_other k i j o h = rw (ne→str_eq i k h) refl

pub trees-IsLawful : IsLawful server server-IsReliable trees
unfolding find is_list items_of
trees-IsLawful = record {
  create_object_lem = λ s. (no_members, refl, λ k. refl, Same-refl server server-IsReliable s);
  create_array_lem = λ s. (no_items, refl, refl, refl, Same-refl server server-IsReliable s);
  create_string_lem = λ t s. (string (some t), refl, refl, Same-refl server server-IsReliable s);
  create_string_reference_lem = λ t s. (string t, refl, Same-refl server server-IsReliable s);
  add_item_to_array_lem = λ a j t h e. (
    item a j,
    refl,
    h,
    map-append text_of (items_of a) (j ∷ []) ∙ ap (λ x. map text_of (items_of a) ++ (x ∷ [])) e,
  );
  add_item_to_object_lem = λ o j k s h. (
    member k j o,
    refl,
    find_new k j o,
    λ i n. find_other k i j o n,
    Same-refl server server-IsReliable s,
  );
  get-set = λ o j k h. find_new k j o;
  get-replace = λ o j k s h. (find_new k j o, Same-refl server server-IsReliable s);
  print_lem = λ j s. (
    print_tree j,
    j,
    refl,
    λ u. ap top (run-print_tree j []),
    λ k names h. h,
    Same-refl server server-IsReliable s,
  );
  parse_lem = λ v s. Same-refl server server-IsReliable s;
}
