-- ===== src/Examples/Lost.antt =====
-- Another client puts a name into the entry of the root while the program puts in another.
use cbfuse.Prelude.{
  ◌≡◌, refl, sym, ap, ◌∙◌, subst, Option, none, some, some-injective, true, [], ◌∷◌, ◌++◌, CString,
  codes, map, str_eq,
}
use mathlib.Core.List.{map-append}
use cbfuse.Common.{dentries, root_dir_string, dentry_children}
use cbfuse.Platform.Reliable.{put}
use cbfuse.Json.Lawful.{HasNames}
use cbfuse.Json.Local.{IsSound}
use cbfuse.Stats.Shared.{Commits}
use cbfuse.Io.{finish, returning, ◌>>=◌}
use cbfuse.Util.{strdup, memdup, memdupm}
use cbfuse.Sync.{sync_get, sync_store}
use cbfuse.Sync.Commands.{
  create, set_up, set_up_all, run_get, run_store, get_document, store_document,
}
use cbfuse.Dentries.{add_child_to_dentry, get_dentry_json, if_not_array, replace_dentry}
use cbfuse.Dentries.Overwrites.{Adds, add_child_to_dentry-Adds}
use cbfuse.Examples.Json.{
  Tree, string, no_items, item, no_members, member, find, is_list, items_of, text_of, print_tree,
  print_codes, run, top, add_to, trees_on,
}
use cbfuse.Examples.JsonLaws.{run-print_tree, find_new}
use cbfuse.Examples.Trees.{name_a, one_memory}
use cbfuse.Examples.Bucket.{Bucket, bucket}
use cbfuse.Examples.BucketLaws.{bucket-IsShared, trees-IsLocal}

parses_to :
    (j i : Tree) (text : CString)
    → some (print_tree j) ≡ some text
    → top (run text []) ≡ some i
    → j ≡ i
parses_to j i text e h = some-injective j i (
    sym (ap top (run-print_tree j []))
    ∙ ap (λ t. top (run t [])) (some-injective (print_tree j) text e)
    ∙ h)

trees-IsSound : IsSound (trees_on bucket)
unfolding is_list items_of
trees-IsSound = record {
  parse_null = λ s. refl;
  create_string_lem = λ t s j e. ap text_of (sym (some-injective (string (some t)) j e));
  append_null = λ a. no_item a;
  append_lem = λ a j b t h e added.
      subst
        (λ x.
          (is_list x ≡ true)
          × (map text_of (items_of x) ≡ map text_of (items_of a) ++ (some t ∷ [])))
        (some-injective (item a j) b added)
        (
          h,
          map-append text_of (items_of a) (j ∷ [])
              ∙ ap (λ x. map text_of (items_of a) ++ (x ∷ [])) e,
        );
  get-set = λ o j k h. find_new k j o;
  print_lem = λ j s text names e has u i h.
      subst (λ x. HasNames (trees_on bucket) x dentry_children names) (parses_to j i text e h) has;
}
  where
    no_item : (a : Option Tree) → add_to a none ≡ none
    no_item none = refl
    no_item (some a) = refl

-- The entry of the root with a and b.
abbrev with_b : Tree
with_b =
    member dentry_children (item (item no_items (string (some name_a))) (string (some (codes "b"))))
      no_members

abbrev contended : Bucket
contended = record {
  docs = one_memory.docs;
  version = 9;
  pending = none;
  changes = [];
  others =
      (λ docs. docs) ∷ (λ docs. put dentries root_dir_string (some (print_tree with_b)) docs) ∷ [];
}

add_child_to_dentry-Adds_example :
    Commits bucket bucket-IsShared contended
      (add_child_to_dentry bucket (trees_on bucket) root_dir_string (codes "c"))
      contended
      (Adds bucket bucket-IsShared
        (trees_on bucket)
        trees-IsLocal
        trees-IsSound
        root_dir_string
        (codes "c")
        contended)
add_child_to_dentry-Adds_example =
    add_child_to_dentry-Adds bucket bucket-IsShared (trees_on bucket) trees-IsLocal trees-IsSound
      root_dir_string contended (codes "c")

-- The entry with a, and with a and c in place of these; b is in neither.
abbrev with_a : Tree
with_a = member dentry_children (item no_items (string (some name_a))) no_members

abbrev with_c : Tree
with_c =
    member dentry_children (item (item no_items (string (some name_a))) (string (some (codes "c"))))
      with_a

lost_name :
    (add_child_to_dentry bucket (trees_on bucket) root_dir_string (codes "c") contended).1.docs
      dentries root_dir_string
    ≡ some (print_tree with_c)
unfolding add_child_to_dentry finish ◌>>=◌ get_dentry_json returning get_document create set_up_all
    set_up run_get sync_get put str_eq strdup memdup memdupm print_tree print_codes run if_not_array
    replace_dentry run_store store_document sync_store find is_list
lost_name = refl
