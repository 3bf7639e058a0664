-- ===== src/Examples/Orphans.antt =====
-- The theorem about rmdir of a directory with children, at a tree with the directory a and in it the file b.
use cbfuse.Prelude.{
  arith, pos, ◌≡◌, refl, ap, ◌∙◌, false≢true, none, some, [], ◌∷◌, CString, codes, str_eq, length,
  ◌==◌,
}
use cbfuse.Common.{stats, dentries, blocks, root_dir_string, dentry_children}
use cbfuse.Io.Rules.{Yields}
use cbfuse.Platform.Reliable.{Contents, put}
use cbfuse.Platform.Puts.{put_ne}
use cbfuse.Cbfuse.{cbfuse_rmdir}
use cbfuse.Dentries.Removal.{without}
use cbfuse.Tree.{file, directory, Fs, set, IsTree}
use cbfuse.Tree.Represents.{Represents, set_two-Represents}
use cbfuse.Tree.Orphans.{rmdir-orphans}
use cbfuse.Examples.Fits.{AllFit, stored-AllFit, removed-AllFit}
use cbfuse.Examples.Server.{Memory, server, stat_cells}
use cbfuse.Examples.Laws.{server-IsReliable}
use cbfuse.Examples.Json.{
  Tree, string, no_items, item, no_members, member, find, is_list, items_of, print_tree, top, trees,
}
use cbfuse.Examples.JsonLaws.{run-print_tree, trees-IsLawful}
use cbfuse.Examples.Files.{file_stat}
use cbfuse.Examples.Posix.{posix_fuse, posix_paths, last_slash}
use cbfuse.Examples.Trees.{path_a, name_a, root_stat, one_tree, one_memory, one_memory-Represents}

abbrev path_b : CString
path_b = codes "/a/b"

abbrev name_b : CString
name_b = codes "b"

-- a is a directory that lists b, a file of three bytes.
abbrev deep_tree : Fs
deep_tree =
    set path_a (some (directory root_stat (name_b ∷ [])))
      (set path_b (some (file file_stat (some (1 ∷ 2 ∷ 3 ∷ [])))) one_tree)

abbrev deep_entry : Tree
deep_entry = member dentry_children (item no_items (string (some name_b))) no_members

abbrev bare_docs : Contents
bare_docs = put blocks path_a none one_memory.docs

abbrev block_docs : Contents
block_docs = put blocks path_b (some (1 ∷ 2 ∷ 3 ∷ [])) bare_docs

abbrev child_docs : Contents
child_docs = put stats path_b (some (stat_cells file_stat)) block_docs

abbrev stat_docs : Contents
stat_docs = put stats path_a (some (stat_cells root_stat)) child_docs

deep_docs-AllFit : AllFit (put dentries path_a (some (print_tree deep_entry)) stat_docs)
deep_docs-AllFit =
    stored-AllFit dentries path_a (print_tree deep_entry) _ (omega arith, tt)
      (stored-AllFit stats path_a (stat_cells root_stat) _ (omega arith, omega arith)
        (stored-AllFit stats path_b (stat_cells file_stat) _ (omega arith, omega arith)
          (stored-AllFit blocks path_b (1 ∷ 2 ∷ 3 ∷ []) _ (omega arith, omega arith)
            (removed-AllFit blocks path_a one_memory.docs one_memory.docs_fit))))

abbrev deep_memory : Memory
deep_memory = record {
  docs = put dentries path_a (some (print_tree deep_entry)) stat_docs;
  docs_fit = deep_docs-AllFit;
  version = 12;
  pending = none;
}

deep_memory-Represents :
    Represents server server-IsReliable trees trees-IsLawful deep_tree deep_memory
unfolding server-IsReliable put str_eq find is_list items_of
deep_memory-Represents =
    set_two-Represents server server-IsReliable trees trees-IsLawful one_tree path_a
      (some (directory root_stat (name_b ∷ []))) path_b
      (some (file file_stat (some (1 ∷ 2 ∷ 3 ∷ [])))) one_memory deep_memory
      (λ j far away c.
        put_ne dentries c path_a j (some (print_tree deep_entry)) stat_docs far
        ∙ put_ne stats c path_a j (some (stat_cells root_stat)) child_docs far
        ∙ put_ne stats c path_b j (some (stat_cells file_stat)) block_docs away
        ∙ put_ne blocks c path_b j (some (1 ∷ 2 ∷ 3 ∷ [])) bare_docs away
        ∙ put_ne blocks c path_a j none one_memory.docs far)
      (
        refl,
        (
          deep_entry,
          (print_tree deep_entry, refl, λ u. ap top (run-print_tree deep_entry [])),
          (item no_items (string (some name_b)), refl, refl, refl),
        ),
        refl,
      )
      (refl, refl, refl) one_memory-Represents

rmdir-orphans_example : Yields (cbfuse_rmdir server trees posix_fuse path_a) deep_memory (λ r t.
    (r ≡ pos 0)
    × (fs' : Fs) × Represents server server-IsReliable trees trees-IsLawful fs' t
    × (fs'
        ≡ set root_dir_string
            (some (directory root_stat (without name_a (name_a ∷ []))))
            (set path_a none deep_tree))
    × (¬ IsTree posix_fuse posix_paths fs'))
unfolding str_eq last_slash
rmdir-orphans_example =
    rmdir-orphans server server-IsReliable trees posix_fuse trees-IsLawful posix_paths deep_tree
      path_a root_dir_string name_a path_b deep_memory root_stat root_stat (name_b ∷ [])
      (name_a ∷ []) (file file_stat (some (1 ∷ 2 ∷ 3 ∷ []))) deep_memory-Represents (refl, refl)
      (λ h. false≢true (ap (λ s. length s == 1) h)) refl refl refl refl
      (λ h. false≢true (ap (λ s. length s == 1) h))
