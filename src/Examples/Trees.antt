-- ===== src/Examples/Trees.antt =====
-- The theorems about trees at a tree with one file.
use cbfuse.Prelude.{
  ◌≡◌, ◌≢◌, refl, ap, ◌∙◌, false≢true, none, some, List, [], ◌∷◌, CString, codes, arith, str_eq,
  length, ◌==◌,
}
use cbfuse.Common.{stats, dentries, blocks, root_dir_string, dentry_children}
use cbfuse.Io.{◌>>=◌}
use cbfuse.Io.Rules.{Yields}
use cbfuse.Platform.{fresh_stat, directory_755, Stat, Timespec}
use cbfuse.Platform.Reliable.{Contents, put}
use cbfuse.Platform.Puts.{put_ne}
use cbfuse.Cbfuse.{cbfuse_readdir, install_root, cbfuse_getattr}
use cbfuse.Cbfuse.Calls.{Call, run_call, run_calls}
use cbfuse.Tree.{file, directory, Fs, set, IsTree}
use cbfuse.Tree.Moves.{Move, create_new, unlink_file, write_file}
use cbfuse.Tree.Adds.{added-IsTree}
use cbfuse.Tree.Represents.{Represents, set-Represents, set_two-Represents}
use cbfuse.Tree.Runs.{Permitted, Run, Simulates, run_call-Effect, run_calls-IsTree}
use cbfuse.Tree.Start.{empty_tree, root_tree, root_tree-IsTree, install_root-run_calls}
use cbfuse.Tree.Views.{Fills, readdir-Fills, Shows, getattr-Shows}
use cbfuse.Examples.Fits.{AllFit, empty-AllFit, stored-AllFit}
use cbfuse.Examples.Server.{Memory, server, empty_docs, empty_memory, stat_cells, now}
use cbfuse.Examples.Laws.{server-IsReliable}
use cbfuse.Examples.Json.{
  Tree, string, no_items, item, no_members, member, find, is_list, items_of, print_tree, top, trees,
}
use cbfuse.Examples.JsonLaws.{run-print_tree, trees-IsLawful}
use cbfuse.Examples.Files.{file_stat}
use cbfuse.Examples.Posix.{posix_fuse, posix_paths, last_slash}

abbrev pub path_a : CString
path_a = codes "/a"

abbrev pub name_a : CString
name_a = codes "a"

abbrev pub root_stat : Stat
root_stat = fresh_stat directory_755 now

-- The root with the file a, of three bytes.
abbrev pub one_tree : Fs
one_tree =
    set root_dir_string (some (directory root_stat (name_a ∷ [])))
      (set path_a (some (file file_stat (some (1 ∷ 2 ∷ 3 ∷ [])))) (root_tree root_stat))

-- The entry of the root, alone and with the file.
abbrev empty_entry : Tree
empty_entry = member dentry_children no_items no_members

abbrev one_entry : Tree
one_entry = member dentry_children (item no_items (string (some name_a))) no_members

pub root_docs-AllFit : AllFit (
    put dentries root_dir_string
      (some (print_tree empty_entry))
      (put stats root_dir_string (some (stat_cells root_stat)) empty_docs))
root_docs-AllFit =
    stored-AllFit dentries root_dir_string (print_tree empty_entry) _ (omega arith, tt)
      (stored-AllFit stats root_dir_string (stat_cells root_stat) empty_docs
        (omega arith, omega arith) empty-AllFit)

abbrev root_memory : Memory
root_memory = record {
  docs =
      put dentries root_dir_string (some (print_tree empty_entry))
        (put stats root_dir_string (some (stat_cells root_stat)) empty_docs);
  docs_fit = root_docs-AllFit;
  version = 8;
  pending = none;
}

abbrev file_docs : Contents
file_docs =
    put stats path_a (some (stat_cells file_stat))
      (put blocks path_a (some (1 ∷ 2 ∷ 3 ∷ [])) root_memory.docs)

pub one_docs-AllFit : AllFit (put dentries root_dir_string (some (print_tree one_entry)) file_docs)
one_docs-AllFit =
    stored-AllFit dentries root_dir_string (print_tree one_entry) _ (omega arith, tt)
      (stored-AllFit stats path_a (stat_cells file_stat) _ (omega arith, omega arith)
        (stored-AllFit blocks path_a (1 ∷ 2 ∷ 3 ∷ []) _ (omega arith, omega arith)
          root_docs-AllFit))

abbrev pub one_memory : Memory
one_memory = record {
  docs = put dentries root_dir_string (some (print_tree one_entry)) file_docs;
  docs_fit = one_docs-AllFit;
  version = 9;
  pending = none;
}

root_memory-Represents :
    Represents server server-IsReliable trees trees-IsLawful (root_tree root_stat) root_memory
unfolding server-IsReliable put str_eq find is_list items_of
root_memory-Represents =
    set-Represents server server-IsReliable trees trees-IsLawful empty_tree root_dir_string
      (some (directory root_stat [])) empty_memory root_memory
      (λ j away c.
        put_ne dentries c root_dir_string j (some (print_tree empty_entry))
          (put stats root_dir_string (some (stat_cells root_stat)) empty_docs) away
        ∙ put_ne stats c root_dir_string j (some (stat_cells root_stat)) empty_docs away)
      (
        refl,
        (
          empty_entry,
          (print_tree empty_entry, refl, λ u. ap top (run-print_tree empty_entry [])),
          (no_items, refl, refl, refl),
        ),
        refl,
      )
      (λ k. (refl, refl, refl))

pub one_memory-Represents :
    Represents server server-IsReliable trees trees-IsLawful one_tree one_memory
unfolding server-IsReliable put str_eq find is_list items_of
one_memory-Represents =
    set_two-Represents server server-IsReliable trees trees-IsLawful (root_tree root_stat)
      root_dir_string (some (directory root_stat (name_a ∷ []))) path_a
      (some (file file_stat (some (1 ∷ 2 ∷ 3 ∷ [])))) root_memory one_memory
      (λ j far away c.
        put_ne dentries c root_dir_string j (some (print_tree one_entry)) file_docs far
        ∙ put_ne stats c path_a j (some (stat_cells file_stat))
            (put blocks path_a (some (1 ∷ 2 ∷ 3 ∷ [])) root_memory.docs) away
        ∙ put_ne blocks c path_a j (some (1 ∷ 2 ∷ 3 ∷ [])) root_memory.docs away)
      (
        refl,
        (
          one_entry,
          (print_tree one_entry, refl, λ u. ap top (run-print_tree one_entry [])),
          (item no_items (string (some name_a)), refl, refl, refl),
        ),
        refl,
      )
      (refl, refl, refl) root_memory-Represents

path_a-ne-root : path_a ≢ root_dir_string
path_a-ne-root h = false≢true (ap (λ s. length s == 1) h)

one_tree-IsTree : IsTree posix_fuse posix_paths one_tree
unfolding str_eq last_slash
one_tree-IsTree =
    added-IsTree posix_fuse posix_paths (root_tree root_stat)
      (root_tree-IsTree posix_fuse posix_paths root_stat) path_a root_dir_string name_a
      (file file_stat (some (1 ∷ 2 ∷ 3 ∷ []))) root_stat [] refl (refl, refl)
      (record {
        no_children = λ y names e. cc;
        no_bytes = λ x b e.
            let stats_eq : x ≡ file_stat = cc in
            let bytes_eq : b ≡ some (1 ∷ 2 ∷ 3 ∷ []) = cc in rw (stats_eq, bytes_eq) refl;
      })
      refl refl

file_there : one_tree path_a ≡ some (file file_stat (some (1 ∷ 2 ∷ 3 ∷ [])))
unfolding str_eq
file_there = refl

abbrev write_move : Move posix_fuse posix_paths one_tree (Call.write path_a (some (9 ∷ 8 ∷ [])) 2 2)
write_move =
    write_file path_a file_stat (some (1 ∷ 2 ∷ 3 ∷ [])) (9 ∷ 8 ∷ []) 2 file_there (omega arith)
      (omega arith) (omega arith)

run_call-Effect_example :
    Yields
      (run_call server trees posix_fuse (Call.write path_a (some (9 ∷ 8 ∷ [])) 2 2))
      one_memory
      (Simulates server server-IsReliable trees posix_fuse posix_paths trees-IsLawful write_move)
run_call-Effect_example =
    run_call-Effect server server-IsReliable trees posix_fuse posix_paths trees-IsLawful write_move
      one_memory one_memory-Represents

-- The file is written, and then removed.
abbrev two_calls : List Call
two_calls = Call.write path_a (some (9 ∷ 8 ∷ [])) 2 2 ∷ Call.unlink path_a ∷ []

two_calls-Permitted : Permitted posix_fuse posix_paths two_calls one_tree
unfolding str_eq last_slash
two_calls-Permitted = (
  write_move,
  λ r fs' (_, new, _, ts, clock, e). (
    unlink_file path_a root_dir_string name_a _ (some new) root_stat (name_a ∷ []) refl (refl, refl)
        (ap (λ f. f path_a) e) (ap (λ f. f root_dir_string) e),
    λ r' fs'' effect. tt,
  ),
)

run_calls-IsTree_example : Yields (run_calls server trees posix_fuse two_calls) one_memory (λ rs t.
    (fs' : Fs) × Run posix_fuse posix_paths two_calls one_tree rs fs'
    × Represents server server-IsReliable trees trees-IsLawful fs' t
    × IsTree posix_fuse posix_paths fs')
run_calls-IsTree_example =
    run_calls-IsTree server server-IsReliable trees posix_fuse posix_paths trees-IsLawful two_calls
      one_tree one_memory one_tree-IsTree two_calls-Permitted one_memory-Represents

getattr-Shows_example :
    Yields
      (cbfuse_getattr server trees posix_fuse path_a)
      one_memory
      (λ r t. Shows (some (file file_stat (some (1 ∷ 2 ∷ 3 ∷ [])))) r)
unfolding str_eq
getattr-Shows_example =
    getattr-Shows server server-IsReliable trees posix_fuse trees-IsLawful one_tree path_a
      one_memory one_memory-Represents (omega arith)

-- A file is created in a new file system, and written.
abbrev first_calls : List Call
first_calls = Call.create path_a 33188 ∷ Call.write path_a (some (9 ∷ 8 ∷ [])) 2 0 ∷ []

first_calls-Permitted : (x : Stat) → Permitted posix_fuse posix_paths first_calls (root_tree x)
unfolding str_eq last_slash
first_calls-Permitted x = (
  create_new path_a root_dir_string name_a 33188 x [] refl (refl, refl) refl (omega arith) refl
      refl,
  λ r fs' (_, ts, clock, e). (
    write_file path_a (fresh_stat 33188 ts) none (9 ∷ 8 ∷ []) 0 (ap (λ f. f path_a) e) (omega arith)
        (omega arith) (omega arith),
    λ r' fs'' effect. tt,
  ),
)

install_root-run_calls_example :
    Yields
      (install_root server trees posix_fuse >>= λ r. run_calls server trees posix_fuse first_calls)
      empty_memory
      (λ rs t.
        (ts : Timespec) × (fs : Fs) × Run posix_fuse posix_paths first_calls
          (root_tree (fresh_stat directory_755 ts))
          rs
          fs
        × Represents server server-IsReliable trees trees-IsLawful fs t
        × IsTree posix_fuse posix_paths fs)
unfolding server-IsReliable
install_root-run_calls_example =
    install_root-run_calls server server-IsReliable trees posix_fuse posix_paths trees-IsLawful
      first_calls empty_memory (λ c k. refl)
      (λ ts. first_calls-Permitted (fresh_stat directory_755 ts))

readdir-Fills_example :
    Yields (cbfuse_readdir server trees posix_fuse root_dir_string 0) one_memory (
      Fills server server-IsReliable trees posix_fuse trees-IsLawful
        (one_tree root_dir_string)
        0
        one_memory)
readdir-Fills_example =
    readdir-Fills server server-IsReliable trees posix_fuse trees-IsLawful one_tree root_dir_string
      0 one_memory one_memory-Represents
