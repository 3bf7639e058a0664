-- ===== src/Examples/Directories.antt =====
-- The theorems about directories at the root directory of the server in memory.
use cbfuse.Prelude.{
  pos, ◌≡◌, ◌≢◌, refl, ap, none, some, [], ◌∷◌, CString, codes, arith, str_eq, false≢true, length,
  ◌==◌,
}
use cbfuse.Common.{stats, dentries, blocks, dentry_children}
use cbfuse.Io.Rules.{Yields}
use cbfuse.Platform.{fresh_stat}
use cbfuse.Platform.Reliable.{put}
use cbfuse.Sync.Rules.{Same}
use cbfuse.Dentries.{remove_child_from_dentry}
use cbfuse.Dentries.Entries.{HasChildren, HasChildren-at, Relisted}
use cbfuse.Dentries.Removal.{remove_child_from_dentry-Yields}
use cbfuse.Cbfuse.{
  cbfuse_create, cbfuse_unlink, cbfuse_mkdir, cbfuse_rmdir, install_root, cbfuse_readdir,
}
use cbfuse.Cbfuse.Files.{Created, create-new}
use cbfuse.Cbfuse.Removal.{Removed, unlink-removes, rmdir-removes}
use cbfuse.Cbfuse.Directories.{MadeDir, mkdir-new}
use cbfuse.Cbfuse.Root.{Installed, install_root-new}
use cbfuse.Cbfuse.Listing.{offer, readdir-offers}
use cbfuse.Examples.Fits.{empty-AllFit, stored-AllFit}
use cbfuse.Examples.Server.{Memory, server, empty_docs, empty_memory, stat_cells, now}
use cbfuse.Examples.Laws.{server-IsReliable}
use cbfuse.Examples.Json.{
  Tree, string, no_items, item, no_members, member, find, is_list, items_of, print_tree, top, trees,
  in_root,
}
use cbfuse.Examples.JsonLaws.{run-print_tree, trees-IsLawful}

abbrev root : CString
root = codes "/"

-- The entry of a root directory with the children a and b.
abbrev root_tree : Tree
root_tree =
    member dentry_children
      (item (item no_items (string (some (codes "a")))) (string (some (codes "b")))) no_members

abbrev root_memory : Memory
root_memory = record {
  docs = put dentries root (some (print_tree root_tree)) empty_docs;
  docs_fit =
      stored-AllFit dentries root (print_tree root_tree) empty_docs (omega arith, tt) empty-AllFit;
  version = 3;
  pending = none;
}

root-HasChildren :
    HasChildren server server-IsReliable trees trees-IsLawful root
      (codes "a" ∷ codes "b" ∷ [])
      root_memory
unfolding server-IsReliable put str_eq find is_list items_of
root-HasChildren = (
  root_tree,
  (print_tree root_tree, refl, λ u. ap top (run-print_tree root_tree [])),
  (item (item no_items (string (some (codes "a")))) (string (some (codes "b"))), refl, refl, refl),
)

remove_child_from_dentry-Yields_example :
    Yields
      (remove_child_from_dentry server trees root (codes "a"))
      root_memory
      (Relisted server server-IsReliable trees trees-IsLawful root (codes "b" ∷ []) root_memory)
unfolding str_eq
remove_child_from_dentry-Yields_example =
    remove_child_from_dentry-Yields server server-IsReliable trees trees-IsLawful root (codes "a")
      (codes "a" ∷ codes "b" ∷ []) root_memory root-HasChildren

create-new_example :
    Yields (cbfuse_create server trees (in_root (codes "c")) (codes "/c") 33188) root_memory (
      Created server server-IsReliable trees
        (in_root (codes "c"))
        trees-IsLawful
        (codes "/c")
        root
        (codes "c")
        33188
        (codes "a" ∷ codes "b" ∷ [])
        root_memory)
unfolding server-IsReliable put str_eq
create-new_example =
    create-new server server-IsReliable trees (in_root (codes "c")) trees-IsLawful (codes "/c") root
      (codes "c") 33188 (codes "a" ∷ codes "b" ∷ []) root_memory refl refl refl (omega arith) refl
      root-HasChildren

-- The root directory with a directory under the name a.
abbrev full_memory : Memory
full_memory = record root_memory {
  docs =
      put stats (codes "/a") (some (stat_cells (fresh_stat 493 now)))
        (put dentries (codes "/a") (some (print_tree root_tree)) root_memory.docs);
  docs_fit =
      stored-AllFit stats (codes "/a") (stat_cells (fresh_stat 493 now)) _
        (omega arith, omega arith)
        (stored-AllFit dentries (codes "/a") (print_tree root_tree) _ (omega arith, tt)
          root_memory.docs_fit);
}

full-HasChildren :
    HasChildren server server-IsReliable trees trees-IsLawful root
      (codes "a" ∷ codes "b" ∷ [])
      full_memory
unfolding server-IsReliable put str_eq
full-HasChildren =
    HasChildren-at server server-IsReliable trees trees-IsLawful root (codes "a" ∷ codes "b" ∷ [])
      root_memory full_memory refl root-HasChildren

a-ne-root : codes "/a" ≢ root
a-ne-root h = false≢true (ap (λ s. length s == 1) h)

unlink-removes_example :
    Yields (cbfuse_unlink server trees (in_root (codes "a")) (codes "/a")) full_memory (
      Removed server server-IsReliable trees
        (in_root (codes "a"))
        trees-IsLawful
        (codes "/a")
        root
        (codes "a")
        blocks
        (codes "a" ∷ codes "b" ∷ [])
        full_memory)
unfolding server-IsReliable put str_eq
unlink-removes_example =
    unlink-removes server server-IsReliable trees (in_root (codes "a")) trees-IsLawful (codes "/a")
      root (codes "a") (codes "a" ∷ codes "b" ∷ []) (stat_cells (fresh_stat 493 now)) full_memory
      refl refl refl full-HasChildren

rmdir-removes_example :
    Yields (cbfuse_rmdir server trees (in_root (codes "a")) (codes "/a")) full_memory (
      Removed server server-IsReliable trees
        (in_root (codes "a"))
        trees-IsLawful
        (codes "/a")
        root
        (codes "a")
        dentries
        (codes "a" ∷ codes "b" ∷ [])
        full_memory)
unfolding server-IsReliable put str_eq
rmdir-removes_example =
    rmdir-removes server server-IsReliable trees (in_root (codes "a")) trees-IsLawful (codes "/a")
      root (codes "a") (codes "a" ∷ codes "b" ∷ []) (stat_cells (fresh_stat 493 now))
      (print_tree root_tree) full_memory a-ne-root refl refl refl refl full-HasChildren

mkdir-new_example :
    Yields (cbfuse_mkdir server trees (in_root (codes "a")) (codes "/a") 493) root_memory (
      MadeDir server server-IsReliable trees
        (in_root (codes "a"))
        trees-IsLawful
        (codes "/a")
        root
        (codes "a")
        493
        (codes "a" ∷ codes "b" ∷ [])
        root_memory)
unfolding server-IsReliable put str_eq
mkdir-new_example =
    mkdir-new server server-IsReliable trees (in_root (codes "a")) trees-IsLawful (codes "/a") root
      (codes "a") 493 (codes "a" ∷ codes "b" ∷ []) root_memory a-ne-root (omega arith) refl refl
      refl refl root-HasChildren

install_root-new_example :
    Yields
      (install_root server trees (in_root (codes "a")))
      empty_memory
      (Installed server server-IsReliable trees (in_root (codes "a")) trees-IsLawful empty_memory)
unfolding server-IsReliable
install_root-new_example =
    install_root-new server server-IsReliable trees (in_root (codes "a")) trees-IsLawful
      empty_memory refl refl

readdir-offers_example :
    Yields (cbfuse_readdir server trees (in_root (codes "a")) root 1) root_memory (λ fr t.
      (u : Memory) × Same server server-IsReliable root_memory u
      × ((fr, t) ≡ offer server trees (in_root (codes "a")) ((codes "b", 2) ∷ []) (pos 0) u))
readdir-offers_example =
    readdir-offers server server-IsReliable trees (in_root (codes "a")) trees-IsLawful root 1
      (codes "a" ∷ codes "b" ∷ []) root_memory root-HasChildren
