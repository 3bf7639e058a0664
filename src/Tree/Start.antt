-- ===== src/Tree/Start.antt =====
-- The start of the program on an empty bucket makes the smallest tree.
use cbfuse.Prelude.{
  ℕ, pos, ◌≡◌, refl, sym, ap, ◌∙◌, Option, some, none, none-ne-some, List, [], CString, inl, inr,
}
use cbfuse.Common.{Collection, stats, dentries, blocks, root_dir_string}
use cbfuse.Io.{◌>>=◌}
use cbfuse.Io.Rules.{Yields, Yields-map, Yields-bind}
use cbfuse.Platform.{fresh_stat, directory_755, Stat, Timespec, Platform}
use cbfuse.Platform.Reliable.{IsReliable, Contents, put}
use cbfuse.Platform.Puts.{put_self, put_other, put_ne}
use cbfuse.Json.{CJson}
use cbfuse.Json.Lawful.{IsLawful}
use cbfuse.Cbfuse.{Fuse, install_root}
use cbfuse.Cbfuse.Calls.{Call, run_calls}
use cbfuse.Cbfuse.Root.{install_root-new}
use cbfuse.Tree.{Node, file, directory, Fs, set, IsPosix, IsTree}
use cbfuse.Tree.Names.{set-cases, set_self, lists-empty}
use cbfuse.Tree.Represents.{Represents, set-Represents}
use cbfuse.Tree.Runs.{Permitted, Run, run_calls-IsTree}

abbrev pub empty_tree : Fs
empty_tree k = none

-- The root, with no children.
abbrev pub root_tree : Stat → Fs
root_tree x = set root_dir_string (some (directory x [])) empty_tree

root_only :
    (x : Stat) (k : CString) (n : Node)
    → root_tree x k ≡ some n
    → (root_dir_string ≡ k) × (n ≡ directory x [])
root_only x k n h = elim (set-cases root_dir_string (some (directory x [])) empty_tree k) [
  | inl (same, e) ↦ (same, cc)
  | inr (other, e) ↦ absurd (none-ne-some n (sym e ∙ h))
]

pub root_tree-IsTree :
    {P : Platform} (F : Fuse P) (posix : IsPosix F) (x : Stat) → IsTree F posix (root_tree x)
root_tree-IsTree F posix x = record {
  root = (x, [], set_self root_dir_string (some (directory x [])) empty_tree);
  listed = λ q n h apart. absurd (apart (sym (root_only x q n h).0));
  leads = λ d m y ns h member.
      let e : directory y ns ≡ directory x [] = (root_only x d (directory y ns) h).1 in
      let empty : ns ≡ [] = cc in absurd (lists-empty m ns empty member);
  sizes = λ q y b h. let e : file y b ≡ directory x [] = (root_only x q (file y b) h).1 in cc;
}

module _ (P : Platform) (rel : IsReliable P) where
  open P use {State}
  open rel use {contents}

  abbrev pub IsEmpty : State → Type 0
  IsEmpty s = (c : Collection) (k : CString) → contents s c k ≡ none

module _ (P : Platform) (rel : IsReliable P) (J : CJson P) (F : Fuse P)
    (lawful : IsLawful P rel J) where
  open P use {State}
  open rel use {contents}

  pub install_root-Represents :
      (s : State)
      → IsEmpty P rel s
      → Yields (install_root P J F) s (λ r t.
        (r ≡ pos 0)
        × (ts : Timespec) × Represents P rel J lawful (root_tree (fresh_stat directory_755 ts)) t)
  install_root-Represents s empty =
      Yields-map
        (install_root-new P rel J F lawful s (empty stats root_dir_string)
          (empty dentries root_dir_string))
        λ r t (e, ts, clock, text, docs, made).
          let v : Option (List ℕ) = some (P.stat_bytes (fresh_stat directory_755 ts)) in
          let mid : Contents = put stats root_dir_string v (contents s) in
          (
            e,
            ts,
            set-Represents P rel J lawful empty_tree root_dir_string _ s t
                (λ j away c.
                  ap (λ f. f c j) docs
                  ∙ put_ne dentries c root_dir_string j (some text) mid away
                  ∙ put_ne stats c root_dir_string j v (contents s) away)
                (
                  ap (λ f. f stats root_dir_string) docs
                      ∙ put_other dentries stats root_dir_string root_dir_string (some text) mid
                          refl
                      ∙ put_self stats root_dir_string v (contents s),
                  made,
                  ap (λ f. f blocks root_dir_string) docs
                      ∙ put_other dentries blocks root_dir_string root_dir_string (some text) mid
                          refl
                      ∙ put_other stats blocks root_dir_string root_dir_string v (contents s) refl
                      ∙ empty blocks root_dir_string,
                )
                (λ k. (empty stats k, empty dentries k, empty blocks k)),
          )

module _ (P : Platform) (rel : IsReliable P) (J : CJson P) (F : Fuse P) (posix : IsPosix F)
    (lawful : IsLawful P rel J) where
  open P use {State}
  open rel use {contents}

  -- On an empty bucket the program installs its root, a directory with the mode S_IFDIR and
  -- 0755 and no children; and after any sequence of requests each of which is a move in every
  -- tree that the ones before it may lead to, by the moves that run_call-Effect lists, whatever
  -- the clock read at the start, the results are those of a sequence of moves from the tree of
  -- the root alone, and the documents represent a tree in which the root is a directory, every
  -- other node is listed by its parent, every listed name leads to a node, and the size in the
  -- stat of every file is the number of its bytes. The platform and cJSON are reliable.
  pub install_root-run_calls :
      (cs : List Call) (s : State)
      → IsEmpty P rel s
      → ((ts : Timespec) → Permitted F posix cs (root_tree (fresh_stat directory_755 ts)))
      → Yields (install_root P J F >>= λ r. run_calls P J F cs) s (λ rs t.
        (ts : Timespec) × (fs : Fs) × Run F posix cs (root_tree (fresh_stat directory_755 ts)) rs fs
        × Represents P rel J lawful fs t
        × IsTree F posix fs)
  install_root-run_calls cs s empty ok =
      Yields-bind (install_root-Represents P rel J F lawful s empty) λ r t (e, ts, R).
        Yields-map
          (run_calls-IsTree P rel J F posix lawful cs (root_tree (fresh_stat directory_755 ts)) t
            (root_tree-IsTree F posix (fresh_stat directory_755 ts)) (ok ts) R)
          λ rs u (fs, steps, R', T). (ts, fs, steps, R', T)
