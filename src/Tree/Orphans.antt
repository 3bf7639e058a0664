-- ===== src/Tree/Orphans.antt =====
-- rmdir of a directory with children, in cbfuse/cbfuse.c.
use cbfuse.Prelude.{
  pos, ◌≡◌, ◌≢◌, refl, sym, ap, ◌∙◌, some, none, List, CString, inl, inr, some-injective,
  none-ne-some,
}
use cbfuse.Common.{root_dir_string}
use cbfuse.Io.Rules.{Yields, Yields-map}
use cbfuse.Platform.{Stat, Platform}
use cbfuse.Platform.Reliable.{IsReliable}
use cbfuse.Json.{CJson}
use cbfuse.Json.Lawful.{IsLawful}
use cbfuse.Dentries.Removal.{without}
use cbfuse.Cbfuse.{Fuse, cbfuse_rmdir}
use cbfuse.Tree.{Node, directory, Fs, set, IsPosix, Splits, IsTree}
use cbfuse.Tree.Names.{set_two-cases}
use cbfuse.Tree.Represents.{Represents}
use cbfuse.Tree.Removals.{rmdir-Represents}

module _ {P : Platform} (F : Fuse P) (posix : IsPosix F) (fs : Fs) (path dir q : CString)
    (apart : path ≢ dir) (splits : F.dirname (some path) ≡ some dir)
    (below : F.dirname (some q) ≡ some path) where
  child-other : path ≢ q
  child-other e =
      apart (some-injective path dir (sym below ∙ ap (λ p. F.dirname (some p)) (sym e) ∙ splits))

  -- A child whose directory is gone is a node that no directory lists.
  orphan-IsTree :
      (d n : Node)
      → fs q ≡ some n
      → q ≢ root_dir_string
      → ¬ IsTree F posix (set dir (some d) (set path none fs))
  orphan-IsTree d n there not_root T =
      let (n', h) = still in
      let (p, m, y, ns, normal, hd, hb, parent, member) = T.listed q n' h not_root in
      let same : p ≡ path = some-injective p path (sym hd ∙ below) in
      none-ne-some (directory y ns)
        (sym gone ∙ ap (set dir (some d) (set path none fs)) (sym same) ∙ parent)
    where
      gone : set dir (some d) (set path none fs) path ≡ none
      gone = elim (set_two-cases dir (some d) path none fs path) [
        | inl (same, e) ↦ absurd (apart (sym same))
        | inr (inl (other, same, e)) ↦ e
        | inr (inr (far, other, e)) ↦ absurd (other refl)
      ]

      still : (n' : Node) × (set dir (some d) (set path none fs) q ≡ some n')
      still = elim (set_two-cases dir (some d) path none fs q) [
        | inl (same, e) ↦ (d, e)
        | inr (inl (other, same, e)) ↦ absurd (child-other same)
        | inr (inr (far, other, e)) ↦ (n, e ∙ there)
      ]

module _ (P : Platform) (rel : IsReliable P) (J : CJson P) (F : Fuse P) (lawful : IsLawful P rel J)
    (posix : IsPosix F) where
  -- Where the documents represent the nodes of a file system, rmdir of a directory other than its
  -- parent, whose parent is a directory, and which is itself the parent of a node other than the
  -- root, returns 0 as for an empty directory: afterwards the documents represent the file system
  -- in which the directory is gone and its parent lists the other names, and this is no tree. The
  -- platform and cJSON are reliable.
  pub rmdir-orphans :
      (fs : Fs) (path dir name q : CString) (s : P.State) (x y : Stat) (kids names : List CString)
      (n : Node)
      → Represents P rel J lawful fs s
      → Splits F path dir name
      → path ≢ dir
      → fs path ≡ some (directory x kids)
      → fs dir ≡ some (directory y names)
      → F.dirname (some q) ≡ some path
      → fs q ≡ some n
      → q ≢ root_dir_string
      → Yields (cbfuse_rmdir P J F path) s (λ r t.
        (r ≡ pos 0)
        × (fs' : Fs) × Represents P rel J lawful fs' t
        × (fs' ≡ set dir (some (directory y (without name names))) (set path none fs))
        × (¬ IsTree F posix fs'))
  rmdir-orphans fs path dir name q s x y kids names n R splits apart there parent below child
        not_root =
      Yields-map
        (rmdir-Represents P rel J F lawful fs path dir name s R splits y names parent x kids apart
          there)
        λ r t (e, R'). (
          e,
          _,
          R',
          refl,
          orphan-IsTree F posix fs path dir q apart splits.0 below
              (directory y (without name names)) n child not_root,
        )
