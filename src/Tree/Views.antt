-- ===== src/Tree/Views.antt =====
-- What getattr and readdir show of a tree.
use cbfuse.Prelude.{ℕ, ◌≤◌, ℤ, pos, negate, ◌≡◌, Option, some, none, CString, length, drop}
use cbfuse.Common.{dentries, max_path_len, enoent}
use cbfuse.Io.{Reply, ok, err}
use cbfuse.Io.Rules.{
  Yields, Yields-map, Ends→Yields, Ends-then, Ends-jump, Ends-jump_at, Ends-finish_jump,
}
use cbfuse.Platform.{Platform}
use cbfuse.Platform.Reliable.{IsReliable}
use cbfuse.Sync.Rules.{Same}
use cbfuse.Json.{CJson}
use cbfuse.Json.Lawful.{IsLawful}
use cbfuse.Dentries.Entries.{get_dentry_json-missing}
use cbfuse.Cbfuse.{Fuse, Attributes, cbfuse_getattr, cbfuse_readdir}
use cbfuse.Cbfuse.Files.{getattr-stored}
use cbfuse.Cbfuse.Listing.{numbered, offer, readdir-offers}
use cbfuse.Cbfuse.Root.{getattr-missing}
use cbfuse.Tree.{Node, file, directory, Fs, stat_of}
use cbfuse.Tree.Represents.{At, Represents}

-- The reply to getattr of a path with or without a node.
abbrev pub Shows : Option Node → Reply Attributes → Type 0
Shows none r = r ≡ err (negate enoent)
Shows (some n) r = (a : Attributes) × (r ≡ ok a) × (a.stat ≡ stat_of n)

module _ (P : Platform) (rel : IsReliable P) (J : CJson P) (F : Fuse P)
    (lawful : IsLawful P rel J) where
  open P use {State}
  open rel use {contents}

  getattr-At :
      (n : Option Node) (path : CString) (s : State)
      → length path ≤ max_path_len
      → At P rel J lawful n path s
      → Yields (cbfuse_getattr P J F path) s (λ r t. Shows n r)
  getattr-At none path s short (h, h', h'') =
      Yields-map (Ends→Yields _ (getattr-missing P rel J F path s short h)) λ r t (e, same). e
  getattr-At (some (file x b)) path s short (h, h', h'') = getattr-stored P rel J F path x s short h
  getattr-At (some (directory x names)) path s short (h, h', h'') =
      getattr-stored P rel J F path x s short h

  -- Where the documents represent a tree, getattr of a path within the longest length reports the
  -- stat of its node, be it a file or a directory, and -ENOENT where the tree has no node. The
  -- platform and cJSON are reliable.
  pub getattr-Shows :
      (fs : Fs) (path : CString) (s : State)
      → Represents P rel J lawful fs s
      → length path ≤ max_path_len
      → Yields (cbfuse_getattr P J F path) s (λ r t. Shows (fs path) r)
  getattr-Shows fs path s R short = getattr-At (fs path) path s short (R path)

  -- The reply to readdir: for a directory the callback gets the names from the offset on, with the
  -- offsets behind them; any other path has no entry.
  abbrev pub Fills : Option Node → ℕ → State → ℤ → State → Type 0
  Fills none offset s fr t = (fr ≡ negate enoent) × Same P rel s t
  Fills (some (file x b)) offset s fr t = (fr ≡ negate enoent) × Same P rel s t
  Fills (some (directory x names)) offset s fr t =
      (u : State) × Same P rel s u
      × ((fr, t) ≡ offer P J F (drop offset (numbered 0 names)) (pos 0) u)

  readdir-missing :
      (path : CString) (offset : ℕ) (s : State)
      → contents s dentries path ≡ none
      → Yields (cbfuse_readdir P J F path offset) s (λ fr t. (fr ≡ negate enoent) × Same P rel s t)
  unfolding cbfuse_readdir
  readdir-missing path offset s gone = Ends→Yields (negate enoent) (
      Ends-finish_jump (
        Ends-then _ (get_dentry_json-missing P rel J lawful path s gone)
          λ t same. Ends-jump _ (Ends-jump_at (negate enoent) t same)))

  readdir-At :
      (n : Option Node) (path : CString) (offset : ℕ) (s : State)
      → At P rel J lawful n path s
      → Yields (cbfuse_readdir P J F path offset) s (Fills n offset s)
  readdir-At none path offset s (h, h', h'') = readdir-missing path offset s h'
  readdir-At (some (file x b)) path offset s (h, h', h'') = readdir-missing path offset s h'
  readdir-At (some (directory x names)) path offset s (h, h', h'') =
      readdir-offers P rel J F lawful path offset names s h'

  -- Where the documents represent a tree, readdir of a directory calls the callback once for each
  -- of its names from the offset on, in their order, with the offset behind the name, from a
  -- state with the same documents, and returns what the last call returned, or 0 after none; of a
  -- file and of a path with no node it reports -ENOENT, and changes no document. The platform and
  -- cJSON are reliable.
  pub readdir-Fills :
      (fs : Fs) (path : CString) (offset : ℕ) (s : State)
      → Represents P rel J lawful fs s
      → Yields (cbfuse_readdir P J F path offset) s (Fills (fs path) offset s)
  readdir-Fills fs path offset s R = readdir-At (fs path) path offset s (R path)
