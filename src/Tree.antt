-- ===== src/Tree.antt =====
-- What the file system promises: a tree of files and directories, and the effect of each operation of
-- cbfuse/cbfuse.c on it. The three collections of documents are one representation of such a tree.
pub mod Names
pub mod Moves
pub mod Keeps
pub mod Adds
pub mod Removes
pub mod Invariant
pub mod Represents
pub mod Files
pub mod Directories
pub mod Removals
pub mod Orphans
pub mod Runs
pub mod Views
pub mod Start
use Prim.Native.Nat.{min}
use cbfuse.Prelude.{
  ℕ, ◌+◌, ◌-◌, ◌≤◌, ◌<◌, ◌^◌, size_mod, ℤ, pos, negsuc, negate, ◌≡◌, ◌≢◌, Bool, true, false, Option,
  none, some, List, [], ◌∷◌, ◌++◌, CString, length, take, ltb, str_eq, if◌then◌else◌,
}
use cbfuse.Common.{max_path_len, max_file_len, root_dir_string, enoent}
use cbfuse.Platform.{fresh_stat, Timespec, Stat, Platform}
use cbfuse.Data.Bytes.{IsWritten}
use cbfuse.Data.Writes.{bytes_of}
use cbfuse.Dentries.Removal.{without}
use cbfuse.Cbfuse.{Fuse, s_isreg}
use cbfuse.Cbfuse.Calls.{Call}

-- A file has a stat and perhaps a block; a directory has a stat and the names of its children.
pub data Node : Type 0 where
  file : Stat → Option (List ℕ) → Node
  directory : Stat → List CString → Node

abbrev pub Fs : Type 0
Fs = CString → Option Node

abbrev pub set : CString → Option Node → Fs → Fs
set path n fs j = if str_eq path j then n else fs j

abbrev pub stat_of : Node → Stat
stat_of (file x b) = x
stat_of (directory x names) = x

abbrev pub restat : Stat → Node → Node
restat y (file x b) = file y b
restat y (directory x names) = directory y names

-- Whether a name is among the children.
unfoldable pub lists : CString → List CString → Bool
lists name [] = false
lists name (n ∷ ns) = let rest = lists name ns in if str_eq n name then true else rest

-- Normal paths, as FUSE gives them: a directory and a last name determine a path.
pub record IsPosix {P : Platform} (F : Fuse P) : Type 1 where
  pub IsNormal : CString → Type 0
  pub dirname-basename :
      (p q d n : CString)
      → IsNormal p
      → IsNormal q
      → F.dirname (some p) ≡ some d
      → F.dirname (some q) ≡ some d
      → F.basename (some p) ≡ some n
      → F.basename (some q) ≡ some n
      → p ≡ q

-- The directory and the last name of a path.
abbrev pub Splits : {P : Platform} → Fuse P → CString → CString → CString → Type 0
Splits F path dir name = (F.dirname (some path) ≡ some dir) × (F.basename (some path) ≡ some name)

module _ {P : Platform} (F : Fuse P) (posix : IsPosix F) (fs : Fs) where
  -- The parent of a path is a directory, which lists the path's last name.
  abbrev pub Listed : CString → Type 0
  Listed path =
      (dir : CString) × (name : CString) × (y : Stat) × (names : List CString) × posix.IsNormal path
      × (F.dirname (some path) ≡ some dir)
      × (F.basename (some path) ≡ some name)
      × (fs dir ≡ some (directory y names))
      × (lists name names ≡ true)

  -- A name that a directory lists leads to a node.
  abbrev pub Leads : CString → CString → Type 0
  Leads dir name =
      (path : CString) × (n : Node) × posix.IsNormal path
      × (F.dirname (some path) ≡ some dir)
      × (F.basename (some path) ≡ some name)
      × (fs path ≡ some n)

  -- The root is a directory; every other node is listed by its parent; every listed name leads to a
  -- node; and the size of every file is the number of its bytes.
  pub record IsTree : Type 0 where
    pub root : (y : Stat) × (names : List CString) × (fs root_dir_string ≡ some (directory y names))
    pub listed :
        (path : CString) (n : Node) → fs path ≡ some n → path ≢ root_dir_string → Listed path
    pub leads :
        (dir name : CString) (y : Stat) (names : List CString)
        → fs dir ≡ some (directory y names)
        → lists name names ≡ true
        → Leads dir name
    pub sizes :
        (path : CString) (x : Stat) (b : Option (List ℕ))
        → fs path ≡ some (file x b)
        → x.size ≡ length (bytes_of b)
