-- ===== src/Tree/Moves.antt =====
-- Requests in a tree, with what has been looked up before them, and their effects.
use Prim.Native.Nat.{min}
use cbfuse.Prelude.{
  ℕ, ◌+◌, ◌-◌, ◌≤◌, ◌<◌, ◌^◌, size_mod, ℤ, pos, negsuc, negate, ◌≡◌, ◌≢◌, true, Option, none, some,
  List, [], ◌∷◌, ◌++◌, CString, length, take, ltb, if◌then◌else◌,
}
use cbfuse.Common.{max_path_len, max_doc_len, max_file_len, root_dir_string, enoent}
use cbfuse.Platform.{fresh_stat, Timespec, Stat, IsReading, Platform}
use cbfuse.Stats.Times.{AreTimes}
use cbfuse.Data.Bytes.{IsWritten}
use cbfuse.Data.Writes.{bytes_of}
use cbfuse.Dentries.Removal.{without}
use cbfuse.Cbfuse.{Fuse, s_isreg}
use cbfuse.Cbfuse.Calls.{Call}
use cbfuse.Tree.{Node, file, directory, Fs, set, stat_of, restat, IsPosix, Splits}

-- A request in this tree, with what has been looked up before.
pub data Move {P : Platform} (F : Fuse P) (posix : IsPosix F) (fs : Fs) : Call → Type 0 where
  create_new :
      (path dir name : CString) (mode : ℕ) (y : Stat) (names : List CString)
      → posix.IsNormal path
      → Splits F path dir name
      → s_isreg mode ≡ true
      → length path ≤ max_path_len
      → fs path ≡ none
      → fs dir ≡ some (directory y names)
      → Move F posix fs (Call.create path mode)
  create_again :
      (path dir name : CString) (mode : ℕ) (n : Node)
      → Splits F path dir name
      → s_isreg mode ≡ true
      → length path ≤ max_path_len
      → fs path ≡ some n
      → Move F posix fs (Call.create path mode)
  unlink_file :
      (path dir name : CString) (x : Stat) (b : Option (List ℕ)) (y : Stat) (names : List CString)
      → posix.IsNormal path
      → Splits F path dir name
      → fs path ≡ some (file x b)
      → fs dir ≡ some (directory y names)
      → Move F posix fs (Call.unlink path)
  mkdir_new :
      (path dir name : CString) (mode : ℕ) (y : Stat) (names : List CString)
      → posix.IsNormal path
      → Splits F path dir name
      → length path ≤ max_path_len
      → fs path ≡ none
      → fs dir ≡ some (directory y names)
      → Move F posix fs (Call.mkdir path mode)
  mkdir_again :
      (path dir name : CString) (mode : ℕ) (n : Node)
      → Splits F path dir name
      → fs path ≡ some n
      → Move F posix fs (Call.mkdir path mode)
  rmdir_empty :
      (path dir name : CString) (x y : Stat) (names : List CString)
      → posix.IsNormal path
      → Splits F path dir name
      → path ≢ dir
      → path ≢ root_dir_string
      → fs path ≡ some (directory x [])
      → fs dir ≡ some (directory y names)
      → Move F posix fs (Call.rmdir path)
  read_file :
      (path : CString) (x : Stat) (v : List ℕ) (size offset : ℕ)
      → fs path ≡ some (file x (some v))
      → offset < length v
      → size < 2 ^ 31
      → offset + size < size_mod
      → Move F posix fs (Call.read path size offset)
  read_end :
      (path : CString) (x : Stat) (v : List ℕ) (size offset : ℕ)
      → fs path ≡ some (file x (some v))
      → length v ≤ offset
      → Move F posix fs (Call.read path size offset)
  read_fresh :
      (path : CString) (x : Stat) (size offset : ℕ)
      → fs path ≡ some (file x none)
      → Move F posix fs (Call.read path size offset)
  write_file :
      (path : CString) (x : Stat) (b : Option (List ℕ)) (d : List ℕ) (offset : ℕ)
      → fs path ≡ some (file x b)
      → 0 < length d
      → offset + length d ≤ max_doc_len
      → length d < 2 ^ 31
      → Move F posix fs (Call.write path (some d) (length d) offset)
  write_too_big :
      (path : CString) (buf : Option (List ℕ)) (size offset : ℕ)
      → max_file_len < offset + size
      → offset + size < size_mod
      → Move F posix fs (Call.write path buf size offset)
  truncate_file :
      (path : CString) (x : Stat) (v : List ℕ) (offset : ℕ)
      → fs path ≡ some (file x (some v))
      → 0 < offset
      → offset ≤ length v
      → offset ≤ max_file_len
      → Move F posix fs (Call.truncate path offset)
  truncate_all :
      (path : CString) (x : Stat) (v : List ℕ)
      → fs path ≡ some (file x (some v))
      → Move F posix fs (Call.truncate path 0)
  truncate_fresh :
      (path : CString) (x : Stat)
      → fs path ≡ some (file x none)
      → Move F posix fs (Call.truncate path 0)
  chmod_node :
      (path : CString) (n : Node) (mode : ℕ)
      → fs path ≡ some n
      → Move F posix fs (Call.chmod path mode)
  chmod_missing :
      (path : CString) (mode : ℕ) → fs path ≡ none → Move F posix fs (Call.chmod path mode)
  utimens_node :
      (path : CString) (n : Node) (tv : Option (Timespec × Timespec))
      → fs path ≡ some n
      → Move F posix fs (Call.utimens path tv)
  utimens_missing :
      (path : CString) (tv : Option (Timespec × Timespec))
      → fs path ≡ none
      → Move F posix fs (Call.utimens path tv)

-- The result of a request and the tree after it. The times are readings of the clock, and memory
-- decides the bytes of a gap.
abbrev pub Effect :
    {P : Platform} {F : Fuse P} {posix : IsPosix F} {fs : Fs} {c : Call}
    → Move F posix fs c
    → ℤ
    → Fs
    → Type 0
Effect {P} {fs = fs} (create_new path dir name mode y names _ _ _ _ _ _) r fs' =
    (r ≡ pos 0)
    × (ts : Timespec) × IsReading P ts
    × (fs'
        ≡ set dir (some (directory y (names ++ (name ∷ []))))
            (set path (some (file (fresh_stat mode ts) none)) fs))
Effect {P} {fs = fs} (create_again path dir name mode n _ _ _ _) r fs' =
    (r ≡ negate enoent) × (fs' ≡ fs)
Effect {P} {fs = fs} (unlink_file path dir name x b y names _ _ _ _) r fs' =
    (r ≡ pos 0) × (fs' ≡ set dir (some (directory y (without name names))) (set path none fs))
Effect {P} {fs = fs} (mkdir_new path dir name mode y names _ _ _ _ _) r fs' =
    (r ≡ pos 0)
    × (ts : Timespec) × IsReading P ts
    × (fs'
        ≡ set dir (some (directory y (names ++ (name ∷ []))))
            (set path (some (directory (fresh_stat mode ts) [])) fs))
Effect {P} {fs = fs} (mkdir_again path dir name mode n _ _) r fs' = (r ≡ negate enoent) × (fs' ≡ fs)
Effect {P} {fs = fs} (rmdir_empty path dir name x y names _ _ _ _ _ _) r fs' =
    (r ≡ pos 0) × (fs' ≡ set dir (some (directory y (without name names))) (set path none fs))
Effect {P} {fs = fs} (read_file path x v size offset _ _ _ _) r fs' =
    (r ≡ pos (min size (length v - offset)))
    × (ts : Timespec) × IsReading P ts
    × (fs' ≡ set path (some (file (record x { atime = ts }) (some v))) fs)
Effect {P} {fs = fs} (read_end path x v size offset _ _) r fs' = (r ≡ pos 0) × (fs' ≡ fs)
Effect {P} {fs = fs} (read_fresh path x size offset _) r fs' = (r ≡ negsuc 0) × (fs' ≡ fs)
Effect {P} {fs = fs} (write_file path x b d offset _ _ _ _) r fs' =
    (r ≡ pos (length d))
    × (new : List ℕ) × IsWritten (bytes_of b) offset d new
    × (ts : Timespec) × (ltb (length (bytes_of b)) (offset + length d) ≡ true → IsReading P ts)
    × (fs'
        ≡ set path
            (some (
              file
                (if ltb (length (bytes_of b)) (offset + length d)
                  then record x { mtime = ts; size = offset + length d }
                  else x)
                (some new)))
            fs)
Effect {P} {fs = fs} (write_too_big path buf size offset _ _) r fs' = (r ≡ negsuc 0) × (fs' ≡ fs)
Effect {P} {fs = fs} (truncate_file path x v offset _ _ _ _) r fs' =
    (r ≡ pos 0)
    × (ts : Timespec) × IsReading P ts
    × (fs'
        ≡ set path (some (file (record x { mtime = ts; size = offset }) (some (take offset v)))) fs)
Effect {P} {fs = fs} (truncate_all path x v _) r fs' =
    (r ≡ pos 0)
    × (ts : Timespec) × IsReading P ts
    × (fs' ≡ set path (some (file (record x { mtime = ts; size = 0 }) none)) fs)
Effect {P} {fs = fs} (truncate_fresh path x _) r fs' = (r ≡ negate enoent) × (fs' ≡ fs)
Effect {P} {fs = fs} (chmod_node path n mode _) r fs' =
    (r ≡ pos 0) × (fs' ≡ set path (some (restat (record (stat_of n) { mode = mode }) n)) fs)
Effect {P} {fs = fs} (chmod_missing path mode _) r fs' = (r ≡ negate enoent) × (fs' ≡ fs)
Effect {P} {fs = fs} (utimens_node path n tv _) r fs' =
    (r ≡ pos 0)
    × (access : Timespec) × (modified : Timespec) × AreTimes P tv (stat_of n) access modified
    × (fs'
        ≡ set path (some (restat (record (stat_of n) { atime = access; mtime = modified }) n)) fs)
Effect {P} {fs = fs} (utimens_missing path tv _) r fs' = (r ≡ negate enoent) × (fs' ≡ fs)
