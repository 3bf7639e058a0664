-- ===== src/Tree/Invariant.antt =====
-- Every move leaves a tree.
use cbfuse.Prelude.{
  ℕ, ◌+◌, ℤ, ◌≡◌, refl, ◌∙◌, Option, some, none, List, [], CString, length, take, length-take, ltb,
  Bool-cases, inl, inr, arith, if◌then◌else◌,
}
use cbfuse.Platform.{fresh_stat, Stat, Timespec, Platform}
use cbfuse.Data.Bytes.{IsWritten}
use cbfuse.Data.Writes.{bytes_of}
use cbfuse.Cbfuse.{Fuse}
use cbfuse.Cbfuse.Calls.{Call}
use cbfuse.Tree.{Node, file, directory, Fs, set, stat_of, restat, IsPosix, IsTree}
use cbfuse.Tree.Moves.{
  Move, Effect, create_new, create_again, unlink_file, mkdir_new, mkdir_again, rmdir_empty,
  read_file, read_end, read_fresh, truncate_fresh, write_file, write_too_big, truncate_file,
  truncate_all, chmod_node, chmod_missing, utimens_node, utimens_missing,
}
use cbfuse.Tree.Keeps.{file-IsTree, directory-IsTree}
use cbfuse.Tree.Adds.{IsFresh, added-IsTree}
use cbfuse.Tree.Removes.{removed-IsTree}

-- What create and mkdir make is fresh.
file-IsFresh : (mode : ℕ) (ts : Timespec) → IsFresh (file (fresh_stat mode ts) none)
file-IsFresh mode ts = record {
  no_children = λ y names e. cc;
  no_bytes = λ x b e.
      let stats_eq : x ≡ fresh_stat mode ts = cc in
      let bytes_eq : b ≡ none = cc in rw (stats_eq, bytes_eq) refl;
}

directory-IsFresh : (x : Stat) → IsFresh (directory x [])
directory-IsFresh x = record { no_children = λ y names e. cc; no_bytes = λ y b e. cc }

-- The bytes are as many after a write as the size says.
written_size :
    (x : Stat) (b : Option (List ℕ)) (d new : List ℕ) (offset : ℕ) (ts : Timespec)
    → x.size ≡ length (bytes_of b)
    → IsWritten (bytes_of b) offset d new
    → Stat.size (
        if ltb (length (bytes_of b)) (offset + length d)
        then record x { mtime = ts; size = offset + length d }
        else x)
      ≡ length new
written_size x b d new offset ts fits w =
    elim (Bool-cases (ltb (length (bytes_of b)) (offset + length d))) [
      | inl grows ↦ rw grows (ground (arith, w.size))
      | inr stays ↦ rw stays (ground (arith, w.size))
    ]

module _ {P : Platform} (F : Fuse P) (posix : IsPosix F) where
  restat-IsTree :
      (fs : Fs) (path : CString) (n : Node) (y : Stat)
      → fs path ≡ some n
      → y.size ≡ Stat.size (stat_of n)
      → IsTree F posix fs
      → IsTree F posix (set path (some (restat y n)) fs)
  restat-IsTree fs path (file x b) y there same T =
      file-IsTree F posix fs path x y b b there (same ∙ T.sizes path x b there) T
  restat-IsTree fs path (directory x names) y there same T =
      directory-IsTree F posix fs path x y names there T

  pub Effect-IsTree :
      {fs : Fs} {c : Call} (m : Move F posix fs c) (r : ℤ) (fs' : Fs)
      → Effect m r fs'
      → IsTree F posix fs
      → IsTree F posix fs'
  Effect-IsTree {fs} (create_new path dir name mode y names normal splits _ _ free parent) r fs'
        (_, ts, clock, e) T =
      rw e (
        added-IsTree F posix fs T path dir name (file (fresh_stat mode ts) none) y names normal
          splits (file-IsFresh mode ts) free parent)
  Effect-IsTree (create_again path dir name mode n _ _ _ _) r fs' (_, e) T = rw e T
  Effect-IsTree {fs} (unlink_file path dir name x b y names normal splits there parent) r fs' (_, e)
        T =
      let (z, ns, root) = T.root in
      rw e (
        removed-IsTree F posix fs T path dir name (file x b) y names normal splits (λ w ms h. cc)
          there parent (λ h. cc) (λ h. cc))
  Effect-IsTree {fs} (mkdir_new path dir name mode y names normal splits _ free parent) r fs'
        (_, ts, clock, e) T =
      rw e (
        added-IsTree F posix fs T path dir name (directory (fresh_stat mode ts) []) y names normal
          splits (directory-IsFresh (fresh_stat mode ts)) free parent)
  Effect-IsTree (mkdir_again path dir name mode n _ _) r fs' (_, e) T = rw e T
  Effect-IsTree {fs} (rmdir_empty path dir name x y names normal splits apart not_root there parent)
        r fs' (_, e) T =
      rw e (
        removed-IsTree F posix fs T path dir name (directory x []) y names normal splits
          (λ w ms h. cc) there parent apart not_root)
  Effect-IsTree {fs} (read_file path x v size offset there _ _ _) r fs' (_, ts, clock, e) T = rw e (
      file-IsTree F posix fs path x (record x { atime = ts }) (some v) (some v) there
        (T.sizes path x (some v) there) T)
  Effect-IsTree (read_end path x v size offset _ _) r fs' (_, e) T = rw e T
  Effect-IsTree (read_fresh path x size offset _) r fs' (_, e) T = rw e T
  Effect-IsTree {fs} (write_file path x b d offset there _ _ _) r fs' (_, new, w, ts, clock, e) T =
      rw e (
        file-IsTree F posix fs path x _ b (some new) there
          (written_size x b d new offset ts (T.sizes path x b there) w) T)
  Effect-IsTree (write_too_big path buf size offset _ _) r fs' (_, e) T = rw e T
  Effect-IsTree {fs} (truncate_file path x v offset there _ inside _) r fs' (_, ts, clock, e) T =
      rw e (
        file-IsTree F posix fs path x _ (some v) (some (take offset v)) there
          (ground (arith, length-take offset v)) T)
  Effect-IsTree {fs} (truncate_all path x v there) r fs' (_, ts, clock, e) T =
      rw e (file-IsTree F posix fs path x _ (some v) none there refl T)
  Effect-IsTree (truncate_fresh path x _) r fs' (_, e) T = rw e T
  Effect-IsTree {fs} (chmod_node path n mode there) r fs' (_, e) T =
      rw e (restat-IsTree fs path n (record (stat_of n) { mode = mode }) there refl T)
  Effect-IsTree (chmod_missing path mode _) r fs' (_, e) T = rw e T
  Effect-IsTree {fs} (utimens_node path n tv there) r fs' (_, access, modified, times, e) T = rw e (
      restat-IsTree fs path n (record (stat_of n) { atime = access; mtime = modified }) there refl
        T)
  Effect-IsTree (utimens_missing path tv _) r fs' (_, e) T = rw e T
