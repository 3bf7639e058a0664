-- ===== src/Tree/Runs.antt =====
-- The operations of cbfuse/cbfuse.c refine the tree, one by one and in sequences.
use cbfuse.Prelude.{ℤ, negsuc, ◌≡◌, refl, none, List, [], ◌∷◌}
use cbfuse.Io.Rules.{Yields, Yields-map, Yields-bind, Yields-pure}
use cbfuse.Platform.{Platform}
use cbfuse.Platform.Reliable.{IsReliable}
use cbfuse.Data.Writes.{write_data-too_big}
use cbfuse.Json.{CJson}
use cbfuse.Json.Lawful.{IsLawful}
use cbfuse.Cbfuse.{Fuse, cbfuse_write}
use cbfuse.Cbfuse.Calls.{Call, run_call, run_calls}
use cbfuse.Tree.{Fs, IsPosix, IsTree}
use cbfuse.Tree.Moves.{
  Move, Effect, create_new, create_again, unlink_file, mkdir_new, mkdir_again, rmdir_empty,
  read_file, read_end, read_fresh, truncate_fresh, write_file, write_too_big, truncate_file,
  truncate_all, chmod_node, chmod_missing, utimens_node, utimens_missing,
}
use cbfuse.Tree.Invariant.{Effect-IsTree}
use cbfuse.Tree.Represents.{Represents}
use cbfuse.Tree.Files.{
  chmod_node-Holds, utimens_node-Holds, missing-Holds, read_file-Holds, read_end-Holds,
  read_fresh-Holds, truncate_fresh-Holds, write_file-Holds, truncate_file-Holds, truncate_all-Holds,
}
use cbfuse.Tree.Directories.{
  create_new-Represents, create_again-Represents, mkdir_new-Represents, mkdir_again-Represents,
}
use cbfuse.Tree.Removals.{unlink_file-Represents, rmdir-Represents}

module _ {P : Platform} (F : Fuse P) (posix : IsPosix F) where
  -- Each request is a move in every tree that those before it may lead to, whatever the clock and memory
  -- do.
  abbrev pub Permitted : List Call → Fs → Type 0
  Permitted [] fs = Unit
  Permitted (c ∷ cs) fs =
      (m : Move F posix fs c) × ((r : ℤ) (fs' : Fs) → Effect m r fs' → Permitted cs fs')

  -- A sequence of requests with their results, from one tree to another.
  abbrev pub Run : List Call → Fs → List ℤ → Fs → Type 0
  Run [] fs rs fs' = (rs ≡ []) × (fs' ≡ fs)
  Run (c ∷ cs) fs rs fs' =
      (m : Move F posix fs c) × (r : ℤ) × (mid : Fs) × (rest : List ℤ) × (rs ≡ r ∷ rest)
      × Effect m r mid
      × Run cs mid rest fs'

  Run-IsTree :
      (cs : List Call) (fs : Fs) (rs : List ℤ) (fs' : Fs)
      → Run cs fs rs fs'
      → IsTree F posix fs
      → IsTree F posix fs'
  Run-IsTree [] fs rs fs' (_, e) T = rw e T
  Run-IsTree (c ∷ cs) fs rs fs' (m, r, mid, rest, _, effect, more) T =
      Run-IsTree cs mid rest fs' more (Effect-IsTree F posix m r mid effect T)

module _ (P : Platform) (rel : IsReliable P) (J : CJson P) (F : Fuse P) (posix : IsPosix F)
    (lawful : IsLawful P rel J) where
  open P use {State}

  -- The result and the tree that the state represents afterwards are those of the move.
  abbrev pub Simulates : {fs : Fs} {c : Call} → Move F posix fs c → ℤ → State → Type 0
  Simulates m r t = (fs' : Fs) × Effect m r fs' × Represents P rel J lawful fs' t

  -- Where the documents represent a tree, each move in it, a request together with what has
  -- been looked up before, is answered with the result that the tree gives it, and the
  -- documents afterwards represent a tree that the move may lead to. The moves are: create of a
  -- regular file at a normal free path of at most 250 characters in a directory, and of such a
  -- path that is taken; mkdir of a normal free path of at most 250 characters in a directory,
  -- and of one that is taken; unlink of a file; rmdir of a directory other than the root and
  -- its own parent that lists nothing; reads of fewer than 2 ^ 31 bytes inside the block of a
  -- file, reads behind it, and reads of a file with no block, which give -1; writes of some
  -- bytes, fewer than 2 ^ 31, that end within the largest size of a document, and writes that
  -- pass the largest file size; truncates of a file with a block to at most its length, and of
  -- one with no block to 0, which gives -ENOENT; and chmod and utimens of any path; where
  -- offset and size are added, the sum is less than 2 ^ 64. New times are readings of the
  -- clock. The platform and cJSON are reliable.
  pub run_call-Effect :
      {fs : Fs} {c : Call} (m : Move F posix fs c) (s : State)
      → Represents P rel J lawful fs s
      → Yields (run_call P J F c) s (Simulates m)
  unfolding run_call cbfuse_write
  run_call-Effect {fs} (create_new path dir name mode y names _ splits regular short free parent) s
        R =
      Yields-map
        (create_new-Represents P rel J F lawful fs path dir name s R splits y names parent mode
          regular short free)
        λ r t (e, ts, clock, R'). (_, (e, ts, clock, refl), R')
  run_call-Effect {fs} (create_again path dir name mode n splits regular short there) s R =
      Yields-map
        (create_again-Represents P rel J F lawful fs path dir name s R splits mode n regular short
          there)
        λ r t (e, R'). (fs, (e, refl), R')
  run_call-Effect {fs} (unlink_file path dir name x b y names _ splits there parent) s R =
      Yields-map
        (unlink_file-Represents P rel J F lawful fs path dir name s R splits y names parent x b
          there)
        λ r t (e, R'). (_, (e, refl), R')
  run_call-Effect {fs} (mkdir_new path dir name mode y names _ splits short free parent) s R =
      Yields-map
        (mkdir_new-Represents P rel J F lawful fs path dir name s R splits y names parent mode short
          free)
        λ r t (e, ts, clock, R'). (_, (e, ts, clock, refl), R')
  run_call-Effect {fs} (mkdir_again path dir name mode n splits there) s R =
      Yields-map (mkdir_again-Represents P rel J F lawful fs path dir name s R splits mode n there)
        λ r t (e, R'). (fs, (e, refl), R')
  run_call-Effect {fs} (rmdir_empty path dir name x y names _ splits apart _ there parent) s R =
      Yields-map
        (rmdir-Represents P rel J F lawful fs path dir name s R splits y names parent x [] apart
          there)
        λ r t (e, R'). (_, (e, refl), R')
  run_call-Effect {fs} (read_file path x v size offset there inside small no_wrap) s R =
      Yields-map
        (read_file-Holds P rel J F lawful fs path s R x v size offset there inside small no_wrap)
        λ r t (e, ts, clock, R'). (_, (e, ts, clock, refl), R')
  run_call-Effect {fs} (read_end path x v size offset there past) s R =
      Yields-map (read_end-Holds P rel J F lawful fs path s R x v size offset there past)
        λ r t (e, R'). (fs, (e, refl), R')
  run_call-Effect {fs} (read_fresh path x size offset there) s R =
      Yields-map (read_fresh-Holds P rel J F lawful fs path s R x size offset there)
        λ r t (e, R'). (fs, (e, refl), R')
  run_call-Effect {fs} (write_file path x b d offset there some_data fits small) s R =
      Yields-map
        (write_file-Holds P rel J F lawful fs path s R x b d offset there some_data fits small)
        λ r t (e, new, written, ts, clock, R'). (_, (e, new, written, ts, clock, refl), R')
  run_call-Effect {fs} (write_too_big path buf size offset big no_wrap) s R = record {
    result = negsuc 0;
    after = s;
    runs = write_data-too_big P rel path buf size offset s big no_wrap;
    holds = (fs, (refl, refl), R);
  }
  run_call-Effect {fs} (truncate_file path x v offset there positive inside fits) s R =
      Yields-map
        (truncate_file-Holds P rel J F lawful fs path s R x v offset there positive inside fits)
        λ r t (e, ts, clock, R'). (_, (e, ts, clock, refl), R')
  run_call-Effect {fs} (truncate_all path x v there) s R =
      Yields-map (truncate_all-Holds P rel J F lawful fs path s R x v there)
        λ r t (e, ts, clock, R'). (_, (e, ts, clock, refl), R')
  run_call-Effect {fs} (truncate_fresh path x there) s R =
      Yields-map (truncate_fresh-Holds P rel J F lawful fs path s R x there)
        λ r t (e, R'). (fs, (e, refl), R')
  run_call-Effect {fs} (chmod_node path n mode there) s R =
      Yields-map (chmod_node-Holds P rel J F lawful fs path s R n mode there)
        λ r t (e, R'). (_, (e, refl), R')
  run_call-Effect {fs} (chmod_missing path mode gone) s R =
      Yields-map (missing-Holds P rel J F lawful fs path s R mode none gone).0
        λ r t (e, R'). (fs, (e, refl), R')
  run_call-Effect {fs} (utimens_node path n tv there) s R =
      Yields-map (utimens_node-Holds P rel J F lawful fs path s R n tv there)
        λ r t (e, access, modified, times, R'). (_, (e, access, modified, times, refl), R')
  run_call-Effect {fs} (utimens_missing path tv gone) s R =
      Yields-map (missing-Holds P rel J F lawful fs path s R 0 tv gone).1
        λ r t (e, R'). (fs, (e, refl), R')

  run_calls-Run :
      (cs : List Call) (fs : Fs) (s : State)
      → Permitted F posix cs fs
      → Represents P rel J lawful fs s
      → Yields
          (run_calls P J F cs)
          s
          (λ rs t. (fs' : Fs) × Run F posix cs fs rs fs' × Represents P rel J lawful fs' t)
  unfolding run_calls
  run_calls-Run [] fs s ok R = Yields-pure [] s (fs, (refl, refl), R)
  run_calls-Run (c ∷ cs) fs s (m, after) R =
      Yields-bind (run_call-Effect m s R) λ r t (mid, effect, R').
        Yields-bind (run_calls-Run cs mid t (after r mid effect) R') λ rest u (fs', more, R'').
          Yields-pure (r ∷ rest) u (fs', (m, r, mid, rest, refl, effect, more), R'')

  -- Where the documents represent a tree in which the root is a directory, every other node is
  -- listed by its parent, every listed name leads to a node, and the size in the stat of every
  -- file is the number of its bytes, any sequence of requests each of which is a move in every
  -- tree that the ones before it may lead to, by the moves that run_call-Effect lists, runs to
  -- its end; its results and its last documents are those of a sequence of moves, and the last
  -- documents represent such a tree again. The platform and cJSON are reliable.
  pub run_calls-IsTree :
      (cs : List Call) (fs : Fs) (s : State)
      → IsTree F posix fs
      → Permitted F posix cs fs
      → Represents P rel J lawful fs s
      → Yields (run_calls P J F cs) s (λ rs t.
        (fs' : Fs) × Run F posix cs fs rs fs'
        × Represents P rel J lawful fs' t
        × IsTree F posix fs')
  run_calls-IsTree cs fs s T ok R =
      Yields-map (run_calls-Run cs fs s ok R)
        λ rs t (fs', steps, R'). (fs', steps, R', Run-IsTree F posix cs fs rs fs' steps T)
