-- ===== src/Cbfuse/Calls.antt =====
-- The table cb_filesystem_operations of cbfuse/cbfuse.c: which function FUSE calls for a request.
use cbfuse.Prelude.{ℕ, ℤ, pos, Option, List, [], ◌∷◌, CString}
use cbfuse.Io.{Io, pure, ◌>>=◌, Reply, ok, err}
use cbfuse.Platform.{Timespec, Platform}
use cbfuse.Json.{CJson}
use cbfuse.Cbfuse.{
  Fuse, cbfuse_getattr, cbfuse_open, cbfuse_readdir, cbfuse_create, cbfuse_unlink, cbfuse_read,
  cbfuse_write, cbfuse_chmod, cbfuse_truncate, cbfuse_utimens, cbfuse_mkdir, cbfuse_rmdir,
}

-- The requests of the table, with their arguments; cbfuse_init is in Main.
pub data Call : Type 0 where
  getattr : CString → Call
  open_file : CString → Call
  create : CString → ℕ → Call
  unlink : CString → Call
  read : CString → ℕ → ℕ → Call
  readdir : CString → ℕ → Call
  write : CString → Option (List ℕ) → ℕ → ℕ → Call
  chmod : CString → ℕ → Call
  truncate : CString → ℕ → Call
  utimens : CString → Option (Timespec × Timespec) → Call
  mkdir : CString → ℕ → Call
  rmdir : CString → Call

module _ (P : Platform) (J : CJson P) (F : Fuse P) where
  open P use {State}

  -- The result of a function with out-parameters.
  abbrev reply_code : {A : Type 0} → Reply A → ℤ
  reply_code (ok a) = pos 0
  reply_code (err fr) = fr

  -- Of getattr and of a read, the result without what is written for the caller.
  unfoldable pub run_call : Call → Io State ℤ
  run_call (getattr path) = do r ← cbfuse_getattr P J F path; pure (reply_code r)
  run_call (open_file path) = cbfuse_open P J F path
  run_call (create path mode) = cbfuse_create P J F path mode
  run_call (unlink path) = cbfuse_unlink P J F path
  run_call (read path size offset) = do r ← cbfuse_read P J F path size offset; pure (r.0)
  run_call (readdir path offset) = cbfuse_readdir P J F path offset
  run_call (write path buf size offset) = cbfuse_write P J F path buf size offset
  run_call (chmod path mode) = cbfuse_chmod P J F path mode
  run_call (truncate path offset) = cbfuse_truncate P J F path offset
  run_call (utimens path tv) = cbfuse_utimens P J F path tv
  run_call (mkdir path mode) = cbfuse_mkdir P J F path mode
  run_call (rmdir path) = cbfuse_rmdir P J F path

  -- FUSE runs in one thread, so one request ends before the next.
  unfoldable pub run_calls : List Call → Io State (List ℤ)
  run_calls [] = pure []
  run_calls (c ∷ cs) = do r ← run_call c; rs ← run_calls cs; pure (r ∷ rs)
