-- ===== src/Sync/Commands.antt =====
-- The parts of a request that every operation repeats: a command is created, set up and run, and
-- both the status of the call and the status of the response are checked.
use cbfuse.Prelude.{ℤ, negate, List, [], ◌∷◌, CString}
use cbfuse.Common.{Collection, eio, enoent}
use cbfuse.Io.{Io, pure, jump, perform, ◌>>=◌, ◌>>◌, deref}
use cbfuse.Platform.{
  Status, success, document_not_found, failure, StoreMode, Kind, Command, Setting, in_collection,
  with_key, new_command, set, Platform,
}
use cbfuse.Sync.{SyncGetResult, sync_get, sync_store, sync_remove}

-- IfLCBFailGotoDone and IfLCBFailGotoDoneWithRef
abbrev pub if_lcb_fail : {S : Type 0} → Status → ℤ → Io S (Unit {0})
if_lcb_fail success fr = pure tt
if_lcb_fail document_not_found fr = jump fr
if_lcb_fail (failure n) fr = jump fr

module _ (P : Platform) where
  open P use {State, cmd_create, cmd_set}

  -- rc = lcb_cmd*_create(&cmd); IfLCBFailGotoDone(rc, -EIO);
  unfoldable pub create : Kind → Io State Command
  create kind = do
    rc ← perform (cmd_create kind)
    if_lcb_fail rc (negate eio)
    pure (new_command kind)

  -- rc = lcb_cmd*_...(cmd, ...); IfLCBFailGotoDone(rc, -EIO);
  unfoldable pub set_up : Setting → Command → Io State Command
  set_up x cmd = do rc ← perform (cmd_set x); if_lcb_fail rc (negate eio); pure (set x cmd)

  unfoldable pub set_up_all : List Setting → Command → Io State Command
  set_up_all [] cmd = pure cmd
  set_up_all (x ∷ xs) cmd = do next ← set_up x cmd; set_up_all xs next

  -- The status of the call fails with -EIO, that of the response with -ENOENT.
  unfoldable pub run_get : Command → Io State SyncGetResult
  run_get cmd = do
    ran ← sync_get P cmd
    if_lcb_fail ran.0 (negate eio)
    result ← deref ran.1
    if_lcb_fail result.status (negate enoent)
    pure result

  unfoldable pub run_store : Command → Io State (Unit {0})
  run_store cmd = do
    ran ← sync_store P cmd
    if_lcb_fail ran.0 (negate eio)
    result ← deref ran.1
    if_lcb_fail result.status (negate enoent)

  unfoldable pub run_remove : Command → Io State (Unit {0})
  run_remove cmd = do
    ran ← sync_remove P cmd
    if_lcb_fail ran.0 (negate eio)
    result ← deref ran.1
    if_lcb_fail result.status (negate enoent)

  -- lcb_cmdget_create, _collection, _key and sync_get, as in get_stat, get_block, get_dentry_json
  unfoldable pub get_document : Collection → CString → Io State SyncGetResult
  get_document c k = do
    created ← create Kind.get
    cmd ← set_up_all (in_collection c ∷ with_key k ∷ []) created
    run_get cmd

  -- lcb_cmdstore_create, the setters in the order of the caller, and sync_store
  unfoldable pub store_document : StoreMode → List Setting → Io State (Unit {0})
  store_document mode settings = do
    created ← create (Kind.store mode)
    cmd ← set_up_all settings created
    run_store cmd

  -- lcb_cmdremove_create, _collection, _key and sync_remove
  unfoldable pub remove_document : Collection → CString → Io State (Unit {0})
  remove_document c k = do
    created ← create Kind.remove
    cmd ← set_up_all (in_collection c ∷ with_key k ∷ []) created
    run_remove cmd
