-- ===== src/Sync.antt =====
-- cbfuse/sync_get.c, sync_store.c and sync_remove.c: a command is scheduled and waited for, and the
-- callback fills in a result struct.
pub mod Codes
pub mod Shared
pub mod Changes
pub mod Commits
pub mod Commands
pub mod Rules
pub mod Memory
pub mod Requests
pub mod Writes
pub mod Documents
use cbfuse.Prelude.{ℕ, Bool, true, false, Option, none, some, List, length, CString, if◌then◌else◌}
use cbfuse.Io.{Io, pure, perform, ◌>>=◌}
use cbfuse.Platform.{Status, success, is_success, Kind, Command, Response, Platform}
use cbfuse.Util.{strdup, memdup}

pub record SyncGetResult : Type 0 where
  pub status : Status
  pub key : Option CString
  pub nkey : ℕ
  pub value : Option (List ℕ)
  pub nvalue : ℕ
  pub cas : ℕ
  pub flags : ℕ

-- calloc sets every byte to 0, and LCB_SUCCESS is 0.
abbrev pub zeroed : SyncGetResult
zeroed = record {
  status = success;
  key = none;
  nkey = 0;
  value = none;
  nvalue = 0;
  cas = 0;
  flags = 0;
}

pub record SyncStoreResult : Type 0 where
  pub status : Status

pub record SyncRemoveResult : Type 0 where
  pub status : Status

abbrev pub allocated : {A : Type 0} → Bool → A → Option A
allocated true a = some a
allocated false a = none

module _ (P : Platform) where
  open P use {State, cmd_destroy, schedule, wait, calloc}

  sync_get_callback : Option SyncGetResult → Response → Io State (Option SyncGetResult)
  sync_get_callback none resp = pure none
  sync_get_callback (some result) resp =
      if is_success resp.status
      then (do
        key ← strdup P resp.key
        value ← memdup P (some resp.value) (length resp.value)
        pure (
            some (record {
              status = resp.status;
              key = key;
              nkey = resp.nkey;
              value = value;
              nvalue = length resp.value;
              cas = resp.cas;
              flags = resp.flags;
            })))
      else pure (some (record result { status = resp.status }))

  -- lcb_wait calls the callback if a response comes.
  get_delivered : Option SyncGetResult → Option Response → Io State (Option SyncGetResult)
  get_delivered result none = pure result
  get_delivered result (some resp) = sync_get_callback result resp

  unfoldable pub sync_get : Command → Io State (Status × Option SyncGetResult)
  unfolding get_delivered sync_get_callback
  sync_get cmd = do
    memory ← perform calloc
    let result = allocated memory zeroed
    rc ← perform (schedule cmd)
    if is_success rc
        then (do
          destroyed ← perform (cmd_destroy cmd.kind)
          waited ← perform wait
          filled ← get_delivered result waited.1
          pure (waited.0, filled))
        else pure (rc, result)

  sync_store_callback : Option SyncStoreResult → Response → Option SyncStoreResult
  sync_store_callback none resp = none
  sync_store_callback (some result) resp = some (record result { status = resp.status })

  store_delivered : Option SyncStoreResult → Option Response → Option SyncStoreResult
  store_delivered result none = result
  store_delivered result (some resp) = sync_store_callback result resp

  unfoldable pub sync_store : Command → Io State (Status × Option SyncStoreResult)
  unfolding store_delivered sync_store_callback
  sync_store cmd = do
    memory ← perform calloc
    let result = allocated memory (record { status = success })
    rc ← perform (schedule cmd)
    if is_success rc
        then (do
          destroyed ← perform (cmd_destroy cmd.kind)
          waited ← perform wait
          pure (waited.0, store_delivered result waited.1))
        else pure (rc, result)

  sync_remove_callback : Option SyncRemoveResult → Response → Option SyncRemoveResult
  sync_remove_callback none resp = none
  sync_remove_callback (some result) resp = some (record result { status = resp.status })

  remove_delivered : Option SyncRemoveResult → Option Response → Option SyncRemoveResult
  remove_delivered result none = result
  remove_delivered result (some resp) = sync_remove_callback result resp

  unfoldable pub sync_remove : Command → Io State (Status × Option SyncRemoveResult)
  unfolding remove_delivered sync_remove_callback
  sync_remove cmd = do
    memory ← perform calloc
    let result = allocated memory (record { status = success })
    rc ← perform (schedule cmd)
    if is_success rc
        then (do
          destroyed ← perform (cmd_destroy cmd.kind)
          waited ← perform wait
          pure (waited.0, remove_delivered result waited.1))
        else pure (rc, result)
