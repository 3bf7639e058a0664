-- ===== src/Data.antt =====
-- cbfuse/data.c: the bytes of a file, kept in one block document.
pub mod Codes
pub mod Shared
pub mod Prepares
pub mod Stores
pub mod Cuts
pub mod Bytes
pub mod Blocks
pub mod Writes
pub mod Reads
pub mod Truncates
pub mod Resizes
pub mod NoBytes
pub mod TooLarge
use cbfuse.Prelude.{
  ℕ, ◌+◌, ◌-◌, ◌%◌, ℤ, pos, negsuc, negate, is_neg, is_negsuc, to_int, size_mod, Bool, true, false,
  not, ◌&&◌, Option, none, some, is_some, List, [], ◌∷◌, CString, ltb, leb, ◌==◌, if◌then◌else◌,
}
use cbfuse.Common.{blocks, max_file_len, enoent, eio, enomem, efbig}
use cbfuse.Io.{
  Io, pure, jump, perform, ◌>>=◌, ◌>>◌, Reply, ok, err, returning, finish, done_with, if_true,
  if_fr_error, if_null, deref, or_done, assign, read_bytes, read_from, copy_into,
}
use cbfuse.Platform.{
  Status, success, document_not_found, failure, Kind, StoreMode, in_collection, with_key,
  with_value, raw_value, Platform,
}
use cbfuse.Util.{memdupm}
use cbfuse.Sync.{SyncGetResult, sync_store}
use cbfuse.Sync.Commands.{if_lcb_fail, create, set_up, set_up_all, get_document, remove_document}
use cbfuse.Stats.{update_stat_atime, update_stat_size}

-- `get_result->value`, `get_result->nvalue` and `*new_block_size` of update_block, as they change.
pub record Block : Type 0 where
  pub value : Option (List ℕ)
  pub nvalue : ℕ
  pub new_block_size : Option ℕ

-- The status of the response to the store of a block.
abbrev pub store_code : Status → ℤ
store_code success = pos 0
store_code document_not_found = negate enoent
store_code (failure n) = negate eio

-- How many bytes a read copies.
abbrev pub trimmed : ℕ → ℕ → ℕ → ℕ
trimmed max_size offset nbuf =
    if ltb max_size ((offset + nbuf) % size_mod) then max_size - offset else nbuf

-- `if (fresult < 0) fresult = -1;`
abbrev pub minus_one : ℤ → ℤ
minus_one fr = if is_neg fr then negsuc 0 else fr

module _ (P : Platform) where
  open P use {State, malloc}

  unfoldable pub get_block : CString → Io State (Reply SyncGetResult)
  get_block pkey = returning (get_document P blocks pkey)

  -- Where there is no block: memory for a new one, or nothing to do for a truncate.
  unfoldable pub fresh_block : Bool → ℕ → Option ℕ → Io State Block
  fresh_block true nupdate out = do
    memory ← perform (malloc nupdate)
    value ← if_null memory (negate enomem)
    out' ← assign out nupdate
    pure (record { value = some value; nvalue = nupdate; new_block_size = out' })
  fresh_block false nupdate out = jump (pos 0)

  unfoldable pub current_block : Reply SyncGetResult → Bool → ℕ → Option ℕ → Io State Block
  current_block (ok r) is_not_truncate nupdate out =
      pure (record { value = r.value; nvalue = r.nvalue; new_block_size = out })
  current_block (err fr) is_not_truncate nupdate out =
      if is_negsuc 1 fr then fresh_block is_not_truncate nupdate out else jump fr

  -- `if (nupdate > get_result->nvalue)`: the NULL test is on the old value.
  unfoldable pub grown_block : ℕ → Block → Io State Block
  grown_block nupdate b =
      if ltb b.nvalue nupdate
      then (do
        new_data ← memdupm P b.value b.nvalue nupdate
        old ← if_null b.value (negate enomem)
        out' ← assign b.new_block_size nupdate
        pure (record { value = new_data; nvalue = nupdate; new_block_size = out' }))
      else pure b

  -- The data are put in, or the size alone is changed.
  unfoldable pub edited_block : Bool → Option (List ℕ) → ℕ → ℕ → ℕ → Block → Io State Block
  edited_block true buf nbuf offset nupdate b = do
    room ← grown_block nupdate b
    bytes ← read_bytes buf nbuf
    value ← copy_into room.value offset bytes
    pure (record room { value = some value })
  edited_block false buf nbuf offset nupdate b = pure (record b { nvalue = offset })

  -- What update_block will store: the block is fetched or made, and edited.
  unfoldable pub prepared_block :
      CString → Bool → Option (List ℕ) → ℕ → ℕ → ℕ → Option ℕ → Io State Block
  prepared_block pkey is_not_truncate buf nbuf offset nupdate out = do
    got ← get_block pkey
    block ← current_block got is_not_truncate nupdate out
    edited_block is_not_truncate buf nbuf offset nupdate block

  -- The library reads `nvalue` bytes behind `value` when the value is set.
  unfoldable pub store_block : CString → Option (List ℕ) → ℕ → Io State ℤ
  store_block pkey value nvalue = do
    created ← create P (Kind.store StoreMode.upsert)
    keyed ← set_up_all P (in_collection blocks ∷ raw_value ∷ with_key pkey ∷ []) created
    bytes ← read_bytes value nvalue
    cmd ← set_up P (with_value bytes) keyed
    ran ← sync_store P cmd
    if_lcb_fail ran.0 (negate eio)
    result ← deref ran.1
    pure (store_code result.status)

  -- `out` is `new_block_size`: NULL, or what the caller's variable holds.
  unfoldable pub update_block :
      CString → Option (List ℕ) → ℕ → ℕ → Option ℕ → Io State (ℤ × Option ℕ)
  update_block pkey buf nbuf offset out = done_with out do
    let is_not_truncate = is_some buf && ltb 0 nbuf
    let nupdate = (offset + nbuf) % size_mod
    if_true (ltb max_file_len nupdate) (negate efbig)
    edited ← prepared_block pkey is_not_truncate buf nbuf offset nupdate out
    done_with edited.new_block_size
        do fr ← store_block pkey edited.value edited.nvalue; pure (fr, edited.new_block_size)

  -- The result, and what has been copied to the caller's buffer.
  unfoldable pub read_data : CString → ℕ → ℕ → Io State (ℤ × List ℕ)
  read_data pkey nbuf offset = do
    ended ← done_with [] do
      got ← get_block pkey
      r ← or_done got
      if_true (leb r.nvalue offset) (pos 0)
      bytes ← read_from r.value offset (trimmed r.nvalue offset nbuf)
      done_with bytes do
        fr ← update_stat_atime P pkey
        if_fr_error fr
        pure (to_int (trimmed r.nvalue offset nbuf), bytes)
    pure (minus_one ended.0, ended.1)

  -- `if (new_block_size != 0)`
  unfoldable pub grow_stat : CString → ℕ → Io State (Unit {0})
  grow_stat pkey new_block_size =
      if not (new_block_size == 0)
      then (do fr ← update_stat_size P pkey new_block_size; if_fr_error fr)
      else pure tt

  unfoldable pub write_data : CString → Option (List ℕ) → ℕ → ℕ → Io State ℤ
  write_data pkey buf nbuf offset = do
    fr ← finish do
      if_true (ltb max_file_len ((offset + nbuf) % size_mod)) (negate efbig)
      updated ← update_block pkey buf nbuf offset (some 0)
      if_fr_error updated.0
      new_block_size ← deref updated.1
      grow_stat pkey new_block_size
      pure (to_int nbuf)
    pure (minus_one fr)

  unfoldable pub remove_data : CString → Io State ℤ
  remove_data pkey = finish do remove_document P blocks pkey; pure (pos 0)

  -- `offset == 0` removes the block, any other offset is an update with no data.
  unfoldable pub cut_block : CString → ℕ → Io State ℤ
  cut_block pkey offset =
      if offset == 0
      then remove_data pkey
      else (do updated ← update_block pkey none 0 offset none; pure updated.0)

  unfoldable pub truncate_data : CString → ℕ → Io State ℤ
  truncate_data pkey offset = finish do
    fr ← cut_block pkey offset
    if_fr_error fr
    fr' ← update_stat_size P pkey offset
    if_fr_error fr'
    pure fr'
