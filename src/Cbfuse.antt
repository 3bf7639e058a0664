-- ===== src/Cbfuse.antt =====
-- cbfuse/cbfuse.c: the operations that FUSE calls, and the root directory that main installs.
pub mod Codes
pub mod Shared
pub mod Files
pub mod Removal
pub mod Directories
pub mod Root
pub mod Listing
pub mod Sequences
pub mod Opens
pub mod Calls
use cbfuse.Prelude.{
  ℕ, ◌+◌, ◌/◌, ◌%◌, ℤ, pos, negate, is_zero, is_negsuc, Bool, true, false, not, Option, none, some,
  List, [], ◌∷◌, CString, length, ltb, leb, ◌==◌, if◌then◌else◌,
}
use cbfuse.Common.{stats, max_path_len, root_dir_string, enoent, ebadf, einval, enametoolong}
use cbfuse.Io.{
  Io, pure, perform, ◌>>=◌, ◌>>◌, Reply, ok, err, returning, finish, if_true, if_false, if_fr_error,
  if_null, or_done, read_bytes,
}
use cbfuse.Platform.{Kind, in_collection, with_key, Timespec, Stat, Platform}
use cbfuse.Util.{strdup}
use cbfuse.Sync.Commands.{create, set_up, run_get}
use cbfuse.Stats.{get_stat, insert_stat, remove_stat, update_stat_mode, update_stat_utimens}
use cbfuse.Data.{read_data, write_data, remove_data, truncate_data}
use cbfuse.Json.{CJson}
use cbfuse.Dentries.{
  get_dentry_json, add_new_dentry, add_child_to_dentry, remove_dentry, remove_child_from_dentry,
  children_of, if_not_array,
}

-- What the operations call of libgen and of FUSE: dirname and basename, which may return NULL, the
-- user and group of fuse_get_context, and the callback of readdir, which gets a name and an offset.
pub record Fuse (P : Platform) : Type 0 where
  pub dirname : Option CString → Option CString
  pub basename : Option CString → Option CString
  pub context : P.State → (ℕ × ℕ) × P.State
  pub filler : CString → ℕ → P.State → ℤ × P.State

-- The fields of struct stat that getattr sets.
pub record Attributes : Type 0 where
  pub uid : ℕ
  pub gid : ℕ
  pub stat : Stat

-- S_IFMT is four bits from bit 12 on: S_IFREG is 8 there and S_IFDIR is 4.
abbrev pub file_type : ℕ → ℕ
file_type mode = (mode / 4096) % 16

abbrev pub s_isreg : ℕ → Bool
s_isreg mode = file_type mode == 8

abbrev pub s_isdir : ℕ → Bool
s_isdir mode = file_type mode == 4

-- mode | S_IFDIR: bit 14 is set.
abbrev pub or_ifdir : ℕ → ℕ
or_ifdir mode = if (mode / 16384) % 2 == 0 then mode + 16384 else mode

-- S_IFDIR | 0755
abbrev pub root_mode : ℕ
root_mode = 16877

abbrev pub both : Option CString → Option CString → Option (CString × CString)
both (some d) (some b) = some (d, b)
both none b = none
both (some d) none = none

module _ (P : Platform) (J : CJson P) (F : Fuse P) where
  open P use {State, stat_struct_size, stat_of_bytes}
  open J use {Json, items, string_value}
  open F use {dirname, basename, context, filler}

  -- A path that is too long gives ENAMETOOLONG with no minus sign.
  unfoldable pub cbfuse_getattr : CString → Io State (Reply Attributes)
  cbfuse_getattr path = returning do
    created ← create P Kind.get
    cmd ← set_up P (in_collection stats) created
    if_true (ltb max_path_len (length path)) (pos enametoolong)
    keyed ← set_up P (with_key path) cmd
    result ← run_get P keyed
    if_true (not (result.nvalue == stat_struct_size)) (negate ebadf)
    fc ← perform context
    bytes ← read_bytes result.value stat_struct_size
    pure (record { uid = fc.0; gid = fc.1; stat = stat_of_bytes bytes })

  unfoldable pub cbfuse_open : CString → Io State ℤ
  cbfuse_open path = finish do
    if_true (ltb max_path_len (length path)) (pos enametoolong)
    got ← get_stat P path
    read ← or_done got
    pure (pos 0)

  -- The directory and the last name of a path, of two copies that dirname and basename may change.
  unfoldable pub split_path : CString → Io State (CString × CString)
  split_path path = do
    dirstr ← strdup P path
    basestr ← strdup P path
    if_null (both (dirname dirstr) (basename basestr)) (negate enoent)

  unfoldable pub cbfuse_create : CString → ℕ → Io State ℤ
  cbfuse_create path mode = finish do
    names ← split_path path
    if_false (s_isreg mode) (negate einval)
    if_true (ltb max_path_len (length path)) (pos enametoolong)
    inserted ← insert_stat P path mode
    if_fr_error inserted
    listed ← add_child_to_dentry P J names.0 names.1
    if_fr_error listed
    pure listed

  -- Only the last of the three results counts.
  unfoldable pub cbfuse_unlink : CString → Io State ℤ
  cbfuse_unlink path = finish do
    names ← split_path path
    removed_data ← remove_data P path
    unlisted ← remove_child_from_dentry P J names.0 names.1
    removed ← remove_stat P path
    if_fr_error removed
    pure removed

  -- The loop of readdir: `fr` is what the callback returned last.
  unfoldable pub fill_names : ℕ → ℕ → List Json → ℤ → Io State ℤ
  fill_names offset child_offset [] fr = pure fr
  fill_names offset child_offset (child ∷ children) fr =
      if leb offset child_offset
      then (do
        name ← if_null (string_value child) (pos 0)
        fr' ← perform (filler name (child_offset + 1))
        fill_names offset (child_offset + 1) children fr')
      else fill_names offset (child_offset + 1) children fr

  unfoldable pub cbfuse_readdir : CString → ℕ → Io State ℤ
  cbfuse_readdir path offset = finish do
    got ← get_dentry_json P J path
    parsed ← or_done got
    children ← if_not_array P J (children_of P J parsed) (pos 0)
    fill_names offset 0 (items children) (pos 0)

  unfoldable pub cbfuse_read : CString → ℕ → ℕ → Io State (ℤ × List ℕ)
  cbfuse_read path size offset = read_data P path size offset

  unfoldable pub cbfuse_write : CString → Option (List ℕ) → ℕ → ℕ → Io State ℤ
  cbfuse_write path buf size offset = write_data P path buf size offset

  unfoldable pub cbfuse_chmod : CString → ℕ → Io State ℤ
  cbfuse_chmod path mode = finish do fr ← update_stat_mode P path mode; if_fr_error fr; pure fr

  unfoldable pub cbfuse_truncate : CString → ℕ → Io State ℤ
  cbfuse_truncate path offset = finish do fr ← truncate_data P path offset; if_fr_error fr; pure fr

  unfoldable pub cbfuse_utimens : CString → Option (Timespec × Timespec) → Io State ℤ
  cbfuse_utimens path tv = finish do fr ← update_stat_utimens P path tv; if_fr_error fr; pure fr

  -- The test on the mode is of `mode | S_IFDIR`, which is never 0; the mode itself is stored.
  unfoldable pub cbfuse_mkdir : CString → ℕ → Io State ℤ
  cbfuse_mkdir path mode = finish do
    names ← split_path path
    if_false (not (or_ifdir mode == 0)) (negate einval)
    inserted ← insert_stat P path mode
    if_fr_error inserted
    added ← add_new_dentry P J path path (some names.0)
    if_fr_error added
    listed ← add_child_to_dentry P J names.0 names.1
    if_fr_error listed
    pure listed

  unfoldable pub cbfuse_rmdir : CString → Io State ℤ
  cbfuse_rmdir path = finish do
    names ← split_path path
    removed_entry ← remove_dentry P J path
    unlisted ← remove_child_from_dentry P J names.0 names.1
    removed ← remove_stat P path
    if_fr_error removed
    pure removed

  unfoldable pub insert_root : Io State ℤ
  insert_root = finish do
    inserted ← insert_stat P root_dir_string root_mode
    if_fr_error inserted
    added ← add_new_dentry P J root_dir_string root_dir_string none
    if_fr_error added
    pure added

  -- EXIT_FAILURE where a root directory cannot be installed.
  unfoldable pub missing_root : ℤ → Io State ℤ
  missing_root fr =
      if is_negsuc 1 fr
      then (do inserted ← insert_root; pure (if is_zero inserted then pos 0 else pos 1))
      else pure (pos 1)

  unfoldable pub checked_root : Reply Attributes → Io State ℤ
  checked_root (ok root) = pure (if s_isdir root.stat.mode then pos 0 else pos 1)
  checked_root (err fr) = missing_root fr

  -- The part of main before the mount: 0 goes on, EXIT_FAILURE ends the program.
  unfoldable pub install_root : Io State ℤ
  install_root = do got ← cbfuse_getattr root_dir_string; checked_root got
