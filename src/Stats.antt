-- ===== src/Stats.antt =====
-- cbfuse/stats.c: the stat document of each path.
pub mod Codes
pub mod Shared
pub mod Times
pub mod Reads
pub mod Updates
use cbfuse.Prelude.{
  ℕ, ℤ, pos, negate, is_negsuc, Bool, true, not, ◌==◌, ◌||◌, Option, none, some, List, [], ◌∷◌,
  CString, if◌then◌else◌,
}
use cbfuse.Common.{stats, eio, ebadf}
use cbfuse.Io.{
  Io, pure, perform, ◌>>=◌, ◌>>◌, Reply, returning, finish, if_true, if_null, or_done, read_bytes,
}
use cbfuse.Platform.{
  StoreMode, Setting, in_collection, with_key, with_value, raw_value, with_cas, Timespec, Stat,
  Platform,
}
use cbfuse.Sync.Commands.{get_document, store_document, remove_document}

-- `cbfuse_stat stat = {0};` with the mode and the times of a new entry.
abbrev pub new_stat : ℕ → Timespec → Stat
new_stat mode ts = record { mode = mode; atime = ts; mtime = ts; ctime = ts; size = 0 }

-- UTIME_NOW is -1 and UTIME_OMIT is -2.
abbrev pub is_utime_now : Timespec → Bool
is_utime_now tv = is_negsuc 0 tv.nsec

abbrev pub is_utime_omit : Timespec → Bool
is_utime_omit tv = is_negsuc 1 tv.nsec

-- One of the two times of utimensat(2): the present, the old one, or the one that is given.
abbrev pub chosen_time : Timespec → Timespec → Timespec → Timespec
chosen_time tv ts_now old =
    if is_utime_now tv then ts_now else if not (is_utime_omit tv) then tv else old

-- The stat after utimensat; with no times, both are the present.
abbrev pub with_times : Option (Timespec × Timespec) → Timespec → Stat → Stat
with_times none ts_now stat = record stat { atime = ts_now; mtime = ts_now }
with_times (some (access, modified)) ts_now stat = record stat {
  atime = chosen_time access ts_now stat.atime;
  mtime = chosen_time modified ts_now stat.mtime;
}

abbrev pub needs_now : Option (Timespec × Timespec) → Bool
needs_now none = true
needs_now (some (access, modified)) = is_utime_now access || is_utime_now modified

-- The setters of insert_stat, in their order.
abbrev pub insert_settings : CString → List ℕ → List Setting
insert_settings pkey bytes = raw_value ∷ in_collection stats ∷ with_key pkey ∷ with_value bytes ∷ []

-- The setters of the four updates, in their order.
abbrev pub replace_settings : CString → List ℕ → ℕ → List Setting
replace_settings pkey bytes cas =
    in_collection stats ∷ raw_value ∷ with_cas cas ∷ with_key pkey ∷ with_value bytes ∷ []

module _ (P : Platform) where
  open P use {State, clock_gettime, stat_struct_size, stat_bytes, stat_of_bytes}

  -- The struct and the CAS value are the out-parameters.
  unfoldable pub get_stat : CString → Io State (Reply (Stat × ℕ))
  get_stat pkey = returning do
    result ← get_document P stats pkey
    if_true (not (result.nvalue == stat_struct_size)) (negate ebadf)
    bytes ← read_bytes result.value stat_struct_size
    pure (stat_of_bytes bytes, result.cas)

  -- IfFalseGotoDoneWithRef((clock_gettime(CLOCK_REALTIME, &ts) == 0), -EIO, ...)
  unfoldable pub get_time : Io State Timespec
  get_time = do ts ← perform clock_gettime; if_null ts (negate eio)

  unfoldable pub insert_stat : CString → ℕ → Io State ℤ
  insert_stat pkey mode = finish do
    ts ← get_time
    store_document P StoreMode.insert (insert_settings pkey (stat_bytes (new_stat mode ts)))
    pure (pos 0)

  unfoldable pub remove_stat : CString → Io State ℤ
  remove_stat pkey = finish do remove_document P stats pkey; pure (pos 0)

  -- The last part of every update: the struct goes back, if the document is still the one read.
  unfoldable pub write_back : CString → Stat → ℕ → Io State (Unit {0})
  write_back pkey stat cas =
      store_document P StoreMode.replace (replace_settings pkey (stat_bytes stat) cas)

  unfoldable pub update_stat_atime : CString → Io State ℤ
  update_stat_atime pkey = finish do
    got ← get_stat pkey
    read ← or_done got
    ts ← get_time
    write_back pkey (record (read.0) { atime = ts }) read.1
    pure (pos 0)

  -- The clock is read only where one of the times is the present; `unread` stands for ts_now else.
  unfoldable pub update_stat_utimens : CString → Option (Timespec × Timespec) → Io State ℤ
  update_stat_utimens pkey tv = finish do
    got ← get_stat pkey
    read ← or_done got
    ts_now ← if needs_now tv then get_time else pure read.0.atime
    write_back pkey (with_times tv ts_now read.0) read.1
    pure (pos 0)

  unfoldable pub update_stat_size : CString → ℕ → Io State ℤ
  update_stat_size pkey size = finish do
    got ← get_stat pkey
    read ← or_done got
    ts ← get_time
    write_back pkey (record (read.0) { mtime = ts; size = size }) read.1
    pure (pos 0)

  unfoldable pub update_stat_mode : CString → ℕ → Io State ℤ
  update_stat_mode pkey mode = finish do
    got ← get_stat pkey
    read ← or_done got
    write_back pkey (record (read.0) { mode = mode }) read.1
    pure (pos 0)
