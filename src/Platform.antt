-- ===== src/Platform.antt =====
-- What cbfuse calls and does not implement: libcouchbase, libc, the layout of its own structs.
-- A command is what the program has set on it by calls that succeeded.
pub mod Reliable
pub mod Shared
pub mod Puts
use cbfuse.Prelude.{◌+◌, ◌*◌, ◌^◌, ◌≡◌, ℕ, ℤ, Bool, true, false, Option, none, some, List, CString}
use cbfuse.Common.{Collection}
use cbfuse.Io.{Io, perform}

-- lcb_STATUS: the program tells LCB_SUCCESS and LCB_ERR_DOCUMENT_NOT_FOUND from the rest.
pub data Status : Type 0 where
  success document_not_found : Status
  failure : ℕ → Status

abbrev pub is_success : Status → Bool
is_success success = true
is_success document_not_found = false
is_success (failure n) = false

-- LCB_STORE_INSERT, LCB_STORE_REPLACE and LCB_STORE_UPSERT
pub data StoreMode : Type 0 where
  insert replace upsert : StoreMode

-- lcb_CMDGET, lcb_CMDSTORE and lcb_CMDREMOVE
pub data Kind : Type 0 where
  get remove : Kind
  store : StoreMode → Kind

pub record Command : Type 0 where
  pub kind : Kind
  pub collection : Option Collection
  pub key : Option CString
  pub value : Option (List ℕ)
  pub is_raw : Bool
  pub cas : Option ℕ

-- One setter: lcb_cmd*_collection, _key, _value, _datatype(LCB_VALUE_RAW), _cas.
pub data Setting : Type 0 where
  in_collection : Collection → Setting
  with_key : CString → Setting
  with_value : List ℕ → Setting
  raw_value : Setting
  with_cas : ℕ → Setting

abbrev pub new_command : Kind → Command
new_command kind = record {
  kind = kind;
  collection = none;
  key = none;
  value = none;
  is_raw = false;
  cas = none;
}

abbrev pub set : Setting → Command → Command
set (in_collection c) cmd = record cmd { collection = some c }
set (with_key k) cmd = record cmd { key = some k }
set (with_value v) cmd = record cmd { value = some v }
set raw_value cmd = record cmd { is_raw = true }
set (with_cas n) cmd = record cmd { cas = some n }

-- What the callbacks read of a response: lcb_respget_key gives a pointer to a key and its length. `key`
-- is the text up to the first 0 behind that pointer, which a strdup copies; that there is one within
-- memory is taken for granted.
pub record Response : Type 0 where
  pub status : Status
  pub cas : ℕ
  pub flags : ℕ
  pub key : CString
  pub nkey : ℕ
  pub value : List ℕ

pub record Timespec : Type 0 where
  pub sec : ℤ
  pub nsec : ℤ

-- struct cbfuse_stat (cbfuse/stats.h)
pub record Stat : Type 0 where
  pub mode : ℕ
  pub atime : Timespec
  pub mtime : Timespec
  pub ctime : Timespec
  pub size : ℕ

-- The stat of a file or a directory that has just been made: one moment for its three times.
abbrev pub fresh_stat : ℕ → Timespec → Stat
fresh_stat mode ts = record { mode = mode; atime = ts; mtime = ts; ctime = ts; size = 0 }

-- The mode of a directory with the permissions 0755: its type is 4, in the bits from bit 12 on.
abbrev pub directory_755 : ℕ
directory_755 = 4 * 2 ^ 12 + (7 * 8 ^ 2 + (5 * 8 + 5))

-- `wait` gives the status of lcb_wait, and the response that came for the scheduled command while
-- it waited. `malloc` gives the bytes that happen to be in the new block. `calloc` says whether there
-- was memory for a zeroed result struct.
pub record Platform : Type 1 where
  pub State : Type 0
  pub cmd_create : Kind → State → Status × State
  pub cmd_set : Setting → State → Status × State
  pub cmd_destroy : Kind → State → Status × State
  pub schedule : Command → State → Status × State
  pub wait : State → (Status × Option Response) × State
  pub malloc : ℕ → State → Option (List ℕ) × State
  pub calloc : State → Bool × State
  pub clock_gettime : State → Option Timespec × State
  pub stat_struct_size : ℕ
  pub stat_bytes : Stat → List ℕ
  pub stat_of_bytes : List ℕ → Stat

-- A time that the clock has given.
pub record IsReading (P : Platform) (ts : Timespec) : Type 0 where
  pub moment : P.State
  pub reads : (P.clock_gettime moment).0 ≡ some ts
