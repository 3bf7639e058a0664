-- ===== src/Main.antt =====
-- main of cbfuse/cbfuse.c: the options, the connection to the server, the root directory, the mount.
pub mod Mounts
pub mod Credentials
use cbfuse.Prelude.{
  ℕ, ℤ, pos, Bool, true, false, Option, none, some, List, [], ◌∷◌, CString, codes, length, ltb,
  ◌==◌, if◌then◌else◌,
}
use cbfuse.Common.{max_doc_len}
use cbfuse.Io.{
  Io, pure, perform, crash, ◌>>=◌, ◌>>◌, Reply, ok, err, returning, done_with, if_false,
  if_fr_error,
}
use cbfuse.Platform.{Status, Platform}
use cbfuse.Sync.Commands.{if_lcb_fail}
use cbfuse.Json.{CJson}
use cbfuse.Cbfuse.{Fuse, install_root}

-- The fields of struct cbfuse_config.
pub data Field : Type 0 where
  connect_field username_field password_field : Field

-- The keys that the option processor gets; libfuse sends others for what is in no template.
pub data Key : Type 0 where
  key_help key_version other_key : Key

-- What an option does: it sets a field, or calls the option processor.
pub data Action : Type 0 where
  sets : Field → Action
  calls : Key → Action

pub record Config : Type 0 where
  pub cb_connect : Option CString
  pub cb_username : Option CString
  pub cb_password : Option CString

abbrev pub cbfuse_opts : List (CString × Action)
cbfuse_opts =
    (codes "cb_connect=%s", sets connect_field)
    ∷ (codes "--cb_connect=%s", sets connect_field)
    ∷ (codes "cb_username=%s", sets username_field)
    ∷ (codes "--cb_username=%s", sets username_field)
    ∷ (codes "cb_password=%s", sets password_field)
    ∷ (codes "--cb_password=%s", sets password_field)
    ∷ (codes "-V", calls key_version)
    ∷ (codes "--version", calls key_version)
    ∷ (codes "-h", calls key_help)
    ∷ (codes "--help", calls key_help)
    ∷ []

-- What fuse_opt_parse leaves: its result, the other arguments, the fields, and the keys with which it
-- called the option processor, in their order.
pub record Parsed : Type 0 where
  pub result : ℤ
  pub args : List CString
  pub config : Config
  pub keys : List Key

-- The options of lcb_create; no credentials are set where neither is given.
pub record CreateOptions : Type 0 where
  pub connstr : CString
  pub credentials : Option (CString × CString)

pub data Callback : Type 0 where
  open_callback get_callback store_callback remove_callback : Callback

-- What main calls beside the operations. lcb_create says whether it has set the instance.
pub record Host (P : Platform) : Type 0 where
  pub getuid : P.State → ℕ × P.State
  pub geteuid : P.State → ℕ × P.State
  pub fuse_opt_parse : List (CString × Action) → List CString → P.State → Parsed × P.State
  pub fuse_opt_add_arg : List CString → CString → P.State → (ℤ × List CString) × P.State
  pub fuse_main : List CString → P.State → ℤ × P.State
  pub lcb_create : CreateOptions → P.State → (Status × Bool) × P.State
  pub lcb_connect : P.State → Status × P.State
  pub lcb_wait : P.State → Status × P.State
  pub lcb_get_bootstrap_status : P.State → Status × P.State
  pub lcb_install_callback : Callback → P.State → Unit {0} × P.State
  pub lcb_open : CString → P.State → Status × P.State
  pub lcb_destroy : P.State → Unit {0} × P.State

-- The fields of struct fuse_conn_info that cbfuse_init sets; of `want`, the bit FUSE_CAP_BIG_WRITES.
pub record Connection : Type 0 where
  pub max_readahead : ℕ
  pub max_write : ℕ
  pub wants_big_writes : Bool
  pub async_read : Bool

-- fuse_main calls it with the connection to the kernel.
abbrev pub cbfuse_init : Connection → Connection
cbfuse_init conn = record conn {
  max_readahead = max_doc_len;
  max_write = max_doc_len;
  wants_big_writes = true;
  async_read = false;
}

-- How the program ends: main returns, or exit is called.
pub data Ending : Type 0 where
  returned : ℤ → Ending
  exited : ℕ → Ending

abbrev pub bucket : CString
bucket = codes "cbfuse"

module _ (P : Platform) (J : CJson P) (F : Fuse P) (H : Host P) where
  open P use {State}
  open H use {
    getuid, geteuid, fuse_opt_parse, fuse_opt_add_arg, fuse_main, lcb_create, lcb_connect, lcb_wait,
    lcb_get_bootstrap_status, lcb_install_callback, lcb_open, lcb_destroy,
  }

  -- `(getuid() == 0) || (geteuid() == 0)`
  unfoldable pub runs_as_root : Io State Bool
  runs_as_root = do
    uid ← perform getuid
    if uid == 0 then pure true else (do euid ← perform geteuid; pure (euid == 0))

  -- The status with which the processor ends the program, if it does.
  unfoldable pub cbfuse_opt_proc : List CString → Key → Io State (Option ℕ)
  cbfuse_opt_proc args key_help = pure (some 1)
  cbfuse_opt_proc args key_version = do
    added ← perform (fuse_opt_add_arg args (codes "--version"))
    fr ← perform (fuse_main added.1)
    pure (some 0)
  cbfuse_opt_proc args other_key = pure none

  -- The calls that libfuse makes of the processor: here they come after the parse, with the arguments
  -- that are left at its end, where libfuse makes them during the parse.
  unfoldable pub run_procs : List CString → List Key → Io State (Option ℕ)
  run_procs args [] = pure none
  run_procs args (key ∷ keys) = do
    stop ← cbfuse_opt_proc args key
    elim stop [ some status ↦ pure (some status) | none ↦ run_procs args keys ]

  -- One thread, in the foreground.
  unfoldable pub prepare : Parsed → Io State (List CString)
  prepare parsed = do
    if_fr_error parsed.result
    single ← perform (fuse_opt_add_arg parsed.args (codes "-s"))
    if_fr_error single.0
    foreground ← perform (fuse_opt_add_arg single.1 (codes "-f"))
    if_fr_error foreground.0
    pure foreground.1

  -- With one of the two missing, strlen gets a NULL.
  unfoldable pub credentials_of :
      Option CString → Option CString → Io State (Option (CString × CString))
  credentials_of none none = pure none
  credentials_of (some username) (some password) = pure (some (username, password))
  credentials_of (some username) none = crash
  credentials_of none (some password) = crash

  unfoldable pub connect : Io State (Unit {0})
  connect = do
    connecting ← perform lcb_connect
    if_lcb_fail connecting (pos 1)
    connected ← perform lcb_wait
    if_lcb_fail connected (pos 1)
    booted ← perform lcb_get_bootstrap_status
    if_lcb_fail booted (pos 1)
    perform (lcb_install_callback open_callback)
    perform (lcb_install_callback get_callback)
    perform (lcb_install_callback store_callback)
    perform (lcb_install_callback remove_callback)
    opening ← perform (lcb_open bucket)
    if_lcb_fail opening (pos 1)
    opened ← perform lcb_wait
    if_lcb_fail opened (pos 1)

  -- fresult at the label done, and whether there is an instance to destroy.
  unfoldable pub serve : List CString → CString → Config → Io State (ℤ × Bool)
  serve args connstr config = done_with false do
    credentials ← credentials_of config.cb_username config.cb_password
    created ← perform (lcb_create (record { connstr = connstr; credentials = credentials }))
    done_with created.1 do
      if_lcb_fail created.0 (pos 1)
      if_false created.1 (pos 1)
      connect
      root ← install_root P J F
      if_fr_error root
      fr ← perform (fuse_main args)
      if_fr_error fr
      pure (fr, created.1)

  unfoldable pub release : Bool → Io State (Unit {0})
  release instance_set = if instance_set then perform lcb_destroy else pure tt

  -- A connection string of fewer than five characters ends the program.
  unfoldable pub start : List CString → Config → Option CString → Io State Ending
  start args config none = pure (exited 1)
  start args config (some connstr) =
      if ltb (length connstr) 5
      then pure (exited 1)
      else (do ended ← serve args connstr config; release ended.1; pure (returned ended.0))

  unfoldable pub start_prepared : Config → Reply (List CString) → Io State Ending
  start_prepared config (err fr) = pure (returned fr)
  start_prepared config (ok args) = start args config config.cb_connect

  unfoldable pub start_parsed : Parsed → Option ℕ → Io State Ending
  start_parsed parsed (some status) = pure (exited status)
  start_parsed parsed none = do
    prepared ← returning (prepare parsed)
    start_prepared parsed.config prepared

  unfoldable pub main : List CString → Io State Ending
  main argv = do
    root_user ← runs_as_root
    if root_user then pure (returned (pos 1)) else (do
      parsed ← perform (fuse_opt_parse cbfuse_opts argv)
      stop ← run_procs parsed.args parsed.keys
      start_parsed parsed stop)
