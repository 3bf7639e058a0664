-- ===== src/Examples/Host.antt =====
-- The theorems about main with a host on which every call succeeds.
use cbfuse.Prelude.{
  ℤ, pos, ◌≡◌, refl, arith, true, none, some, List, [], ◌∷◌, ◌++◌, CString, codes, take, drop,
  str_eq, if◌then◌else◌,
}
use cbfuse.Io.{fault}
use cbfuse.Io.Rules.{Ends, Yields}
use cbfuse.Platform.{success}
use cbfuse.Sync.Rules.{Same, Same-refl}
use cbfuse.Main.{Config, Parsed, Host, returned, main}
use cbfuse.Main.Credentials.{main-fault}
use cbfuse.Main.Mounts.{IsUp, Mounted, main-Mounted}
use cbfuse.Examples.Server.{server, empty_memory}
use cbfuse.Examples.Laws.{server-IsReliable}
use cbfuse.Examples.Json.{trees}
use cbfuse.Examples.JsonLaws.{trees-IsLawful}
use cbfuse.Examples.Posix.{posix_fuse}

-- The connection string and the user name are taken out of the arguments.
abbrev parse_args : List CString → Parsed
parse_args [] = record {
  result = pos 0;
  args = [];
  config = record { cb_connect = none; cb_username = none; cb_password = none };
  keys = [];
}
parse_args (a ∷ argv) =
    let rest = parse_args argv in
    if str_eq (take 14 a) (codes "--cb_username=")
    then record rest { config = record (rest.config) { cb_username = some (drop 14 a) } }
    else if str_eq (take 13 a) (codes "--cb_connect=")
    then record rest { config = record (rest.config) { cb_connect = some (drop 13 a) } }
    else record rest { args = a ∷ rest.args }

abbrev host : Host server
host = record {
  getuid = λ m. (501, m);
  geteuid = λ m. (501, m);
  fuse_opt_parse = λ templates argv m. (parse_args argv, m);
  fuse_opt_add_arg = λ args a m. ((pos 0, args ++ (a ∷ [])), m);
  fuse_main = λ args m. (pos 0, m);
  lcb_create = λ options m. ((success, true), m);
  lcb_connect = λ m. (success, m);
  lcb_wait = λ m. (success, m);
  lcb_get_bootstrap_status = λ m. (success, m);
  lcb_install_callback = λ c m. (tt, m);
  lcb_open = λ b m. (success, m);
  lcb_destroy = λ m. (tt, m);
}

abbrev command_line : List CString
command_line =
    codes "cbfuse" ∷ codes "/mnt" ∷ codes "--cb_connect=couchbase://127.0.0.1/cbfuse" ∷ []

abbrev given : Config
given = record {
  cb_connect = some (codes "couchbase://127.0.0.1/cbfuse");
  cb_username = none;
  cb_password = none;
}

-- A command line is accepted with what the parser makes of it.
line-IsUp :
    (argv args : List CString) (config : Config)
    → parse_args argv ≡ record { result = pos 0; args = args; config = config; keys = [] }
    → IsUp server-IsReliable host argv args config
line-IsUp argv args config e = record {
  getuid_lem = λ s. (omega arith, Same-refl server server-IsReliable s);
  geteuid_lem = λ s. (omega arith, Same-refl server server-IsReliable s);
  parse_lem = λ s. (e, Same-refl server server-IsReliable s);
  add_lem = λ l a s. (refl, Same-refl server server-IsReliable s);
  create_lem = λ o s. (refl, Same-refl server server-IsReliable s);
  connect_lem = λ s. (refl, Same-refl server server-IsReliable s);
  wait_lem = λ s. (refl, Same-refl server server-IsReliable s);
  bootstrap_lem = λ s. (refl, Same-refl server server-IsReliable s);
  install_lem = λ c s. Same-refl server server-IsReliable s;
  open_lem = λ b s. (refl, Same-refl server server-IsReliable s);
}

host-IsUp : IsUp server-IsReliable host command_line (codes "cbfuse" ∷ codes "/mnt" ∷ []) given
unfolding str_eq
host-IsUp = line-IsUp command_line (codes "cbfuse" ∷ codes "/mnt" ∷ []) given refl

main-Mounted_example : Yields (main server trees posix_fuse host command_line) empty_memory (λ e t.
    (fr : ℤ) × (e ≡ returned fr)
    × Mounted server server-IsReliable trees posix_fuse trees-IsLawful host command_line
        (codes "cbfuse" ∷ codes "/mnt" ∷ [])
        given
        host-IsUp
        fr)
unfolding server-IsReliable
main-Mounted_example =
    main-Mounted server server-IsReliable trees posix_fuse trees-IsLawful host command_line
      (codes "cbfuse" ∷ codes "/mnt" ∷ []) given host-IsUp (codes "couchbase://127.0.0.1/cbfuse")
      empty_memory refl (omega arith) tt (λ c k. refl)

abbrev user_line : List CString
user_line = codes "cbfuse" ∷ codes "--cb_connect=couchbase://a" ∷ codes "--cb_username=me" ∷ []

abbrev user_given : Config
user_given = record {
  cb_connect = some (codes "couchbase://a");
  cb_username = some (codes "me");
  cb_password = none;
}

user-IsUp : IsUp server-IsReliable host user_line (codes "cbfuse" ∷ []) user_given
unfolding str_eq
user-IsUp = line-IsUp user_line (codes "cbfuse" ∷ []) user_given refl

main-fault_example :
    Ends
      (main server trees posix_fuse host user_line)
      empty_memory
      fault
      (λ t. (t ≡ empty_memory) × Same server server-IsReliable empty_memory t)
main-fault_example =
    main-fault server server-IsReliable trees posix_fuse trees-IsLawful host user_line
      (codes "cbfuse" ∷ []) user_given user-IsUp (codes "couchbase://a") empty_memory refl
      (omega arith) (λ h. elim h [ ])
