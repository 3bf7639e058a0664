-- ===== src/Examples/Codes.antt =====
-- The error codes and the bounds at a concrete server.
use cbfuse.Prelude.{none}
use cbfuse.Io.Codes.{Ensures, IsCode}
use cbfuse.Cbfuse.Codes.{operations-IsCode}
use cbfuse.Cbfuse.{
  cbfuse_open, cbfuse_create, cbfuse_unlink, cbfuse_chmod, cbfuse_truncate, cbfuse_utimens,
  cbfuse_mkdir, cbfuse_rmdir,
}
use cbfuse.Examples.Server.{server}
use cbfuse.Examples.Json.{trees}
use cbfuse.Examples.Posix.{posix_fuse}
use cbfuse.Examples.Trees.{path_a}

operations-IsCode_example :
    Ensures (cbfuse_open server trees posix_fuse path_a) IsCode
    × Ensures (cbfuse_create server trees posix_fuse path_a 33188) IsCode
    × Ensures (cbfuse_unlink server trees posix_fuse path_a) IsCode
    × Ensures (cbfuse_chmod server trees posix_fuse path_a 33188) IsCode
    × Ensures (cbfuse_truncate server trees posix_fuse path_a 7) IsCode
    × Ensures (cbfuse_utimens server trees posix_fuse path_a none) IsCode
    × Ensures (cbfuse_mkdir server trees posix_fuse path_a 33188) IsCode
    × Ensures (cbfuse_rmdir server trees posix_fuse path_a) IsCode
operations-IsCode_example = operations-IsCode server trees posix_fuse path_a 33188 7 none
