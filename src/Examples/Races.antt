-- ===== src/Examples/Races.antt =====
-- The theorems about other clients at a bucket in which another client changes the mode of a file, or
-- puts a second file into its directory, before each command.
use cbfuse.Prelude.{◌≢◌, none, some, [], ◌∷◌, CString, codes, arith}
use cbfuse.Common.{stats, dentries, blocks}
use cbfuse.Io.Leaves.{Leaves}
use cbfuse.Platform.Reliable.{put}
use cbfuse.Platform.Shared.{Change}
use cbfuse.Sync.Changes.{Asked}
use cbfuse.Stats.{update_stat_atime, update_stat_utimens, update_stat_size, update_stat_mode}
use cbfuse.Stats.Shared.{
  Commits, Updates, WithAtime, WithTimes, WithSize, WithMode, update_stat-Commits,
}
use cbfuse.Cbfuse.{
  cbfuse_create, cbfuse_unlink, cbfuse_rmdir, cbfuse_mkdir, cbfuse_write, cbfuse_truncate,
}
use cbfuse.Cbfuse.Shared.Creation.{Creates, create-Creates}
use cbfuse.Cbfuse.Shared.Removal.{Removes, unlink-Removes, rmdir-Removes}
use cbfuse.Cbfuse.Shared.Directories.{Makes, mkdir-Makes}
use cbfuse.Cbfuse.Shared.Truncates.{Truncates, truncate-Truncates}
use cbfuse.Cbfuse.Shared.Writes.{Writes, write-Writes}
use cbfuse.Examples.Server.{stat_cells}
use cbfuse.Examples.Files.{file_stat}
use cbfuse.Examples.Json.{trees_on}
use cbfuse.Examples.Posix.{posix_on}
use cbfuse.Examples.Trees.{path_a, one_memory}
use cbfuse.Examples.Bucket.{Bucket, bucket}
use cbfuse.Examples.BucketLaws.{bucket-IsShared, trees-IsLocal}

abbrev path_c : CString
path_c = codes "/c"

-- The root with the file a, whose mode another client is about to change.
abbrev raced : Bucket
raced = record {
  docs = one_memory.docs;
  version = 9;
  pending = none;
  changes = [];
  others =
      (λ docs. docs)
      ∷ (λ docs. put stats path_a (some (stat_cells (record file_stat { mode = 33152 }))) docs)
      ∷ [];
}

update_stat-Commits_example :
    Commits bucket bucket-IsShared raced
      (update_stat_atime bucket path_a)
      raced
      (Updates bucket bucket-IsShared path_a (WithAtime bucket))
    × Commits bucket bucket-IsShared raced
        (update_stat_utimens bucket path_a none)
        raced
        (Updates bucket bucket-IsShared path_a (WithTimes bucket none))
    × Commits bucket bucket-IsShared raced
        (update_stat_size bucket path_a 7)
        raced
        (Updates bucket bucket-IsShared path_a (WithSize bucket 7))
    × Commits bucket bucket-IsShared raced
        (update_stat_mode bucket path_a 33188)
        raced
        (Updates bucket bucket-IsShared path_a (WithMode 33188))
update_stat-Commits_example = update_stat-Commits bucket bucket-IsShared path_a raced none 7 33188

create-Creates_example :
    Leaves
      (cbfuse_create bucket (trees_on bucket) (posix_on bucket) path_c 33188)
      raced
      (λ r u.
        Creates bucket bucket-IsShared
          (trees_on bucket)
          trees-IsLocal
          (posix_on bucket)
          path_c
          33188
          raced
          (some r)
          u)
      (Creates bucket bucket-IsShared
        (trees_on bucket)
        trees-IsLocal
        (posix_on bucket)
        path_c
        33188
        raced)
create-Creates_example =
    create-Creates bucket bucket-IsShared (trees_on bucket) trees-IsLocal (posix_on bucket) path_c
      33188 raced

-- A block of the path is removed.
abbrev DropsBlock : Change → Type 0
DropsBlock = Asked bucket bucket-IsShared blocks path_a none (λ before. before blocks path_a ≢ none)

abbrev DropsEntry : Change → Type 0
DropsEntry =
    Asked bucket bucket-IsShared dentries path_a none (λ before. before dentries path_a ≢ none)

unlink-Removes_example :
    Leaves
      (cbfuse_unlink bucket (trees_on bucket) (posix_on bucket) path_a)
      raced
      (λ r u.
        Removes bucket bucket-IsShared
          (trees_on bucket)
          trees-IsLocal
          (posix_on bucket)
          path_a
          DropsBlock
          raced
          (some r)
          u)
      (Removes bucket bucket-IsShared
        (trees_on bucket)
        trees-IsLocal
        (posix_on bucket)
        path_a
        DropsBlock
        raced)
unlink-Removes_example =
    unlink-Removes bucket bucket-IsShared (trees_on bucket) trees-IsLocal (posix_on bucket) path_a
      raced

rmdir-Removes_example :
    Leaves
      (cbfuse_rmdir bucket (trees_on bucket) (posix_on bucket) path_a)
      raced
      (λ r u.
        Removes bucket bucket-IsShared
          (trees_on bucket)
          trees-IsLocal
          (posix_on bucket)
          path_a
          DropsEntry
          raced
          (some r)
          u)
      (Removes bucket bucket-IsShared
        (trees_on bucket)
        trees-IsLocal
        (posix_on bucket)
        path_a
        DropsEntry
        raced)
rmdir-Removes_example =
    rmdir-Removes bucket bucket-IsShared (trees_on bucket) trees-IsLocal (posix_on bucket) path_a
      raced

mkdir-Makes_example :
    Leaves
      (cbfuse_mkdir bucket (trees_on bucket) (posix_on bucket) path_c 16877)
      raced
      (λ r u.
        Makes bucket bucket-IsShared
          (trees_on bucket)
          trees-IsLocal
          (posix_on bucket)
          path_c
          16877
          raced
          (some r)
          u)
      (Makes bucket bucket-IsShared
        (trees_on bucket)
        trees-IsLocal
        (posix_on bucket)
        path_c
        16877
        raced)
mkdir-Makes_example =
    mkdir-Makes bucket bucket-IsShared (trees_on bucket) trees-IsLocal (posix_on bucket) path_c
      16877 raced

write-Writes_example :
    Leaves
      (cbfuse_write bucket (trees_on bucket) (posix_on bucket) path_a (some (5 ∷ 6 ∷ [])) 2 1)
      raced
      (λ r u. Writes bucket bucket-IsShared path_a (5 ∷ 6 ∷ []) 2 1 raced (some r) u)
      (Writes bucket bucket-IsShared path_a (5 ∷ 6 ∷ []) 2 1 raced)
write-Writes_example =
    write-Writes bucket bucket-IsShared path_a (5 ∷ 6 ∷ []) 2 1 (trees_on bucket) (posix_on bucket)
      raced (omega arith) (omega arith)

truncate-Truncates_example :
    Leaves
      (cbfuse_truncate bucket (trees_on bucket) (posix_on bucket) path_a 1)
      raced
      (λ r u. Truncates bucket bucket-IsShared path_a 1 raced (some r) u)
      (Truncates bucket bucket-IsShared path_a 1 raced)
truncate-Truncates_example =
    truncate-Truncates bucket bucket-IsShared path_a 1 raced (trees_on bucket) (posix_on bucket)
