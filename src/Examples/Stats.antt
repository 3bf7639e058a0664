-- ===== src/Examples/Stats.antt =====
-- The theorems about stats at a file of the server in memory.
use cbfuse.Prelude.{pos, negsuc, negate, some-ne-none, ◌≡◌, refl, some, arith, CString, str_eq}
use cbfuse.Common.{enoent, enametoolong}
use cbfuse.Io.{value, ok}
use cbfuse.Io.Rules.{Ends, Yields}
use cbfuse.Platform.{Timespec, IsReading}
use cbfuse.Platform.Reliable.{put}
use cbfuse.Sync.Rules.{Same}
use cbfuse.Stats.{get_stat, insert_stat, update_stat_utimens, update_stat_size}
use cbfuse.Stats.Times.{AreTimes}
use cbfuse.Stats.Reads.{get_stat-Ends, insert_stat-exists}
use cbfuse.Stats.Updates.{Wrote, update_stat_size-stored, update_stat_utimens-stored}
use cbfuse.Examples.Server.{server, now, stat_cells, zeros}
use cbfuse.Cbfuse.{cbfuse_open}
use cbfuse.Cbfuse.Opens.{too_long, open-Opening}
use cbfuse.Examples.Json.{trees}
use cbfuse.Examples.Posix.{posix_fuse}
use cbfuse.Examples.Laws.{server-IsReliable}
use cbfuse.Examples.Files.{file, file_stat, file_docs, one_file}

-- The time that asks for the present one.
abbrev present : Timespec
present = record { sec = pos 0; nsec = negsuc 0 }

get_stat-Ends_example :
    Ends
      (get_stat server file)
      one_file
      (value (ok (file_stat, 7)))
      (Same server server-IsReliable one_file)
unfolding server-IsReliable put str_eq
get_stat-Ends_example = get_stat-Ends server server-IsReliable file one_file

update_stat_size-stored_example : Yields (update_stat_size server file 8) one_file (λ fr t.
    (fr ≡ pos 0)
    × (ts : Timespec) × IsReading server ts
    × Wrote server server-IsReliable file (record file_stat { mtime = ts; size = 8 }) one_file t)
unfolding server-IsReliable put str_eq
update_stat_size-stored_example =
    update_stat_size-stored server server-IsReliable file 8 file_stat one_file refl

update_stat_utimens-stored_example :
    Yields (update_stat_utimens server file (some (present, now))) one_file (λ fr t.
      (fr ≡ pos 0)
      × (access : Timespec) × (modified : Timespec) × AreTimes server
          (some (present, now))
          file_stat
          access
          modified
      × Wrote server server-IsReliable file
          (record file_stat { atime = access; mtime = modified })
          one_file
          t)
unfolding server-IsReliable put str_eq
update_stat_utimens-stored_example =
    update_stat_utimens-stored server server-IsReliable file (some (present, now)) file_stat
      one_file refl

insert_stat-exists_example :
    Ends (insert_stat server file 33188) one_file (value (negate enoent)) (λ t. t.docs ≡ file_docs)
unfolding server-IsReliable put str_eq
insert_stat-exists_example =
    insert_stat-exists server server-IsReliable file 33188 one_file
      (some-ne-none (stat_cells file_stat))

-- A path of 251 characters.
abbrev long_path : CString
long_path = zeros 251

open-Opening_example :
    Ends
      (cbfuse_open server trees posix_fuse long_path)
      one_file
      (value (pos enametoolong))
      (Same server server-IsReliable one_file)
open-Opening_example =
    open-Opening server server-IsReliable trees posix_fuse long_path one_file (pos enametoolong)
      (too_long (omega arith) refl)
