-- ===== src/Examples/Files.antt =====
-- The theorems about data at files of the server in memory.
use cbfuse.Prelude.{
  pos, negsuc, negate, ◌≡◌, refl, none, some, [], ◌∷◌, CString, codes, arith, str_eq,
}
use cbfuse.Common.{stats, blocks, enoent, max_doc_len}
use cbfuse.Io.{value, fault, ◌>>=◌}
use cbfuse.Io.Rules.{Ends, Yields}
use cbfuse.Platform.{fresh_stat, Stat}
use cbfuse.Platform.Reliable.{Contents, put}
use cbfuse.Sync.Rules.{Same}
use cbfuse.Data.{read_data, write_data, truncate_data}
use cbfuse.Data.Writes.{Written, write_data-writes}
use cbfuse.Data.Reads.{Read, read_data-missing, read_data-reads, read_data-write_data}
use cbfuse.Data.TooLarge.{write_data-too_large}
use cbfuse.Data.NoBytes.{write_data-cuts}
use cbfuse.Data.Resizes.{
  Resized, truncate_data-no_block, truncate_data-cuts, truncate_data-empty, truncate_data-overrun,
}
use cbfuse.Examples.Fits.{AllFit, empty-AllFit, stored-AllFit}
use cbfuse.Examples.Server.{Memory, server, empty_docs, now, stat_cells}
use cbfuse.Examples.Laws.{server-IsReliable}

abbrev pub file : CString
file = codes "/a"

abbrev pub file_stat : Stat
file_stat = record (fresh_stat 33188 now) { size = 3 }

abbrev pub file_docs : Contents
file_docs =
    put stats file (some (stat_cells file_stat))
      (put blocks file (some (1 ∷ 2 ∷ 3 ∷ [])) empty_docs)

pub file_docs-AllFit : AllFit file_docs
file_docs-AllFit =
    stored-AllFit stats file (stat_cells file_stat) _ (omega arith, omega arith)
      (stored-AllFit blocks file (1 ∷ 2 ∷ 3 ∷ []) empty_docs (omega arith, omega arith)
        empty-AllFit)

-- One file, of three bytes.
abbrev pub one_file : Memory
one_file = record { docs = file_docs; docs_fit = file_docs-AllFit; version = 7; pending = none }

-- One file that has a stat and no block.
abbrev pub one_empty : Memory
one_empty = record {
  docs = put stats file (some (stat_cells (fresh_stat 33188 now))) empty_docs;
  docs_fit =
      stored-AllFit stats file (stat_cells (fresh_stat 33188 now)) empty_docs
        (omega arith, omega arith) empty-AllFit;
  version = 7;
  pending = none;
}

read_data-write_data_example :
    Yields
      (write_data server file (some (9 ∷ 8 ∷ [])) 2 2 >>= λ fr. read_data server file 2 2)
      one_file
      (λ r t. r ≡ (pos 2, 9 ∷ 8 ∷ []))
unfolding server-IsReliable put str_eq
read_data-write_data_example =
    read_data-write_data server server-IsReliable file (9 ∷ 8 ∷ []) 2 file_stat one_file
      (omega arith) (omega arith) (omega arith) refl

write_data-writes_example :
    Yields
      (write_data server file (some (9 ∷ 8 ∷ [])) 2 2)
      one_file
      (Written server server-IsReliable file (9 ∷ 8 ∷ []) 2 file_stat one_file)
unfolding server-IsReliable put str_eq
write_data-writes_example =
    write_data-writes server server-IsReliable file (9 ∷ 8 ∷ []) 2 file_stat one_file (omega arith)
      (omega arith) (omega arith) refl

read_data-reads_example :
    Yields
      (read_data server file 10 1)
      one_file
      (Read server server-IsReliable file (1 ∷ 2 ∷ 3 ∷ []) 2 1 file_stat one_file)
unfolding server-IsReliable put str_eq
read_data-reads_example =
    read_data-reads server server-IsReliable file (1 ∷ 2 ∷ 3 ∷ []) 10 1 file_stat one_file refl refl
      (omega arith) (omega arith) (omega arith)

read_data-missing_example :
    Ends
      (read_data server file 10 0)
      one_empty
      (value (negsuc 0, []))
      (Same server server-IsReliable one_empty)
unfolding server-IsReliable put str_eq
read_data-missing_example = read_data-missing server server-IsReliable file 10 0 one_empty refl

truncate_data-cuts_example : Yields (truncate_data server file 2) one_file (
    Resized server server-IsReliable file 2
      (put blocks file (some (1 ∷ 2 ∷ [])) file_docs)
      file_stat)
unfolding server-IsReliable put str_eq
truncate_data-cuts_example =
    truncate_data-cuts server server-IsReliable file (1 ∷ 2 ∷ 3 ∷ []) 2 file_stat one_file refl refl
      (omega arith) (omega arith) (omega arith)

truncate_data-overrun_example :
    Ends (truncate_data server file 5) one_file fault (Same server server-IsReliable one_file)
unfolding server-IsReliable put str_eq
truncate_data-overrun_example =
    truncate_data-overrun server server-IsReliable file (1 ∷ 2 ∷ 3 ∷ []) 5 one_file refl
      (omega arith) (omega arith)

truncate_data-empty_example :
    Ends
      (truncate_data server file 0)
      one_empty
      (value (negate enoent))
      (λ t. t.docs ≡ put blocks file none one_empty.docs)
unfolding server-IsReliable put str_eq
truncate_data-empty_example = truncate_data-empty server server-IsReliable file one_empty refl

truncate_data-no_block_example :
    Yields
      (truncate_data server file 4)
      one_empty
      (Resized server server-IsReliable file 4 one_empty.docs (fresh_stat 33188 now))
unfolding server-IsReliable put str_eq
truncate_data-no_block_example =
    truncate_data-no_block server server-IsReliable file 4 (fresh_stat 33188 now) one_empty refl
      refl (omega arith) (omega arith)

write_data-cuts_example :
    Ends
      (write_data server file none 0 2)
      one_file
      (value (pos 0))
      (λ t. t.docs ≡ put blocks file (some (1 ∷ 2 ∷ [])) file_docs)
unfolding server-IsReliable put str_eq
write_data-cuts_example =
    write_data-cuts server server-IsReliable file (1 ∷ 2 ∷ 3 ∷ []) none 2 one_file refl
      (omega arith) (omega arith)

-- A byte behind the largest size of a document.
write_data-too_large_example :
    Ends
      (write_data server file (some (9 ∷ [])) 1 max_doc_len)
      one_file
      (value (negsuc 0))
      (λ t. t.docs ≡ file_docs)
unfolding server-IsReliable
write_data-too_large_example =
    write_data-too_large server server-IsReliable file (9 ∷ []) max_doc_len one_file (omega arith)
      (omega arith) (omega arith) (omega arith)
