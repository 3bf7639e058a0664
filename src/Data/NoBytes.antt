-- ===== src/Data/NoBytes.antt =====
-- write_data with no bytes, over a reliable server.
use cbfuse.Prelude.{
  ℕ, ◌+◌, ◌≤◌, ◌%◌, pos, ◌≡◌, Option, some, List, CString, length, take, size_mod, arith, le→ltb,
  to_int,
}
use cbfuse.Common.{blocks, max_file_len}
use cbfuse.Io.{value}
use cbfuse.Io.Rules.{Ends, Ends-then, Ends-pure, Ends-next, Ends-finish}
use cbfuse.Io.Guards.{if_true-pass}
use cbfuse.Platform.{Platform}
use cbfuse.Platform.Reliable.{IsReliable, put}
use cbfuse.Data.{write_data, grow_stat}
use cbfuse.Data.Truncates.{update_block-cuts}

module _ (P : Platform) (rel : IsReliable P) where
  open P use {State}
  open rel use {contents}

  -- A write of no bytes at an offset inside the block or at its end, and within the largest file
  -- size, returns 0 and cuts the block at the offset, whatever the buffer is; no other document
  -- changes. The platform is reliable.
  pub write_data-cuts :
      (k : CString) (v : List ℕ) (buf : Option (List ℕ)) (offset : ℕ) (s : State)
      → contents s blocks k ≡ some v
      → offset ≤ length v
      → offset ≤ max_file_len
      → Ends
          (write_data P k buf 0 offset)
          s
          (value (pos 0))
          (λ t. contents t ≡ put blocks k (some (take offset v)) (contents s))
  unfolding write_data grow_stat to_int
  write_data-cuts k v buf offset s there inside fits =
      let no_wrap : (offset + 0) % size_mod ≡ offset = omega arith in
      rw no_wrap (
        Ends-then _
          (Ends-finish (
            if_true-pass _ _ _ (le→ltb max_file_len offset fits) (
              Ends-then _ (update_block-cuts P rel k v buf offset (some 0) s there inside fits)
                λ t docs. Ends-next _ (Ends-next _ (Ends-next _ (Ends-pure (pos 0) t docs))))))
          λ t docs. Ends-pure (pos 0) t docs)
