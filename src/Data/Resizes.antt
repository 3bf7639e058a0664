-- ===== src/Data/Resizes.antt =====
-- truncate_data over a reliable server, on every branch.
use cbfuse.Prelude.{
  ℕ, ◌≤◌, ◌<◌, ℤ, pos, negate, ◌≡◌, refl, sym, ap, ◌∙◌, none, some, List, CString, length, take,
  arith, ne→==, some-ne-none,
}
use cbfuse.Common.{stats, blocks, max_file_len, enoent}
use cbfuse.Io.{value, fault}
use cbfuse.Io.Rules.{
  Ends, Yields, Ends-then, Ends-pure, Ends-crash, Ends-finish_jump, Ends-finish_fault, Yields-then,
  Yields-bind, Yields-next, Yields-pure, Yields-finish,
}
use cbfuse.Io.Guards.{if_fr_error-jump}
use cbfuse.Platform.{Stat, Timespec, IsReading, Platform}
use cbfuse.Platform.Reliable.{IsReliable, Contents, put}
use cbfuse.Platform.Puts.{put_other}
use cbfuse.Sync.Rules.{Same}
use cbfuse.Stats.Updates.{update_stat_size-stored}
use cbfuse.Data.{cut_block, truncate_data}
use cbfuse.Data.Truncates.{
  update_block-cuts, update_block-overrun, update_block-no_block, remove_data-found,
  remove_data-missing,
}

module _ (P : Platform) (rel : IsReliable P) where
  open P use {State}
  open rel use {contents, cas_at}

  -- The file has the size `offset` and the block `v`, and nothing else has changed.
  abbrev pub Resized : CString → ℕ → Contents → Stat → ℤ → State → Type 0
  Resized k offset docs x fr t =
      (fr ≡ pos 0)
      × (ts : Timespec) × IsReading P ts
      × (contents t
          ≡ put stats k (some (P.stat_bytes (record x { mtime = ts; size = offset }))) docs)

  -- A cut that succeeds is followed by the update of the size.
  resized :
      (k : CString) (offset : ℕ) (x : Stat) (docs : Contents) (s : State)
      → docs stats k ≡ some (P.stat_bytes x)
      → Ends (cut_block P k offset) s (value (pos 0)) (λ t. contents t ≡ docs)
      → Yields (truncate_data P k offset) s (Resized k offset docs x)
  unfolding truncate_data
  resized k offset x docs s there cut = Yields-finish (
      Yields-then _ cut λ t e. Yields-next _ (
        Yields-bind (update_stat_size-stored P rel k offset x t (ap (λ f. f stats k) e ∙ there))
          λ fr u (e', ts, clock, docs').
            rw e'
              (Yields-next _ (Yields-pure _ u (refl, ts, clock, docs' ∙ ap (put stats k _) e)))))

  -- Truncating inside the block of a path with a stat, to a size that is not 0 and within the
  -- largest file size, keeps exactly the bytes before the cut and sets the size of the stat,
  -- and its modification time to a reading of the clock; no other document changes. The
  -- platform is reliable.
  pub truncate_data-cuts :
      (k : CString) (v : List ℕ) (offset : ℕ) (x : Stat) (s : State)
      → contents s blocks k ≡ some v
      → contents s stats k ≡ some (P.stat_bytes x)
      → 0 < offset
      → offset ≤ length v
      → offset ≤ max_file_len
      → Yields
          (truncate_data P k offset)
          s
          (Resized k offset (put blocks k (some (take offset v)) (contents s)) x)
  unfolding cut_block
  truncate_data-cuts k v offset x s there stat_there positive inside fits =
      resized k offset x (put blocks k (some (take offset v)) (contents s)) s
        (put_other blocks stats k k (some (take offset v)) (contents s) refl ∙ stat_there)
        (rw (ne→== offset 0 (omega arith)) (
          Ends-then _ (update_block-cuts P rel k v none offset none s there inside fits)
            λ t e. Ends-pure (pos 0) t e))

  -- Truncating a file with a block and a stat to 0 removes the block, and sets the size of the
  -- stat to 0. The platform is reliable.
  pub truncate_data-clears :
      (k : CString) (v : List ℕ) (x : Stat) (s : State)
      → contents s blocks k ≡ some v
      → contents s stats k ≡ some (P.stat_bytes x)
      → Yields (truncate_data P k 0) s (Resized k 0 (put blocks k none (contents s)) x)
  unfolding cut_block
  truncate_data-clears k v x s there stat_there =
      resized k 0 x (put blocks k none (contents s)) s
        (put_other blocks stats k k none (contents s) refl ∙ stat_there)
        (remove_data-found P rel k s (λ e. some-ne-none v (sym there ∙ e)))

  -- Truncating a path with a stat and no block to a size that is not 0 and within the largest
  -- file size sets the size of the stat, and stores no block. The platform is reliable.
  pub truncate_data-no_block :
      (k : CString) (offset : ℕ) (x : Stat) (s : State)
      → contents s blocks k ≡ none
      → contents s stats k ≡ some (P.stat_bytes x)
      → 0 < offset
      → offset ≤ max_file_len
      → Yields (truncate_data P k offset) s (Resized k offset (contents s) x)
  unfolding cut_block
  truncate_data-no_block k offset x s gone stat_there positive fits =
      resized k offset x (contents s) s stat_there (
        rw (ne→== offset 0 (omega arith)) (
          Ends-then _ (update_block-no_block P rel k offset s gone fits)
            λ t same. Ends-pure (pos 0) t same.docs))

  -- Truncating a path with no block to 0 ends with -ENOENT and changes no document. The platform
  -- is reliable.
  pub truncate_data-empty :
      (k : CString) (s : State)
      → contents s blocks k ≡ none
      → Ends
          (truncate_data P k 0)
          s
          (value (negate enoent))
          (λ t. contents t ≡ put blocks k none (contents s))
  unfolding truncate_data cut_block
  truncate_data-empty k s gone =
      Ends-finish_jump
        (Ends-then _ (remove_data-missing P rel k s gone) λ t e. if_fr_error-jump _ _ refl e)

  -- Truncating a file to more bytes than its block holds, within the largest file size, reads
  -- behind the end of the buffer; no document has changed then. The platform is reliable.
  pub truncate_data-overrun :
      (k : CString) (v : List ℕ) (offset : ℕ) (s : State)
      → contents s blocks k ≡ some v
      → length v < offset
      → offset ≤ max_file_len
      → Ends (truncate_data P k offset) s fault (Same P rel s)
  unfolding truncate_data cut_block
  truncate_data-overrun k v offset s there past fits = Ends-finish_fault (
      Ends-crash _ (
        rw (ne→== offset 0 (omega arith))
          (Ends-crash _ (update_block-overrun P rel k v offset s there past fits))))
