-- ===== src/Data/Reads.antt =====
-- read_data over a reliable server, on every branch, and a read after a write.
use Prim.Native.Nat.{min}
use cbfuse.Prelude.{
  ℕ, ◌+◌, ◌-◌, ◌%◌, ◌^◌, ◌≤◌, ◌<◌, pos, negsuc, negate, to_int-small, size_mod, ◌≡◌, refl, ap, ap₂,
  ◌∙◌, none, some, List, [], CString, length, take, drop, arith, ltb, leb, le→leb, lt→leb,
  Bool-cases, inl, inr, if◌then◌else◌, ℤ,
}
use cbfuse.Common.{stats, blocks, max_doc_len, enoent}
use cbfuse.Io.{value, ◌>>=◌, read_from}
use cbfuse.Io.Rules.{
  Ends, Yields, Ends-then, Ends-bind, Ends-pure, Ends-jump, Ends-jump_at, Ends-next, Yields-then,
  Yields-bind, Yields-next, Yields-pure, Yields-map,
}
use cbfuse.Io.Guards.{if_true-Yields, if_true-jump, Yields-done_with, Ends-done_with_jump}
use cbfuse.Platform.{Stat, Timespec, IsReading, Platform}
use cbfuse.Platform.Reliable.{IsReliable, Contents, put}
use cbfuse.Platform.Puts.{put_self, put_other}
use cbfuse.Sync.Rules.{Same}
use cbfuse.Sync.Documents.{Same-at}
use cbfuse.Stats.Updates.{update_stat_atime-stored, Wrote}
use cbfuse.Data.{read_data, write_data, trimmed}
use cbfuse.Data.Blocks.{get_block-found, get_block-missing}
use cbfuse.Data.Writes.{bytes_of, written_docs, write_data-writes}

module _ (P : Platform) (rel : IsReliable P) where
  open P use {State}
  open rel use {contents, cas_at}

  -- A read of a path with no block returns -1 and no bytes, whatever its stat says, and changes
  -- no document. The platform is reliable.
  pub read_data-missing :
      (k : CString) (nbuf offset : ℕ) (s : State)
      → contents s blocks k ≡ none
      → Ends (read_data P k nbuf offset) s (value (negsuc 0, [])) (Same P rel s)
  unfolding read_data
  read_data-missing k nbuf offset s gone =
      Ends-then _
        (Ends-done_with_jump [] (
          Ends-then _ (get_block-missing P rel k s gone)
            λ t same. Ends-jump _ (Ends-jump_at (negate enoent) t same)))
        λ t same. Ends-pure _ t same

  -- A read that starts at the end of the block or behind it returns 0 and no bytes, and changes
  -- no document. The platform is reliable.
  pub read_data-eof :
      (k : CString) (v : List ℕ) (nbuf offset : ℕ) (s : State)
      → contents s blocks k ≡ some v
      → length v ≤ offset
      → Ends (read_data P k nbuf offset) s (value (pos 0, [])) (Same P rel s)
  unfolding read_data
  read_data-eof k v nbuf offset s there past =
      Ends-then _
        (Ends-done_with_jump [] {fr = pos 0} (
          Ends-bind (get_block-found P rel k v s there) λ got t (res, e, h1, h2, same). rw e (
            Ends-next _ (
              if_true-jump _ _ _ (ap (λ n. leb n offset) h2 ∙ le→leb (length v) offset past)
                same))))
        λ t same. Ends-pure _ t same

  read_from-Ends :
      (v : List ℕ) (offset n : ℕ) (s : State) (Q : State → Type 0)
      → offset + n ≤ length v
      → Q s
      → Ends (read_from (some v) offset n) s (value (take n (drop offset v))) Q
  read_from-Ends v offset n s Q h q =
      rw (le→leb (offset + n) (length v) h) (Ends-pure (take n (drop offset v)) s q)

  -- A complete read of `count` bytes of `v`.
  abbrev pub Read : CString → List ℕ → ℕ → ℕ → Stat → State → ℤ × List ℕ → State → Type 0
  Read k v count offset x s r t =
      (r ≡ (pos count, take count (drop offset v)))
      × (ts : Timespec) × IsReading P ts
      × Wrote P rel k (record x { atime = ts }) s t

  -- A read that starts inside the block of a path with a stat, and asks for fewer than 2 ^ 31
  -- bytes without a wrap of the sum, returns the number of bytes up to the end of the block, at
  -- most the number asked for, and these bytes; of the documents it changes the access time of
  -- the stat alone, to a reading of the clock. The platform is reliable.
  pub read_data-reads :
      (k : CString) (v : List ℕ) (nbuf offset : ℕ) (x : Stat) (s : State)
      → contents s blocks k ≡ some v
      → contents s stats k ≡ some (P.stat_bytes x)
      → offset < length v
      → offset + nbuf < size_mod
      → nbuf < 2 ^ 31
      → Yields (read_data P k nbuf offset) s (Read k v (min nbuf (length v - offset)) offset x s)
  unfolding read_data
  read_data-reads k v nbuf offset x s there stat_there inside no_wrap small = rw (← trim_eq) (
      Yields-bind {Q = Read k v count offset x s}
        (Yields-done_with [] (
          Yields-bind (get_block-found P rel k v s there) λ got t (res, e, h1, h2, same). rw e (
            Yields-next _ (
              rw (h1, h2)
                (if_true-Yields _ _ _ (lt→leb (length v) offset inside) (
                  Yields-then _ (read_from-Ends v offset count t (Same P rel s) in_block same)
                    λ u same'. Yields-done_with _ (
                      Yields-bind
                        (update_stat_atime-stored P rel k x u
                          (Same-at P rel stats k same' ∙ stat_there))
                        λ fr w (e', ts, clock, docs). rw e' (
                          Yields-next _ (
                            Yields-pure _ w (
                              ap (λ n. (n, take count (drop offset v)))
                                  (to_int-small count count_small),
                              ts,
                              clock,
                              docs ∙ ap (put stats k _) same'.docs,
                            ))))))))))
        λ r t (e, ts, clock, docs). rw e (Yields-pure _ t (refl, ts, clock, docs)))
    where
      count : ℕ
      count = trimmed (length v) offset nbuf

      unwrapped : (offset + nbuf) % size_mod ≡ offset + nbuf
      unwrapped = omega arith

      trim_eq : count ≡ min nbuf (length v - offset)
      trim_eq = rw unwrapped (ground arith)

      in_block : offset + count ≤ length v
      in_block = omega (arith, trim_eq)

      count_small : count < 2 ^ 31
      count_small = omega (arith, trim_eq)

  written_docs-block :
      (k : CString) (new : List ℕ) (before size : ℕ) (x : Stat) (ts : Timespec) (docs : Contents)
      → written_docs P rel k new before size x ts docs blocks k ≡ some new
  written_docs-block k new before size x ts docs = elim (Bool-cases (ltb before size)) [
    | inl grows ↦ rw grows (
        put_other stats blocks k k _ (put blocks k (some new) docs) refl
        ∙ put_self blocks k (some new) docs)
    | inr fits ↦ rw fits (put_self blocks k (some new) docs)
  ]

  -- The stat after a write.
  abbrev grown_stat : ℕ → ℕ → Stat → Timespec → Stat
  grown_stat before size x ts = if ltb before size then record x { mtime = ts; size = size } else x

  written_docs-stat :
      (k : CString) (new : List ℕ) (before size : ℕ) (x : Stat) (ts : Timespec) (docs : Contents)
      → docs stats k ≡ some (P.stat_bytes x)
      → written_docs P rel k new before size x ts docs stats k
        ≡ some (P.stat_bytes (grown_stat before size x ts))
  written_docs-stat k new before size x ts docs there = elim (Bool-cases (ltb before size)) [
    | inl grows ↦ rw grows (put_self stats k _ (put blocks k (some new) docs))
    | inr fits ↦ rw fits (put_other blocks stats k k (some new) docs refl ∙ there)
  ]

  -- What write_data has written is read back whole by a read of the same place, where the path
  -- has a stat, some bytes are written, fewer than 2 ^ 31 of them, and the write ends within
  -- the largest size of a document. The platform is reliable.
  pub read_data-write_data :
      (k : CString) (d : List ℕ) (offset : ℕ) (x : Stat) (s : State)
      → 0 < length d
      → offset + length d ≤ max_doc_len
      → length d < 2 ^ 31
      → contents s stats k ≡ some (P.stat_bytes x)
      → Yields
          (write_data P k (some d) (length d) offset >>= λ fr. read_data P k (length d) offset)
          s
          (λ r t. r ≡ (pos (length d), d))
  read_data-write_data k d offset x s some_data fits small there =
      Yields-bind (write_data-writes P rel k d offset x s some_data fits small there)
        λ fr t (e, new, written, ts, clock, docs).
          let before : ℕ = length (bytes_of (contents s blocks k)) in
          let count : min (length d) (length new - offset) ≡ length d =
            omega (arith, written.size) in
          Yields-map
            (read_data-reads k new (length d) offset (grown_stat before (offset + length d) x ts) t
              (ap (λ f. f blocks k) docs ∙ written_docs-block k new _ _ x ts (contents s))
              (ap (λ f. f stats k) docs ∙ written_docs-stat k new _ _ x ts (contents s) there)
              (omega (arith, written.size)) (omega arith) small)
            λ r u (e', ts', clock', q).
              e'
              ∙ ap₂ (λ n b. (pos n, b)) count
                  (ap (λ n. take n (drop offset new)) count ∙ written.holds)
