-- ===== src/Data/Writes.antt =====
-- update_block with data, and write_data, over a reliable server.
use cbfuse.Prelude.{
  ℕ, ◌+◌, ◌%◌, ◌^◌, ◌≤◌, ◌<◌, ℤ, pos, negsuc, to_int-small, size_mod, ◌≡◌, refl, sym, ap, ap₂, ◌∙◌,
  Option, none, some, List, [], CString, length, take_all, arith, ltb, le→ltb, lt→ltb, Option-cases,
  Bool-cases, false≢true, inl, inr, true, false, if◌then◌else◌, ◌==◌,
}
use cbfuse.Common.{stats, blocks, max_doc_len, max_file_len, max_key_len}
use cbfuse.Io.{value, ◌>>=◌, overwrite, finish}
use cbfuse.Io.Rules.{
  Yields, Yields-then, Yields-bind, Yields-next, Yields-pure, Yields-map, Yields-finish,
}
use cbfuse.Io.Guards.{if_true-Yields, Yields-done_with}
use cbfuse.Platform.{Stat, Timespec, IsReading, Platform}
use cbfuse.Platform.Reliable.{IsReliable, Contents, put}
use cbfuse.Platform.Puts.{put_other}
use cbfuse.Sync.Rules.{Same, Same-trans}
use cbfuse.Stats.Updates.{update_stat_size-stored}
use cbfuse.Data.{prepared_block, current_block, update_block, grow_stat, write_data}
use cbfuse.Data.Bytes.{IsWritten, overwrite-IsWritten}
use cbfuse.Data.Blocks.{
  grown_size, get_block-found, get_block-missing, fresh_block-Yields, edited_block-Yields,
  store_block-Ends,
}

-- The bytes of a file; a file with no block has none.
abbrev pub bytes_of : Option (List ℕ) → List ℕ
bytes_of none = []
bytes_of (some v) = v

module _ (P : Platform) (rel : IsReliable P) where
  open P use {State}
  open rel use {contents, cas_at}

  -- The block after the data have been put in, wherever it came from.
  pub prepared_block-Yields :
      (k : CString) (d : List ℕ) (offset : ℕ) (s : State)
      → 0 < length d
      → Yields
          (prepared_block P k true (some d) (length d) offset (offset + length d) (some 0))
          s
          (λ b t.
            (new : List ℕ) × IsWritten (bytes_of (contents s blocks k)) offset d new
            × (b ≡ record {
              value = some new;
              nvalue = length new;
              new_block_size =
                  some (grown_size (length (bytes_of (contents s blocks k))) (offset + length d) 0);
            })
            × Same P rel s t)
  unfolding prepared_block current_block
  prepared_block-Yields k d offset s some_data = elim (Option-cases (contents s blocks k)) [
    | inl gone ↦ rw gone (
        Yields-then _ (get_block-missing P rel k s gone) λ t a.
          Yields-bind (fresh_block-Yields P rel (offset + length d) 0 t) λ b u (g, long, e, c).
            rw
              (e
                ∙ ap
                    (λ n. record {
                      value = some g;
                      nvalue = n;
                      new_block_size = some (offset + length d);
                    })
                    (sym long))
              (Yields-map (edited_block-Yields P rel offset (offset + length d) d g u)
                λ b' w (dest, long', start, e', c'). (
                  overwrite offset d dest,
                  overwrite-IsWritten [] offset d dest (omega arith) refl,
                  e'
                      ∙ ap
                          (λ n. record {
                            value = some (overwrite offset d dest);
                            nvalue = length (overwrite offset d dest);
                            new_block_size = some n;
                          })
                          (sizes (length g) (offset + length d) long (omega arith)),
                  Same-trans P rel a (Same-trans P rel c c'),
                )))
    | inr (v, there) ↦ rw there (
        Yields-bind (get_block-found P rel k v s there) λ got t (res, e, h1, h2, a). rw e (
          Yields-next _ (
            rw (h1, h2)
              (Yields-map (edited_block-Yields P rel offset 0 d v t)
                λ b w (dest, long, start, e', c). (
                  overwrite offset d dest,
                  overwrite-IsWritten v offset d dest long start,
                  e',
                  Same-trans P rel a c,
                )))))
  ]
    where
      sizes : (n m : ℕ) → n ≡ m → 0 < m → grown_size n m m ≡ grown_size 0 m 0
      sizes n m e h = ground arith

  block_small : (k : CString) (s : State) → length (bytes_of (contents s blocks k)) ≤ max_doc_len
  block_small k s = elim (Option-cases (contents s blocks k)) [
    | inl gone ↦ rw gone (omega arith)
    | inr (v, there) ↦ rw there (rel.documents_fit blocks k v s there).1
  ]

  -- A block is as large as the old one or as the end of the data.
  written_small :
      (k : CString) (d : List ℕ) (offset : ℕ) (new : List ℕ) (s : State)
      → offset + length d ≤ max_doc_len
      → IsWritten (bytes_of (contents s blocks k)) offset d new
      → length new ≤ max_doc_len
  written_small k d offset new s fits written = omega (arith, block_small k s, written.size)

  -- A block is written as the data ask, and its new size is reported if it has grown.
  pub update_block-writes :
      (k : CString) (d : List ℕ) (offset : ℕ) (s : State)
      → length k ≤ max_key_len
      → 0 < length d
      → offset + length d ≤ max_doc_len
      → Yields (update_block P k (some d) (length d) offset (some 0)) s (λ r t.
        (new : List ℕ) × IsWritten (bytes_of (contents s blocks k)) offset d new
        × (r ≡ (
          pos 0,
          some (grown_size (length (bytes_of (contents s blocks k))) (offset + length d) 0),
        ))
        × (contents t ≡ put blocks k (some new) (contents s)))
  unfolding update_block
  update_block-writes k d offset s short some_data fits =
      let no_wrap : (offset + length d) % size_mod ≡ offset + length d = omega arith in
      rw (no_wrap, lt→ltb 0 (length d) some_data)
        (Yields-done_with (some 0) (
          if_true-Yields _ _ _ (le→ltb max_file_len (offset + length d) (omega arith)) (
            Yields-bind (prepared_block-Yields k d offset s some_data)
              λ b t (new, written, e, same). rw e (
                Yields-done_with _ (
                  Yields-then _
                    (store_block-Ends P rel k new (length new) t (omega arith)
                      (short, rw take_all (written_small k d offset new s fits written)))
                    λ u docs. Yields-pure _ u (
                      new,
                      written,
                      refl,
                      docs ∙ ap₂ (λ v c. put blocks k (some v) c) (take_all new) same.docs,
                    ))))))

  -- A write that passes the largest file size, where the sum does not wrap around, returns -1
  -- before any request is made. The platform is reliable.
  pub write_data-too_big :
      (k : CString) (buf : Option (List ℕ)) (nbuf offset : ℕ) (s : State)
      → max_file_len < offset + nbuf
      → offset + nbuf < size_mod
      → write_data P k buf nbuf offset s ≡ (value (negsuc 0), s)
  unfolding write_data ◌>>=◌ finish
  write_data-too_big k buf nbuf offset s big wraps_not =
      let no_wrap : (offset + nbuf) % size_mod ≡ offset + nbuf = omega arith in
      rw (no_wrap, lt→ltb max_file_len (offset + nbuf) big)

  -- The documents after a write of `new` that made the file as long as `size`.
  abbrev pub written_docs : CString → List ℕ → ℕ → ℕ → Stat → Timespec → Contents → Contents
  written_docs k new before size x ts docs =
      if ltb before size
      then put stats k (some (P.stat_bytes (record x { mtime = ts; size = size })))
          (put blocks k (some new) docs)
      else put blocks k (some new) docs

  -- The stat follows the block where the block has grown.
  grow_stat-Yields :
      (k : CString) (new : List ℕ) (before size : ℕ) (x : Stat) (s t : State)
      → contents s stats k ≡ some (P.stat_bytes x)
      → contents t ≡ put blocks k (some new) (contents s)
      → Yields (grow_stat P k (grown_size before size 0)) t (λ r u.
        (ts : Timespec) × (ltb before size ≡ true → IsReading P ts)
        × (contents u ≡ written_docs k new before size x ts (contents s)))
  unfolding grow_stat
  grow_stat-Yields k new before size x s t there docs = elim (Bool-cases (ltb before size)) [
    | inl grows ↦
        rw (grows, positive grows)
          (Yields-bind
            (update_stat_size-stored P rel k size x t (
              ap (λ f. f stats k) docs
              ∙ put_other blocks stats k k (some new) (contents s) refl
              ∙ there))
            λ fr u (e, ts, clock, docs').
              rw e (Yields-pure tt u (ts, λ g. clock, docs' ∙ ap (put stats k _) docs)))
    | inr fits ↦ rw fits (Yields-pure tt t (x.mtime, λ g. absurd (false≢true g), docs))
  ]
    where
      positive : ltb before size ≡ true → (size == 0) ≡ false
      positive grows = ground arith

  -- A complete write: all bytes are reported, the block holds them, the stat has the new size.
  abbrev pub Written : CString → List ℕ → ℕ → Stat → State → ℤ → State → Type 0
  Written k d offset x s fr t =
      (fr ≡ pos (length d))
      × (new : List ℕ) × IsWritten (bytes_of (contents s blocks k)) offset d new
      × (ts : Timespec) × (ltb (length (bytes_of (contents s blocks k))) (offset + length d) ≡ true
          → IsReading P ts)
      × (contents t
          ≡ written_docs k new (length (bytes_of (contents s blocks k))) (offset + length d) x ts
              (contents s))

  -- For a path with a stat and a write of some bytes, fewer than 2 ^ 31 of them and ending
  -- within the largest size of a document, write_data reports all bytes; the new block has the
  -- bytes at the offset, the old bytes around them, and the length of the larger of both ends;
  -- and the stat gets the new size, and a reading of the clock as its modification time,
  -- exactly where the block has grown. No other document changes. The platform is reliable.
  pub write_data-writes :
      (k : CString) (d : List ℕ) (offset : ℕ) (x : Stat) (s : State)
      → 0 < length d
      → offset + length d ≤ max_doc_len
      → length d < 2 ^ 31
      → contents s stats k ≡ some (P.stat_bytes x)
      → Yields (write_data P k (some d) (length d) offset) s (Written k d offset x s)
  unfolding write_data
  write_data-writes k d offset x s some_data fits small there =
      let no_wrap : (offset + length d) % size_mod ≡ offset + length d = omega arith in
      let short : length k ≤ max_key_len = (rel.documents_fit stats k _ s there).0 in
      Yields-bind {Q = Written k d offset x s}
        (rw no_wrap (
          Yields-finish (
            if_true-Yields _ _ _ (le→ltb max_file_len (offset + length d) (omega arith)) (
              Yields-bind (update_block-writes k d offset s short some_data fits)
                λ r t (new, written, e, docs). rw e (
                  Yields-next _ (
                    Yields-next _ (
                      Yields-bind
                        (grow_stat-Yields k new (length (bytes_of (contents s blocks k)))
                          (offset + length d) x s t there docs)
                        λ _ u (ts, clock, docs').
                          Yields-pure _ u
                            (to_int-small (length d) small, new, written, ts, clock, docs'))))))))
        λ fr t (e, new, written, ts, clock, docs).
          rw e (Yields-pure _ t (refl, new, written, ts, clock, docs))
