-- ===== src/Tree/Files.antt =====
-- The operations on one path change its documents as the tree says.
use Prim.Native.Nat.{min}
use cbfuse.Prelude.{
  ℕ, ◌+◌, ◌-◌, ◌≤◌, ◌<◌, ◌^◌, size_mod, ℤ, pos, negsuc, negate, true, ◌≡◌, refl, ap, ◌∙◌, Option,
  some, none, List, CString, length, take, ltb, Bool-cases, inl, inr, if◌then◌else◌,
}
use mathlib.Core.Path.{fun_ext}
use cbfuse.Common.{stats, dentries, blocks, max_doc_len, max_file_len, enoent}
use cbfuse.Io.{Io, value, pure, ◌>>=◌, ◌>>◌, finish, if_fr_error}
use cbfuse.Io.Rules.{
  Ends, Yields, Ends→Yields, Ends-map, Ends-then, Ends-finish_jump, Yields-then, Yields-bind,
  Yields-next, Yields-pure, Yields-map, Yields-finish,
}
use cbfuse.Io.Guards.{if_fr_error-jump}
use cbfuse.Platform.{Stat, Timespec, IsReading, Platform}
use cbfuse.Platform.Reliable.{IsReliable, Contents, put}
use cbfuse.Platform.Puts.{put_self, put_other, put_ne, put_again}
use cbfuse.Stats.Times.{AreTimes}
use cbfuse.Stats.Updates.{update_stat_mode-stored, update_stat_utimens-stored, updates-missing}
use cbfuse.Data.Bytes.{IsWritten}
use cbfuse.Data.Writes.{bytes_of, written_docs, write_data-writes}
use cbfuse.Data.Reads.{read_data-reads, read_data-eof, read_data-missing}
use cbfuse.Data.Resizes.{truncate_data-cuts, truncate_data-clears, truncate_data-empty}
use cbfuse.Json.{CJson}
use cbfuse.Json.Lawful.{IsLawful}
use cbfuse.Cbfuse.{Fuse, cbfuse_chmod, cbfuse_utimens, cbfuse_truncate, cbfuse_read, cbfuse_write}
use cbfuse.Tree.{Node, file, directory, Fs, set, stat_of, restat}
use cbfuse.Tree.Represents.{
  Represents, at, same-Represents, set-Represents, restat-Represents, put-Untouched,
}

module _ (P : Platform) (rel : IsReliable P) (J : CJson P) (F : Fuse P) (lawful : IsLawful P rel J)
    (fs : Fs) (path : CString) (s : P.State) (R : Represents P rel J lawful fs s) where
  open P use {State}
  open rel use {contents}

  -- The tree that a state represents has this node at the path.
  abbrev pub Holds : Option Node → State → Type 0
  Holds n t = Represents P rel J lawful (set path n fs) t

  stat_at : (n : Node) → fs path ≡ some n → contents s stats path ≡ some (P.stat_bytes (stat_of n))
  stat_at (file x b) there = (at P rel J lawful fs path (some (file x b)) s there R).0
  stat_at (directory x names) there =
      (at P rel J lawful fs path (some (directory x names)) s there R).0

  pub chmod_node-Holds :
      (n : Node) (mode : ℕ)
      → fs path ≡ some n
      → Yields
          (cbfuse_chmod P J F path mode)
          s
          (λ r t. (r ≡ pos 0) × Holds (some (restat (record (stat_of n) { mode = mode }) n)) t)
  unfolding cbfuse_chmod
  chmod_node-Holds n mode there = Yields-finish (
      Yields-then _ (update_stat_mode-stored P rel path mode (stat_of n) s (stat_at n there))
        λ t docs.
          Yields-next _
            (Yields-pure _ t (refl, restat-Represents P rel J lawful fs path n _ s t there docs R)))

  pub utimens_node-Holds :
      (n : Node) (tv : Option (Timespec × Timespec))
      → fs path ≡ some n
      → Yields (cbfuse_utimens P J F path tv) s (λ r t.
        (r ≡ pos 0)
        × (access : Timespec) × (modified : Timespec) × AreTimes P tv (stat_of n) access modified
        × Holds (some (restat (record (stat_of n) { atime = access; mtime = modified }) n)) t)
  unfolding cbfuse_utimens
  utimens_node-Holds n tv there = Yields-finish (
      Yields-bind (update_stat_utimens-stored P rel path tv (stat_of n) s (stat_at n there))
        λ fr t (e, access, modified, times, docs). rw e (
          Yields-next _ (
            Yields-pure _ t (
              refl,
              access,
              modified,
              times,
              restat-Represents P rel J lawful fs path n _ s t there docs R,
            ))))

  -- A result that ends an operation before it changes a document.
  refused :
      (m : Io State ℤ)
      → Ends m s (value (negate enoent)) (λ t. contents t ≡ contents s)
      → Yields
          (finish (m >>= λ fr. if_fr_error fr >> pure fr))
          s
          (λ r t. (r ≡ negate enoent) × Represents P rel J lawful fs t)
  refused m e =
      Yields-map
        (Ends→Yields _ (Ends-finish_jump (Ends-then _ e λ t docs. if_fr_error-jump _ _ refl docs)))
        (λ r t (h, docs). (h, same-Represents P rel J lawful fs s t docs R))

  pub missing-Holds :
      (mode : ℕ) (tv : Option (Timespec × Timespec))
      → fs path ≡ none
      → Yields
          (cbfuse_chmod P J F path mode)
          s
          (λ r t. (r ≡ negate enoent) × Represents P rel J lawful fs t)
        × Yields
            (cbfuse_utimens P J F path tv)
            s
            (λ r t. (r ≡ negate enoent) × Represents P rel J lawful fs t)
  unfolding cbfuse_chmod cbfuse_utimens
  missing-Holds mode tv gone =
      let gone' = (at P rel J lawful fs path none s gone R).0 in
      let all = updates-missing P rel path 0 mode tv s gone' in
      (
        refused _ (Ends-map all.1 λ t same. same.docs),
        refused _ (Ends-map all.3 λ t same. same.docs),
      )

  -- A file after a change of its stat and its block.
  file-Holds :
      (x y : Stat) (b c : Option (List ℕ)) (t : State)
      → fs path ≡ some (file x b)
      → contents t ≡ put stats path (some (P.stat_bytes y)) (put blocks path c (contents s))
      → Holds (some (file y c)) t
  file-Holds x y b c t there docs =
      let (h, h', h'') = at P rel J lawful fs path (some (file x b)) s there R in
      let v : Option (List ℕ) = some (P.stat_bytes y) in
      let mid : Contents = put blocks path c (contents s) in
      set-Represents P rel J lawful fs path (some (file y c)) s t
        (λ j away d.
          ap (λ f. f d j) docs
          ∙ put_ne stats d path j v mid away
          ∙ put_ne blocks d path j c (contents s) away)
        (
          ap (λ f. f stats path) docs ∙ put_self stats path v mid,
          ap (λ f. f dentries path) docs
              ∙ put_other stats dentries path path v mid refl
              ∙ put_other blocks dentries path path c (contents s) refl
              ∙ h',
          ap (λ f. f blocks path) docs
              ∙ put_other stats blocks path path v mid refl
              ∙ put_self blocks path c (contents s),
        )
        R

  -- A file after a change of its block alone.
  block-Holds :
      (x : Stat) (b c : Option (List ℕ)) (t : State)
      → fs path ≡ some (file x b)
      → contents t ≡ put blocks path c (contents s)
      → Holds (some (file x c)) t
  block-Holds x b c t there docs =
      let (h, h', h'') = at P rel J lawful fs path (some (file x b)) s there R in
      set-Represents P rel J lawful fs path (some (file x c)) s t
        (put-Untouched P rel J lawful blocks path c s t docs)
        (
          ap (λ f. f stats path) docs ∙ put_other blocks stats path path c (contents s) refl ∙ h,
          ap (λ f. f dentries path) docs
              ∙ put_other blocks dentries path path c (contents s) refl
              ∙ h',
          ap (λ f. f blocks path) docs ∙ put_self blocks path c (contents s),
        )
        R

  pub read_file-Holds :
      (x : Stat) (v : List ℕ) (size offset : ℕ)
      → fs path ≡ some (file x (some v))
      → offset < length v
      → size < 2 ^ 31
      → offset + size < size_mod
      → Yields (cbfuse_read P J F path size offset >>= λ r. pure (r.0)) s (λ r t.
        (r ≡ pos (min size (length v - offset)))
        × (ts : Timespec) × IsReading P ts
        × Holds (some (file (record x { atime = ts }) (some v))) t)
  unfolding cbfuse_read
  read_file-Holds x v size offset there inside small no_wrap =
      let (h, h', h'') = at P rel J lawful fs path (some (file x (some v))) s there R in
      Yields-bind (read_data-reads P rel path v size offset x s h'' h inside no_wrap small)
        λ r t (e, ts, clock, docs). Yields-pure _ t (
          ap (λ p. p.0) e,
          ts,
          clock,
          restat-Represents P rel J lawful fs path (file x (some v)) _ s t there docs R,
        )

  pub read_end-Holds :
      (x : Stat) (v : List ℕ) (size offset : ℕ)
      → fs path ≡ some (file x (some v))
      → length v ≤ offset
      → Yields
          (cbfuse_read P J F path size offset >>= λ r. pure (r.0))
          s
          (λ r t. (r ≡ pos 0) × Represents P rel J lawful fs t)
  unfolding cbfuse_read
  read_end-Holds x v size offset there past =
      let (h, h', h'') = at P rel J lawful fs path (some (file x (some v))) s there R in
      Yields-then _ (read_data-eof P rel path v size offset s h'' past)
        λ t same. Yields-pure _ t (refl, same-Represents P rel J lawful fs s t same.docs R)

  pub write_file-Holds :
      (x : Stat) (b : Option (List ℕ)) (d : List ℕ) (offset : ℕ)
      → fs path ≡ some (file x b)
      → 0 < length d
      → offset + length d ≤ max_doc_len
      → length d < 2 ^ 31
      → Yields (cbfuse_write P J F path (some d) (length d) offset) s (λ r t.
        (r ≡ pos (length d))
        × (new : List ℕ) × IsWritten (bytes_of b) offset d new
        × (ts : Timespec) × (ltb (length (bytes_of b)) (offset + length d) ≡ true → IsReading P ts)
        × Holds
            (some (
              file
                (if ltb (length (bytes_of b)) (offset + length d)
                  then record x { mtime = ts; size = offset + length d }
                  else x)
                (some new)))
            t)
  unfolding cbfuse_write
  write_file-Holds x b d offset there some_data fits small =
      let (h, h', h'') = at P rel J lawful fs path (some (file x b)) s there R in
      Yields-map (write_data-writes P rel path d offset x s some_data fits small h)
        λ r t (e, new, written, ts, clock, docs). (
          e,
          new,
          rw (← h'') written,
          ts,
          rw (← h'') clock,
          elim (Bool-cases (ltb (length (bytes_of b)) (offset + length d))) [
            | inl grows ↦ rw grows (
                file-Holds x _ b (some new) t there (
                  docs
                  ∙ ap
                      (λ c.
                        written_docs P rel path new (length (bytes_of c)) (offset + length d) x ts
                          (contents s))
                      h''
                  ∙ rw grows refl))
            | inr stays ↦ rw stays (
                block-Holds x b (some new) t there (
                  docs
                  ∙ ap
                      (λ c.
                        written_docs P rel path new (length (bytes_of c)) (offset + length d) x ts
                          (contents s))
                      h''
                  ∙ rw stays refl))
          ],
        )

  pub truncate_file-Holds :
      (x : Stat) (v : List ℕ) (offset : ℕ)
      → fs path ≡ some (file x (some v))
      → 0 < offset
      → offset ≤ length v
      → offset ≤ max_file_len
      → Yields (cbfuse_truncate P J F path offset) s (λ r t.
        (r ≡ pos 0)
        × (ts : Timespec) × IsReading P ts
        × Holds (some (file (record x { mtime = ts; size = offset }) (some (take offset v)))) t)
  unfolding cbfuse_truncate
  truncate_file-Holds x v offset there positive inside fits =
      let (h, h', h'') = at P rel J lawful fs path (some (file x (some v))) s there R in
      Yields-finish (
        Yields-bind (truncate_data-cuts P rel path v offset x s h'' h positive inside fits)
          λ fr t (e, ts, clock, docs). rw e (
            Yields-next _
              (Yields-pure _ t (refl, ts, clock, file-Holds x _ (some v) _ t there docs))))

  pub truncate_all-Holds :
      (x : Stat) (v : List ℕ)
      → fs path ≡ some (file x (some v))
      → Yields (cbfuse_truncate P J F path 0) s (λ r t.
        (r ≡ pos 0)
        × (ts : Timespec) × IsReading P ts
        × Holds (some (file (record x { mtime = ts; size = 0 }) none)) t)
  unfolding cbfuse_truncate
  truncate_all-Holds x v there =
      let (h, h', h'') = at P rel J lawful fs path (some (file x (some v))) s there R in
      Yields-finish (
        Yields-bind (truncate_data-clears P rel path v x s h'' h) λ fr t (e, ts, clock, docs).
          rw e (
            Yields-next _
              (Yields-pure _ t (refl, ts, clock, file-Holds x _ (some v) none t there docs))))

  -- A file with no block cannot be read, nor truncated to 0.
  pub read_fresh-Holds :
      (x : Stat) (size offset : ℕ)
      → fs path ≡ some (file x none)
      → Yields
          (cbfuse_read P J F path size offset >>= λ r. pure (r.0))
          s
          (λ r t. (r ≡ negsuc 0) × Represents P rel J lawful fs t)
  unfolding cbfuse_read
  read_fresh-Holds x size offset there =
      let (h, h', h'') = at P rel J lawful fs path (some (file x none)) s there R in
      Yields-then _ (read_data-missing P rel path size offset s h'')
        λ t same. Yields-pure _ t (refl, same-Represents P rel J lawful fs s t same.docs R)

  pub truncate_fresh-Holds :
      (x : Stat)
      → fs path ≡ some (file x none)
      → Yields
          (cbfuse_truncate P J F path 0)
          s
          (λ r t. (r ≡ negate enoent) × Represents P rel J lawful fs t)
  unfolding cbfuse_truncate
  truncate_fresh-Holds x there =
      let (h, h', h'') = at P rel J lawful fs path (some (file x none)) s there R in
      refused _ (
        Ends-map (truncate_data-empty P rel path s h'') λ t docs.
          docs ∙ fun_ext (λ c. fun_ext (λ j. put_again blocks path none (contents s) h'' c j)))
