-- ===== src/Stats/Updates.antt =====
-- The four updates of a stat over a reliable server: read, change some fields, write back.
use cbfuse.Prelude.{
  ℕ, ℤ, pos, negate, ◌≡◌, ◌≢◌, ◌≤◌, length, refl, sym, ap, ◌∙◌, Option, none, some, some-ne-none,
  CString, if◌then◌else◌, true, false, Bool, false≢true,
}
use cbfuse.Common.{stats, enoent, max_key_len}
use cbfuse.Io.{Io, value, goto_done, pure, ◌>>=◌, or_done, finish}
use cbfuse.Io.Rules.{
  Ends, Yields, Ends-then, Ends-pure, Ends-jump, Ends-jump_at, Ends-map, Ends-next, Ends-finish,
  Ends-finish_jump, Yields-then, Yields-bind, Yields-next, Yields-pure, Yields-map, Yields-finish,
}
use cbfuse.Platform.{StoreMode, Stat, Timespec, IsReading, Platform}
use cbfuse.Platform.Reliable.{IsReliable, put}
use cbfuse.Sync.Rules.{Same, Same-refl, Same-trans}
use cbfuse.Sync.Documents.{
  Same-at, Same-cas, stat-Fits, store_document-accepted, store_document-refused,
}
use cbfuse.Stats.{
  get_stat, get_time, write_back, update_stat_atime, update_stat_utimens, update_stat_size,
  update_stat_mode, replace_settings, with_times, needs_now,
}
use cbfuse.Stats.Times.{AreTimes, with_times-AreTimes, with_times-kept}
use cbfuse.Stats.Reads.{get_stat-missing, get_stat-stored, get_time-Yields}

module _ (P : Platform) (rel : IsReliable P) where
  open P use {State, stat_bytes}
  open rel use {contents, cas_at}

  -- The documents after the stat of `k` has become `x`.
  abbrev pub Wrote : CString → Stat → State → State → Type 0
  Wrote k x s t = contents t ≡ put stats k (some (stat_bytes x)) (contents s)

  -- The struct is written if the document is still the one that was read.
  pub write_back-Ends :
      (k : CString) (x y : Stat) (cas : ℕ) (s t : State)
      → contents s stats k ≡ some (stat_bytes x)
      → cas ≡ cas_at s stats k
      → Same P rel s t
      → Ends (write_back P k y cas) t (value tt) (Wrote k y s)
  unfolding write_back
  write_back-Ends k x y cas s t there same_cas same =
      Ends-map
        (store_document-accepted P rel StoreMode.replace (replace_settings k (stat_bytes y) cas)
          stats k (stat_bytes y) t refl refl refl refl
          (stat-Fits P rel k y (rel.documents_fit stats k (stat_bytes x) s there).0)
          (
            λ e. some-ne-none (stat_bytes x) (sym there ∙ sym (Same-at P rel stats k same) ∙ e),
            same_cas ∙ sym (Same-cas P rel stats k same),
          ))
        λ u e. e ∙ ap (put stats k (some (stat_bytes y))) same.docs

  -- The last step of an update of a stat with a key that fits, with a cas that the document of the stat no longer has,
  -- ends with -ENOENT and changes no document. The platform is reliable.
  pub write_back-stale :
      (k : CString) (y : Stat) (cas : ℕ) (s : State)
      → length k ≤ max_key_len
      → cas ≢ cas_at s stats k
      → Ends (write_back P k y cas) s (goto_done (negate enoent)) (λ t. contents t ≡ contents s)
  unfolding write_back
  write_back-stale k y cas s short changed =
      store_document-refused P rel StoreMode.replace (replace_settings k (stat_bytes y) cas) stats k
        (stat_bytes y) s refl refl refl refl (stat-Fits P rel k y short) (λ a. changed a.1)

  -- For a path with a stat, update_stat_size returns 0, sets the size, and sets the
  -- modification time to a reading of the clock; it changes no other field and no other
  -- document. The platform is reliable.
  pub update_stat_size-stored :
      (k : CString) (size : ℕ) (x : Stat) (s : State)
      → contents s stats k ≡ some (stat_bytes x)
      → Yields (update_stat_size P k size) s (λ fr t.
        (fr ≡ pos 0)
        × (ts : Timespec) × IsReading P ts
        × Wrote k (record x { mtime = ts; size = size }) s t)
  unfolding update_stat_size
  update_stat_size-stored k size x s there = Yields-finish (
      Yields-then _ (get_stat-stored P rel k x s there) λ t same. Yields-next _ (
        Yields-bind (get_time-Yields P rel t) λ ts u (clock, same').
          Yields-then _ (write_back-Ends k x _ _ s u there refl (Same-trans P rel same same'))
            λ w e. Yields-pure (pos 0) w (refl, ts, clock, e)))

  -- For a path with a stat, update_stat_mode sets the mode, and no other field and no other
  -- document. The platform is reliable.
  pub update_stat_mode-stored :
      (k : CString) (mode : ℕ) (x : Stat) (s : State)
      → contents s stats k ≡ some (stat_bytes x)
      → Ends (update_stat_mode P k mode) s (value (pos 0)) (Wrote k (record x { mode = mode }) s)
  unfolding update_stat_mode
  update_stat_mode-stored k mode x s there = Ends-finish (
      Ends-then _ (get_stat-stored P rel k x s there) λ t same.
        Ends-next _
          (Ends-then _ (write_back-Ends k x _ _ s t there refl same) λ w e. Ends-pure (pos 0) w e))

  -- Only the access time changes.
  pub update_stat_atime-stored :
      (k : CString) (x : Stat) (s : State)
      → contents s stats k ≡ some (stat_bytes x)
      → Yields (update_stat_atime P k) s (λ fr t.
        (fr ≡ pos 0) × (ts : Timespec) × IsReading P ts × Wrote k (record x { atime = ts }) s t)
  unfolding update_stat_atime
  update_stat_atime-stored k x s there = Yields-finish (
      Yields-then _ (get_stat-stored P rel k x s there) λ t same. Yields-next _ (
        Yields-bind (get_time-Yields P rel t) λ ts u (clock, same').
          Yields-then _ (write_back-Ends k x _ _ s u there refl (Same-trans P rel same same'))
            λ w e. Yields-pure (pos 0) w (refl, ts, clock, e)))

  -- The clock is asked only for a time that is to be the present.
  time_if_needed :
      (b : Bool) (old : Timespec) (s : State)
      → Yields
          (if b then get_time P else pure old)
          s
          (λ ts t. (b ≡ true → IsReading P ts) × Same P rel s t)
  time_if_needed true old s =
      Yields-map (get_time-Yields P rel s) λ ts t (clock, same). (λ e. clock, same)
  time_if_needed false old s = Yields-pure old s (λ e. absurd (false≢true e), Same-refl P rel s)

  -- For a path with a stat, update_stat_utimens returns 0 and sets both times to one reading of the
  -- clock where no times are given; else each of the two to a reading of the clock for UTIME_NOW,
  -- to what it was for UTIME_OMIT, and to the given time for any other. It changes no other field
  -- and no other document. The platform is reliable.
  pub update_stat_utimens-stored :
      (k : CString) (tv : Option (Timespec × Timespec)) (x : Stat) (s : State)
      → contents s stats k ≡ some (stat_bytes x)
      → Yields (update_stat_utimens P k tv) s (λ fr t.
        (fr ≡ pos 0)
        × (access : Timespec) × (modified : Timespec) × AreTimes P tv x access modified
        × Wrote k (record x { atime = access; mtime = modified }) s t)
  unfolding update_stat_utimens
  update_stat_utimens-stored k tv x s there = Yields-finish (
      Yields-then _ (get_stat-stored P rel k x s there) λ t same. Yields-next _ (
        Yields-bind (time_if_needed (needs_now tv) x.atime t) λ ts u (clock, same').
          Yields-then _ (write_back-Ends k x _ _ s u there refl (Same-trans P rel same same'))
            λ w e. Yields-pure (pos 0) w (
              refl,
              (with_times tv ts x).atime,
              (with_times tv ts x).mtime,
              with_times-AreTimes P tv ts x clock,
              e
                  ∙ ap (λ y. put stats k (some (stat_bytes y)) (contents s))
                      (with_times-kept tv ts x),
            )))

  -- An update of a path with no stat.
  no_stat :
      (k : CString) (s : State) (rest : Stat × ℕ → Io State ℤ)
      → contents s stats k ≡ none
      → Ends
          (finish (get_stat P k >>= λ got. or_done got >>= rest))
          s
          (value (negate enoent))
          (Same P rel s)
  no_stat k s rest gone = Ends-finish_jump (
      Ends-then _ (get_stat-missing P rel k s gone)
        λ t same. Ends-jump _ (Ends-jump_at (negate enoent) t same))

  -- Each of the four updates of a stat ends with -ENOENT for a path with no stat, and changes no
  -- document. The platform is reliable.
  pub updates-missing :
      (k : CString) (size mode : ℕ) (tv : Option (Timespec × Timespec)) (s : State)
      → contents s stats k ≡ none
      → Ends (update_stat_size P k size) s (value (negate enoent)) (Same P rel s)
        × Ends (update_stat_mode P k mode) s (value (negate enoent)) (Same P rel s)
        × Ends (update_stat_atime P k) s (value (negate enoent)) (Same P rel s)
        × Ends (update_stat_utimens P k tv) s (value (negate enoent)) (Same P rel s)
  unfolding update_stat_size update_stat_mode update_stat_atime update_stat_utimens
  updates-missing k size mode tv s gone =
      (no_stat k s _ gone, no_stat k s _ gone, no_stat k s _ gone, no_stat k s _ gone)
