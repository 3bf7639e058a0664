-- ===== src/Stats/Shared.antt =====
-- The operations on stats where other clients use the bucket and every call may fail.
use cbfuse.Prelude.{
  arith, sym, ap, ◌∙◌, length, take_all, ℕ, ℤ, pos, ◌≡◌, ◌≢◌, inl, inr, refl, Option, some, none,
  List, CString, take, true, false≢true,
}
use cbfuse.Common.{stats}
use cbfuse.Io.{Io, pure, ◌>>=◌, or_done, finish}
use cbfuse.Io.Leaves.{
  Leaves, Replied, Leaves-pure, Leaves-bind, Leaves-call, Leaves-if, Leaves-if_true, Leaves-if_null,
  Leaves-map, Leaves-returning, Leaves-or_done, Leaves-finish,
}
use cbfuse.Platform.{fresh_stat, StoreMode, Stat, Timespec, IsReading, Platform}
use cbfuse.Platform.Shared.{IsShared, Quiet, Change}
use cbfuse.Util.Shared.{
  Unchanged, fault-ne-zero, code-ne-zero, Quiet-trans, Quiet-refl, read_bytes-Leaves,
}
use cbfuse.Sync.Shared.{get_document-Leaves}
use cbfuse.Sync.Changes.{Made, Torn, Asked, Made-after, Made-map, Torn-after, Torn-Unchanged}
use cbfuse.Sync.Commits.{store_document-Leaves, remove_document-Leaves}
use cbfuse.Stats.Times.{AreTimes, with_times-AreTimes, with_times-kept}
use cbfuse.Stats.{
  get_stat, get_time, insert_stat, remove_stat, write_back, needs_now, with_times, insert_settings,
  replace_settings, update_stat_atime, update_stat_utimens, update_stat_size, update_stat_mode,
}

take_whole : (n : ℕ) (v : List ℕ) → n ≡ length v → take n v ≡ v
take_whole n v e = rw e (take_all v)

-- The new stat of each update, of the old one.
abbrev pub WithAtime : Platform → Stat → Stat → Type 0
WithAtime P x y = (ts : Timespec) × IsReading P ts × (y ≡ record x { atime = ts })

abbrev pub WithTimes : Platform → Option (Timespec × Timespec) → Stat → Stat → Type 0
WithTimes P tv x y =
    (access : Timespec) × (modified : Timespec) × AreTimes P tv x access modified
    × (y ≡ record x { atime = access; mtime = modified })

abbrev pub WithSize : Platform → ℕ → Stat → Stat → Type 0
WithSize P n x y = (ts : Timespec) × IsReading P ts × (y ≡ record x { mtime = ts; size = n })

abbrev pub WithMode : ℕ → Stat → Stat → Type 0
WithMode mode x y = y ≡ record x { mode = mode }

module _ (P : Platform) (shared : IsShared P) where
  open P use {State}

  -- From `t`: `m` makes one change since `s`, or none and does not end with 0. Where it does not end
  -- with 0 it may have made the change all the same.
  abbrev pub Attempts : State → Io State ℤ → State → (Change → Type 0) → Type 0
  Attempts s m t Fact = Leaves m t (λ r u. Torn P shared s Fact (some r) u) (Torn P shared s Fact)

  -- The same of a whole function, which returns or faults.
  abbrev pub Commits : State → Io State ℤ → State → (Change → Type 0) → Type 0
  Commits s m t Fact =
      Leaves m t (λ r u. Torn P shared s Fact (some r) u)
        (λ e u. (e ≡ none) × Torn P shared s Fact none u)

  pub Commits-finish :
      {m : Io State ℤ} {s t : State} {Fact : Change → Type 0}
      → Attempts s m t Fact
      → Commits s (finish m) t Fact
  Commits-finish l = Leaves-finish _ _ _ _ l (λ fr t h. h) (λ fr t h. h) (λ t h. (refl, h))

  -- A store or a remove, and a result of 0 behind it.
  pub Attempts-zero :
      {m : Io State (Unit {0})} {s t u : State} {Fact Fact' : Change → Type 0}
      → Quiet P shared s t
      → ((ch : Change) → Fact ch → Fact' ch)
      → Leaves m u (λ a w. Made P shared t Fact w) (Torn P shared t Fact)
      → Attempts s (m >>= λ a. pure (pos 0)) u Fact'
  Attempts-zero q f l =
      Leaves-bind
        (Leaves-map l (λ a w h. Made-after P shared q (Made-map P shared f h))
          λ e w h. Torn-after P shared e q f h)
        λ a w made. Leaves-pure _ (inr made)

  -- What stands for the path is replaced by a stat that is made from it.
  abbrev pub Updates : CString → (Stat → Stat → Type 0) → Change → Type 0
  Updates k New ch =
      (ch.collection ≡ stats)
      × (ch.key ≡ k)
      × (v : List ℕ) × (y : Stat) × (ch.before stats k ≡ some v)
      × (ch.new ≡ some (P.stat_bytes y))
      × New (P.stat_of_bytes v) y

  -- A stat that was not there.
  abbrev pub Inserts : CString → ℕ → Change → Type 0
  Inserts k mode ch =
      (ch.collection ≡ stats)
      × (ch.key ≡ k)
      × (ts : Timespec) × IsReading P ts
      × (ch.new ≡ some (P.stat_bytes (fresh_stat mode ts)))
      × (ch.before stats k ≡ none)

  -- The stat is that of a version of the document.
  abbrev pub IsRead : CString → State → Stat × ℕ → State → Type 0
  IsRead k s read u =
      Quiet P shared s u
      × (v : List ℕ) × (read.0 ≡ P.stat_of_bytes v)
      × shared.Issued u stats k read.1 v

  pub get_time-Leaves :
      (s : State) {t : State}
      → Quiet P shared s t
      → Leaves (get_time P) t (λ ts u. IsReading P ts × Quiet P shared s u) (Unchanged P shared s)
  unfolding get_time
  get_time-Leaves s {t} q =
      let q' : Quiet P shared s (P.clock_gettime t).1 =
        Quiet-trans P shared q (shared.clock_quiet t) in
      Leaves-call _ _ (
        Leaves-if_null (P.clock_gettime t).0 _ (λ ts e. (record { moment = t; reads = e }, q'))
          (q', code-ne-zero 4))

  module _ (k : CString) (s : State) where
    pub get_stat-Leaves :
        {t : State}
        → Quiet P shared s t
        → Leaves
            (get_stat P k)
            t
            (Replied (IsRead k s) (Unchanged P shared s))
            (Unchanged P shared s)
    unfolding get_stat
    get_stat-Leaves q = Leaves-returning _ _ (
        Leaves-bind (get_document-Leaves P shared s stats k q) λ r u (h, q').
          Leaves-bind {Q = λ a w. (w ≡ u) × (r.nvalue ≡ P.stat_struct_size)}
            (Leaves-if_true _ _ (λ e. (refl, ground arith)) (q', code-ne-zero 8))
            λ a w (same, size).
              Leaves-bind
                {Q = λ bytes w.
                  (w ≡ u) × (v : List ℕ) × (r.value ≡ some v) × (bytes ≡ take P.stat_struct_size v)}
                (read_bytes-Leaves r.value P.stat_struct_size (λ v e. (same, v, e, refl))
                  (rw same (q', fault-ne-zero)))
                λ bytes w (same', v, e, e').
                  let (i, l) = h v e in
                  Leaves-pure _ (
                    rw same' q',
                    v,
                    ap P.stat_of_bytes (e' ∙ take_whole P.stat_struct_size v (sym size ∙ l)),
                    rw same' i,
                  ))

    -- The last step of an update, from the state in which the stat had been read.
    written :
        (New : Stat → Stat → Type 0) (read : Stat × ℕ) (y : Stat) {t u : State}
        → IsRead k s read t
        → Quiet P shared t u
        → New read.0 y
        → Attempts s (write_back P k y read.1 >>= λ a. pure (pos 0)) u (Updates k New)
    unfolding write_back
    written New read y {t} {u} (q, v, e, i) q' new =
        Attempts-zero q
          (λ ch (in_c, at_k, is, (there, current)).
            (in_c, at_k, v, y, current read.1 v refl i, is, rw (← e) new))
          (store_document-Leaves P shared t stats k q' StoreMode.replace
            (replace_settings k (P.stat_bytes y) read.1) (P.stat_bytes y) refl refl refl refl)

    -- A stat is read, and what follows makes the change.
    updated :
        (Fact : Change → Type 0) (rest : Stat × ℕ → Io State ℤ)
        → ((read : Stat × ℕ) (u : State) → IsRead k s read u → Attempts s (rest read) u Fact)
        → Commits s (finish (get_stat P k >>= λ got. or_done got >>= rest)) s Fact
    updated Fact rest f = Commits-finish (
        Leaves-bind (Torn-Unchanged P shared (get_stat-Leaves (Quiet-refl P shared s)))
          λ got u reply.
            Leaves-bind (Torn-Unchanged P shared (Leaves-or_done _ _ got reply))
              λ read w is_read. f read w is_read)

    timed :
        (New : Stat → Stat → Type 0) (Good : Timespec → Type 0) (read : Stat × ℕ)
        (f : Timespec → Stat) (m : Io State Timespec) {u : State}
        → IsRead k s read u
        → ((ts : Timespec) → Good ts → New read.0 (f ts))
        → Leaves m u (λ ts w. Good ts × Quiet P shared u w) (Unchanged P shared u)
        → Attempts s
            (m >>= λ ts. write_back P k (f ts) read.1 >>= λ a. pure (pos 0))
            u
            (Updates k New)
    timed New Good read f m (q, v, e, i) new l =
        Leaves-bind (Leaves-map l (λ ts w h. h) λ e' w (q', h). inl (Quiet-trans P shared q q', h))
          λ ts w (good, q'). written New read (f ts) (q, v, e, i) q' (new ts good)

    -- No update of a stat is lost. Where update_stat_atime, update_stat_utimens,
    -- update_stat_size or update_stat_mode returns 0, it has made exactly one change: the
    -- document of the stat was replaced by the new stat made of the very bytes that stood
    -- there just before, at that moment, with times that are readings of the clock where the
    -- update sets the present time. Where it returns another result or faults, it has made
    -- this one change or none. The calls of the platform may fail, and other clients may
    -- change documents between any two commands.
    pub update_stat-Commits :
        (tv : Option (Timespec × Timespec)) (n mode : ℕ)
        → Commits s (update_stat_atime P k) s (Updates k (WithAtime P))
          × Commits s (update_stat_utimens P k tv) s (Updates k (WithTimes P tv))
          × Commits s (update_stat_size P k n) s (Updates k (WithSize P n))
          × Commits s (update_stat_mode P k mode) s (Updates k (WithMode mode))
    unfolding update_stat_atime update_stat_utimens update_stat_size update_stat_mode
    update_stat-Commits tv n mode = (
      updated _ _ λ read u is_read.
          timed (WithAtime P) (IsReading P) read (λ ts. record (read.0) { atime = ts }) _ is_read
            (λ ts clock. (ts, clock, refl)) (now u),
      updated _ _ λ read u is_read.
          timed (WithTimes P tv) (λ ts. needs_now tv ≡ true → IsReading P ts) read
            (λ ts. with_times tv ts read.0) _ is_read
            (λ ts clock. (
              (with_times tv ts read.0).atime,
              (with_times tv ts read.0).mtime,
              with_times-AreTimes P tv ts read.0 clock,
              with_times-kept tv ts read.0,
            ))
            (Leaves-if (needs_now tv) _ _
              (λ h. Leaves-map (now u) (λ ts w (clock, q). (λ e. clock, q)) λ e w q. q)
              λ h. Leaves-pure _ (λ e. absurd (false≢true (sym h ∙ e)), Quiet-refl P shared u)),
      updated _ _ λ read u is_read.
          timed (WithSize P n) (IsReading P) read (λ ts. record (read.0) { mtime = ts; size = n }) _
            is_read (λ ts clock. (ts, clock, refl)) (now u),
      updated _ _
          λ read u is_read. written (WithMode mode) read _ is_read (Quiet-refl P shared u) refl,
    )
      where
        now :
            (u : State)
            → Leaves
                (get_time P)
                u
                (λ ts w. IsReading P ts × Quiet P shared u w)
                (Unchanged P shared u)
        now u = get_time-Leaves u (Quiet-refl P shared u)

    -- The time of the clock is taken, and a stat inserted where there is none.
    pub insert_stat-Commits :
        (mode : ℕ)
        → {t : State} → Quiet P shared s t
        → Commits s (insert_stat P k mode) t (Inserts k mode)
    unfolding insert_stat
    insert_stat-Commits mode q = Commits-finish (
        Leaves-bind (Torn-Unchanged P shared (get_time-Leaves s q)) λ ts u (clock, q').
          Attempts-zero (Quiet-refl P shared s)
            (λ ch (in_c, at_k, is, (there, current)). (in_c, at_k, ts, clock, is, there))
            (store_document-Leaves P shared s stats k q' StoreMode.insert
              (insert_settings k (P.stat_bytes (fresh_stat mode ts)))
              (P.stat_bytes (fresh_stat mode ts)) refl refl refl refl))

    pub remove_stat-Commits :
        {t : State}
        → Quiet P shared s t
        → Commits s
            (remove_stat P k)
            t
            (Asked P shared stats k none (λ before. before stats k ≢ none))
    unfolding remove_stat
    remove_stat-Commits q = Commits-finish (
        Attempts-zero (Quiet-refl P shared s) (λ ch h. h)
          (remove_document-Leaves P shared s stats k q))
