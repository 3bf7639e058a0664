-- ===== src/Stats/Reads.antt =====
-- get_stat, insert_stat and remove_stat over a reliable server, on every branch.
use cbfuse.Prelude.{
  ℕ, ◌≤◌, pos, negate, ◌≡◌, ◌≢◌, refl, sym, ap, ap₂, ◌∙◌, Option, none, some, List, CString, length,
  take, take_all, arith, ◌==◌, if◌then◌else◌, Bool-cases, Option-cases, inl, inr, not, eq→==, ==→eq,
  is_some, some-ne-none, false,
}
use cbfuse.Common.{stats, enoent, ebadf, max_key_len}
use cbfuse.Io.{value, Reply, ok, err}
use cbfuse.Io.Rules.{
  Ends, Yields, Ends-then, Ends-bind, Ends-pure, Ends-jump, Ends-map, Ends-returning,
  Ends-returning_value, Ends-finish, Ends-finish_jump, Yields-then, Yields-bind, Yields-pure,
  Yields-call, Yields-finish,
}
use cbfuse.Io.Guards.{Ends-eq, if_true-pass, if_true-jump}
use cbfuse.Platform.{fresh_stat, StoreMode, Stat, Timespec, IsReading, Platform}
use cbfuse.Platform.Reliable.{IsReliable, put}
use cbfuse.Sync.Rules.{Same}
use cbfuse.Sync.Memory.{read_bytes-Ends}
use cbfuse.Sync.Documents.{
  Same-at, present-key, stat-Fits, get_document-found, get_document-missing,
  store_document-accepted, store_document-refused, remove_document-found, remove_document-missing,
}
use cbfuse.Stats.{get_stat, insert_stat, remove_stat, get_time, insert_settings}

module _ (P : Platform) (rel : IsReliable P) where
  open P use {State, stat_bytes, stat_of_bytes, stat_struct_size}
  open rel use {contents, cas_at}

  -- What get_stat gives for a stat document, or for none.
  abbrev pub stat_reply : Option (List ℕ) → ℕ → Reply (Stat × ℕ)
  stat_reply none cas = err (negate enoent)
  stat_reply (some v) cas =
      if length v == stat_struct_size then ok (stat_of_bytes v, cas) else err (negate ebadf)

  pub get_stat-missing :
      (k : CString) (s : State)
      → contents s stats k ≡ none
      → Ends (get_stat P k) s (value (err (negate enoent))) (Same P rel s)
  unfolding get_stat
  get_stat-missing k s gone =
      Ends-returning (Ends-jump _ (get_document-missing P rel stats k s gone))

  get_stat-intact :
      (k : CString) (v : List ℕ) (s : State)
      → contents s stats k ≡ some v
      → length v ≡ stat_struct_size
      → Ends (get_stat P k) s (value (ok (stat_of_bytes v, cas_at s stats k))) (Same P rel s)
  unfolding get_stat
  get_stat-intact k v s there len = Ends-returning_value (
      Ends-bind (get_document-found P rel stats k v s there) λ r t (h1, h2, h3, same).
        if_true-pass _ _ _ (ap not (eq→== r.nvalue stat_struct_size (h2 ∙ len))) (
          rw h1 (
            Ends-then _ (read_bytes-Ends v stat_struct_size t (Same P rel s) (omega arith) same)
              λ u same'.
                Ends-eq
                  (ap₂ (λ b n. value (stat_of_bytes b, n))
                    (ap (λ n. take n v) (sym len) ∙ take_all v) h3)
                  (Ends-pure _ u same'))))

  get_stat-corrupt :
      (k : CString) (v : List ℕ) (s : State)
      → contents s stats k ≡ some v
      → (length v == stat_struct_size) ≡ false
      → Ends (get_stat P k) s (value (err (negate ebadf))) (Same P rel s)
  unfolding get_stat
  get_stat-corrupt k v s there len = Ends-returning (
      Ends-bind (get_document-found P rel stats k v s there) λ r t (h1, h2, h3, same).
        if_true-jump _ _ _ (ap not (ap (λ n. n == stat_struct_size) h2 ∙ len)) same)

  -- get_stat on every branch: the stored struct with its cas where the document has the size of
  -- the struct, -EBADF where it has another size, and -ENOENT where there is none; no document
  -- changes. The platform is reliable.
  pub get_stat-Ends :
      (k : CString) (s : State)
      → Ends
          (get_stat P k)
          s
          (value (stat_reply (contents s stats k) (cas_at s stats k)))
          (Same P rel s)
  get_stat-Ends k s = elim (Option-cases (contents s stats k)) [
    | inl gone ↦ rw gone (get_stat-missing k s gone)
    | inr (v, there) ↦ rw there (elim (Bool-cases (length v == stat_struct_size)) [
      | inl fits ↦ rw fits (get_stat-intact k v s there (==→eq _ _ fits))
      | inr other ↦ rw other (get_stat-corrupt k v s there other)
    ])
  ]

  -- The struct that was stored comes back.
  pub get_stat-stored :
      (k : CString) (x : Stat) (s : State)
      → contents s stats k ≡ some (stat_bytes x)
      → Ends (get_stat P k) s (value (ok (x, cas_at s stats k))) (Same P rel s)
  get_stat-stored k x s there =
      Ends-eq (ap (λ y. value (ok (y, cas_at s stats k))) (rel.stat_round_trip x))
        (get_stat-intact k (stat_bytes x) s there (rel.stat_length x))

  pub get_time-Yields :
      (s : State) → Yields (get_time P) s (λ ts t. IsReading P ts × Same P rel s t)
  unfolding get_time
  get_time-Yields s =
      let (ts, e) = rel.clock_succeeds s in
      Yields-call _ _ e (
        Yields-pure ts _ (
          record { moment = s; reads = e },
          record { docs = rel.clock_contents s; versions = rel.clock_cas s },
        ))

  -- For a path that fits and has no stat, insert_stat stores one of size 0 with the mode, and with one moment
  -- for its three times; no other document changes. The platform is reliable.
  pub insert_stat-new :
      (k : CString) (mode : ℕ) (s : State)
      → length k ≤ max_key_len
      → contents s stats k ≡ none
      → Yields (insert_stat P k mode) s (λ fr t.
        (fr ≡ pos 0)
        × (ts : Timespec) × IsReading P ts
        × (contents t ≡ put stats k (some (stat_bytes (fresh_stat mode ts))) (contents s)))
  unfolding insert_stat
  insert_stat-new k mode s short gone = Yields-finish (
      Yields-bind (get_time-Yields s) λ ts t (clock, same).
        Yields-then _
          (store_document-accepted P rel StoreMode.insert
            (insert_settings k (stat_bytes (fresh_stat mode ts))) stats k
            (stat_bytes (fresh_stat mode ts)) t refl refl refl refl
            (stat-Fits P rel k (fresh_stat mode ts) short) (Same-at P rel stats k same ∙ gone))
          λ u e. Yields-pure (pos 0) u (
            refl,
            ts,
            clock,
            e ∙ ap (put stats k (some (stat_bytes (fresh_stat mode ts)))) same.docs,
          ))

  -- For a path that has a stat already, insert_stat ends with -ENOENT and changes no document.
  -- The platform is reliable.
  pub insert_stat-exists :
      (k : CString) (mode : ℕ) (s : State)
      → contents s stats k ≢ none
      → Ends (insert_stat P k mode) s (value (negate enoent)) (λ t. contents t ≡ contents s)
  unfolding insert_stat
  insert_stat-exists k mode s there = Ends-finish_jump (
      Ends-bind (get_time-Yields s) λ ts t (clock, same). Ends-jump _ (
        Ends-map
          (store_document-refused P rel StoreMode.insert
            (insert_settings k (stat_bytes (fresh_stat mode ts))) stats k
            (stat_bytes (fresh_stat mode ts)) t refl refl refl refl
            (stat-Fits P rel k (fresh_stat mode ts) (present-key P rel stats k s there))
            (λ e. there (sym (Same-at P rel stats k same) ∙ e)))
          λ u e. e ∙ same.docs))

  -- After remove_stat there is no stat for the path and all other documents are as before; the
  -- result is 0 where there was one, and -ENOENT where there was none. The platform is reliable.
  pub remove_stat-Ends :
      (k : CString) (s : State)
      → Ends
          (remove_stat P k)
          s
          (value (if is_some (contents s stats k) then pos 0 else negate enoent))
          (λ t. contents t ≡ put stats k none (contents s))
  unfolding remove_stat
  remove_stat-Ends k s = elim (Option-cases (contents s stats k)) [
    | inl gone ↦
        rw gone (Ends-finish_jump (Ends-jump _ (remove_document-missing P rel stats k s gone)))
    | inr (v, there) ↦
        Ends-eq
          (ap (λ (o : Option (List ℕ)). value (if is_some o then pos 0 else negate enoent))
            (sym there))
          (Ends-finish (
            Ends-then _
              (remove_document-found P rel stats k s (λ e. some-ne-none v (sym there ∙ e)))
              λ t e. Ends-pure (pos 0) t e))
  ]
