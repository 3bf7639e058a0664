-- ===== src/Data/Blocks.antt =====
-- The parts of update_block over a reliable server.
use Prim.Native.Nat.{max}
use cbfuse.Prelude.{
  ℕ, ◌+◌, ◌≤◌, ◌<◌, pos, negate, ◌≡◌, refl, sym, ap, ap₂, ◌∙◌, none, some, List, [], ◌∷◌, ◌++◌,
  CString, length, take, drop, take_all, take-append, arith, ltb, lt→leb, Bool-cases, ltb→lt, inl,
  inr, true, if◌then◌else◌,
}
use cbfuse.Common.{blocks, enoent, eio}
use cbfuse.Io.{value, fault, pure, ◌>>=◌, ok, err, overwrite, deref}
use cbfuse.Io.Rules.{
  Ends, Yields, Ends-then, Ends-pure, Ends-next, Ends-returning, Ends-crash, Ends-crash_at,
  Yields-then, Yields-bind, Yields-next, Yields-pure, Yields-call, Yields-returning,
}
use cbfuse.Platform.{
  StoreMode, Kind, in_collection, raw_value, with_key, with_value, new_command, Command, Platform,
}
use cbfuse.Platform.Reliable.{IsReliable, put, Fits}
use cbfuse.Sync.{SyncGetResult, sync_store}
use cbfuse.Sync.Commands.{if_lcb_fail}
use cbfuse.Sync.Rules.{
  Same, Same-refl, Same-trans, create-Ends, set_up-Ends, set_up_all-Ends, set_all,
}
use cbfuse.Sync.Memory.{read_bytes-Ends, copy_into-Ends, memdupm-Yields}
use cbfuse.Sync.Writes.{sync_store-Ends}
use cbfuse.Sync.Documents.{get_document-found, get_document-missing}
use cbfuse.Data.{store_code, get_block, fresh_block, grown_block, edited_block, store_block}
use cbfuse.Data.Bytes.{length-overwrite}

-- What update_block reports as the new size: 0 where the block has not grown.
abbrev pub grown_size : ℕ → ℕ → ℕ → ℕ
grown_size before nupdate unset = if ltb before nupdate then nupdate else unset

-- The command that store_block runs.
abbrev pub upsert_command : CString → List ℕ → Command
upsert_command k v =
    set_all (in_collection blocks ∷ raw_value ∷ with_key k ∷ with_value v ∷ [])
      (new_command (Kind.store StoreMode.upsert))

module _ (P : Platform) (rel : IsReliable P) where
  open P use {State}
  open rel use {contents, cas_at}

  pub get_block-found :
      (k : CString) (v : List ℕ) (s : State)
      → contents s blocks k ≡ some v
      → Yields (get_block P k) s (λ r t.
        (res : SyncGetResult) × (r ≡ ok res)
        × (res.value ≡ some v)
        × (res.nvalue ≡ length v)
        × Same P rel s t)
  unfolding get_block
  get_block-found k v s there =
      let y = Yields-returning (get_document-found P rel blocks k v s there) in
      let (res, e, found) = y.holds in
      let (h1, h2, h3, same) = found in
      record { result = y.result; after = y.after; runs = y.runs; holds = (res, e, h1, h2, same) }

  pub get_block-missing :
      (k : CString) (s : State)
      → contents s blocks k ≡ none
      → Ends (get_block P k) s (value (err (negate enoent))) (Same P rel s)
  unfolding get_block
  get_block-missing k s gone = Ends-returning (get_document-missing P rel blocks k s gone)

  -- A new block has the size of the update, and any bytes.
  pub fresh_block-Yields :
      (nupdate unset : ℕ) (s : State)
      → Yields (fresh_block P true nupdate (some unset)) s (λ b t.
        (g : List ℕ) × (length g ≡ nupdate)
        × (b ≡ record { value = some g; nvalue = nupdate; new_block_size = some nupdate })
        × Same P rel s t)
  unfolding fresh_block
  fresh_block-Yields nupdate unset s =
      let (g, e, len) = rel.malloc_succeeds nupdate s in
      Yields-call _ _ e (
        Yields-next _ (
          Yields-next _ (
            Yields-pure _ _ (
              g,
              len,
              refl,
              record { docs = rel.malloc_contents nupdate s; versions = rel.malloc_cas nupdate s },
            ))))

  -- There is room for the update, and what was there is kept.
  pub grown_block-Yields :
      (nupdate unset : ℕ) (w : List ℕ) (s : State)
      → Yields
          (grown_block P nupdate
            (record { value = some w; nvalue = length w; new_block_size = some unset }))
          s
          (λ b t.
            (dest : List ℕ) × (length dest ≡ max (length w) nupdate)
            × (take (length w) dest ≡ w)
            × (b ≡ record {
              value = some dest;
              nvalue = length dest;
              new_block_size = some (grown_size (length w) nupdate unset);
            })
            × Same P rel s t)
  unfolding grown_block
  grown_block-Yields nupdate unset w s = elim (Bool-cases (ltb (length w) nupdate)) [
    | inl grows ↦ rw grows (
        let h : length w < nupdate = ltb→lt _ _ grows in
        Yields-bind (memdupm-Yields P rel w (length w) nupdate s (omega arith) (omega arith))
          λ r t (g, len, e, same).
            let long : length (overwrite 0 (take (length w) w) g) ≡ nupdate =
              length-overwrite 0 (take (length w) w) g (rw take_all (omega arith)) ∙ len in
            Yields-next _ (
              Yields-next _ (
                Yields-pure _ t (
                  overwrite 0 (take (length w) w) g,
                  long ∙ omega arith,
                  ap (λ l. take (length w) (l ++ drop (0 + length l) g)) (take_all w)
                      ∙ take-append w _,
                  ap₂ (λ v n. record { value = v; nvalue = n; new_block_size = some nupdate }) e
                      (sym long),
                  same,
                ))))
    | inr fits ↦ rw fits (
        let h : nupdate ≤ length w = ground arith in
        Yields-pure _ s (w, omega arith, take_all w, refl, Same-refl P rel s))
  ]

  -- The bytes of the caller are put in at the offset.
  pub edited_block-Yields :
      (offset unset : ℕ) (d w : List ℕ) (s : State)
      → Yields
          (edited_block P true
            (some d)
            (length d)
            offset
            (offset + length d)
            (record { value = some w; nvalue = length w; new_block_size = some unset }))
          s
          (λ b t.
            (dest : List ℕ) × (length dest ≡ max (length w) (offset + length d))
            × (take (length w) dest ≡ w)
            × (b ≡ record {
              value = some (overwrite offset d dest);
              nvalue = length (overwrite offset d dest);
              new_block_size = some (grown_size (length w) (offset + length d) unset);
            })
            × Same P rel s t)
  unfolding edited_block
  edited_block-Yields offset unset d w s =
      Yields-bind (grown_block-Yields (offset + length d) unset w s)
        λ room t (dest, long, start, e, same). rw e (
          Yields-then _ (read_bytes-Ends d (length d) t (Same P rel s) (omega arith) same)
            λ u same'. rw take_all (
              Yields-then _ (copy_into-Ends dest offset d u (Same P rel s) (omega arith) same')
                λ x same''. Yields-pure _ x (
                  dest,
                  long,
                  start,
                  ap
                      (λ n. record {
                        value = some (overwrite offset d dest);
                        nvalue = n;
                        new_block_size = some (grown_size (length w) (offset + length d) unset);
                      })
                      (sym (length-overwrite offset d dest (omega arith))),
                  same'',
                )))

  -- The bytes of a buffer are stored, whatever was there.
  pub store_block-Ends :
      (k : CString) (v : List ℕ) (n : ℕ) (s : State)
      → n ≤ length v
      → Fits blocks k (take n v)
      → Ends
          (store_block P k (some v) n)
          s
          (value (pos 0))
          (λ t. contents t ≡ put blocks k (some (take n v)) (contents s))
  unfolding store_block
  store_block-Ends k v n s h fit =
      Ends-then _ (create-Ends P rel (Kind.store StoreMode.upsert) s) λ t a.
        Ends-then _ (set_up_all-Ends P rel (in_collection blocks ∷ raw_value ∷ with_key k ∷ []) _ t)
          λ u b.
            let ab = Same-trans P rel a b in
            Ends-then _ (read_bytes-Ends v n u (Same P rel s) h ab) λ w c.
              Ends-then _ (set_up-Ends P rel (with_value (take n v)) _ w)
                λ x d. stored (Same-trans P rel c d)
    where
      stored :
          {x : State}
          → Same P rel s x
          → Ends
              (sync_store P (upsert_command k (take n v)) >>= λ ran.
                if_lcb_fail ran.0 (negate eio) >>= λ _.
                deref ran.1 >>= λ result. pure (store_code result.status))
              x
              (value (pos 0))
              (λ t. contents t ≡ put blocks k (some (take n v)) (contents s))
      stored {x} same =
          let (r, e, by_case) =
            rel.store_answer StoreMode.upsert blocks k (take n v) (upsert_command k (take n v))
              (P.calloc x).1 refl refl refl refl fit in
          let (accepted, refused) = by_case in
          let (fine, docs) = accepted tt in
          Ends-then _ (sync_store-Ends P rel _ r x e) λ t p. Ends-next _ (
            Ends-next _ (
              rw fine (
                Ends-pure (pos 0) t (
                  rw p (
                    docs
                    ∙ ap (put blocks k (some (take n v))) (rel.calloc_contents x ∙ same.docs))))))

  -- More bytes than the buffer has are read: the heap is left.
  pub store_block-overrun :
      (k : CString) (v : List ℕ) (n : ℕ) (s : State)
      → length v < n
      → Ends (store_block P k (some v) n) s fault (Same P rel s)
  unfolding store_block
  store_block-overrun k v n s h =
      Ends-then _ (create-Ends P rel (Kind.store StoreMode.upsert) s) λ t a.
        Ends-then _ (set_up_all-Ends P rel (in_collection blocks ∷ raw_value ∷ with_key k ∷ []) _ t)
          λ u b. Ends-crash _ (rw (lt→leb n (length v) h) (Ends-crash_at u (Same-trans P rel a b)))
