-- ===== src/Data/Stores.antt =====
-- write where other clients use the bucket and every call may fail.
use cbfuse.Prelude.{
  CString, ℕ, ◌+◌, ◌%◌, size_mod, sym, some-injective, take, arith, ◌<◌, lt→ltb, ℤ, pos, negate,
  ◌≡◌, ◌≢◌, inl, inr, refl, ap, ◌∙◌, Option, none, some, List, [], ◌∷◌,
}
use cbfuse.Common.{blocks, eio}
use cbfuse.Io.{pure, ◌>>=◌, ◌>>◌, deref}
use cbfuse.Io.Leaves.{
  Leaves, Leaves-pure, Leaves-bind, Leaves-if_true, Leaves-deref, Leaves-map, Leaves-done_with,
}
use cbfuse.Platform.{
  Platform, set, Status, success, document_not_found, failure, Kind, StoreMode, Command,
  new_command, in_collection, with_key, with_value, raw_value,
}
use cbfuse.Platform.Reliable.{Contents}
use cbfuse.Sync.Commands.{if_lcb_fail}
use cbfuse.Platform.Shared.{IsShared, Quiet, Change}
use cbfuse.Util.Shared.{fault-ne-zero, code-ne-zero, read_bytes-Leaves}
use cbfuse.Sync.{SyncStoreResult}
use cbfuse.Sync.Shared.{
  Leaves-if_lcb_fail, create-Leaves, set_up-Leaves, set_up_all-Leaves, all_set,
}
use cbfuse.Sync.Changes.{Made, Torn, Made-map, Torn-Unchanged, Asked, Ran, sync_store-Leaves}
use cbfuse.Data.{store_code, store_block, update_block}
use cbfuse.Data.Prepares.{HasBytes, IsGrown, prepared_block-Leaves}

module _ (P : Platform) (shared : IsShared P) (k : CString) (s : P.State) where
  open P use {State}

  -- A block with these bytes is put, whatever stands there by then.
  abbrev pub Puts : (List ℕ → Type 0) → Change → Type 0
  Puts Good ch =
      (ch.collection ≡ blocks)
      × (ch.key ≡ k)
      × (bytes : List ℕ) × (ch.new ≡ some bytes)
      × Good bytes

  store_code-ne :
      (st : Status) → st ≢ success → ◌≢◌ {A = Option ℤ} (some (store_code st)) (some (pos 0))
  store_code-ne success h = absurd (h refl)
  store_code-ne document_not_found h = code-ne-zero 1
  store_code-ne (failure n) h = code-ne-zero 4

  pub store_block-Leaves :
      (Good : List ℕ → Type 0) (value : Option (List ℕ)) (nvalue : ℕ) {t : State}
      → ((v : List ℕ) → value ≡ some v → Good (take nvalue v))
      → Quiet P shared s t
      → Leaves
          (store_block P k value nvalue)
          t
          (λ r u. Torn P shared s (Puts Good) (some r) u)
          (Torn P shared s (Puts Good))
  unfolding store_block
  store_block-Leaves Good value nvalue good q =
      Leaves-bind
        (Torn-Unchanged P shared (create-Leaves P shared s (Kind.store StoreMode.upsert) q))
        λ created u (e, q1).
          Leaves-bind
            (Torn-Unchanged P shared (
              set_up_all-Leaves P shared s (in_collection blocks ∷ raw_value ∷ with_key k ∷ [])
                created q1))
            λ keyed u2 (e', q2).
              Leaves-bind {Q = λ bytes w. Quiet P shared s w × Good bytes}
                (read_bytes-Leaves value nvalue (λ v h. (q2, good v h)) (inl (q2, fault-ne-zero)))
                λ bytes u3 (q3, has).
                  Leaves-bind
                    (Torn-Unchanged P shared (set_up-Leaves P shared s (with_value bytes) keyed q3))
                    λ cmd u4 (e'', q4).
                      let is : cmd
                          ≡ set (with_value bytes) (
                              all_set (in_collection blocks ∷ raw_value ∷ with_key k ∷ [])
                                (new_command (Kind.store StoreMode.upsert))) =
                        e''
                        ∙ ap (set (with_value bytes)) (
                            e'
                            ∙ ap (all_set (in_collection blocks ∷ raw_value ∷ with_key k ∷ []))
                                e) in
                      Leaves-bind
                        (Leaves-map
                          (sync_store-Leaves P shared s blocks k cmd q4
                            (ap (λ (x : Command). x.collection) is) (ap (λ (x : Command). x.key) is)
                            StoreMode.upsert bytes (ap (λ (x : Command). x.kind) is)
                            (ap (λ (x : Command). x.value) is))
                          (λ r w h. h) λ e3 w h. put_torn _ bytes has h)
                        λ ran u5 h. answered_by ran (put_ran _ bytes has ran h)
    where
      put_torn :
          (When : Contents → Type 0) {e : Option ℤ} {w : State} (bytes : List ℕ)
          → Good bytes
          → Torn P shared s (Asked P shared blocks k (some bytes) When) e w
          → Torn P shared s (Puts Good) e w
      put_torn When bytes has (inl h) = inl h
      put_torn When bytes has (inr m) =
          inr (Made-map P shared (λ ch (in_c, at_k, is, more). (in_c, at_k, bytes, is, has)) m)

      put_ran :
          (When : Contents → Type 0) {w : State} (bytes : List ℕ) (has : Good bytes)
          (ran : Status × Option SyncStoreResult)
          → Ran P shared
              (λ (x : SyncStoreResult). x.status)
              s
              (Asked P shared blocks k (some bytes) When)
              ran
              w
          → Ran P shared (λ (x : SyncStoreResult). x.status) s (Puts Good) ran w
      put_ran When bytes has ran (inl m) =
          inl (Made-map P shared (λ ch (in_c, at_k, is, more). (in_c, at_k, bytes, is, has)) m)
      put_ran When bytes has ran (inr h) = inr h

      answered_by :
          (ran : Status × Option SyncStoreResult) {u : State}
          → Ran P shared (λ (x : SyncStoreResult). x.status) s (Puts Good) ran u
          → Leaves
              (if_lcb_fail ran.0 (negate eio) >> (deref ran.1 >>= λ r. pure (store_code r.status)))
              u
              (λ r w. Torn P shared s (Puts Good) (some r) w)
              (Torn P shared s (Puts Good))
      answered_by ran {u} (inl m) =
          Leaves-bind {Q = λ a w. Made P shared s (Puts Good) w}
            (Leaves-if_lcb_fail ran.0 _ (λ e. m) (λ e. inr m))
            λ a w m'.
              Leaves-bind {Q = λ r x. Made P shared s (Puts Good) x}
                (Leaves-deref ran.1 (λ r e. m') (inr m')) λ r x m''. Leaves-pure _ (inr m'')
      answered_by ran {u} (inr (q', refused)) =
          Leaves-bind {Q = λ a w. (w ≡ u) × (ran.0 ≡ success)}
            (Leaves-if_lcb_fail ran.0 _ (λ e. (refl, e)) (λ e. inl (q', code-ne-zero 4)))
            λ a w (same, good).
              Leaves-bind {Q = λ r x. (x ≡ u) × (ran.1 ≡ some r)}
                (Leaves-deref ran.1 (λ r e. (same, e)) (inl (rw same (q', fault-ne-zero))))
                λ r x (same', e).
                  Leaves-pure _ (rw same' (inl (q', store_code-ne r.status (refused good r e))))

  -- A write of some bytes puts the block, with these bytes at the offset, or changes nothing and does
  -- not end with 0. The size that it reports is 0 or the end of the write.
  pub update_block-Leaves :
      (d : List ℕ) (nbuf offset : ℕ) {t : State}
      → 0 < nbuf
      → offset + nbuf < size_mod
      → Quiet P shared s t
      → Leaves
          (update_block P k (some d) nbuf offset (some 0))
          t
          (λ r u.
            Torn P shared s (Puts (HasBytes d nbuf offset)) (some r.0) u
            × IsGrown (offset + nbuf) r.1)
          (λ e u. (e ≡ none) × Torn P shared s (Puts (HasBytes d nbuf offset)) none u)
  unfolding update_block
  update_block-Leaves d nbuf offset h no_wrap q =
      let n : ℕ = (offset + nbuf) % size_mod in
      let same : n ≡ offset + nbuf = omega arith in
      rw (same, lt→ltb 0 nbuf h)
        (Leaves-done_with (some 0) (Written d nbuf offset) _
          (Torn P shared s (Puts (HasBytes d nbuf offset))) _
          (Leaves-bind {Q = λ a u. Quiet P shared s u}
            (Leaves-if_true _ _ (λ e. q) (inl (q, code-ne-zero 26)))
            λ a u q'.
              Leaves-bind
                (Torn-Unchanged P shared (
                  prepared_block-Leaves P shared k s d nbuf offset (offset + nbuf) (some 0)
                    (omega arith) unset q'))
                λ edited w (q'', g, has).
                  Leaves-done_with edited.new_block_size (Written d nbuf offset) _
                    (Torn P shared s (Puts (HasBytes d nbuf offset))) _
                    (Leaves-bind
                      (store_block-Leaves (HasBytes d nbuf offset) edited.value edited.nvalue has
                        q'')
                      λ fr x torn. Leaves-pure _ (torn, g))
                    (λ r x h'. h') (λ fr x h'. (h', g)) (λ x h'. h'))
          (λ r x h'. h') (λ fr x h'. (h', unset)) (λ x h'. (refl, h')))
    where
      unset : IsGrown (offset + nbuf) (some 0)
      unset m e = inl (sym (some-injective 0 m e))

      Written : List ℕ → ℕ → ℕ → ℤ × Option ℕ → State → Type 0
      Written d nbuf offset r u =
          Torn P shared s (Puts (HasBytes d nbuf offset)) (some r.0) u × IsGrown (offset + nbuf) r.1
