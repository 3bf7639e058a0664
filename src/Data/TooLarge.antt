-- ===== src/Data/TooLarge.antt =====
-- write_data over a reliable server, where the block would be larger than a document.
use cbfuse.Prelude.{
  ℕ, ◌+◌, ◌≤◌, ◌<◌, ◌%◌, negsuc, negate, size_mod, ◌≡◌, refl, ◌∙◌, Option, some, List, [], ◌∷◌,
  CString, length, take_all, arith, le→ltb, lt→ltb,
}
use cbfuse.Common.{blocks, max_doc_len, max_file_len, max_key_len, eio}
use cbfuse.Io.{value}
use cbfuse.Io.Rules.{
  Ends, Yields, Ends-then, Ends-bind, Ends-pure, Ends-next, Ends-finish_jump, Yields-bind,
  Yields-then, Yields-pure,
}
use cbfuse.Io.Guards.{if_true-pass, if_true-Yields, if_fr_error-jump, Yields-done_with}
use cbfuse.Platform.{StoreMode, Kind, in_collection, raw_value, with_key, with_value, Platform}
use cbfuse.Platform.Reliable.{IsReliable}
use cbfuse.Sync.Rules.{Same, Same-trans, create-Ends, set_up-Ends, set_up_all-Ends}
use cbfuse.Sync.Memory.{read_bytes-Ends}
use cbfuse.Sync.Writes.{sync_store-Ends}
use cbfuse.Data.{store_block, update_block, write_data}
use cbfuse.Data.Blocks.{upsert_command}
use cbfuse.Data.Writes.{prepared_block-Yields}

module _ (P : Platform) (rel : IsReliable P) where
  open P use {State}
  open rel use {contents}

  -- A block that is larger than a document is refused.
  store_block-too_large :
      (k : CString) (v : List ℕ) (s : State)
      → length k ≤ max_key_len
      → max_doc_len < length v
      → Ends
          (store_block P k (some v) (length v))
          s
          (value (negate eio))
          (λ t. contents t ≡ contents s)
  unfolding store_block
  store_block-too_large k v s short large =
      Ends-then _ (create-Ends P rel (Kind.store StoreMode.upsert) s) λ t a.
        Ends-then _ (set_up_all-Ends P rel (in_collection blocks ∷ raw_value ∷ with_key k ∷ []) _ t)
          λ u b.
            Ends-then _
              (read_bytes-Ends v (length v) u (Same P rel s) (omega arith) (Same-trans P rel a b))
              λ w c. rw take_all (
                Ends-then _ (set_up-Ends P rel (with_value v) _ w) λ x d.
                  let same = Same-trans P rel c d in
                  let (r, n, e, refused, docs) =
                    rel.store_too_large StoreMode.upsert blocks k v (upsert_command k v)
                      (P.calloc x).1 refl refl refl refl short (λ h. absurd (omega arith)) in
                  Ends-then _ (sync_store-Ends P rel _ r x e) λ y p. Ends-next _ (
                    Ends-next _ (
                      rw refused (
                        Ends-pure (negate eio) y
                          (rw p (docs ∙ rel.calloc_contents x ∙ same.docs))))))

  update_block-too_large :
      (k : CString) (d : List ℕ) (offset : ℕ) (s : State)
      → length k ≤ max_key_len
      → 0 < length d
      → max_doc_len < offset + length d
      → offset + length d ≤ max_file_len
      → Yields
          (update_block P k (some d) (length d) offset (some 0))
          s
          (λ r t. (out : Option ℕ) × (r ≡ (negate eio, out)) × (contents t ≡ contents s))
  unfolding update_block
  update_block-too_large k d offset s short some_data large fits =
      let no_wrap : (offset + length d) % size_mod ≡ offset + length d = omega arith in
      rw (no_wrap, lt→ltb 0 (length d) some_data)
        (Yields-done_with (some 0) (
          if_true-Yields _ _ _ (le→ltb max_file_len (offset + length d) fits) (
            Yields-bind (prepared_block-Yields P rel k d offset s some_data)
              λ b t (new, written, e, same). rw e (
                Yields-done_with _ (
                  Yields-then _ (store_block-too_large k new t short (omega (arith, written.size)))
                    λ u docs. Yields-pure _ u (_, refl, docs ∙ same.docs))))))

  -- A write of some bytes whose end lies behind the largest size of a document, and within the
  -- largest file size, returns -1 and changes no document, where the path is within the length of
  -- a key. The platform is reliable.
  pub write_data-too_large :
      (k : CString) (d : List ℕ) (offset : ℕ) (s : State)
      → length k ≤ max_key_len
      → 0 < length d
      → max_doc_len < offset + length d
      → offset + length d ≤ max_file_len
      → Ends
          (write_data P k (some d) (length d) offset)
          s
          (value (negsuc 0))
          (λ t. contents t ≡ contents s)
  unfolding write_data
  write_data-too_large k d offset s short some_data large fits =
      let no_wrap : (offset + length d) % size_mod ≡ offset + length d = omega arith in
      rw no_wrap (
        Ends-then _ {a = negate eio}
          (Ends-finish_jump (
            if_true-pass _ _ _ (le→ltb max_file_len (offset + length d) fits) (
              Ends-bind (update_block-too_large k d offset s short some_data large fits)
                λ r t (out, e, docs). rw e (if_fr_error-jump (negate eio) _ refl docs))))
          λ t docs. Ends-pure (negsuc 0) t docs)
