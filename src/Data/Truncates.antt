-- ===== src/Data/Truncates.antt =====
-- truncate_data over a reliable server, on every branch. Only a cut inside the block is sound.
use cbfuse.Prelude.{
  ℕ, ◌+◌, ◌%◌, ◌≤◌, ◌<◌, pos, negate, size_mod, ◌≡◌, ◌≢◌, refl, ap, ◌∙◌, Option, is_some, ◌&&◌, ltb,
  none, some, List, CString, length, length-take, take, arith, le→ltb, false,
}
use cbfuse.Common.{blocks, max_file_len, enoent}
use cbfuse.Io.{value, fault}
use cbfuse.Io.Rules.{
  Ends, Ends-then, Ends-bind, Ends-pure, Ends-jump, Ends-jump_at, Ends-map, Ends-next, Ends-crash,
  Ends-finish, Ends-finish_jump,
}
use cbfuse.Io.Guards.{if_true-pass, Ends-done_with, Ends-done_with_jump, Ends-done_with_fault}
use cbfuse.Platform.{Platform}
use cbfuse.Platform.Reliable.{IsReliable, put, Fits}
use cbfuse.Sync.Rules.{Same, Same-trans}
use cbfuse.Sync.Documents.{remove_document-found, remove_document-missing}
use cbfuse.Data.{
  update_block, prepared_block, current_block, fresh_block, edited_block, remove_data,
}
use cbfuse.Data.Blocks.{get_block-found, get_block-missing, store_block-Ends, store_block-overrun}

module _ (P : Platform) (rel : IsReliable P) where
  open P use {State}
  open rel use {contents, cas_at}

  prepared_cut :
      (k : CString) (v : List ℕ) (buf : Option (List ℕ)) (offset : ℕ) (out : Option ℕ) (s : State)
      → contents s blocks k ≡ some v
      → Ends
          (prepared_block P k false buf 0 offset offset out)
          s
          (value (record { value = some v; nvalue = offset; new_block_size = out }))
          (Same P rel s)
  unfolding prepared_block current_block edited_block
  prepared_cut k v buf offset out s there =
      Ends-bind (get_block-found P rel k v s there)
        λ got t (res, e, h1, h2, same). rw e (Ends-next _ (rw (h1) (Ends-pure _ t same)))

  no_wrap : (offset : ℕ) → offset ≤ max_file_len → (offset + 0) % size_mod ≡ offset
  no_wrap offset h = omega arith

  -- No bytes are no data, whether there is a buffer.
  no_data : (buf : Option (List ℕ)) → (is_some buf && ltb 0 0) ≡ false
  no_data none = refl
  no_data (some b) = refl

  -- What is left of a document fits.
  cut_fits :
      (k : CString) (v : List ℕ) (n : ℕ) (s : State)
      → contents s blocks k ≡ some v
      → n ≤ length v
      → Fits blocks k (take n v)
  cut_fits k v n s there inside =
      let (short, small) = rel.documents_fit blocks k v s there in
      (short, omega (arith, length-take n v inside))

  -- An update with no bytes, inside the block, keeps the first bytes.
  pub update_block-cuts :
      (k : CString) (v : List ℕ) (buf : Option (List ℕ)) (offset : ℕ) (out : Option ℕ) (s : State)
      → contents s blocks k ≡ some v
      → offset ≤ length v
      → offset ≤ max_file_len
      → Ends
          (update_block P k buf 0 offset out)
          s
          (value (pos 0, out))
          (λ t. contents t ≡ put blocks k (some (take offset v)) (contents s))
  unfolding update_block
  update_block-cuts k v buf offset out s there inside fits =
      rw (no_wrap offset fits, no_data buf)
        (Ends-done_with out (
          if_true-pass _ _ _ (le→ltb max_file_len offset fits) (
            Ends-then _ (prepared_cut k v buf offset out s there) λ t same. Ends-done_with out (
              Ends-then _
                (store_block-Ends P rel k v offset t inside (cut_fits k v offset s there inside))
                λ u docs.
                  Ends-pure _ u (docs ∙ ap (put blocks k (some (take offset v))) same.docs)))))

  -- A cut behind the block stores bytes that the buffer does not have.
  pub update_block-overrun :
      (k : CString) (v : List ℕ) (offset : ℕ) (s : State)
      → contents s blocks k ≡ some v
      → length v < offset
      → offset ≤ max_file_len
      → Ends (update_block P k none 0 offset none) s fault (Same P rel s)
  unfolding update_block
  update_block-overrun k v offset s there past fits = rw (no_wrap offset fits) (
      Ends-done_with_fault none (
        if_true-pass _ _ _ (le→ltb max_file_len offset fits) (
          Ends-then _ (prepared_cut k v none offset none s there) λ t same.
            Ends-done_with_fault none (
              Ends-crash _ (
                Ends-map (store_block-overrun P rel k v offset t past)
                  λ u same'. Same-trans P rel same same')))))

  -- With no block there is nothing to cut.
  pub update_block-no_block :
      (k : CString) (offset : ℕ) (s : State)
      → contents s blocks k ≡ none
      → offset ≤ max_file_len
      → Ends (update_block P k none 0 offset none) s (value (pos 0, none)) (Same P rel s)
  unfolding update_block prepared_block current_block fresh_block
  update_block-no_block k offset s gone fits = rw (no_wrap offset fits) (
      Ends-done_with_jump none (
        if_true-pass _ _ _ (le→ltb max_file_len offset fits) (
          Ends-jump _ (
            Ends-then _ (get_block-missing P rel k s gone)
              λ t same. Ends-jump _ (Ends-jump_at (pos 0) t same)))))

  pub remove_data-found :
      (k : CString) (s : State)
      → contents s blocks k ≢ none
      → Ends (remove_data P k) s (value (pos 0)) (λ t. contents t ≡ put blocks k none (contents s))
  unfolding remove_data
  remove_data-found k s there =
      Ends-finish
        (Ends-then _ (remove_document-found P rel blocks k s there) λ t e. Ends-pure (pos 0) t e)

  pub remove_data-missing :
      (k : CString) (s : State)
      → contents s blocks k ≡ none
      → Ends
          (remove_data P k)
          s
          (value (negate enoent))
          (λ t. contents t ≡ put blocks k none (contents s))
  unfolding remove_data
  remove_data-missing k s gone =
      Ends-finish_jump (Ends-jump _ (remove_document-missing P rel blocks k s gone))
