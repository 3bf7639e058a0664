-- ===== src/Data/Codes.antt =====
-- With which codes the operations on blocks end, and how much a read copies, on any platform.
use cbfuse.Prelude.{
  ℕ, pos, negate, refl, Bool, true, false, Option, some, none, List, CString, ltb, ◌==◌, is_negsuc,
}
use cbfuse.Common.{blocks, eio, enomem, efbig}
use cbfuse.Io.{Reply, ok, err, assign}
use cbfuse.Io.Codes.{
  Ensures, IsCode, IsReply, Ensures-pure, Ensures-jump, Ensures-crash, Ensures-perform,
  Ensures-then, Ensures-bind, Ensures-if_true, Ensures-if_null, Ensures-if_fr_error, Ensures-deref,
  Ensures-returning, Ensures-finish, Ensures-done_with, Ensures-if,
}
use cbfuse.Platform.{Status, success, document_not_found, failure, Kind, StoreMode, Platform}
use cbfuse.Util.Codes.{read_bytes-Ensures, copy_into-Ensures, memdupm-Ensures}
use cbfuse.Sync.Codes.{
  Ensures-if_lcb_fail, create-Ensures, set_up-Ensures, set_up_all-Ensures, sync_store-Ensures,
  get_document-Ensures, remove_document-Ensures,
}
use cbfuse.Stats.Codes.{update_stat_size-Ensures}
use cbfuse.Data.{
  Block, store_code, get_block, fresh_block, current_block, grown_block, edited_block,
  prepared_block, store_block, update_block, remove_data, cut_block, truncate_data,
}

store_code-IsCode : (st : Status) → IsCode (store_code st)
store_code-IsCode success = refl
store_code-IsCode document_not_found = refl
store_code-IsCode (failure n) = refl

assign-Ensures : {S : Type 0} (p : Option ℕ) (n : ℕ) → Ensures {S = S} (assign p n) (λ a. Unit {0})
assign-Ensures none n = Ensures-crash
assign-Ensures (some old) n = Ensures-pure _ tt

module _ (P : Platform) where
  get_block-Ensures : (k : CString) → Ensures (get_block P k) IsReply
  unfolding get_block
  get_block-Ensures k = Ensures-returning (get_document-Ensures P blocks k)

  fresh_block-Ensures :
      (b : Bool) (n : ℕ) (out : Option ℕ) → Ensures (fresh_block P b n out) (λ a. Unit {0})
  unfolding fresh_block
  fresh_block-Ensures true n out = Ensures-then (Ensures-perform _) λ memory.
      Ensures-then (Ensures-if_null memory (negate enomem) refl)
        λ v. Ensures-then (assign-Ensures out n) λ o. Ensures-pure _ tt
  fresh_block-Ensures false n out = Ensures-jump (pos 0) refl

  current_block-Ensures :
      (got : Reply _) (b : Bool) (n : ℕ) (out : Option ℕ)
      → IsReply got
      → Ensures (current_block P got b n out) (λ a. Unit {0})
  unfolding current_block
  current_block-Ensures (ok r) b n out h = Ensures-pure _ tt
  current_block-Ensures (err fr) b n out h =
      Ensures-if (is_negsuc 1 fr) _ _ (fresh_block-Ensures b n out) (Ensures-jump fr h)

  grown_block-Ensures : (n : ℕ) (b : Block) → Ensures (grown_block P n b) (λ a. Unit {0})
  unfolding grown_block
  grown_block-Ensures n b =
      Ensures-if (ltb b.nvalue n) _ _
        (Ensures-then (memdupm-Ensures P b.value b.nvalue n) λ new.
          Ensures-then (Ensures-if_null b.value (negate enomem) refl)
            λ old. Ensures-then (assign-Ensures b.new_block_size n) λ o. Ensures-pure _ tt)
        (Ensures-pure b tt)

  edited_block-Ensures :
      (w : Bool) (buf : Option (List ℕ)) (nbuf offset n : ℕ) (b : Block)
      → Ensures (edited_block P w buf nbuf offset n b) (λ a. Unit {0})
  unfolding edited_block
  edited_block-Ensures true buf nbuf offset n b = Ensures-then (grown_block-Ensures n b) λ room.
      Ensures-then (read_bytes-Ensures buf nbuf)
        λ bytes. Ensures-then (copy_into-Ensures room.value offset bytes) λ v. Ensures-pure _ tt
  edited_block-Ensures false buf nbuf offset n b = Ensures-pure _ tt

  prepared_block-Ensures :
      (k : CString) (w : Bool) (buf : Option (List ℕ)) (nbuf offset n : ℕ) (out : Option ℕ)
      → Ensures (prepared_block P k w buf nbuf offset n out) (λ a. Unit {0})
  unfolding prepared_block
  prepared_block-Ensures k w buf nbuf offset n out = Ensures-bind (get_block-Ensures k) λ got reply.
      Ensures-then (current_block-Ensures got w n out reply)
        λ block. edited_block-Ensures w buf nbuf offset n block

  store_block-Ensures :
      (k : CString) (v : Option (List ℕ)) (n : ℕ) → Ensures (store_block P k v n) IsCode
  unfolding store_block
  store_block-Ensures k v n =
      Ensures-then (create-Ensures P (Kind.store StoreMode.upsert)) λ created.
        Ensures-then (set_up_all-Ensures P _ created) λ keyed.
          Ensures-then (read_bytes-Ensures v n) λ bytes.
            Ensures-then (set_up-Ensures P _ keyed) λ cmd.
              Ensures-then (sync_store-Ensures P cmd) λ ran.
                Ensures-then (Ensures-if_lcb_fail ran.0 (negate eio) refl) λ u.
                  Ensures-then (Ensures-deref ran.1)
                    λ r. Ensures-pure _ (store_code-IsCode r.status)

  pub update_block-Ensures :
      (k : CString) (buf : Option (List ℕ)) (nbuf offset : ℕ) (out : Option ℕ)
      → Ensures (update_block P k buf nbuf offset out) (λ r. IsCode r.0)
  unfolding update_block
  update_block-Ensures k buf nbuf offset out =
      Ensures-done_with out
        (Ensures-then (Ensures-if_true _ (negate efbig) refl) λ u.
          Ensures-then (prepared_block-Ensures k _ buf nbuf offset _ out) λ edited.
            Ensures-done_with edited.new_block_size
              (Ensures-bind (store_block-Ensures k edited.value edited.nvalue)
                λ fr c. Ensures-pure _ c)
              (λ fr c. c))
        (λ fr c. c)

  pub remove_data-Ensures : (k : CString) → Ensures (remove_data P k) IsCode
  unfolding remove_data
  remove_data-Ensures k =
      Ensures-finish
        (Ensures-then (remove_document-Ensures P blocks k) λ u. Ensures-pure (pos 0) refl)

  cut_block-Ensures : (k : CString) (offset : ℕ) → Ensures (cut_block P k offset) IsCode
  unfolding cut_block
  cut_block-Ensures k offset =
      Ensures-if (offset == 0) _ _ (remove_data-Ensures k)
        (Ensures-bind (update_block-Ensures k none 0 offset none) λ r c. Ensures-pure r.0 c)

  pub truncate_data-Ensures : (k : CString) (offset : ℕ) → Ensures (truncate_data P k offset) IsCode
  unfolding truncate_data
  truncate_data-Ensures k offset = Ensures-finish (
      Ensures-bind (cut_block-Ensures k offset) λ fr c. Ensures-then (Ensures-if_fr_error fr c) λ u.
        Ensures-bind (update_stat_size-Ensures P k offset)
          λ fr' c'. Ensures-then (Ensures-if_fr_error fr' c') λ u'. Ensures-pure fr' c')
