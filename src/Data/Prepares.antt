-- ===== src/Data/Prepares.antt =====
-- What a write will store, where other clients use the bucket and every call may fail.
use cbfuse.Prelude.{
  ℕ, zero, suc, ◌+◌, ◌≤◌, ◌⊎◌, sym, subst, some-injective, length, take, drop, length-take, leb,
  arith, ℤ, negate, is_negsuc, ◌≡◌, inr, refl, ap, ◌∙◌, true, Option, none, some, List, [], ◌∷◌,
  CString, ltb,
}
use cbfuse.Common.{blocks, enomem}
use cbfuse.Io.{Reply, ok, err, assign, read_bytes, copy_into, overwrite}
use cbfuse.Data.Bytes.{take-take, overwrite_holds}
use cbfuse.Io.Leaves.{
  Leaves, Replied, Leaves-pure, Leaves-jump, Leaves-crash, Leaves-bind, Leaves-call, Leaves-if,
  Leaves-if_null, Leaves-map, Leaves-returning,
}
use cbfuse.Platform.{Platform}
use cbfuse.Platform.Shared.{IsShared, Quiet}
use cbfuse.Util.Shared.{Unchanged, fault-ne-zero, code-ne-zero, Quiet-trans, memdupm-Leaves}
use cbfuse.Sync.{SyncGetResult}
use cbfuse.Sync.Shared.{get_document-Leaves}
use cbfuse.Data.{
  Block, get_block, fresh_block, current_block, grown_block, edited_block, prepared_block,
}

-- What a longer prefix has, a shorter part of it has.
take-drop-take :
    (m o n : ℕ) (v : List ℕ) → o + m ≤ n → take m (drop o (take n v)) ≡ take m (drop o v)
take-drop-take m zero n v h = take-take m n v (omega arith)
take-drop-take m (suc o) zero v h = absurd (omega arith)
take-drop-take m (suc o) (suc n) [] h = refl
take-drop-take m (suc o) (suc n) (x ∷ v) h = take-drop-take m o n v (omega arith)

-- The bytes of a block after a write: at the offset stand those of the caller.
abbrev pub HasBytes : List ℕ → ℕ → ℕ → List ℕ → Type 0
HasBytes d nbuf offset bytes = take nbuf (drop offset bytes) ≡ take nbuf d

-- A new size of a block is that of the update; 0 says that the block has not grown.
abbrev pub IsGrown : ℕ → Option ℕ → Type 0
IsGrown n out = (m : ℕ) → out ≡ some m → (m ≡ 0) ⊎ (m ≡ n)

pub IsGrown-self : (n : ℕ) → IsGrown n (some n)
IsGrown-self n m e = inr (sym (some-injective n m e))

module _ {S : Type 0} {E : Option ℤ → S → Type 0} where
  -- Reading and copying stay within the buffers.
  read_within-Leaves :
      {Q : List ℕ → S → Type 0} (v : List ℕ) (n : ℕ) {s : S}
      → (n ≤ length v → Q (take n v) s)
      → E none s
      → Leaves (read_bytes (some v) n) s Q E
  read_within-Leaves v n q e =
      Leaves-if (leb n (length v)) _ _ (λ h. Leaves-pure (take n v) (q (ground arith)))
        λ h. Leaves-crash e

  copy_within-Leaves :
      {Q : List ℕ → S → Type 0} (dest : Option (List ℕ)) (offset : ℕ) (src : List ℕ) {s : S}
      → ((v : List ℕ) → offset + length src ≤ length v → Q (overwrite offset src v) s)
      → E none s
      → Leaves (copy_into dest offset src) s Q E
  copy_within-Leaves none offset src q e = Leaves-crash e
  copy_within-Leaves (some v) offset src q e =
      Leaves-if (leb (offset + length src) (length v)) _ _
        (λ h. Leaves-pure (overwrite offset src v) (q v (ground arith))) λ h. Leaves-crash e

module _ (P : Platform) (shared : IsShared P) (k : CString) (s : P.State) where
  open P use {State}

  assign-Leaves :
      (p : Option ℕ) (n : ℕ) {t : State} {Q : Option ℕ → State → Type 0}
      {E : Option ℤ → State → Type 0}
      → Q (some n) t
      → E none t
      → Leaves (assign p n) t Q E
  assign-Leaves none n q e = Leaves-crash e
  assign-Leaves (some old) n q e = Leaves-pure _ q

  pub get_block-Leaves :
      {t : State}
      → Quiet P shared s t
      → Leaves
          (get_block P k)
          t
          (Replied (λ r u. Quiet P shared s u) (Unchanged P shared s))
          (Unchanged P shared s)
  unfolding get_block
  get_block-Leaves q =
      Leaves-returning _ _
        (Leaves-map (get_document-Leaves P shared s blocks k q) (λ r u (h, q'). q') λ e u h. h)

  fresh_block-Leaves :
      (n : ℕ) (out : Option ℕ) {t : State}
      → Quiet P shared s t
      → Leaves
          (fresh_block P true n out)
          t
          (λ b u. Quiet P shared s u × IsGrown n b.new_block_size)
          (Unchanged P shared s)
  unfolding fresh_block
  fresh_block-Leaves n out {t} q =
      let q' : Quiet P shared s (P.malloc n t).1 =
        Quiet-trans P shared q (shared.malloc_quiet n t) in
      Leaves-call _ _ (
        Leaves-bind {Q = λ v u. Quiet P shared s u}
          (Leaves-if_null (P.malloc n t).0 (negate enomem) (λ v e. q') (q', code-ne-zero 11))
          λ v u q''.
            Leaves-bind {Q = λ o w. Quiet P shared s w × IsGrown n o}
              (assign-Leaves out n (q'', IsGrown-self n) (q'', fault-ne-zero))
              λ o w q3. Leaves-pure _ q3)

  current_block-Leaves :
      (got : Reply SyncGetResult) (n : ℕ) (out : Option ℕ) {t : State}
      → IsGrown n out
      → Replied (λ r u. Quiet P shared s u) (Unchanged P shared s) got t
      → Leaves
          (current_block P got true n out)
          t
          (λ b u. Quiet P shared s u × IsGrown n b.new_block_size)
          (Unchanged P shared s)
  unfolding current_block
  current_block-Leaves (ok r) n out g h = Leaves-pure _ (h, g)
  current_block-Leaves (err fr) n out g h =
      Leaves-if (is_negsuc 1 fr) _ _ (λ e. fresh_block-Leaves n out h.0) λ e. Leaves-jump fr h

  grown_block-Leaves :
      (n : ℕ) (b : Block) {t : State}
      → IsGrown n b.new_block_size
      → Quiet P shared s t
      → Leaves
          (grown_block P n b)
          t
          (λ b' u. Quiet P shared s u × IsGrown n b'.new_block_size × (n ≤ b'.nvalue))
          (Unchanged P shared s)
  unfolding grown_block
  grown_block-Leaves n b g q =
      Leaves-if (ltb b.nvalue n) _ _
        (λ h. Leaves-bind (memdupm-Leaves P shared s b.value b.nvalue n q) λ new u (q', e).
          Leaves-bind {Q = λ v w. Quiet P shared s w}
            (Leaves-if_null b.value (negate enomem) (λ v e'. q') (q', code-ne-zero 11))
            λ old w q''.
              Leaves-bind {Q = λ o w'. Quiet P shared s w' × IsGrown n o}
                (assign-Leaves b.new_block_size n (q'', IsGrown-self n) (q'', fault-ne-zero))
                λ o w' (q3, g'). Leaves-pure _ (q3, g', omega arith))
        λ h. Leaves-pure b (q, g, ground arith)

  -- Up to the store nothing has changed. What will be stored has the bytes of the caller.
  pub prepared_block-Leaves :
      (d : List ℕ) (nbuf offset n : ℕ) (out : Option ℕ) {t : State}
      → offset + nbuf ≤ n
      → IsGrown n out
      → Quiet P shared s t
      → Leaves
          (prepared_block P k true (some d) nbuf offset n out)
          t
          (λ b u.
            Quiet P shared s u
            × IsGrown n b.new_block_size
            × ((v : List ℕ) → b.value ≡ some v → HasBytes d nbuf offset (take b.nvalue v)))
          (Unchanged P shared s)
  unfolding prepared_block edited_block
  prepared_block-Leaves d nbuf offset n out room grown q0 =
      Leaves-bind (get_block-Leaves q0) λ got u reply.
        Leaves-bind (current_block-Leaves got n out grown reply) λ b w (q, g).
          Leaves-bind (grown_block-Leaves n b g q) λ b' w' (q', g', long).
            Leaves-bind
              {Q = λ bytes x. Quiet P shared s x × (nbuf ≤ length d) × (bytes ≡ take nbuf d)}
              (read_within-Leaves d nbuf (λ h. (q', h, refl)) (q', fault-ne-zero))
              λ bytes x (q'', h, e).
                Leaves-bind
                  {Q = λ v y. Quiet P shared s y × HasBytes d nbuf offset (take b'.nvalue v)}
                  (copy_within-Leaves b'.value offset bytes
                    (λ v fits. (q'', copied v bytes b'.nvalue h e fits long)) (q'', fault-ne-zero))
                  λ v y (q3, has). Leaves-pure _ (
                    q3,
                    g',
                    λ v' e'.
                        subst (λ l. HasBytes d nbuf offset (take b'.nvalue l))
                          (some-injective v v' e') has,
                  )
    where
      copied :
          (v bytes : List ℕ) (nvalue : ℕ)
          → nbuf ≤ length d
          → bytes ≡ take nbuf d
          → offset + length bytes ≤ length v
          → n ≤ nvalue
          → HasBytes d nbuf offset (take nvalue (overwrite offset bytes v))
      copied v bytes nvalue h e fits long =
          let size : length bytes ≡ nbuf = ap length e ∙ length-take nbuf d h in
          take-drop-take nbuf offset nvalue (overwrite offset bytes v) (omega arith)
          ∙ ap (λ m. take m (drop offset (overwrite offset bytes v))) (sym size)
          ∙ overwrite_holds offset bytes v fits
          ∙ e
