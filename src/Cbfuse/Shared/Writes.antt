-- ===== src/Cbfuse/Shared/Writes.antt =====
-- write where other clients use the bucket and every call may fail.
use cbfuse.Prelude.{
  ℕ, ◌+◌, ◌<◌, ℤ, pos, negsuc, to_int, size_mod, ◌⊎◌, inr, arith, ◌==◌, not, ◌≡◌, ◌≢◌, inl, refl,
  sym, ap, ◌∙◌, Option, some, none, List, [], ◌++◌, CString,
}
use mathlib.Core.List.{append-nil, append_assoc}
use cbfuse.Io.Leaves.{
  Leaves, Leaves-pure, Leaves-bind, Leaves-if, Leaves-if_true, Leaves-if_fr_error, Leaves-deref,
  Leaves-map, Leaves-finish, Leaves-ensured,
}
use cbfuse.Common.{enametoolong}
use cbfuse.Io.Codes.{IsCode}
use cbfuse.Platform.{Platform}
use cbfuse.Platform.Shared.{IsShared, Quiet, Change}
use cbfuse.Util.Shared.{Quiet-refl}
use cbfuse.Sync.Changes.{Torn}
use cbfuse.Stats.Shared.{Updates, WithSize, update_stat-Commits}
use cbfuse.Data.{grow_stat, write_data, minus_one}
use cbfuse.Data.Codes.{update_block-Ensures}
use cbfuse.Data.Prepares.{HasBytes}
use cbfuse.Data.Stores.{Puts, update_block-Leaves}
use cbfuse.Json.{CJson}
use cbfuse.Cbfuse.{Fuse, cbfuse_write}
use cbfuse.Cbfuse.Shared.{AtMost, logged, zero_of}

-- A number of bytes: a result above 0 that is not the error that lacks its minus sign.
abbrev pub IsCount : Option ℤ → Type 0
IsCount none = ⊥
IsCount (some (pos n)) = (0 < n) × (n ≢ enametoolong)
IsCount (some (negsuc n)) = ⊥

module _ (P : Platform) (shared : IsShared P) (path : CString) (d : List ℕ) (size offset : ℕ) where
  open P use {State}

  -- The block is put, with the bytes of the caller at the offset.
  abbrev pub PutsBytes : State → Change → Type 0
  PutsBytes s = Puts P shared path s (HasBytes d size offset)

  -- The size of the stat that stands there becomes the end of the write.
  abbrev pub Grows : Change → Type 0
  Grows = Updates P shared path (WithSize P (offset + size))

  -- What write has changed: nothing, or the block, or the block and then the stat. A number of bytes
  -- is returned only behind the block.
  abbrev pub Writes : State → Option ℤ → State → Type 0
  Writes s e u =
      (a : List Change) × (b : List Change) × (shared.log u ≡ shared.log s ++ (a ++ b))
      × AtMost (PutsBytes s) a
      × AtMost Grows b
      × (b ≢ [] → a ≢ [])
      × (IsCount e → a ≢ [])

  block_only :
      (e : Option ℤ) (s u : State) → ¬ IsCount e → Torn P shared s (PutsBytes s) e u → Writes s e u
  block_only e s u none_counted torn =
      let (a, l, most, z) = logged P shared e s u torn in
      (
        a,
        [],
        l ∙ ap (λ x. shared.log s ++ x) (sym (append-nil a)),
        most,
        inl refl,
        λ n. absurd (n refl),
        λ c. absurd (none_counted c),
      )

  -- The block has been put.
  abbrev HasBlock : State → State → Type 0
  HasBlock s u =
      (a : List Change) × (shared.log u ≡ shared.log s ++ a) × AtMost (PutsBytes s) a × (a ≢ [])

  has_block :
      (s u : State) (fr : ℤ) → fr ≡ pos 0 → Torn P shared s (PutsBytes s) (some fr) u → HasBlock s u
  has_block s u fr z torn =
      let (a, l, most, n) = logged P shared (some fr) s u torn in (a, l, most, n (ap some z))

  alone : (e : Option ℤ) (s u : State) → HasBlock s u → Writes s e u
  alone e s u (a, l, most, z) = (
    a,
    [],
    l ∙ ap (λ x. shared.log s ++ x) (sym (append-nil a)),
    most,
    inl refl,
    λ n. absurd (n refl),
    λ c. z,
  )

  grown :
      (e e' : Option ℤ) (s u w : State) → HasBlock s u → Torn P shared u Grows e w → Writes s e' w
  grown e e' s u w (a, l, most, z) torn =
      let (b, l', most', y) = logged P shared e u w torn in
      (a, b, l' ∙ ap (λ x. x ++ b) l ∙ append_assoc (shared.log s) a b, most, most', λ n. z, λ c. z)

  -- A new size other than 0 is the end of the write.
  grow_stat-Leaves :
      (n : ℕ) (s u : State)
      → (n ≡ 0) ⊎ (n ≡ offset + size)
      → HasBlock s u
      → Leaves (grow_stat P path n) u (λ a w. (e : Option ℤ) → Writes s e w) (Writes s)
  unfolding grow_stat
  grow_stat-Leaves n s u (inl e) has = rw e (Leaves-pure tt (λ e'. alone e' s u has))
  grow_stat-Leaves n s u (inr e) has = rw e (
      Leaves-if (not (offset + size == 0)) _ _
        (λ h.
          Leaves-bind
            (Leaves-map (update_stat-Commits P shared path u none (offset + size) 0).2
              (λ r w torn. λ (e' : Option ℤ). grown (some r) e' s u w has torn)
              λ e' w (f, torn). grown none e' s u w has torn)
            λ fr w writes. Leaves-if_fr_error fr (λ z. writes) (λ z. writes (some fr)))
        λ h. Leaves-pure tt (λ e'. alone e' s u has))

  -- Codes are no counts.
  code-not-IsCount : (fr : ℤ) → IsCode fr → ¬ IsCount (some fr)
  code-not-IsCount (pos n) h c = ground arith
  code-not-IsCount (negsuc n) h c = c

  -- A negative result is returned as -1.
  after_minus_one : (fr : ℤ) (s u : State) → Writes s (some fr) u → Writes s (some (minus_one fr)) u
  after_minus_one (pos n) s u w = w
  after_minus_one (negsuc n) s u (a, b, l, most, most', before, c) =
      (a, b, l, most, most', before, λ h. absurd h)

  -- However a write of one byte or more ends, where the sum of its offset and its size is less
  -- than 2 ^ 64, it has changed nothing, or put the block of the path, whatever stood there, with
  -- the bytes of the caller at the offset, or put that block and then replaced the document of
  -- the stat by the new stat made of the very bytes that stood there just before, with the end of
  -- the write as its size and a reading of the clock as its modification time. Where write
  -- returns a number of bytes, that is one above 0 and other than ENAMETOOLONG, the block has been
  -- put. The calls of the platform may fail, and other clients may change documents between any
  -- two commands.
  pub write-Writes :
      (J : CJson P) (F : Fuse P) (s : State)
      → 0 < size
      → offset + size < size_mod
      → Leaves
          (cbfuse_write P J F path (some d) size offset)
          s
          (λ r u. Writes s (some r) u)
          (Writes s)
  unfolding cbfuse_write write_data
  write-Writes J F s h no_wrap =
      Leaves-bind
        (Leaves-finish (λ r u. Writes s (some r) u) _ (Writes s) _
          (Leaves-bind {Q = λ a u. Quiet P shared s u}
            (Leaves-if_true _ _ (λ e. Quiet-refl P shared s) (none_yet 26))
            λ a u q.
              Leaves-bind
                (Leaves-ensured
                  (Leaves-map (update_block-Leaves P shared path s d size offset h no_wrap q)
                    (λ r w torn. torn) λ e w (f, torn). rw f (block_only none s w (λ c. c) torn))
                  (update_block-Ensures P path (some d) size offset (some 0)))
                λ updated w ((torn, size_of), code).
                  Leaves-bind {Q = λ c x. HasBlock s x}
                    (Leaves-if_fr_error updated.0
                      (λ z. has_block s w updated.0 (zero_of updated.0 z) torn)
                      λ z. block_only (some updated.0) s w (code-not-IsCount updated.0 code) torn)
                    λ c x has.
                      Leaves-bind {Q = λ n y. HasBlock s y × ((n ≡ 0) ⊎ (n ≡ offset + size))}
                        (Leaves-deref updated.1 (λ n e. (has, size_of n e)) (alone none s x has))
                        λ n y (has', sized).
                          Leaves-bind (grow_stat-Leaves n s y sized has')
                            λ c' y' writes. Leaves-pure _ (writes (some (to_int size))))
          (λ r u w. w) (λ fr u w. w) (λ u w. w))
        λ fr u writes. Leaves-pure _ (after_minus_one fr s u writes)
    where
      none_yet : (n : ℕ) → Writes s (some (negsuc n)) s
      none_yet n = (
        [],
        [],
        sym (append-nil (shared.log s)),
        inl refl,
        inl refl,
        λ m. absurd (m refl),
        λ c. absurd c,
      )
