-- ===== src/Data/Cuts.antt =====
-- The cut of a block where other clients use the bucket and every call may fail.
use cbfuse.Prelude.{
  List, ℕ, ◌<◌, ℤ, pos, ◌≡◌, ◌≢◌, ◌⊎◌, inl, inr, refl, Option, false, none, some, CString, ◌==◌,
  is_negsuc, arith,
}
use cbfuse.Common.{blocks}
use cbfuse.Io.{Reply, ok, err}
use cbfuse.Io.Leaves.{
  Leaves, Leaves-pure, Leaves-jump, Leaves-bind, Leaves-if, Leaves-if_true, Leaves-map,
  Leaves-done_with,
}
use cbfuse.Io.Leaves.{Replied}
use cbfuse.Platform.{Platform}
use cbfuse.Platform.Shared.{IsShared, Quiet, Change}
use cbfuse.Util.Shared.{Unchanged, Quiet-refl}
use cbfuse.Sync.Changes.{Made, Torn, Torn-after, Made-map, Asked}
use cbfuse.Sync.{SyncGetResult}
use cbfuse.Data.{current_block, fresh_block, prepared_block, edited_block, update_block, cut_block}
use cbfuse.Data.Shared.{remove_data-Commits}
use cbfuse.Data.Prepares.{get_block-Leaves}
use cbfuse.Data.Stores.{Puts, store_block-Leaves}

-- A cut leaves open which bytes are put.
abbrev IsAny : List ℕ → Type 0
IsAny bytes = Unit

module _ (P : Platform) (shared : IsShared P) (k : CString) (s : P.State) where
  open P use {State}

  -- Nothing, or one change.
  abbrev pub Perhaps : (Change → Type 0) → State → Type 0
  Perhaps Fact u = Quiet P shared s u ⊎ Made P shared s Fact u

  perhaps :
      {Fact : Change → Type 0} (e : Option ℤ) {u : State}
      → Torn P shared s Fact e u
      → Perhaps Fact u
  perhaps e (inl (q, h)) = inl q
  perhaps e (inr m) = inr m

  current_block-Leaves :
      (got : Reply SyncGetResult) (n : ℕ) {t : State}
      → Replied (λ r u. Quiet P shared s u) (Unchanged P shared s) got t
      → Leaves
          (current_block P got false n none)
          t
          (λ b u. Quiet P shared s u)
          (λ e u. Quiet P shared s u)
  unfolding current_block fresh_block
  current_block-Leaves (ok r) n h = Leaves-pure _ h
  current_block-Leaves (err fr) n h =
      Leaves-if (is_negsuc 1 fr) _ _ (λ e. Leaves-jump (pos 0) h.0) λ e. Leaves-jump fr h.0

  prepared_block-Leaves :
      (offset n : ℕ) {t : State}
      → Quiet P shared s t
      → Leaves
          (prepared_block P k false none 0 offset n none)
          t
          (λ b u. Quiet P shared s u)
          (λ e u. Quiet P shared s u)
  unfolding prepared_block edited_block
  prepared_block-Leaves offset n q =
      Leaves-bind (Leaves-map (get_block-Leaves P shared k s q) (λ r u h. h) λ e u h. h.0)
        λ got u reply. Leaves-bind (current_block-Leaves got n reply) λ b w q'. Leaves-pure _ q'

  -- Where no block stands, nothing is put, and the result is 0.
  update_block-cut :
      (offset : ℕ) {t : State}
      → Quiet P shared s t
      → Leaves
          (update_block P k none 0 offset none)
          t
          (λ r u. Perhaps (Puts P shared k s IsAny) u)
          (λ e u. (e ≡ none) × Perhaps (Puts P shared k s IsAny) u)
  unfolding update_block
  update_block-cut offset q =
      Leaves-done_with none (λ r u. Perhaps (Puts P shared k s IsAny) u) _
        (λ e u. Perhaps (Puts P shared k s IsAny) u) _
        (Leaves-bind {Q = λ a u. Quiet P shared s u} (Leaves-if_true _ _ (λ e. q) (inl q)) λ a u q'.
          Leaves-bind (Leaves-map (prepared_block-Leaves offset _ q') (λ b w h. h) λ e w h. inl h)
            λ edited w q''.
              Leaves-done_with edited.new_block_size (λ r x. Perhaps (Puts P shared k s IsAny) x) _
                (λ e x. Perhaps (Puts P shared k s IsAny) x) _
                (Leaves-bind
                  (Leaves-map
                    (store_block-Leaves P shared k s IsAny edited.value edited.nvalue (λ v e. tt)
                      q'')
                    (λ r x torn. perhaps (some r) torn) λ e x torn. perhaps e torn)
                  λ fr x h. Leaves-pure _ h)
                (λ r x h. h) (λ fr x h. h) (λ x h. h))
        (λ r x h. h) (λ fr x h. h) (λ x h. (refl, h))

  -- At offset 0 the block that stands there is removed, else a block is put.
  abbrev pub Cuts : ℕ → Change → Type 0
  Cuts offset ch =
      (offset ≡ 0) × Asked P shared blocks k none (λ before. before blocks k ≢ none) ch
      ⊎ (0 < offset) × Puts P shared k s IsAny ch

  pub cut_block-Leaves :
      (offset : ℕ) {t : State}
      → Quiet P shared s t
      → Leaves
          (cut_block P k offset)
          t
          (λ r u. Perhaps (Cuts offset) u)
          (λ e u. (e ≡ none) × Perhaps (Cuts offset) u)
  unfolding cut_block
  cut_block-Leaves offset q =
      Leaves-if (offset == 0) _ _
        (λ z.
          Leaves-map (remove_data-Commits P shared s k q)
            (λ r u torn. perhaps (some r) (
              Torn-after P shared (some r) (Quiet-refl P shared s) (λ ch h. inl (ground arith, h))
                torn))
            λ e u (f, torn). (
              f,
              perhaps none (
                  Torn-after P shared none (Quiet-refl P shared s) (λ ch h. inl (ground arith, h))
                    torn),
            ))
        λ z.
          Leaves-bind
            (Leaves-map (update_block-cut offset q) (λ r u h. lifted z h)
              λ e u (f, h). (f, lifted z h))
            λ r u h. Leaves-pure _ h
    where
      lifted :
          {u : State}
          → (offset == 0) ≡ false
          → Perhaps (Puts P shared k s IsAny) u
          → Perhaps (Cuts offset) u
      lifted z (inl h) = inl h
      lifted z (inr m) = inr (Made-map P shared (λ ch h. inr (ground arith, h)) m)
