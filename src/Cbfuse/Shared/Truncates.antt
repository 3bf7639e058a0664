-- ===== src/Cbfuse/Shared/Truncates.antt =====
-- truncate where other clients use the bucket and every call may fail.
use cbfuse.Prelude.{
  ℕ, ℤ, pos, ◌≡◌, ◌≢◌, inl, inr, refl, sym, ap, ◌∙◌, Option, some, none, none-ne-some, List, [],
  ◌∷◌, ◌++◌, CString,
}
use mathlib.Core.List.{append-nil, append_assoc}
use cbfuse.Io.Leaves.{Leaves, Leaves-bind, Leaves-if_fr_error, Leaves-map, Leaves-finish}
use cbfuse.Platform.{Platform}
use cbfuse.Platform.Shared.{IsShared, Change}
use cbfuse.Util.Shared.{Quiet-refl}
use cbfuse.Sync.Changes.{Torn}
use cbfuse.Stats.Shared.{Updates, WithSize, update_stat-Commits}
use cbfuse.Data.{truncate_data}
use cbfuse.Data.Cuts.{Perhaps, Cuts, cut_block-Leaves}
use cbfuse.Json.{CJson}
use cbfuse.Cbfuse.{Fuse, cbfuse_truncate}
use cbfuse.Cbfuse.Shared.{AtMost, logged, nonzero, answered}

module _ (P : Platform) (shared : IsShared P) (path : CString) (offset : ℕ) (s : P.State) where
  open P use {State}

  -- What truncate has changed, in this order: the block and the stat.
  abbrev pub Truncates : Option ℤ → State → Type 0
  Truncates e u =
      (a : List Change) × (b : List Change) × (shared.log u ≡ shared.log s ++ (a ++ b))
      × AtMost (Cuts P shared path s offset) a
      × AtMost (Updates P shared path (WithSize P offset)) b
      × (e ≡ some (pos 0) → b ≢ [])

  -- The stat stands as it was.
  abbrev HasCut : State → Type 0
  HasCut u =
      (a : List Change) × (shared.log u ≡ shared.log s ++ a)
      × AtMost (Cuts P shared path s offset) a

  has_cut : (u : State) → Perhaps P shared path s (Cuts P shared path s offset) u → HasCut u
  has_cut u (inl q) = ([], q.0 ∙ sym (append-nil (shared.log s)), inl refl)
  has_cut u (inr m) = (m.change ∷ [], m.logged, inr (m.change, refl, m.fact))

  cut_alone : (e : Option ℤ) (u : State) → e ≢ some (pos 0) → HasCut u → Truncates e u
  cut_alone e u h (a, l, most) = (
    a,
    [],
    l ∙ ap (λ x. shared.log s ++ x) (sym (append-nil a)),
    most,
    inl refl,
    λ z. absurd (h z),
  )

  both_made :
      (e : Option ℤ) (u w : State)
      → HasCut u
      → Torn P shared u (Updates P shared path (WithSize P offset)) e w
      → Truncates e w
  both_made e u w (a, l, most) torn =
      let (b, l', most', z) = logged P shared e u w torn in
      (a, b, l' ∙ ap (λ x. x ++ b) l ∙ append_assoc (shared.log s) a b, most, most', z)

  truncate_data-Truncates :
      Leaves (truncate_data P path offset) s (λ r u. Truncates (some r) u) Truncates
  unfolding truncate_data
  truncate_data-Truncates =
      Leaves-finish (λ r u. Truncates (some r) u) _ Truncates _
        (Leaves-bind
          (Leaves-map (cut_block-Leaves P shared path s offset (Quiet-refl P shared s))
            (λ r u h. has_cut u h)
            λ e u (f, h). rw f (cut_alone none u (none-ne-some (pos 0)) (has_cut u h)))
          λ fr u has.
            Leaves-bind {Q = λ a w. HasCut w}
              (Leaves-if_fr_error fr (λ z. has) λ z. cut_alone (some fr) u (nonzero fr z) has)
              λ a w has'. answered P shared {X = Truncates} (
                Leaves-map (update_stat-Commits P shared path w none offset 0).2
                  (λ r x torn. both_made (some r) w x has' torn)
                  λ e x (f, torn). rw f (both_made none w x has' torn)))
        (λ r u h. h) (λ fr u h. h) (λ u h. h)

  -- However truncate ends, it has made at most two changes, in this order: one to the block of
  -- the path, and one that replaces the document of its stat by the new stat made of the very
  -- bytes that stood there just before, with the offset as its size and a reading of the clock
  -- as its modification time. At offset 0 the first removes the block, which stood there; at
  -- any other offset it puts a block, whatever stands there. Where truncate returns 0 the stat
  -- has been replaced, while the block may be as it was. The calls of the platform may fail,
  -- and other clients may change documents between any two commands.
  pub truncate-Truncates :
      (J : CJson P) (F : Fuse P)
      → Leaves (cbfuse_truncate P J F path offset) s (λ r u. Truncates (some r) u) Truncates
  unfolding cbfuse_truncate
  truncate-Truncates J F =
      Leaves-finish (λ r u. Truncates (some r) u) _ Truncates _
        (answered P shared {X = Truncates} truncate_data-Truncates) (λ r u h. h) (λ fr u h. h)
        (λ u h. h)
