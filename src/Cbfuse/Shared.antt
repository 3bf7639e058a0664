-- ===== src/Cbfuse/Shared.antt =====
-- The operations where other clients use the bucket and every call may fail: which documents they
-- change, and in which order.
pub mod Creation
pub mod Removal
pub mod Directories
pub mod Writes
pub mod Truncates
use cbfuse.Prelude.{
  arith, false≢true, ℤ, negsuc, pos, negate, is_zero, ◌≡◌, ◌≢◌, ◌⊎◌, inl, inr, refl, sym, ap, ◌∙◌,
  Bool, true, false, not, Option, some, none, List, [], ◌∷◌, ◌++◌, CString, some-injective, subst,
  ℕ,
}
use mathlib.Core.List.{append-nil, append_assoc}
use cbfuse.Common.{stats, dentries, blocks, enoent, einval, enametoolong}
use cbfuse.Io.{Io, pure, ◌>>=◌, ◌>>◌, if_fr_error, finish}
use cbfuse.Io.Leaves.{
  Leaves, Leaves-pure, Leaves-bind, Leaves-if_true, Leaves-if_false, Leaves-if_null,
  Leaves-if_fr_error, Leaves-map, Leaves-finish,
}
use cbfuse.Platform.{Platform}
use cbfuse.Platform.Shared.{IsShared, Quiet, Change}
use cbfuse.Util.Shared.{Unchanged, code-ne-zero, Quiet-refl, strdup-Leaves}
use cbfuse.Sync.Changes.{Torn, Asked, Torn-after}
use cbfuse.Stats.Shared.{Commits, Inserts, insert_stat-Commits, remove_stat-Commits}
use cbfuse.Data.Shared.{remove_data-Commits}
use cbfuse.Json.{CJson}
use cbfuse.Json.Local.{IsLocal}
use cbfuse.Dentries.Shared.{
  Relists, add_child_to_dentry-Commits, remove_child_from_dentry-Commits, remove_dentry-Commits,
}
use cbfuse.Cbfuse.{Fuse, both, split_path, cbfuse_create, cbfuse_unlink, cbfuse_rmdir}

-- One change or none.
abbrev pub AtMost : (Change → Type 0) → List Change → Type 0
AtMost Fact xs = (xs ≡ []) ⊎ ((ch : Change) × (xs ≡ ch ∷ []) × Fact ch)

pub zero_of : (fr : ℤ) → is_zero fr ≡ true → fr ≡ pos 0
zero_of (pos n) h = ground arith
zero_of (negsuc n) h = cc

pub nonzero : (fr : ℤ) → is_zero fr ≡ false → ◌≢◌ {A = Option ℤ} (some fr) (some (pos 0))
nonzero fr h e = false≢true (sym h ∙ ap is_zero (some-injective fr (pos 0) e))

both-dir :
    (a b : Option CString) (names : CString × CString) → both a b ≡ some names → a ≡ some names.0
both-dir (some d) (some b) names e =
    ap (λ (n : CString × CString). some n.0) (some-injective (d, b) names e)
both-dir (some d) none names e = cc
both-dir none (some b) names e = cc
both-dir none none names e = cc

module _ (P : Platform) (shared : IsShared P) where
  open P use {State}

  -- What has been changed since a state, where that is at most one document.
  pub logged :
      {Fact : Change → Type 0} (e : Option ℤ) (s u : State)
      → Torn P shared s Fact e u
      → (xs : List Change) × (shared.log u ≡ shared.log s ++ xs)
        × AtMost Fact xs
        × (e ≡ some (pos 0) → xs ≢ [])
  logged e s u (inl (q, h)) =
      ([], q.0 ∙ sym (append-nil (shared.log s)), inl refl, λ z. absurd (h z))
  logged e s u (inr m) = (m.change ∷ [], m.logged, inr (m.change, refl, m.fact), λ z h. cc)

  -- A call has returned 0.
  pub moved :
      {Fact : Change → Type 0} (s u w : State) (fr : ℤ)
      → w ≡ u
      → fr ≡ pos 0
      → Torn P shared s Fact (some fr) u
      → Torn P shared s Fact (some (pos 0)) w
  moved {Fact} s u w fr same z torn =
      subst (λ x. Torn P shared s Fact (some (pos 0)) x) (sym same)
        (subst (λ r. Torn P shared s Fact (some r) u) z torn)

  -- The result of the last call is returned, whether it is an error or not.
  pub answered :
      {m : Io State ℤ} {t : State} {X : Option ℤ → State → Type 0}
      → Leaves m t (λ r u. X (some r) u) X
      → Leaves (m >>= λ fr. if_fr_error fr >> pure fr) t (λ r u. X (some r) u) X
  answered {X = X} l = Leaves-bind l λ fr u x.
      Leaves-bind {Q = λ a w. X (some fr) w} (Leaves-if_fr_error fr (λ z. x) (λ z. x))
        λ a w x'. Leaves-pure fr x'

  module _ (J : CJson P) (local : IsLocal P shared J) (F : Fuse P) (path : CString) where
    -- The entry of the path's directory is written over; where memory has run out, dirname has been
    -- given NULL.
    abbrev pub RelistsParent : Change → Type 0
    RelistsParent ch =
        (dir : CString) × ((F.dirname (some path) ≡ some dir) ⊎ (F.dirname none ≡ some dir))
        × Relists P shared J local dir ch

    pub split_path-Leaves :
        (s : State)
        → Leaves
            (split_path P J F path)
            s
            (λ names u.
              Quiet P shared s u
              × ((F.dirname (some path) ≡ some names.0) ⊎ (F.dirname none ≡ some names.0)))
            (Unchanged P shared s)
    unfolding split_path
    split_path-Leaves s =
        Leaves-bind (strdup-Leaves P shared s path (Quiet-refl P shared s)) λ d u (q, h).
          Leaves-bind (strdup-Leaves P shared s path q) λ b w (q', h').
            Leaves-if_null _ _
              (λ names e. (q', found d h (both-dir (F.dirname d) (F.basename b) names e)))
              (q', code-ne-zero 1)
      where
        found :
            (d : Option CString) {dir : CString}
            → (d ≡ some path) ⊎ (d ≡ none)
            → F.dirname d ≡ some dir
            → (F.dirname (some path) ≡ some dir) ⊎ (F.dirname none ≡ some dir)
        found d (inl h) e = inl (ap F.dirname (sym h) ∙ e)
        found d (inr h) e = inr (ap F.dirname (sym h) ∙ e)
