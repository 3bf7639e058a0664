-- ===== src/Cbfuse/Shared/Creation.antt =====
-- create where other clients use the bucket and every call may fail.
use cbfuse.Prelude.{
  ℤ, pos, ◌≡◌, ◌≢◌, inl, refl, sym, ap, ◌∙◌, Option, some, none, List, [], ◌++◌, CString, ℕ,
}
use mathlib.Core.List.{append-nil, append_assoc}
use cbfuse.Common.{enametoolong}
use cbfuse.Io.Leaves.{
  Leaves, Leaves-bind, Leaves-if_true, Leaves-if_false, Leaves-if_fr_error, Leaves-map,
  Leaves-finish,
}
use cbfuse.Platform.{Platform}
use cbfuse.Platform.Shared.{IsShared, Quiet, Change}
use cbfuse.Util.Shared.{Unchanged, code-ne-zero, Quiet-refl}
use cbfuse.Sync.Changes.{Torn, Torn-after}
use cbfuse.Stats.Shared.{Inserts, insert_stat-Commits}
use cbfuse.Json.{CJson}
use cbfuse.Json.Local.{IsLocal}
use cbfuse.Dentries.Shared.{add_child_to_dentry-Commits}
use cbfuse.Cbfuse.{Fuse, cbfuse_create}
use cbfuse.Cbfuse.Shared.{
  AtMost, zero_of, nonzero, logged, moved, answered, RelistsParent, split_path-Leaves,
}

module _ (P : Platform) (shared : IsShared P) (J : CJson P) (local : IsLocal P shared J)
    (F : Fuse P) (path : CString) where
  open P use {State}

  -- What create has changed: nothing, or the stat, or the stat and then the entry.
  abbrev pub Creates : ℕ → State → Option ℤ → State → Type 0
  Creates mode s e u =
      (a : List Change) × (b : List Change) × (shared.log u ≡ shared.log s ++ (a ++ b))
      × AtMost (Inserts P shared path mode) a
      × AtMost (RelistsParent P shared J local F path) b
      × (b ≢ [] → a ≢ [])
      × (e ≡ some (pos 0) → b ≢ [])

  none_yet :
      (mode : ℕ) (s : State) (e : Option ℤ) (u : State)
      → Unchanged P shared s e u
      → Creates mode s e u
  none_yet mode s e u (q, h) = (
    [],
    [],
    q.0 ∙ sym (append-nil (shared.log s)),
    inl refl,
    inl refl,
    (λ n. absurd (n refl)),
    λ z. absurd (h z),
  )

  -- The insertion has ended with no success, and create ends with it.
  stat_only :
      (mode : ℕ) (s : State) (e : Option ℤ) (u : State)
      → e ≢ some (pos 0)
      → Torn P shared s (Inserts P shared path mode) e u
      → Creates mode s e u
  stat_only mode s e u h torn =
      let (xs, l, most, z) = logged P shared e s u torn in
      (
        xs,
        [],
        l ∙ ap (λ x. shared.log s ++ x) (sym (append-nil xs)),
        most,
        inl refl,
        (λ n. absurd (n refl)),
        λ z'. absurd (h z'),
      )

  stat_and_entry :
      (mode : ℕ) (s : State) (e : Option ℤ) (u w : State)
      → Torn P shared s (Inserts P shared path mode) (some (pos 0)) u
      → Torn P shared u (RelistsParent P shared J local F path) e w
      → Creates mode s e w
  stat_and_entry mode s e u w torn torn' =
      let (xs, l, most, some_stat) = logged P shared (some (pos 0)) s u torn in
      let (ys, l', most', z) = logged P shared e u w torn' in
      (
        xs,
        ys,
        l' ∙ ap (λ x. x ++ ys) l ∙ append_assoc (shared.log s) xs ys,
        most,
        most',
        (λ n. some_stat refl),
        z,
      )

  -- However create ends, it has changed nothing, or put a new stat with the mode where none
  -- stood, or that stat and then the entry of the directory of the path, which stood there; where
  -- it returns 0 it has made both changes. The directory is what dirname gives for the path, or
  -- for NULL. The calls of the platform may fail, and other clients may change documents between
  -- any two commands. cJSON sends no commands.
  pub create-Creates :
      (mode : ℕ) (s : State)
      → Leaves (cbfuse_create P J F path mode) s (λ r u. Creates mode s (some r) u) (Creates mode s)
  unfolding cbfuse_create
  create-Creates mode s =
      Leaves-finish _ _ _ _
        (Leaves-bind
          (Leaves-map (split_path-Leaves P shared J local F path s) (λ names u h. h)
            (none_yet mode s))
          λ names t (q, dir).
            Leaves-bind {Q = λ a u. Quiet P shared s u}
              (Leaves-if_false _ _ (λ e. q) (none_yet mode s _ _ (q, code-ne-zero 21)))
              λ a t1 q1.
                Leaves-bind {Q = λ a u. Quiet P shared s u}
                  (Leaves-if_true _ _ (λ e. q1) (none_yet mode s _ _ (q1, too_long)))
                  λ b t2 q2.
                    Leaves-bind
                      (Leaves-map (insert_stat-Commits P shared path s mode q2) (λ r u h. h)
                        λ e u (f, h). stat_only mode s e u (faulted f) (rw f h))
                      λ fr u torn.
                        Leaves-bind {Q = λ c w. (w ≡ u) × (fr ≡ pos 0)}
                          (Leaves-if_fr_error fr (λ z. (refl, zero_of fr z))
                            λ z. stat_only mode s (some fr) u (nonzero fr z) torn)
                          λ c w (same, z). answered P shared {X = Creates mode s} (
                            Leaves-map
                              (add_child_to_dentry-Commits P shared J local w names.0 names.1
                                (Quiet-refl P shared w))
                              (λ r v h.
                                stat_and_entry mode s (some r) w v
                                  (moved P shared s u w fr same z torn)
                                  (Torn-after P shared (some r) (Quiet-refl P shared w)
                                    (λ ch h'. (names.0, dir, h')) h))
                              λ e v (f, h).
                                stat_and_entry mode s e w v (moved P shared s u w fr same z torn) (
                                  rw f (
                                    Torn-after P shared none (Quiet-refl P shared w)
                                      (λ ch h'. (names.0, dir, h')) h))))
        (λ fr t h. h) (λ fr t h. h) (λ t h. h)
    where
      too_long : ◌≢◌ {A = Option ℤ} (some (pos enametoolong)) (some (pos 0))
      too_long h = cc

      faulted : {e : Option ℤ} → e ≡ none → e ≢ some (pos 0)
      faulted f h = cc
