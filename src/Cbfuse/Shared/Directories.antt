-- ===== src/Cbfuse/Shared/Directories.antt =====
-- mkdir where other clients use the bucket and every call may fail.
use mathlib.Core.List.{append-nil, append_assoc}
use cbfuse.Io.Leaves.{
  Leaves, Leaves-bind, Leaves-if_false, Leaves-if_fr_error, Leaves-map, Leaves-finish,
}
use cbfuse.Platform.{Platform}
use cbfuse.Platform.Shared.{IsShared, Quiet, Change}
use cbfuse.Util.Shared.{Unchanged, code-ne-zero, Quiet-refl}
use cbfuse.Stats.Shared.{Inserts, insert_stat-Commits}
use cbfuse.Json.{CJson}
use cbfuse.Json.Local.{IsLocal}
use cbfuse.Dentries.Shared.{Relists, add_child_to_dentry-Commits}
use cbfuse.Cbfuse.{Fuse}
use cbfuse.Cbfuse.Shared.{
  AtMost, zero_of, nonzero, logged, moved, answered, RelistsParent, split_path-Leaves,
}
use cbfuse.Prelude.{
  ℤ, pos, ◌≡◌, ◌≢◌, ◌⊎◌, inl, inr, refl, sym, ap, ◌∙◌, Option, some, none, none-ne-some, List, [],
  ◌∷◌, ◌++◌, CString, ℕ,
}
use cbfuse.Sync.Changes.{Made, Torn, Torn-after}
use cbfuse.Dentries.Shared.{Enters}
use cbfuse.Dentries.Entering.{add_new_dentry-Leaves}
use cbfuse.Dentries.{add_new_dentry, add_child_to_dentry}
use cbfuse.Io.{pure, ◌>>=◌, ◌>>◌, if_fr_error}
use cbfuse.Cbfuse.{cbfuse_mkdir}

module _ (P : Platform) (shared : IsShared P) (J : CJson P) (local : IsLocal P shared J)
    (F : Fuse P) (path : CString) where
  open P use {State}

  -- What mkdir has changed, in this order: the stat, the entry of the path, and the entry of its
  -- directory.
  abbrev pub Makes : ℕ → State → Option ℤ → State → Type 0
  Makes mode s e u =
      (a : List Change) × (b : List Change) × (c : List Change) × (shared.log u
        ≡ shared.log s ++ (a ++ (b ++ c)))
      × AtMost (Inserts P shared path mode) a
      × AtMost (Enters P shared J local path) b
      × AtMost (RelistsParent P shared J local F path) c
      × (a ≡ [] → (b ≡ []) × (c ≡ []))
      × (e ≡ some (pos 0) → c ≢ [])

  -- The stat has been put; then the entry of the path perhaps.
  abbrev HasStat : ℕ → State → State → Type 0
  HasStat mode s u =
      (a : List Change) × (shared.log u ≡ shared.log s ++ a)
      × AtMost (Inserts P shared path mode) a
      × (a ≢ [])

  abbrev HasBoth : ℕ → State → State → Type 0
  HasBoth mode s u =
      (a : List Change) × (b : List Change) × (shared.log u ≡ shared.log s ++ (a ++ b))
      × AtMost (Inserts P shared path mode) a
      × AtMost (Enters P shared J local path) b
      × (a ≢ [])

  module _ (mode : ℕ) (s : State) where
    nothing : (e : Option ℤ) (u : State) → Unchanged P shared s e u → Makes mode s e u
    nothing e u (q, h) = (
      [],
      [],
      [],
      q.0 ∙ sym (append-nil (shared.log s)),
      inl refl,
      inl refl,
      inl refl,
      (λ n. (refl, refl)),
      λ z. absurd (h z),
    )

    stat_alone :
        (e : Option ℤ) (u : State)
        → e ≢ some (pos 0)
        → Torn P shared s (Inserts P shared path mode) e u
        → Makes mode s e u
    stat_alone e u h torn =
        let (a, l, most, z) = logged P shared e s u torn in
        (
          a,
          [],
          [],
          l ∙ ap (λ x. shared.log s ++ x) (sym (append-nil a)),
          most,
          inl refl,
          inl refl,
          (λ n. (refl, refl)),
          λ z'. absurd (h z'),
        )

    has_stat :
        (u : State)
        → Torn P shared s (Inserts P shared path mode) (some (pos 0)) u
        → HasStat mode s u
    has_stat u torn =
        let (a, l, most, z) = logged P shared (some (pos 0)) s u torn in (a, l, most, z refl)

    has_both :
        (u w : State)
        → HasStat mode s u
        → Quiet P shared u w ⊎ Made P shared u (Enters P shared J local path) w
        → HasBoth mode s w
    has_both u w (a, l, most, n) (inl q) =
        (a, [], q.0 ∙ l ∙ ap (λ x. shared.log s ++ x) (sym (append-nil a)), most, inl refl, n)
    has_both u w (a, l, most, n) (inr m) = (
      a,
      m.change ∷ [],
      m.logged ∙ ap (λ x. x ++ (m.change ∷ [])) l ∙ append_assoc (shared.log s) a (m.change ∷ []),
      most,
      inr (m.change, refl, m.fact),
      n,
    )

    both_alone : (e : Option ℤ) (u : State) → e ≢ some (pos 0) → HasBoth mode s u → Makes mode s e u
    both_alone e u h (a, b, l, most, most', n) = (
      a,
      b,
      [],
      l ∙ ap (λ x. shared.log s ++ (a ++ x)) (sym (append-nil b)),
      most,
      most',
      inl refl,
      (λ z. absurd (n z)),
      λ z'. absurd (h z'),
    )

    all_made :
        (e : Option ℤ) (u w : State)
        → HasBoth mode s u
        → Torn P shared u (RelistsParent P shared J local F path) e w
        → Makes mode s e w
    all_made e u w (a, b, l, most, most', n) torn =
        let (c, l', most'', z) = logged P shared e u w torn in
        (
          a,
          b,
          c,
          l'
              ∙ ap (λ x. x ++ c) l
              ∙ append_assoc (shared.log s) (a ++ b) c
              ∙ ap (λ x. shared.log s ++ x) (append_assoc a b c),
          most,
          most',
          most'',
          (λ y. absurd (n y)),
          z,
        )

    -- The part behind the insertion of the stat.
    entered :
        (names : CString × CString) (w : State)
        → (F.dirname (some path) ≡ some names.0) ⊎ (F.dirname none ≡ some names.0)
        → HasStat mode s w
        → Leaves
            (add_new_dentry P J path path (some names.0) >>= λ added.
              if_fr_error added
              >> (add_child_to_dentry P J names.0 names.1 >>= λ fr. if_fr_error fr >> pure fr))
            w
            (λ r u. Makes mode s (some r) u)
            (Makes mode s)
    entered names w dir has =
        Leaves-bind
          (Leaves-map
            (add_new_dentry-Leaves P shared J local w path path (some names.0)
              (Quiet-refl P shared w))
            (λ r u h. has_both w u has h)
            λ e u (f, h). rw f (both_alone none u (none-ne-some (pos 0)) (has_both w u has h)))
          λ added u both.
            Leaves-bind {Q = λ a x. HasBoth mode s x}
              (Leaves-if_fr_error added (λ z. both)
                λ z. both_alone (some added) u (nonzero added z) both)
              λ a x both'. answered P shared {X = Makes mode s} (
                Leaves-map
                  (add_child_to_dentry-Commits P shared J local x names.0 names.1
                    (Quiet-refl P shared x))
                  (λ r v h. all_made (some r) x v both' (parent (some r) x v h))
                  λ e v (f, h). rw f (all_made none x v both' (parent none x v h)))
      where
        parent :
            (e : Option ℤ) (u v : State)
            → Torn P shared u (Relists P shared J local names.0) e v
            → Torn P shared u (RelistsParent P shared J local F path) e v
        parent e u v h =
            Torn-after P shared e (Quiet-refl P shared u) (λ ch h'. (names.0, dir, h')) h

    -- However mkdir ends, it has made at most three changes, in this order: a new stat with the
    -- mode is put where none stood for the path, an entry is put where none stood for the path,
    -- and the entry of its directory, which stood there, is written over. Without the stat it has
    -- made neither of the others; where it returns 0 the entry of the directory has been written
    -- over, while the entry of the path may be missing. The directory is what dirname gives for
    -- the path, or for NULL. The calls of the platform may fail, and other clients may change
    -- documents between any two commands. cJSON sends no commands.
    pub mkdir-Makes :
        Leaves (cbfuse_mkdir P J F path mode) s (λ r u. Makes mode s (some r) u) (Makes mode s)
    unfolding cbfuse_mkdir
    mkdir-Makes =
        Leaves-finish _ _ _ _
          (Leaves-bind
            (Leaves-map (split_path-Leaves P shared J local F path s) (λ names u h. h) nothing)
            λ names t (q, dir).
              Leaves-bind {Q = λ a u. Quiet P shared s u}
                (Leaves-if_false _ _ (λ e. q) (nothing _ _ (q, code-ne-zero 21)))
                λ a t1 q1.
                  Leaves-bind
                    (Leaves-map (insert_stat-Commits P shared path s mode q1) (λ r u h. h)
                      λ e u (f, h). rw f (stat_alone none u (none-ne-some (pos 0)) h))
                    λ fr u torn.
                      Leaves-bind {Q = λ c w. (w ≡ u) × (fr ≡ pos 0)}
                        (Leaves-if_fr_error fr (λ z. (refl, zero_of fr z))
                          λ z. stat_alone (some fr) u (nonzero fr z) torn)
                        λ c w (same, z).
                          entered names w dir (has_stat w (moved P shared s u w fr same z torn)))
          (λ fr t h. h) (λ fr t h. h) (λ t h. h)
