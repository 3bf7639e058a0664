-- ===== src/Cbfuse/Shared/Removal.antt =====
-- unlink and rmdir where other clients use the bucket and every call may fail.
use cbfuse.Prelude.{
  ℤ, pos, ◌≡◌, ◌≢◌, ◌⊎◌, inl, refl, sym, ap, ◌∙◌, Option, some, none, List, [], ◌++◌, CString,
  none-ne-some,
}
use mathlib.Core.List.{append-nil, append_assoc}
use cbfuse.Common.{stats, dentries, blocks}
use cbfuse.Io.{Io, pure, ◌>>=◌, ◌>>◌, if_fr_error}
use cbfuse.Io.Leaves.{Leaves, Leaves-bind, Leaves-map, Leaves-finish}
use cbfuse.Platform.{Platform}
use cbfuse.Platform.Shared.{IsShared, Change}
use cbfuse.Util.Shared.{Unchanged, Quiet-refl}
use cbfuse.Sync.Changes.{Torn, Asked, Torn-after}
use cbfuse.Stats.Shared.{Commits, remove_stat-Commits}
use cbfuse.Data.Shared.{remove_data-Commits}
use cbfuse.Json.{CJson}
use cbfuse.Json.Local.{IsLocal}
use cbfuse.Dentries.Shared.{Relists, remove_child_from_dentry-Commits, remove_dentry-Commits}
use cbfuse.Cbfuse.{Fuse, cbfuse_unlink, cbfuse_rmdir}
use cbfuse.Dentries.{remove_child_from_dentry, remove_dentry}
use cbfuse.Stats.{remove_stat}
use cbfuse.Data.{remove_data}
use cbfuse.Cbfuse.Shared.{AtMost, logged, answered, RelistsParent, split_path-Leaves}

module _ (P : Platform) (shared : IsShared P) (J : CJson P) (local : IsLocal P shared J)
    (F : Fuse P) (path : CString) where
  open P use {State}

  -- What a removal has changed, in this order: a document of the path itself, the entry of its
  -- directory, and the stat.
  abbrev pub Removes : (Change → Type 0) → State → Option ℤ → State → Type 0
  Removes First s e u =
      (a : List Change) × (b : List Change) × (c : List Change) × (shared.log u
        ≡ shared.log s ++ (a ++ (b ++ c)))
      × AtMost First a
      × AtMost (RelistsParent P shared J local F path) b
      × AtMost (Asked P shared stats path none (λ before. before stats path ≢ none)) c
      × (e ≡ some (pos 0) → c ≢ [])

  module _ (First : Change → Type 0) (s : State) where
    untouched : (e : Option ℤ) (u : State) → Unchanged P shared s e u → Removes First s e u
    untouched e u (q, h) = (
      [],
      [],
      [],
      q.0 ∙ sym (append-nil (shared.log s)),
      inl refl,
      inl refl,
      inl refl,
      λ z. absurd (h z),
    )

    -- The first two steps, whose results do not count.
    first_only : (u : State) → Torn P shared s First none u → Removes First s none u
    first_only u torn =
        let (xs, l, most, z) = logged P shared none s u torn in
        (
          xs,
          [],
          [],
          l ∙ ap (λ x. shared.log s ++ x) (sym (append-nil xs)),
          most,
          inl refl,
          inl refl,
          λ z'. absurd (none-ne-some (pos 0) z'),
        )

    abbrev Two : State → Type 0
    Two u =
        (a : List Change) × (b : List Change) × (shared.log u ≡ shared.log s ++ (a ++ b))
        × AtMost First a
        × AtMost (RelistsParent P shared J local F path) b

    two :
        (e e' : Option ℤ) (u w : State)
        → Torn P shared s First e u
        → Torn P shared u (RelistsParent P shared J local F path) e' w
        → Two w
    two e e' u w torn torn' =
        let (xs, l, most, z) = logged P shared e s u torn in
        let (ys, l', most', z') = logged P shared e' u w torn' in
        (xs, ys, l' ∙ ap (λ x. x ++ ys) l ∙ append_assoc (shared.log s) xs ys, most, most')

    two_only : (u : State) → Two u → Removes First s none u
    two_only u (a, b, l, most, most') = (
      a,
      b,
      [],
      l ∙ ap (λ x. shared.log s ++ (a ++ x)) (sym (append-nil b)),
      most,
      most',
      inl refl,
      λ z'. absurd (none-ne-some (pos 0) z'),
    )

    all_three :
        (e : Option ℤ) (u w : State)
        → Two u
        → Torn P shared u (Asked P shared stats path none (λ before. before stats path ≢ none)) e w
        → Removes First s e w
    all_three e u w (a, b, l, most, most') torn =
        let (c, l', most'', z) = logged P shared e u w torn in
        (
          a,
          b,
          c,
          l'
              ∙ ap (λ x. x ++ c) l
              ∙ append_assoc (shared.log s) (a ++ b) c
              ∙ ap (λ x. shared.log s ++ x) (append_assoc a b c),
          most,
          most',
          most'',
          z,
        )

    -- The three steps behind the split of the path.
    removed :
        (first : Io State ℤ) (names : CString × CString) {t : State}
        → (F.dirname (some path) ≡ some names.0) ⊎ (F.dirname none ≡ some names.0)
        → Commits P shared s first t First
        → Leaves
            (first >>= λ r. remove_child_from_dentry P J names.0 names.1 >>= λ r'.
              remove_stat P path >>= λ fr. if_fr_error fr >> pure fr)
            t
            (λ r u. Removes First s (some r) u)
            (Removes First s)
    removed first names dir l =
        Leaves-bind (Leaves-map l (λ r u h. h) λ e u (f, h). rw f (first_only u h)) λ r u torn.
          Leaves-bind
            (Leaves-map
              (remove_child_from_dentry-Commits P shared J local u names.0 names.1
                (Quiet-refl P shared u))
              (λ r' w h. two (some r) (some r') u w torn (parent (some r') u w h))
              λ e w (f, h). rw f (two_only w (two (some r) none u w torn (parent none u w h))))
            λ r' w both. answered P shared {X = Removes First s} (
              Leaves-map (remove_stat-Commits P shared path w (Quiet-refl P shared w))
                (λ fr v h. all_three (some fr) w v both h)
                λ e v (f, h). rw f (all_three none w v both h))
      where
        parent :
            (e : Option ℤ) (u w : State)
            → Torn P shared u (Relists P shared J local names.0) e w
            → Torn P shared u (RelistsParent P shared J local F path) e w
        parent e u w h =
            Torn-after P shared e (Quiet-refl P shared u) (λ ch h'. (names.0, dir, h')) h

  -- However unlink ends, it has made at most three changes, in this order: the block of the path
  -- is removed, the entry of its directory is written over, and the stat of the path is removed,
  -- each where the document stood there. Any of the first two may have been left out; where
  -- unlink returns 0 the stat has been removed. The directory is what dirname gives for the path,
  -- or for NULL. The calls of the platform may fail, and other clients may change documents
  -- between any two commands. cJSON sends no commands.
  pub unlink-Removes :
      (s : State)
      → Leaves
          (cbfuse_unlink P J F path)
          s
          (λ r u.
            Removes
              (Asked P shared blocks path none (λ before. before blocks path ≢ none))
              s
              (some r)
              u)
          (Removes (Asked P shared blocks path none (λ before. before blocks path ≢ none)) s)
  unfolding cbfuse_unlink
  unlink-Removes s =
      Leaves-finish _ _ _ _
        (Leaves-bind
          (Leaves-map (split_path-Leaves P shared J local F path s) (λ names u h. h)
            (untouched _ s))
          λ names t (q, dir).
            removed _ s (remove_data P path) names dir (remove_data-Commits P shared s path q))
        (λ fr t h. h) (λ fr t h. h) (λ t h. h)

  -- However rmdir ends, it has made at most three changes, in this order: the entry of the path
  -- is removed, the entry of its directory is written over, and the stat of the path is removed,
  -- each where the document stood there. Any of the first two may have been left out; where rmdir
  -- returns 0 the stat has been removed. The directory is what dirname gives for the path, or for
  -- NULL. The calls of the platform may fail, and other clients may change documents between any
  -- two commands. cJSON sends no commands.
  pub rmdir-Removes :
      (s : State)
      → Leaves
          (cbfuse_rmdir P J F path)
          s
          (λ r u.
            Removes
              (Asked P shared dentries path none (λ before. before dentries path ≢ none))
              s
              (some r)
              u)
          (Removes (Asked P shared dentries path none (λ before. before dentries path ≢ none)) s)
  unfolding cbfuse_rmdir
  rmdir-Removes s =
      Leaves-finish _ _ _ _
        (Leaves-bind
          (Leaves-map (split_path-Leaves P shared J local F path s) (λ names u h. h)
            (untouched _ s))
          λ names t (q, dir).
            removed _ s (remove_dentry P J path) names dir
              (remove_dentry-Commits P shared J local s path q))
        (λ fr t h. h) (λ fr t h. h) (λ t h. h)
