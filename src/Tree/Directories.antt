-- ===== src/Tree/Directories.antt =====
-- create and mkdir change the documents of a path and its directory as the tree says.
use cbfuse.Prelude.{
  ℕ, ◌≤◌, pos, negate, ◌≡◌, ◌≢◌, refl, sym, ap, ◌∙◌, true, Option, some, none, List, [], ◌∷◌, ◌++◌,
  CString, length, le→ltb, some-ne-none,
}
use cbfuse.Common.{stats, dentries, blocks, max_path_len, enoent}
use cbfuse.Io.Rules.{Yields, Ends→Yields, Ends-then, Ends-next, Ends-finish_jump, Yields-map}
use cbfuse.Io.Guards.{if_true-pass, if_fr_error-jump}
use cbfuse.Platform.{fresh_stat, Stat, Timespec, IsReading, Platform}
use cbfuse.Platform.Reliable.{IsReliable, Contents, put}
use cbfuse.Platform.Puts.{put_self, put_other, put_ne}
use cbfuse.Sync.Documents.{Same-at}
use cbfuse.Stats.Reads.{insert_stat-exists}
use cbfuse.Json.{CJson}
use cbfuse.Json.Lawful.{IsLawful}
use cbfuse.Dentries.Entries.{HasChildren}
use cbfuse.Cbfuse.{Fuse, s_isreg, cbfuse_create, cbfuse_mkdir}
use cbfuse.Cbfuse.Files.{split_path-Ends, create-new}
use cbfuse.Cbfuse.Directories.{mkdir-new, or_ifdir_positive}
use cbfuse.Tree.{Node, file, directory, Fs, set, Splits}
use cbfuse.Tree.Represents.{At, Represents, at, same-Represents, set_two-Represents}

module _ (P : Platform) (rel : IsReliable P) (J : CJson P) (F : Fuse P) (lawful : IsLawful P rel J)
    (fs : Fs) (path dir name : CString) (s : P.State) (R : Represents P rel J lawful fs s)
    (splits : Splits F path dir name) where
  open P use {State}
  open rel use {contents}

  stat_at : (n : Node) → fs path ≡ some n → contents s stats path ≢ none
  stat_at (file x b) there e =
      some-ne-none (P.stat_bytes x)
        (sym (at P rel J lawful fs path (some (file x b)) s there R).0 ∙ e)
  stat_at (directory x names) there e =
      some-ne-none (P.stat_bytes x)
        (sym (at P rel J lawful fs path (some (directory x names)) s there R).0 ∙ e)

  -- A path that is there is not created again.
  pub create_again-Represents :
      (mode : ℕ) (n : Node)
      → s_isreg mode ≡ true
      → length path ≤ max_path_len
      → fs path ≡ some n
      → Yields
          (cbfuse_create P J F path mode)
          s
          (λ r t. (r ≡ negate enoent) × Represents P rel J lawful fs t)
  unfolding cbfuse_create
  create_again-Represents mode n regular short there =
      Yields-map
        (Ends→Yields (negate enoent) (
          Ends-finish_jump (
            Ends-then _ (split_path-Ends P rel J F path dir name s splits.0 splits.1) λ t same.
              rw regular (
                Ends-next _ (
                  if_true-pass _ _ _ (le→ltb max_path_len (length path) short) (
                    Ends-then _
                      (insert_stat-exists P rel path mode t
                        (λ e. stat_at n there (sym (Same-at P rel stats path same) ∙ e)))
                      λ u docs. if_fr_error-jump _ _ refl (docs ∙ same.docs)))))))
        (λ r t (h, docs). (h, same-Represents P rel J lawful fs s t docs R))

  pub mkdir_again-Represents :
      (mode : ℕ) (n : Node)
      → fs path ≡ some n
      → Yields
          (cbfuse_mkdir P J F path mode)
          s
          (λ r t. (r ≡ negate enoent) × Represents P rel J lawful fs t)
  unfolding cbfuse_mkdir
  mkdir_again-Represents mode n there =
      Yields-map
        (Ends→Yields (negate enoent) (
          Ends-finish_jump (
            Ends-then _ (split_path-Ends P rel J F path dir name s splits.0 splits.1) λ t same.
              rw (or_ifdir_positive mode) (
                Ends-next _ (
                  Ends-then _
                    (insert_stat-exists P rel path mode t
                      (λ e. stat_at n there (sym (Same-at P rel stats path same) ∙ e)))
                    λ u docs. if_fr_error-jump _ _ refl (docs ∙ same.docs))))))
        (λ r t (h, docs). (h, same-Represents P rel J lawful fs s t docs R))

  module _ (y : Stat) (names : List CString) (parent : fs dir ≡ some (directory y names)) where
    dir-At : At P rel J lawful (some (directory y names)) dir s
    dir-At = at P rel J lawful fs dir (some (directory y names)) s parent R

    -- The directory after its entry, and the documents of another path, have changed.
    parent-At :
        (text : Option CString) (docs : Contents) (ms : List CString) (t : State)
        → contents t ≡ put dentries dir text docs
        → docs stats dir ≡ contents s stats dir
        → docs blocks dir ≡ contents s blocks dir
        → HasChildren P rel J lawful dir ms t
        → At P rel J lawful (some (directory y ms)) dir t
    parent-At text docs ms t e same_stat same_block listed = (
      ap (λ f. f stats dir) e
          ∙ put_other dentries stats dir dir text docs refl
          ∙ same_stat
          ∙ dir-At.0,
      listed,
      ap (λ f. f blocks dir) e
          ∙ put_other dentries blocks dir dir text docs refl
          ∙ same_block
          ∙ dir-At.2,
    )

    pub create_new-Represents :
        (mode : ℕ)
        → s_isreg mode ≡ true
        → length path ≤ max_path_len
        → fs path ≡ none
        → Yields (cbfuse_create P J F path mode) s (λ r t.
          (r ≡ pos 0)
          × (ts : Timespec) × IsReading P ts
          × Represents P rel J lawful
              (set dir
                (some (directory y (names ++ (name ∷ []))))
                (set path (some (file (fresh_stat mode ts) none)) fs))
              t)
    create_new-Represents mode regular short free =
        let (h, h', h'') = at P rel J lawful fs path none s free R in
        let apart : path ≢ dir =
          λ e. some-ne-none (directory y names) (sym parent ∙ ap fs (sym e) ∙ free) in
        Yields-map
          (create-new P rel J F lawful path dir name mode names s splits.0 splits.1 regular short h
            dir-At.1)
          λ r t (e, ts, clock, text, docs, listed).
            let v : Option (List ℕ) = some (P.stat_bytes (fresh_stat mode ts)) in
            let mid : Contents = put stats path v (contents s) in
            (
              e,
              ts,
              clock,
              set_two-Represents P rel J lawful fs dir _ path _ s t
                  (λ j far away d.
                    ap (λ f. f d j) docs
                    ∙ put_ne dentries d dir j (some text) mid far
                    ∙ put_ne stats d path j v (contents s) away)
                  (parent-At (some text) mid (names ++ (name ∷ [])) t docs
                    (put_ne stats stats path dir v (contents s) apart)
                    (put_other stats blocks path dir v (contents s) refl) listed)
                  (
                    ap (λ f. f stats path) docs
                        ∙ put_other dentries stats dir path (some text) mid refl
                        ∙ put_self stats path v (contents s),
                    ap (λ f. f dentries path) docs
                        ∙ put_ne dentries dentries dir path (some text) mid (λ q. apart (sym q))
                        ∙ put_other stats dentries path path v (contents s) refl
                        ∙ h',
                    ap (λ f. f blocks path) docs
                        ∙ put_other dentries blocks dir path (some text) mid refl
                        ∙ put_other stats blocks path path v (contents s) refl
                        ∙ h'',
                  )
                  R,
            )

    pub mkdir_new-Represents :
        (mode : ℕ)
        → length path ≤ max_path_len
        → fs path ≡ none
        → Yields (cbfuse_mkdir P J F path mode) s (λ r t.
          (r ≡ pos 0)
          × (ts : Timespec) × IsReading P ts
          × Represents P rel J lawful
              (set dir
                (some (directory y (names ++ (name ∷ []))))
                (set path (some (directory (fresh_stat mode ts) [])) fs))
              t)
    mkdir_new-Represents mode short free =
        let (h, h', h'') = at P rel J lawful fs path none s free R in
        let apart : path ≢ dir =
          λ e. some-ne-none (directory y names) (sym parent ∙ ap fs (sym e) ∙ free) in
        Yields-map
          (mkdir-new P rel J F lawful path dir name mode names s apart short splits.0 splits.1 h h'
            dir-At.1)
          λ r t (e, ts, clock, entry, text, docs, made, listed).
            let v : Option (List ℕ) = some (P.stat_bytes (fresh_stat mode ts)) in
            let mid : Contents = put stats path v (contents s) in
            let mid' : Contents = put dentries path (some entry) mid in
            (
              e,
              ts,
              clock,
              set_two-Represents P rel J lawful fs dir _ path _ s t
                  (λ j far away d.
                    ap (λ f. f d j) docs
                    ∙ put_ne dentries d dir j (some text) mid' far
                    ∙ put_ne dentries d path j (some entry) mid away
                    ∙ put_ne stats d path j v (contents s) away)
                  (parent-At (some text) mid' (names ++ (name ∷ [])) t docs
                    (put_ne dentries stats path dir (some entry) mid apart
                      ∙ put_ne stats stats path dir v (contents s) apart)
                    (put_ne dentries blocks path dir (some entry) mid apart
                      ∙ put_ne stats blocks path dir v (contents s) apart)
                    listed)
                  (
                    ap (λ f. f stats path) docs
                        ∙ put_other dentries stats dir path (some text) mid' refl
                        ∙ put_other dentries stats path path (some entry) mid refl
                        ∙ put_self stats path v (contents s),
                    made,
                    ap (λ f. f blocks path) docs
                        ∙ put_other dentries blocks dir path (some text) mid' refl
                        ∙ put_other dentries blocks path path (some entry) mid refl
                        ∙ put_other stats blocks path path v (contents s) refl
                        ∙ h'',
                  )
                  R,
            )
