-- ===== src/Cbfuse/Directories.antt =====
-- mkdir over a reliable server and a lawful cJSON.
use cbfuse.Prelude.{
  ℕ, ◌≤◌, length, ℤ, pos, ◌≡◌, ◌≢◌, refl, sym, ap, ◌∙◌, false, Option, none, some, List, [], ◌∷◌,
  ◌++◌, CString, arith, ◌==◌,
}
use cbfuse.Common.{stats, dentries, max_path_len}
use cbfuse.Io.Rules.{Yields, Yields-then, Yields-bind, Yields-next, Yields-pure, Yields-finish}
use cbfuse.Platform.{fresh_stat, Timespec, IsReading, Platform}
use cbfuse.Platform.Reliable.{IsReliable, put}
use cbfuse.Platform.Puts.{put_other, put_ne}
use cbfuse.Sync.Documents.{Same-at}
use cbfuse.Stats.Reads.{insert_stat-new}
use cbfuse.Json.{CJson}
use cbfuse.Json.Lawful.{IsLawful}
use cbfuse.Dentries.Entries.{HasChildren, HasChildren-at, add_child_to_dentry-Yields}
use cbfuse.Dentries.Creation.{add_new_dentry-Yields}
use cbfuse.Cbfuse.{Fuse, or_ifdir, cbfuse_mkdir}
use cbfuse.Cbfuse.Files.{split_path-Ends}

-- A mode with the bit of S_IFDIR is not 0.
pub or_ifdir_positive : (mode : ℕ) → (or_ifdir mode == 0) ≡ false
or_ifdir_positive mode = ground arith

module _ (P : Platform) (rel : IsReliable P) (J : CJson P) (F : Fuse P) (lawful : IsLawful P rel J)
    (path dir name : CString) where
  open P use {State}
  open rel use {contents}

  -- After a mkdir: the new directory has a stat with the very mode, and an entry with no children; its
  -- parent lists it last.
  abbrev pub MadeDir : ℕ → List CString → State → ℤ → State → Type 0
  MadeDir mode names s fr t =
      (fr ≡ pos 0)
      × (ts : Timespec) × IsReading P ts
      × (entry : CString) × (text : CString) × (contents t
          ≡ put dentries dir (some text) (
              put dentries path (some entry)
                (put stats path (some (P.stat_bytes (fresh_stat mode ts))) (contents s))))
      × HasChildren P rel J lawful path [] t
      × HasChildren P rel J lawful dir (names ++ (name ∷ [])) t

  -- Making a directory at a path within the longest length, with no stat and no entry, other
  -- than its parent, whose entry lists some names, returns 0; the path then has a stat with
  -- exactly the mode that was given, without S_IFDIR where that lacks it, size 0 and one
  -- reading of the clock for its three times, and an entry with no children; the parent lists
  -- the new name last; no other document changes. The platform and cJSON are reliable, and
  -- dirname and basename give the directory and the name.
  pub mkdir-new :
      (mode : ℕ) (names : List CString) (s : State)
      → path ≢ dir
      → length path ≤ max_path_len
      → F.dirname (some path) ≡ some dir
      → F.basename (some path) ≡ some name
      → contents s stats path ≡ none
      → contents s dentries path ≡ none
      → HasChildren P rel J lawful dir names s
      → Yields (cbfuse_mkdir P J F path mode) s (MadeDir mode names s)
  unfolding cbfuse_mkdir
  mkdir-new mode names s apart short hd hb fresh fresh_entry listed = Yields-finish (
      Yields-then _ (split_path-Ends P rel J F path dir name s hd hb) λ t same.
        rw (or_ifdir_positive mode) (
          Yields-next _ (
            Yields-bind
              (insert_stat-new P rel path mode t short (Same-at P rel stats path same ∙ fresh))
              λ fr u (e, ts, clock, docs). rw e (
                let bytes : Option (List ℕ) = some (P.stat_bytes (fresh_stat mode ts)) in
                let docs1 = docs ∙ ap (put stats path bytes) same.docs in
                Yields-next _ (
                  Yields-bind
                    (add_new_dentry-Yields P rel J lawful path path (some dir) u short (
                      ap (λ f. f dentries path) docs1
                      ∙ put_other stats dentries path path bytes (contents s) refl
                      ∙ fresh_entry))
                    λ fr' w (e', entry, docs', made). rw e' (
                      Yields-next _ (
                        Yields-bind
                          (add_child_to_dentry-Yields P rel J lawful dir name names w (
                            HasChildren-at P rel J lawful dir names s w
                              (ap (λ f. f dentries dir) docs'
                                ∙ put_ne dentries dentries path dir (some entry) (contents u) apart
                                ∙ ap (λ f. f dentries dir) docs1
                                ∙ put_other stats dentries path dir bytes (contents s) refl)
                              listed))
                          λ fr'' x (e'', text, docs'', listed'). rw e'' (
                            Yields-next _ (
                              Yields-pure _ x (
                                refl,
                                ts,
                                clock,
                                entry,
                                text,
                                docs''
                                    ∙ ap (put dentries dir (some text))
                                        (docs' ∙ ap (put dentries path (some entry)) docs1),
                                HasChildren-at P rel J lawful path [] w x
                                    (ap (λ f. f dentries path) docs''
                                      ∙ put_ne dentries dentries dir path (some text) (contents w)
                                          (λ h. apart (sym h)))
                                    made,
                                listed',
                              ))))))))))
