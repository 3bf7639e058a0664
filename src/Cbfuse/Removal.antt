-- ===== src/Cbfuse/Removal.antt =====
-- unlink and rmdir over a reliable server and a lawful cJSON.
use cbfuse.Prelude.{
  ℕ, if◌then◌else◌, ℤ, pos, negate, ◌≡◌, ◌≢◌, refl, sym, ap, ◌∙◌, none, some, some-ne-none, List,
  CString, Option-cases, inl, inr, is_some,
}
use cbfuse.Common.{Collection, stats, dentries, blocks, enoent}
use cbfuse.Io.{value, pure, ◌>>=◌, ◌>>◌, if_fr_error}
use cbfuse.Io.Rules.{
  Ends, Yields, Ends-pure, Ends-finish, Ends-then, Ends→Yields, Yields-then, Yields-bind,
  Yields-next, Yields-pure, Yields-map, Yields-finish,
}
use cbfuse.Io.Guards.{Ends-eq}
use cbfuse.Platform.{Platform}
use cbfuse.Platform.Reliable.{IsReliable, put}
use cbfuse.Platform.Puts.{put_other, put_ne}
use cbfuse.Sync.Documents.{remove_document-found, Same-at}
use cbfuse.Stats.{remove_stat}
use cbfuse.Stats.Reads.{remove_stat-Ends}
use cbfuse.Data.{remove_data}
use cbfuse.Data.Truncates.{remove_data-found, remove_data-missing}
use cbfuse.Json.{CJson}
use cbfuse.Json.Lawful.{IsLawful}
use cbfuse.Dentries.{remove_dentry, remove_child_from_dentry}
use cbfuse.Dentries.Entries.{HasChildren, HasChildren-at}
use cbfuse.Dentries.Removal.{without, remove_child_from_dentry-Yields}
use cbfuse.Cbfuse.{Fuse, cbfuse_unlink, cbfuse_rmdir}
use cbfuse.Cbfuse.Files.{split_path-Ends}

module _ (P : Platform) (rel : IsReliable P) (J : CJson P) where
  open P use {State}
  open rel use {contents}

  -- remove_data leaves no block, whether there was one.
  remove_data-Yields :
      (k : CString) (s : State)
      → Yields (remove_data P k) s (λ fr t. contents t ≡ put blocks k none (contents s))
  remove_data-Yields k s = elim (Option-cases (contents s blocks k)) [
    | inl gone ↦ Yields-map (Ends→Yields _ (remove_data-missing P rel k s gone)) (λ a t q. q.1)
    | inr (v, there) ↦
        Yields-map
          (Ends→Yields _ (remove_data-found P rel k s (λ e. some-ne-none v (sym there ∙ e))))
          (λ a t q. q.1)
  ]

  -- The stat of a path that has one is removed.
  remove_stat-found :
      (k : CString) (v : List ℕ) (s : State)
      → contents s stats k ≡ some v
      → Ends (remove_stat P k) s (value (pos 0)) (λ t. contents t ≡ put stats k none (contents s))
  remove_stat-found k v s there =
      Ends-eq (ap (λ o. value (if is_some o then pos 0 else negate enoent)) there)
        (remove_stat-Ends P rel k s)

  remove_dentry-found :
      (k : CString) (s : State)
      → contents s dentries k ≢ none
      → Ends
          (remove_dentry P J k)
          s
          (value (pos 0))
          (λ t. contents t ≡ put dentries k none (contents s))
  unfolding remove_dentry
  remove_dentry-found k s there =
      Ends-finish
        (Ends-then _ (remove_document-found P rel dentries k s there) λ t e. Ends-pure (pos 0) t e)

module _ (P : Platform) (rel : IsReliable P) (J : CJson P) (F : Fuse P) (lawful : IsLawful P rel J)
    (path dir name : CString) where
  open P use {State}
  open rel use {contents}

  -- What both removals leave: no stat, no document of the path in `c`, and no name in its directory.
  abbrev pub Removed : Collection → List CString → State → ℤ → State → Type 0
  Removed c names s fr t =
      (fr ≡ pos 0)
      × (text : CString) × (contents t
          ≡ put stats path none (put dentries dir (some text) (put c path none (contents s))))
      × HasChildren P rel J lawful dir (without name names) t

  -- What both removals do after the document of the path: the name goes from its directory, then the
  -- stat goes.
  unlisted :
      (c : Collection) (names : List CString) (v : List ℕ) (s t : State)
      → contents t ≡ put c path none (contents s)
      → put c path none (contents s) stats path ≡ some v
      → put c path none (contents s) dentries dir ≡ contents s dentries dir
      → HasChildren P rel J lawful dir names s
      → Yields
          (do
            gone ← remove_child_from_dentry P J dir name
            removed ← remove_stat P path
            if_fr_error removed
            pure removed)
          t
          (Removed c names s)
  unlisted c names v s t docs there same_entry listed =
      Yields-bind
        (remove_child_from_dentry-Yields P rel J lawful dir name names t (
          HasChildren-at P rel J lawful dir names s t (ap (λ f. f dentries dir) docs ∙ same_entry)
            listed))
        λ fr u (e, text, docs', listed').
          let docs'' = docs' ∙ ap (put dentries dir (some text)) docs in
          Yields-then _
            (remove_stat-found P rel J path v u (
              ap (λ f. f stats path) docs''
              ∙ put_other dentries stats dir path (some text) (put c path none (contents s)) refl
              ∙ there))
            λ w docs3. Yields-next _ (
              Yields-pure _ w (
                refl,
                text,
                docs3 ∙ ap (put stats path none) docs'',
                HasChildren-at P rel J lawful dir (without name names) u w
                    (ap (λ f. f dentries dir) docs3
                      ∙ put_other stats dentries path dir none (contents u) refl)
                    listed',
              ))

  -- Unlinking a path with a stat, in a directory whose entry lists some names, returns 0; then
  -- the path has no stat and no block, whether it had a block or not, the entry of the directory
  -- lists the other names in their order, and no other document changes. The platform and cJSON
  -- are reliable, and dirname and basename give the directory and the name.
  pub unlink-removes :
      (names : List CString) (v : List ℕ) (s : State)
      → F.dirname (some path) ≡ some dir
      → F.basename (some path) ≡ some name
      → contents s stats path ≡ some v
      → HasChildren P rel J lawful dir names s
      → Yields (cbfuse_unlink P J F path) s (Removed blocks names s)
  unfolding cbfuse_unlink
  unlink-removes names v s hd hb there listed = Yields-finish (
      Yields-then _ (split_path-Ends P rel J F path dir name s hd hb) λ t same.
        Yields-bind (remove_data-Yields P rel J path t) λ fr u docs.
          unlisted blocks names v s u (docs ∙ ap (put blocks path none) same.docs)
            (put_other blocks stats path path none (contents s) refl ∙ there)
            (put_other blocks dentries path dir none (contents s) refl) listed)

  -- Removing a directory that has a stat and an entry, other than its parent, whose entry lists
  -- some names, returns 0, whatever the entry of the directory lists; then the path has no stat
  -- and no entry, its parent lists the other names in their order, and no other document changes.
  -- The platform and cJSON are reliable, and dirname and basename give the directory and the
  -- name.
  pub rmdir-removes :
      (names : List CString) (v text : List ℕ) (s : State)
      → path ≢ dir
      → F.dirname (some path) ≡ some dir
      → F.basename (some path) ≡ some name
      → contents s stats path ≡ some v
      → contents s dentries path ≡ some text
      → HasChildren P rel J lawful dir names s
      → Yields (cbfuse_rmdir P J F path) s (Removed dentries names s)
  unfolding cbfuse_rmdir
  rmdir-removes names v text s apart hd hb there entry listed = Yields-finish (
      Yields-then _ (split_path-Ends P rel J F path dir name s hd hb) λ t same.
        Yields-then _
          (remove_dentry-found P rel J path t
            (λ e. some-ne-none text (sym entry ∙ sym (Same-at P rel dentries path same) ∙ e)))
          λ u docs.
            unlisted dentries names v s u (docs ∙ ap (put dentries path none) same.docs)
              (put_other dentries stats path path none (contents s) refl ∙ there)
              (put_ne dentries dentries path dir none (contents s) apart) listed)
