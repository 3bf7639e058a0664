-- ===== src/Cbfuse/Root.antt =====
-- The installation of the root directory over a reliable server and a lawful cJSON.
use cbfuse.Prelude.{
  ℕ, ℤ, pos, negate, ◌≡◌, refl, ap, ◌∙◌, Option, none, some, List, [], CString, if◌then◌else◌,
  arith, ◌≤◌, length, le→ltb,
}
use cbfuse.Common.{stats, dentries, root_dir_string, max_path_len, enoent}
use cbfuse.Io.{value, err}
use cbfuse.Io.Rules.{
  Ends, Yields, Ends-map, Ends-then, Ends-jump, Ends-returning, Yields-then, Yields-bind,
  Yields-next, Yields-pure, Yields-finish,
}
use cbfuse.Io.Guards.{if_true-pass}
use cbfuse.Platform.{
  fresh_stat, directory_755, Kind, in_collection, with_key, Stat, Timespec, IsReading, Platform,
}
use cbfuse.Platform.Reliable.{IsReliable, put}
use cbfuse.Platform.Puts.{put_other}
use cbfuse.Sync.Rules.{Same, Same-trans, create-Ends, set_up-Ends}
use cbfuse.Sync.Requests.{run_get-missing}
use cbfuse.Sync.Documents.{Same-at}
use cbfuse.Stats.Reads.{insert_stat-new}
use cbfuse.Json.{CJson}
use cbfuse.Json.Lawful.{IsLawful}
use cbfuse.Dentries.Entries.{HasChildren}
use cbfuse.Dentries.Creation.{add_new_dentry-Yields}
use cbfuse.Cbfuse.{
  Fuse, s_isdir, cbfuse_getattr, insert_root, missing_root, checked_root, install_root,
}
use cbfuse.Cbfuse.Files.{getattr-stored}

module _ (P : Platform) (rel : IsReliable P) (J : CJson P) (F : Fuse P) where
  open P use {State}
  open rel use {contents}

  pub getattr-missing :
      (path : CString) (s : State)
      → length path ≤ max_path_len
      → contents s stats path ≡ none
      → Ends (cbfuse_getattr P J F path) s (value (err (negate enoent))) (Same P rel s)
  unfolding cbfuse_getattr
  getattr-missing path s short gone = Ends-returning (
      Ends-then _ (create-Ends P rel Kind.get s) λ t a.
        Ends-then _ (set_up-Ends P rel (in_collection stats) _ t) λ u b.
          if_true-pass _ _ _ (le→ltb max_path_len (length path) short) (
            Ends-then _ (set_up-Ends P rel (with_key path) _ u) λ w c.
              let abc = Same-trans P rel a (Same-trans P rel b c) in
              Ends-jump _ (
                Ends-map
                  (run_get-missing P rel stats path _ w refl refl refl
                    (Same-at P rel stats path abc ∙ gone))
                  λ x d. Same-trans P rel abc d)))

  -- Where the root has a stat, the start of the program goes on if its mode is that of a
  -- directory, and ends with EXIT_FAILURE if not. The platform is reliable.
  pub install_root-there :
      (x : Stat) (s : State)
      → contents s stats root_dir_string ≡ some (P.stat_bytes x)
      → Yields (install_root P J F) s (λ r t. r ≡ (if s_isdir x.mode then pos 0 else pos 1))
  unfolding install_root checked_root
  install_root-there x s there =
      Yields-bind (getattr-stored P rel J F root_dir_string x s (omega arith) there)
        λ r t (a, e, h). rw (e, h) (Yields-pure _ t refl)

  module _ (lawful : IsLawful P rel J) where
    -- The root: a directory with no children.
    abbrev pub Installed : State → ℤ → State → Type 0
    Installed s r t =
        (r ≡ pos 0)
        × (ts : Timespec) × IsReading P ts
        × (text : CString) × (contents t
            ≡ put dentries root_dir_string (some text) (
                put stats root_dir_string (some (P.stat_bytes (fresh_stat directory_755 ts)))
                  (contents s)))
        × HasChildren P rel J lawful root_dir_string [] t

    insert_root-Yields :
        (s : State)
        → contents s stats root_dir_string ≡ none
        → contents s dentries root_dir_string ≡ none
        → Yields (insert_root P J F) s (Installed s)
    unfolding insert_root
    insert_root-Yields s fresh fresh_entry = Yields-finish (
        Yields-bind (insert_stat-new P rel root_dir_string directory_755 s (omega arith) fresh)
          λ fr t (e, ts, clock, docs). rw e (
            let bytes : Option (List ℕ) = some (P.stat_bytes (fresh_stat directory_755 ts)) in
            Yields-next _ (
              Yields-bind
                (add_new_dentry-Yields P rel J lawful root_dir_string root_dir_string none t
                  (omega arith)
                  (ap (λ f. f dentries root_dir_string) docs
                    ∙ put_other stats dentries root_dir_string root_dir_string bytes (contents s)
                        refl
                    ∙ fresh_entry))
                λ fr' u (e', text, docs', made). rw e' (
                  Yields-next _ (
                    Yields-pure _ u (
                      refl,
                      ts,
                      clock,
                      text,
                      docs' ∙ ap (put dentries root_dir_string (some text)) docs,
                      made,
                    ))))))

    -- Where the root has no stat and no entry, the start of the program stores a stat for it
    -- with the mode of a directory, S_IFDIR with the permissions 0755, size 0 and one reading
    -- of the clock for its three times, and an entry with no children; it changes no other
    -- document, and goes on. The platform and cJSON are reliable.
    pub install_root-new :
        (s : State)
        → contents s stats root_dir_string ≡ none
        → contents s dentries root_dir_string ≡ none
        → Yields (install_root P J F) s (Installed s)
    unfolding install_root missing_root checked_root
    install_root-new s fresh fresh_entry =
        Yields-then _ (getattr-missing root_dir_string s (omega arith) fresh) λ t same.
          Yields-bind
            (insert_root-Yields t (Same-at P rel stats root_dir_string same ∙ fresh)
              (Same-at P rel dentries root_dir_string same ∙ fresh_entry))
            λ fr u (e, ts, clock, text, docs, made). rw e (
              Yields-pure _ u (
                refl,
                ts,
                clock,
                text,
                docs
                    ∙ ap
                        (λ f. put dentries root_dir_string (some text) (
                          put stats root_dir_string
                            (some (P.stat_bytes (fresh_stat directory_755 ts))) f))
                        same.docs,
                made,
              ))
