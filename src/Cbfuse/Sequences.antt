-- ===== src/Cbfuse/Sequences.antt =====
-- Operations one after the other: what getattr reports after a change.
use cbfuse.Prelude.{ℕ, negate, ◌≡◌, refl, ap, ◌∙◌, true, none, some, List, CString, length, ◌≤◌}
use cbfuse.Common.{stats, dentries, max_path_len, enoent}
use cbfuse.Io.{◌>>=◌, ok, err}
use cbfuse.Io.Rules.{
  Yields, Yields-then, Yields-bind, Yields-next, Yields-pure, Yields-map, Yields-finish,
  Ends→Yields,
}
use cbfuse.Platform.{fresh_stat, Stat, Timespec, Platform}
use cbfuse.Platform.Reliable.{IsReliable, put}
use cbfuse.Platform.Puts.{put_self, put_other}
use cbfuse.Stats.Updates.{update_stat_mode-stored}
use cbfuse.Json.{CJson}
use cbfuse.Json.Lawful.{IsLawful}
use cbfuse.Dentries.Entries.{HasChildren}
use cbfuse.Cbfuse.{
  Fuse, Attributes, s_isreg, cbfuse_create, cbfuse_getattr, cbfuse_unlink, cbfuse_chmod,
}
use cbfuse.Cbfuse.Files.{create-new, getattr-stored}
use cbfuse.Cbfuse.Removal.{unlink-removes}
use cbfuse.Cbfuse.Root.{getattr-missing}

module _ (P : Platform) (rel : IsReliable P) (J : CJson P) (F : Fuse P) where
  open P use {State}
  open rel use {contents}

  -- After chmod of a path within the longest length that has a stat, getattr reports that stat
  -- with the new mode. The platform is reliable.
  pub getattr-chmod :
      (path : CString) (mode : ℕ) (x : Stat) (s : State)
      → length path ≤ max_path_len
      → contents s stats path ≡ some (P.stat_bytes x)
      → Yields
          (cbfuse_chmod P J F path mode >>= λ fr. cbfuse_getattr P J F path)
          s
          (λ r t. (a : Attributes) × (r ≡ ok a) × (a.stat ≡ record x { mode = mode }))
  unfolding cbfuse_chmod
  getattr-chmod path mode x s short there =
      Yields-bind
        {Q = λ fr t.
          contents t ≡ put stats path (some (P.stat_bytes (record x { mode = mode }))) (contents s)}
        (Yields-finish (
          Yields-then _ (update_stat_mode-stored P rel path mode x s there)
            λ t docs. Yields-next _ (Yields-pure _ t docs)))
        λ fr t docs.
          getattr-stored P rel J F path (record x { mode = mode }) t short
            (ap (λ f. f stats path) docs ∙ put_self stats path _ (contents s))

module _ (P : Platform) (rel : IsReliable P) (J : CJson P) (F : Fuse P) (lawful : IsLawful P rel J)
    (path dir name : CString) where
  open P use {State}
  open rel use {contents}

  -- After a regular file has been created at a path within the longest length that had no stat,
  -- in a directory whose entry lists some names, getattr of the path reports a stat of size 0
  -- with the mode and one moment for its three times. The platform and cJSON are reliable, and
  -- dirname and basename give the directory and the name.
  pub getattr-create :
      (mode : ℕ) (names : List CString) (s : State)
      → F.dirname (some path) ≡ some dir
      → F.basename (some path) ≡ some name
      → s_isreg mode ≡ true
      → length path ≤ max_path_len
      → contents s stats path ≡ none
      → HasChildren P rel J lawful dir names s
      → Yields
          (cbfuse_create P J F path mode >>= λ fr. cbfuse_getattr P J F path)
          s
          (λ r t. (ts : Timespec) × (a : Attributes) × (r ≡ ok a) × (a.stat ≡ fresh_stat mode ts))
  getattr-create mode names s hd hb regular short fresh listed =
      Yields-bind
        (create-new P rel J F lawful path dir name mode names s hd hb regular short fresh listed)
        λ fr t (e, ts, clock, text, docs, listed').
          Yields-map
            (getattr-stored P rel J F path (fresh_stat mode ts) t short (
              ap (λ f. f stats path) docs
              ∙ put_other dentries stats dir path (some text) _ refl
              ∙ put_self stats path _ (contents s)))
            λ r u (a, h, h'). (ts, a, h, h')

  -- After a path within the longest length that had a stat has been unlinked, in a directory
  -- whose entry lists some names, getattr of the path reports -ENOENT. The platform and cJSON are
  -- reliable, and dirname and basename give the directory and the name.
  pub getattr-unlink :
      (names : List CString) (v : List ℕ) (s : State)
      → F.dirname (some path) ≡ some dir
      → F.basename (some path) ≡ some name
      → length path ≤ max_path_len
      → contents s stats path ≡ some v
      → HasChildren P rel J lawful dir names s
      → Yields
          (cbfuse_unlink P J F path >>= λ fr. cbfuse_getattr P J F path)
          s
          (λ r t. r ≡ err (negate enoent))
  getattr-unlink names v s hd hb short there listed =
      Yields-bind (unlink-removes P rel J F lawful path dir name names v s hd hb there listed)
        λ fr t (e, text, docs, listed').
          Yields-map
            (Ends→Yields _ (
              getattr-missing P rel J F path t short
                (ap (λ f. f stats path) docs ∙ put_self stats path none _)))
            λ r u q. q.0
