-- ===== src/Cbfuse/Files.antt =====
-- getattr, open and create over a reliable server and a lawful cJSON.
use cbfuse.Prelude.{
  ℕ, ◌≤◌, ◌<◌, ℤ, pos, ◌≡◌, refl, sym, ap, ◌∙◌, true, not, Option, none, some, List, [], ◌∷◌, ◌++◌,
  CString, length, take, take_all, le→ltb, lt→ltb, eq→==, arith,
}
use cbfuse.Common.{stats, dentries, max_path_len, enametoolong}
use cbfuse.Io.{value, ok, err}
use cbfuse.Io.Rules.{
  Ends, Yields, Ends-then, Ends-pure, Ends-returning, Ends-finish_jump, Yields-then, Yields-bind,
  Yields-next, Yields-pure, Yields-call, Yields-finish, Yields-returning,
}
use cbfuse.Io.Guards.{if_true-jump, if_true-Yields}
use cbfuse.Platform.{fresh_stat, Kind, in_collection, with_key, Stat, Timespec, IsReading, Platform}
use cbfuse.Platform.Reliable.{IsReliable, put}
use cbfuse.Platform.Puts.{put_other}
use cbfuse.Sync.Rules.{Same, Same-refl, Same-trans, create-Ends, set_up-Ends}
use cbfuse.Sync.Memory.{strdup-Ends, read_bytes-Ends}
use cbfuse.Sync.Requests.{run_get-found}
use cbfuse.Sync.Documents.{Same-at}
use cbfuse.Stats.Reads.{insert_stat-new}
use cbfuse.Json.{CJson}
use cbfuse.Json.Lawful.{IsLawful}
use cbfuse.Dentries.Entries.{HasChildren, add_child_to_dentry-Yields}
use cbfuse.Cbfuse.{
  Fuse, Attributes, s_isreg, split_path, cbfuse_getattr, cbfuse_open, cbfuse_create,
}

module _ (P : Platform) (rel : IsReliable P) (J : CJson P) (F : Fuse P) where
  open P use {State}
  open rel use {contents}

  -- A path beyond the longest length gets ENAMETOOLONG, a positive number, from getattr and from
  -- open, and no document changes. The platform is reliable.
  pub getattr-too_long :
      (path : CString) (s : State)
      → max_path_len < length path
      → Ends (cbfuse_getattr P J F path) s (value (err (pos enametoolong))) (Same P rel s)
        × Ends (cbfuse_open P J F path) s (value (pos enametoolong)) (Same P rel s)
  unfolding cbfuse_getattr cbfuse_open
  getattr-too_long path s long = (
    Ends-returning (
        Ends-then _ (create-Ends P rel Kind.get s) λ t a.
          Ends-then _ (set_up-Ends P rel (in_collection stats) _ t) λ u b.
            if_true-jump _ _ _ (lt→ltb max_path_len (length path) long) (Same-trans P rel a b)),
    Ends-finish_jump
        (if_true-jump _ _ _ (lt→ltb max_path_len (length path) long) (Same-refl P rel s)),
  )

  -- For a path within the longest length, getattr reports the stat that is stored for it. The
  -- platform is reliable.
  pub getattr-stored :
      (path : CString) (x : Stat) (s : State)
      → length path ≤ max_path_len
      → contents s stats path ≡ some (P.stat_bytes x)
      → Yields (cbfuse_getattr P J F path) s (λ r t. (a : Attributes) × (r ≡ ok a) × (a.stat ≡ x))
  unfolding cbfuse_getattr
  getattr-stored path x s short there = Yields-returning (
      Yields-then _ (create-Ends P rel Kind.get s) λ t a.
        Yields-then _ (set_up-Ends P rel (in_collection stats) _ t) λ u b.
          if_true-Yields _ _ _ (le→ltb max_path_len (length path) short) (
            Yields-then _ (set_up-Ends P rel (with_key path) _ u) λ w c.
              let abc = Same-trans P rel a (Same-trans P rel b c) in
              Yields-bind
                (run_get-found P rel stats path (P.stat_bytes x) _ w refl refl refl
                  (Same-at P rel stats path abc ∙ there))
                λ res y (h1, h2, h3, d).
                  if_true-Yields _ _ _
                    (ap not (eq→== res.nvalue P.stat_struct_size (h2 ∙ rel.stat_length x)))
                    (Yields-call _ _ refl (
                      rw h1 (
                        Yields-then _
                          (read_bytes-Ends (P.stat_bytes x) P.stat_struct_size _ (λ z. Unit {0})
                            (omega (arith, rel.stat_length x)) tt)
                          λ z q. Yields-pure _ z (
                            ap P.stat_of_bytes (
                              ap (λ n. take n (P.stat_bytes x)) (sym (rel.stat_length x))
                              ∙ take_all (P.stat_bytes x))
                            ∙ rel.stat_round_trip x))))))

  -- A path whose directory and last name are known.
  pub split_path-Ends :
      (path dir name : CString) (s : State)
      → F.dirname (some path) ≡ some dir
      → F.basename (some path) ≡ some name
      → Ends (split_path P J F path) s (value (dir, name)) (Same P rel s)
  unfolding split_path
  split_path-Ends path dir name s hd hb = Ends-then _ (strdup-Ends P rel path s) λ t a.
      Ends-then _ (strdup-Ends P rel path t)
        λ u b. rw (hd, hb) (Ends-pure (dir, name) u (Same-trans P rel a b))

  module _ (lawful : IsLawful P rel J) (path dir name : CString) where
    -- After a create: the file has a new stat, its directory lists it last, all else is as it was.
    abbrev pub Created : ℕ → List CString → State → ℤ → State → Type 0
    Created mode names s fr t =
        (fr ≡ pos 0)
        × (ts : Timespec) × IsReading P ts
        × (text : CString) × (contents t
            ≡ put dentries dir (some text)
                (put stats path (some (P.stat_bytes (fresh_stat mode ts))) (contents s)))
        × HasChildren P rel J lawful dir (names ++ (name ∷ [])) t

    entry_after_stat :
        (names : List CString) (v : Option (List ℕ)) (s t : State)
        → contents t ≡ put stats path v (contents s)
        → HasChildren P rel J lawful dir names s
        → HasChildren P rel J lawful dir names t
    entry_after_stat names v s t docs (j, (text, there, parses), listed) = (
      j,
      (
        text,
        ap (λ f. f dentries dir) docs
            ∙ put_other stats dentries path dir v (contents s) refl
            ∙ there,
        parses,
      ),
      listed,
    )

    -- Creating a regular file whose path is within the longest length and has no stat yet, in
    -- a directory whose entry lists some names, returns 0; the file then has a stat with the
    -- mode, size 0 and one reading of the clock for its three times, the entry of the
    -- directory lists the same names and the new one behind them, and no other document
    -- changes. The platform and cJSON are reliable, and dirname and basename give the
    -- directory and the name.
    pub create-new :
        (mode : ℕ) (names : List CString) (s : State)
        → F.dirname (some path) ≡ some dir
        → F.basename (some path) ≡ some name
        → s_isreg mode ≡ true
        → length path ≤ max_path_len
        → contents s stats path ≡ none
        → HasChildren P rel J lawful dir names s
        → Yields (cbfuse_create P J F path mode) s (Created mode names s)
    unfolding cbfuse_create
    create-new mode names s hd hb regular short fresh listed = Yields-finish (
        Yields-then _ (split_path-Ends path dir name s hd hb) λ t a. rw regular (
          Yields-next _ (
            if_true-Yields _ _ _ (le→ltb max_path_len (length path) short) (
              Yields-bind
                (insert_stat-new P rel path mode t short (Same-at P rel stats path a ∙ fresh))
                λ fr u (e, ts, clock, docs). rw e (
                  let docs' =
                    docs ∙ ap (put stats path (some (P.stat_bytes (fresh_stat mode ts)))) a.docs in
                  Yields-next _ (
                    Yields-bind
                      (add_child_to_dentry-Yields P rel J lawful dir name names u
                        (entry_after_stat names _ s u docs' listed))
                      λ fr' w (e', text, docs'', listed'). rw e' (
                        Yields-next _ (
                          Yields-pure _ w (
                            refl,
                            ts,
                            clock,
                            text,
                            docs'' ∙ ap (put dentries dir (some text)) docs',
                            listed',
                          )))))))))
