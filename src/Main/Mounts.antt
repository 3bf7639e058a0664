-- ===== src/Main/Mounts.antt =====
-- On an empty bucket, main mounts the smallest tree.
use cbfuse.Prelude.{
  ◌≤◌, ℤ, pos, ◌≡◌, ◌≢◌, refl, ap, ◌∙◌, Bool, true, false, Option, none, some, List, [], ◌∷◌, ◌++◌,
  CString, codes, length, le→ltb, ne→==, is_zero, Bool-cases, inl, inr,
}
use cbfuse.Io.{value, pure, perform, ◌>>=◌, done_with, if_fr_error}
use cbfuse.Io.Rules.{
  Ends, Yields, Ends-then, Ends-pure, Ends-next, Ends-call, Ends-perform, Ends-returning_value,
  Yields-then, Yields-bind, Yields-next, Yields-pure, Yields-map, Ends→Yields,
}
use cbfuse.Io.Guards.{
  if_fr_error-jump, Yields-done_with_bind, Yields-done_with_then, Yields-done_with, Ends-done_with,
  Ends-done_with_jump,
}
use cbfuse.Platform.{fresh_stat, directory_755, success, Timespec, Platform}
use cbfuse.Platform.Reliable.{IsReliable}
use cbfuse.Sync.Rules.{Same, Same-trans}
use cbfuse.Json.{CJson}
use cbfuse.Json.Lawful.{IsLawful}
use cbfuse.Cbfuse.{Fuse}
use cbfuse.Tree.Represents.{Represents}
use cbfuse.Tree.Start.{root_tree, IsEmpty, install_root-Represents}
use cbfuse.Main.{
  Config, CreateOptions, Callback, Host, returned, cbfuse_opts, bucket, runs_as_root, run_procs,
  prepare, credentials_of, connect, serve, release, start, start_prepared, start_parsed, main,
}

-- Both credentials are given, or neither.
abbrev pub AreComplete : Option CString → Option CString → Type 0
AreComplete none none = Unit
AreComplete (some u) (some p) = Unit
AreComplete none (some p) = ⊥
AreComplete (some u) none = ⊥

module _ {P : Platform} (rel : IsReliable P) (H : Host P) where
  -- A start that goes well: the user is not root, the arguments parse with no call of the option
  -- processor, and every call about the connection succeeds. No document changes.
  pub record IsUp (argv args : List CString) (config : Config) : Type 0 where
    pub getuid_lem : (s : P.State) → ((H.getuid s).0 ≢ 0) × Same P rel s (H.getuid s).1
    pub geteuid_lem : (s : P.State) → ((H.geteuid s).0 ≢ 0) × Same P rel s (H.geteuid s).1
    pub parse_lem :
        (s : P.State)
        → ((H.fuse_opt_parse cbfuse_opts argv s).0
            ≡ record { result = pos 0; args = args; config = config; keys = [] })
          × Same P rel s (H.fuse_opt_parse cbfuse_opts argv s).1
    pub add_lem :
        (l : List CString) (a : CString) (s : P.State)
        → ((H.fuse_opt_add_arg l a s).0 ≡ (pos 0, l ++ (a ∷ [])))
          × Same P rel s (H.fuse_opt_add_arg l a s).1
    pub create_lem :
        (o : CreateOptions) (s : P.State)
        → ((H.lcb_create o s).0 ≡ (success, true)) × Same P rel s (H.lcb_create o s).1
    pub connect_lem :
        (s : P.State) → ((H.lcb_connect s).0 ≡ success) × Same P rel s (H.lcb_connect s).1
    pub wait_lem : (s : P.State) → ((H.lcb_wait s).0 ≡ success) × Same P rel s (H.lcb_wait s).1
    pub bootstrap_lem :
        (s : P.State)
        → ((H.lcb_get_bootstrap_status s).0 ≡ success)
          × Same P rel s (H.lcb_get_bootstrap_status s).1
    pub install_lem : (c : Callback) (s : P.State) → Same P rel s (H.lcb_install_callback c s).1
    pub open_lem :
        (b : CString) (s : P.State)
        → ((H.lcb_open b s).0 ≡ success) × Same P rel s (H.lcb_open b s).1

module _ (P : Platform) (rel : IsReliable P) (J : CJson P) (F : Fuse P) (lawful : IsLawful P rel J)
    (H : Host P) (argv args : List CString) (config : Config)
    (up : IsUp rel H argv args config) where
  open P use {State}
  open rel use {contents}

  -- One call of the host, from a state with the documents of `s`.
  pub called :
      {A : Type 0} (f : State → A × State) (a : A) (s t : State)
      → ((f t).0 ≡ a) × Same P rel t (f t).1
      → Same P rel s t
      → Ends (perform f) t (value a) (Same P rel s)
  called f a s t (e, same) before =
      Ends-perform f t a (Same P rel s) e (Same-trans P rel before same)

  pub runs_as_root-Ends : (s : State) → Ends (runs_as_root P J F H) s (value false) (Same P rel s)
  unfolding runs_as_root
  runs_as_root-Ends s =
      let (uid, same) = up.getuid_lem s in
      let (euid, same') = up.geteuid_lem (H.getuid s).1 in
      Ends-call _ _ refl (
        rw (ne→== (H.getuid s).0 0 uid) (
          Ends-call _ _ refl (
            rw (ne→== (H.geteuid (H.getuid s).1).0 0 euid)
              (Ends-pure false _ (Same-trans P rel same same')))))

  -- The arguments that the mount gets.
  abbrev pub mount_args : List CString
  mount_args = (args ++ (codes "-s" ∷ [])) ++ (codes "-f" ∷ [])

  pub prepare-Ends :
      (s t : State)
      → Same P rel s t
      → Ends
          (prepare P J F H (record { result = pos 0; args = args; config = config; keys = [] }))
          t
          (value mount_args)
          (Same P rel s)
  unfolding prepare
  prepare-Ends s t before = Ends-next _ (
      Ends-then _ (called _ _ s t (up.add_lem args (codes "-s") t) before) λ u a. Ends-next _ (
        Ends-then _ (called _ _ s u (up.add_lem (args ++ (codes "-s" ∷ [])) (codes "-f") u) a)
          λ w b. Ends-next _ (Ends-pure mount_args w b)))

  credentials_of-Ends :
      (u p : Option CString) (s t : State)
      → AreComplete u p
      → Same P rel s t
      → Yields (credentials_of P J F H u p) t (λ c t'. Same P rel s t')
  unfolding credentials_of
  credentials_of-Ends none none s t h before = Yields-pure none t before
  credentials_of-Ends (some u) (some p) s t h before = Yields-pure (some (u, p)) t before
  credentials_of-Ends none (some p) s t h before = elim h [ ]
  credentials_of-Ends (some u) none s t h before = elim h [ ]

  installed :
      (c : Callback) (s t : State)
      → Same P rel s t
      → Ends (perform (H.lcb_install_callback c)) t (value tt) (Same P rel s)
  installed c s t before = called _ tt s t (refl, up.install_lem c t) before

  connect-Ends : (s t : State) → Same P rel s t → Ends (connect P J F H) t (value tt) (Same P rel s)
  unfolding connect
  connect-Ends s t before = Ends-then _ (called _ _ s t (up.connect_lem t) before) λ u a.
      Ends-next _ (
        Ends-then _ (called _ _ s u (up.wait_lem u) a) λ w b. Ends-next _ (
          Ends-then _ (called _ _ s w (up.bootstrap_lem w) b) λ x c. Ends-next _ (
            Ends-then _ (installed Callback.open_callback s x c) λ y d.
              Ends-then _ (installed Callback.get_callback s y d) λ z e.
                Ends-then _ (installed Callback.store_callback s z e) λ k g.
                  Ends-then _ (installed Callback.remove_callback s k g) λ l h.
                    Ends-then _ (called _ _ s l (up.open_lem bucket l) h) λ m i.
                      Ends-next _
                        (Ends-then _ (called _ _ s m (up.wait_lem m) i) λ n j. Ends-pure tt n j))))

  -- What a start comes to: the mount starts in a state of the smallest tree, and its result is the
  -- result of the program.
  abbrev pub Mounted : ℤ → Type 0
  Mounted fr =
      (u : State) × (ts : Timespec) × Represents P rel J lawful
        (root_tree (fresh_stat directory_755 ts)) u
      × (fr ≡ (H.fuse_main mount_args u).0)

  -- Whatever the mount returns, the label done is reached with it.
  at_done :
      (fr : ℤ) (t : State)
      → Ends
          (done_with true (if_fr_error fr >>= λ x. pure (fr, true)))
          t
          (value (fr, true))
          (λ u. Unit)
  at_done fr t = elim (Bool-cases (is_zero fr)) [
    | inl zero_fr ↦ rw zero_fr (Ends-done_with true (Ends-next _ (Ends-pure (fr, true) t tt)))
    | inr other ↦ Ends-done_with_jump true (if_fr_error-jump fr _ other tt)
  ]

  serve-Mounted :
      (connstr : CString) (s t : State)
      → AreComplete config.cb_username config.cb_password
      → IsEmpty P rel s
      → Same P rel s t
      → Yields (serve P J F H mount_args connstr config) t (λ r u. Mounted r.0)
  unfolding serve
  serve-Mounted connstr s t complete empty before =
      Yields-done_with_bind false _
        (credentials_of-Ends config.cb_username config.cb_password s t complete before)
        λ c u a. Yields-done_with_then false _ (called _ _ s u (up.create_lem _ u) a) λ w b.
          Yields-done_with false (
            Yields-done_with_then true _ (Ends-pure tt w b) λ w' b'.
              Yields-done_with_then true _ (Ends-pure tt w' b') λ w'' b''.
                Yields-done_with_then true _ (connect-Ends s w'' b'') λ x d.
                  Yields-done_with_bind true _
                    (install_root-Represents P rel J F lawful x
                      (λ k j. ap (λ g. g k j) d.docs ∙ empty k j))
                    λ r y (e, ts, R). rw e (
                      Yields-done_with_then true _ (Ends-pure tt y R) λ z R'.
                        Yields-done_with_then true _
                          (Ends-perform (H.fuse_main mount_args) z _ (λ l. Unit) refl tt)
                          λ l q.
                            Yields-map (Ends→Yields _ (at_done (H.fuse_main mount_args z).0 l))
                              λ r' l' (e', q'). (z, ts, R', ap (λ p. p.0) e')))

  release-Yields : (b : Bool) (s : State) → Yields (release P J F H b) s (λ u t. Unit)
  unfolding release
  release-Yields true s = record {
    result = tt;
    after = (H.lcb_destroy s).1;
    runs = refl;
    holds = tt;
  }
  release-Yields false s = Yields-pure tt s tt

  start-Mounted :
      (given : Option CString) (connstr : CString) (s t : State)
      → given ≡ some connstr
      → 5 ≤ length connstr
      → AreComplete config.cb_username config.cb_password
      → IsEmpty P rel s
      → Same P rel s t
      → Yields
          (start P J F H mount_args config given)
          t
          (λ e u. (fr : ℤ) × (e ≡ returned fr) × Mounted fr)
  unfolding start
  start-Mounted given connstr s t e long complete empty before =
      rw (e, le→ltb (length connstr) 5 long)
        (Yields-bind (serve-Mounted connstr s t complete empty before) λ r x mounted.
          Yields-bind (release-Yields r.1 x) λ q y q'. Yields-pure _ y (r.0, refl, mounted))

  -- Where the user is not root, the arguments parse with a connection string of five characters
  -- or more and with both credentials or neither and no call of the option processor, all calls
  -- about the connection succeed, and the bucket is empty, main returns what the mount returns;
  -- the mount has got the arguments that were left, and then -s and -f, and it has started in a
  -- state that represents the tree of the root alone, a directory with no children. The platform
  -- and cJSON are reliable.
  pub main-Mounted :
      (connstr : CString) (s : State)
      → config.cb_connect ≡ some connstr
      → 5 ≤ length connstr
      → AreComplete config.cb_username config.cb_password
      → IsEmpty P rel s
      → Yields (main P J F H argv) s (λ e t. (fr : ℤ) × (e ≡ returned fr) × Mounted fr)
  unfolding main run_procs start_parsed start_prepared
  main-Mounted connstr s given long complete empty = Yields-then _ (runs_as_root-Ends s) λ t a.
      Yields-then _ (called _ _ s t (up.parse_lem t) a) λ u b. Yields-next _ (
        Yields-then _ (Ends-returning_value (prepare-Ends s u b))
          λ w c. start-Mounted config.cb_connect connstr s w given long complete empty c)
