-- ===== src/Main/Credentials.antt =====
-- main with one of the two credentials.
use cbfuse.Prelude.{
  ◌≤◌, ◌≡◌, pos, refl, sym, ap, ◌∙◌, subst, false, Option, none, some, List, [], ◌∷◌, ◌++◌, CString,
  codes, length, le→ltb, ne→==,
}
use cbfuse.Io.{value, fault, perform}
use cbfuse.Io.Rules.{
  Ends, Ends-then, Ends-next, Ends-pure, Ends-call, Ends-map, Ends-perform, Ends-crash,
  Ends-crash_at, Ends-returning_value,
}
use cbfuse.Io.Guards.{Ends-done_with_fault}
use cbfuse.Platform.{Platform}
use cbfuse.Platform.Reliable.{IsReliable}
use cbfuse.Sync.Rules.{Same, Same-trans}
use cbfuse.Json.{CJson}
use cbfuse.Json.Lawful.{IsLawful}
use cbfuse.Cbfuse.{Fuse}
use cbfuse.Main.{
  Config, Host, cbfuse_opts, runs_as_root, prepare, credentials_of, serve, start, start_prepared,
  start_parsed, run_procs, main,
}
use cbfuse.Main.Mounts.{AreComplete, IsUp}

module _ (P : Platform) (rel : IsReliable P) (J : CJson P) (F : Fuse P) (lawful : IsLawful P rel J)
    (H : Host P) (argv args : List CString) (config : Config)
    (up : IsUp rel H argv args config) where
  open P use {State}

  -- The state that main has reached with the arguments: after the tests for root, the parse, and the
  -- two options of its own. Nothing else has been called.
  abbrev pub prepared_state : State → State
  prepared_state s =
      (H.fuse_opt_add_arg (args ++ (codes "-s" ∷ [])) (codes "-f") (
        (H.fuse_opt_add_arg args (codes "-s")
          (H.fuse_opt_parse cbfuse_opts argv (H.geteuid (H.getuid s).1).1).1).1)).1

  -- One call of the host that gives `a`, and the state that it leaves.
  call_at :
      {A : Type 0} (f : State → A × State) (a : A) (t : State)
      → (f t).0 ≡ a
      → Ends (perform f) t (value a) (λ u. u ≡ (f t).1)
  call_at f a t e = Ends-perform f t a (λ u. u ≡ (f t).1) e refl

  runs_as_root-at :
      (s : State)
      → Ends (runs_as_root P J F H) s (value false) (λ u. u ≡ (H.geteuid (H.getuid s).1).1)
  unfolding runs_as_root
  runs_as_root-at s = Ends-call _ _ refl (
      rw (ne→== (H.getuid s).0 0 (up.getuid_lem s).0) (
        Ends-call _ _ refl (
          rw (ne→== (H.geteuid (H.getuid s).1).0 0 (up.geteuid_lem (H.getuid s).1).0)
            (Ends-pure false _ refl))))

  prepare-at :
      (t : State)
      → Ends
          (prepare P J F H (record { result = pos 0; args = args; config = config; keys = [] }))
          t
          (value ((args ++ (codes "-s" ∷ [])) ++ (codes "-f" ∷ [])))
          (λ u.
            u
            ≡ (H.fuse_opt_add_arg
                (args ++ (codes "-s" ∷ []))
                (codes "-f")
                (H.fuse_opt_add_arg args (codes "-s") t).1).1)
  unfolding prepare
  prepare-at t = Ends-next _ (
      Ends-then _ (call_at _ _ t (up.add_lem args (codes "-s") t).0) λ u a. Ends-next _ (
        Ends-then _ (call_at _ _ u (up.add_lem (args ++ (codes "-s" ∷ [])) (codes "-f") u).0) λ w b.
          Ends-next _ (
            Ends-pure _ w
              (b ∙ ap (λ x. (H.fuse_opt_add_arg (args ++ (codes "-s" ∷ [])) (codes "-f") x).1) a))))

  prepared-Same : (s : State) → Same P rel s (prepared_state s)
  prepared-Same s = Same-trans P rel (up.getuid_lem s).1 (
      Same-trans P rel (up.geteuid_lem _).1 (
        Same-trans P rel (up.parse_lem _).1
          (Same-trans P rel (up.add_lem _ _ _).1 (up.add_lem _ _ _).1)))

  credentials_of-fault :
      (u p : Option CString) (t : State)
      → ¬ AreComplete u p
      → Ends (credentials_of P J F H u p) t fault (λ x. x ≡ t)
  unfolding credentials_of
  credentials_of-fault none none t h = absurd (h tt)
  credentials_of-fault (some u) (some p) t h = absurd (h tt)
  credentials_of-fault none (some p) t h = Ends-crash_at t refl
  credentials_of-fault (some u) none t h = Ends-crash_at t refl

  start-fault :
      (given : Option CString) (connstr : CString) (l : List CString) (t : State)
      → given ≡ some connstr
      → 5 ≤ length connstr
      → ¬ AreComplete config.cb_username config.cb_password
      → Ends (start P J F H l config given) t fault (λ x. x ≡ t)
  unfolding start serve
  start-fault given connstr l t e long missing =
      rw (e, le→ltb (length connstr) 5 long)
        (Ends-crash _ (
          Ends-done_with_fault false
            (Ends-crash _ (credentials_of-fault config.cb_username config.cb_password t missing))))

  -- Where the user is not root, the arguments parse with a connection string of five characters
  -- or more and with one credential but not the other, and with no call of the option
  -- processor, main reads the length of a NULL in the very state that the parse and its two own
  -- options have left, so before any call about the connection; no document has changed. The
  -- platform and cJSON are reliable.
  pub main-fault :
      (connstr : CString) (s : State)
      → config.cb_connect ≡ some connstr
      → 5 ≤ length connstr
      → ¬ AreComplete config.cb_username config.cb_password
      → Ends (main P J F H argv) s fault (λ t. (t ≡ prepared_state s) × Same P rel s t)
  unfolding main run_procs start_parsed start_prepared
  main-fault connstr s given long missing = Ends-then _ (runs_as_root-at s) λ t a.
      Ends-then _ (call_at _ _ t (up.parse_lem t).0) λ u b. Ends-next _ (
        Ends-then _ (Ends-returning_value (prepare-at u)) λ w c.
          Ends-map (start-fault config.cb_connect connstr _ w given long missing) λ x d.
            let e : x ≡ prepared_state s = cc in
            (e, subst (Same P rel s) (sym e) (prepared-Same s)))
