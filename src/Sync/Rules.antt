-- ===== src/Sync/Rules.antt =====
-- A request over a reliable server: each of its parts goes on, and the response decides the end.
use cbfuse.Prelude.{◌≡◌, refl, ◌∙◌, List, [], ◌∷◌}
use cbfuse.Io.{value}
use cbfuse.Io.Rules.{Ends, Ends-then, Ends-perform, Ends-pure, Ends-map}
use cbfuse.Platform.{success, Kind, Command, Setting, new_command, set, Platform}
use cbfuse.Platform.Reliable.{IsReliable}
use cbfuse.Sync.Commands.{create, set_up, set_up_all}

abbrev pub set_all : List Setting → Command → Command
set_all [] cmd = cmd
set_all (x ∷ xs) cmd = set_all xs (set x cmd)

module _ (P : Platform) (rel : IsReliable P) where
  open P use {State}
  open rel use {contents, cas_at}

  -- The same documents, at the same versions.
  pub record Same (s t : State) : Type 0 where
    pub docs : contents t ≡ contents s
    pub versions : cas_at t ≡ cas_at s

  pub Same-refl : (s : State) → Same s s
  Same-refl s = record { docs = refl; versions = refl }

  pub Same-trans : {s t u : State} → Same s t → Same t u → Same s u
  Same-trans a b = record { docs = b.docs ∙ a.docs; versions = b.versions ∙ a.versions }

  pub create-Ends : (k : Kind) (s : State) → Ends (create P k) s (value (new_command k)) (Same s)
  unfolding create
  create-Ends k s =
      Ends-then _
        (Ends-perform (P.cmd_create k) s success (Same s) (rel.create_succeeds k s)
          (record { docs = rel.create_contents k s; versions = rel.create_cas k s }))
        λ t h. Ends-then _ (Ends-pure tt t h) λ u h'. Ends-pure (new_command k) u h'

  pub set_up-Ends :
      (x : Setting) (cmd : Command) (s : State)
      → Ends (set_up P x cmd) s (value (set x cmd)) (Same s)
  unfolding set_up
  set_up-Ends x cmd s =
      Ends-then _
        (Ends-perform (P.cmd_set x) s success (Same s) (rel.set_succeeds x s)
          (record { docs = rel.set_contents x s; versions = rel.set_cas x s }))
        λ t h. Ends-then _ (Ends-pure tt t h) λ u h'. Ends-pure (set x cmd) u h'

  pub set_up_all-Ends :
      (xs : List Setting) (cmd : Command) (s : State)
      → Ends (set_up_all P xs cmd) s (value (set_all xs cmd)) (Same s)
  unfolding set_up_all
  set_up_all-Ends [] cmd s = Ends-pure cmd s (Same-refl s)
  set_up_all-Ends (x ∷ xs) cmd s =
      Ends-then _ (set_up-Ends x cmd s)
        λ t h. Ends-map (set_up_all-Ends xs (set x cmd) t) λ u h'. Same-trans h h'
