-- ===== src/Tree/Represents.antt =====
-- How the documents of the three collections represent a tree.
use cbfuse.Prelude.{ℕ, ◌≡◌, ◌≢◌, refl, ap, ◌∙◌, Option, some, none, List, CString, inl, inr}
use cbfuse.Common.{Collection, stats, dentries, blocks}
use cbfuse.Platform.{Stat, Platform}
use cbfuse.Platform.Reliable.{IsReliable, put}
use cbfuse.Platform.Puts.{put_self, put_other, put_ne}
use cbfuse.Json.{CJson}
use cbfuse.Json.Lawful.{IsLawful}
use cbfuse.Dentries.Entries.{HasChildren, HasChildren-at}
use cbfuse.Tree.{Node, file, directory, Fs, set, restat}
use cbfuse.Tree.Names.{set-cases, set_two-cases}

module _ (P : Platform) (rel : IsReliable P) (J : CJson P) (lawful : IsLawful P rel J) where
  open P use {State}
  open rel use {contents}

  -- What the three collections hold for a path: nothing; a stat and perhaps a block; a stat and an
  -- entry.
  abbrev pub At : Option Node → CString → State → Type 0
  At none k s =
      (contents s stats k ≡ none) × (contents s dentries k ≡ none) × (contents s blocks k ≡ none)
  At (some (file x b)) k s =
      (contents s stats k ≡ some (P.stat_bytes x))
      × (contents s dentries k ≡ none)
      × (contents s blocks k ≡ b)
  At (some (directory x names)) k s =
      (contents s stats k ≡ some (P.stat_bytes x))
      × HasChildren P rel J lawful k names s
      × (contents s blocks k ≡ none)

  abbrev pub Represents : Fs → State → Type 0
  Represents fs s = (k : CString) → At (fs k) k s

  -- The documents of a path are those of an earlier state.
  abbrev pub Untouched : CString → State → State → Type 0
  Untouched k s t = (c : Collection) → contents t c k ≡ contents s c k

  pub at :
      (fs : Fs) (k : CString) (n : Option Node) (s : State) → fs k ≡ n → Represents fs s → At n k s
  at fs k n s e R = rw (← e) (R k)

  Untouched-At :
      (n : Option Node) (k : CString) (s t : State) → Untouched k s t → At n k s → At n k t
  Untouched-At none k s t u (a, b, c) = (u stats ∙ a, u dentries ∙ b, u blocks ∙ c)
  Untouched-At (some (file x v)) k s t u (a, b, c) = (u stats ∙ a, u dentries ∙ b, u blocks ∙ c)
  Untouched-At (some (directory x names)) k s t u (a, b, c) =
      (u stats ∙ a, HasChildren-at P rel J lawful k names s t (u dentries) b, u blocks ∙ c)

  pub same-Represents :
      (fs : Fs) (s t : State) → contents t ≡ contents s → Represents fs s → Represents fs t
  same-Represents fs s t e R k = Untouched-At (fs k) k s t (λ c. ap (λ f. f c k) e) (R k)

  -- The documents of one path have changed.
  pub set-Represents :
      (fs : Fs) (path : CString) (n : Option Node) (s t : State)
      → ((j : CString) → path ≢ j → Untouched j s t)
      → At n path t
      → Represents fs s
      → Represents (set path n fs) t
  set-Represents fs path n s t away there R j = elim (set-cases path n fs j) [
    | inl (same, e) ↦ rw (e, ← same) there
    | inr (other, e) ↦ rw e (Untouched-At (fs j) j s t (away j other) (R j))
  ]

  -- The documents of a path and of its directory have changed.
  pub set_two-Represents :
      (fs : Fs) (dir : CString) (a : Option Node) (path : CString) (b : Option Node) (s t : State)
      → ((j : CString) → dir ≢ j → path ≢ j → Untouched j s t)
      → At a dir t
      → At b path t
      → Represents fs s
      → Represents (set dir a (set path b fs)) t
  set_two-Represents fs dir a path b s t away at_dir at_path R j =
      elim (set_two-cases dir a path b fs j) [
        | inl (same, e) ↦ rw (e, ← same) at_dir
        | inr (inl (other, same, e)) ↦ rw (e, ← same) at_path
        | inr (inr (far, other, e)) ↦ rw e (Untouched-At (fs j) j s t (away j far other) (R j))
      ]

  -- A document of another path is untouched by a put.
  pub put-Untouched :
      (c : Collection) (path : CString) (v : Option (List ℕ)) (s t : State)
      → contents t ≡ put c path v (contents s)
      → (j : CString) → path ≢ j
      → Untouched j s t
  put-Untouched c path v s t e j away d = ap (λ f. f d j) e ∙ put_ne c d path j v (contents s) away

  -- A node gets another stat.
  pub restat-Represents :
      (fs : Fs) (path : CString) (n : Node) (y : Stat) (s t : State)
      → fs path ≡ some n
      → contents t ≡ put stats path (some (P.stat_bytes y)) (contents s)
      → Represents fs s
      → Represents (set path (some (restat y n)) fs) t
  restat-Represents fs path n y s t there docs R =
      set-Represents fs path (some (restat y n)) s t
        (put-Untouched stats path (some (P.stat_bytes y)) s t docs)
        (restat_at n (at fs path (some n) s there R)) R
    where
      self : contents t stats path ≡ some (P.stat_bytes y)
      self = ap (λ f. f stats path) docs ∙ put_self stats path _ (contents s)

      entry : contents t dentries path ≡ contents s dentries path
      entry =
          ap (λ f. f dentries path) docs ∙ put_other stats dentries path path _ (contents s) refl

      block : contents t blocks path ≡ contents s blocks path
      block = ap (λ f. f blocks path) docs ∙ put_other stats blocks path path _ (contents s) refl

      restat_at : (m : Node) → At (some m) path s → At (some (restat y m)) path t
      restat_at (file x b) (h, h', h'') = (self, entry ∙ h', block ∙ h'')
      restat_at (directory x names) (h, h', h'') =
          (self, HasChildren-at P rel J lawful path names s t entry h', block ∙ h'')
