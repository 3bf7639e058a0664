-- ===== src/Tree/Removes.antt =====
-- A tree stays a tree when a file or an empty directory is taken away, and its parent lists it no more.
use cbfuse.Prelude.{
  ◌≡◌, ◌≢◌, sym, ap, ◌∙◌, true, some, none, List, [], CString, inl, inr, none-ne-some,
  some-injective,
}
use cbfuse.Common.{root_dir_string}
use cbfuse.Platform.{Stat, Platform}
use cbfuse.Dentries.Removal.{without}
use cbfuse.Cbfuse.{Fuse}
use cbfuse.Tree.{Node, file, directory, Fs, set, lists, IsPosix, Splits, IsTree, Listed, Leads}
use cbfuse.Tree.Names.{set_two-cases, lists-without_other, lists-without, lists-empty}

-- A node that may go: it lists nothing.
abbrev pub HasNoChildren : Node → Type 0
HasNoChildren n = (y : Stat) (names : List CString) → n ≡ directory y names → names ≡ []

module _ {P : Platform} (F : Fuse P) (posix : IsPosix F) (fs : Fs) (T : IsTree F posix fs)
    (path dir name : CString) (n : Node) (y : Stat) (names : List CString)
    (normal : posix.IsNormal path) (splits : Splits F path dir name) (leaf : HasNoChildren n)
    (there : fs path ≡ some n) (parent : fs dir ≡ some (directory y names)) (apart : path ≢ dir)
    (not_root : path ≢ root_dir_string) where
  abbrev shrunk : Node
  shrunk = directory y (without name names)

  abbrev after : Fs
  after = set dir (some shrunk) (set path none fs)

  -- Two nodes of one directory have two names.
  name_apart :
      (q m : CString)
      → path ≢ q
      → posix.IsNormal q
      → F.dirname (some q) ≡ some dir
      → F.basename (some q) ≡ some m
      → name ≢ m
  name_apart q m other nq hd hb e =
      other (
        posix.dirname-basename path q dir name normal nq splits.0 hd splits.1
          (hb ∙ ap some (sym e)))

  node_back :
      (q : CString) (k : Node) → after q ≡ some k → (path ≢ q) × (k' : Node) × (fs q ≡ some k')
  node_back q k h = elim (set_two-cases dir (some shrunk) path none fs q) [
    | inl (same, e) ↦ ((λ p. apart (p ∙ sym same)), directory y names, ap fs (sym same) ∙ parent)
    | inr (inl (other, same, e)) ↦ absurd (none-ne-some k (sym e ∙ h))
    | inr (inr (other, away, e)) ↦ (away, k, sym e ∙ h)
  ]

  node_after :
      (q : CString) (k : Node) → path ≢ q → fs q ≡ some k → (k' : Node) × (after q ≡ some k')
  node_after q k away h = elim (set_two-cases dir (some shrunk) path none fs q) [
    | inl (same, e) ↦ (shrunk, e)
    | inr (inl (other, same, e)) ↦ absurd (away same)
    | inr (inr (other, far, e)) ↦ (k, e ∙ h)
  ]

  -- The other nodes are listed as before.
  Listed-after : (q : CString) → path ≢ q → Listed F posix fs q → Listed F posix after q
  Listed-after q away (d, m, z, ns, nq, hd, hb, at, member) =
      elim (set_two-cases dir (some shrunk) path none fs d) [
        | inl (same, e) ↦
            let names_eq : names ≡ ns = cc in
            let far : name ≢ m = name_apart q m away nq (hd ∙ ap some (sym same)) hb in
            (
              d,
              m,
              y,
              without name names,
              nq,
              hd,
              hb,
              e,
              lists-without_other m name names far (rw names_eq member),
            )
        | inr (inl (other, same, e)) ↦
            let empty : ns ≡ [] = leaf z ns (cc) in absurd (lists-empty m ns empty member)
        | inr (inr (other, far, e)) ↦ (d, m, z, ns, nq, hd, hb, e ∙ at, member)
      ]

  names_after :
      (d m : CString) (z : Stat) (ns : List CString)
      → after d ≡ some (directory z ns)
      → lists m ns ≡ true
      → Leads F posix after d m
  names_after d m z ns h member = elim (set_two-cases dir (some shrunk) path none fs d) [
    | inl (same, e) ↦
        let names_eq : ns ≡ without name names = cc in
        let (old, far) = lists-without m name names (rw (← names_eq) member) in
        let (q, k, nq, hd, hb, at) = T.leads d m y names (ap fs (sym same) ∙ parent) old in
        let (k', at') =
          node_after q k
            (λ p. far (some-injective name m (sym splits.1 ∙ ap F.basename (ap some p) ∙ hb))) at in
        (q, k', nq, hd, hb, at')
    | inr (inl (other, same, e)) ↦ absurd (none-ne-some (directory z ns) (sym e ∙ h))
    | inr (inr (other, far, e)) ↦
        let (q, k, nq, hd, hb, at) = T.leads d m z ns (sym e ∙ h) member in
        let (k', at') =
          node_after q k
            (λ p. other (some-injective dir d (sym splits.0 ∙ ap F.dirname (ap some p) ∙ hd))) at in
        (q, k', nq, hd, hb, at')
  ]

  pub removed-IsTree : IsTree F posix after
  removed-IsTree = record {
    root =
        let (z, ns, at) = T.root in
        elim (set_two-cases dir (some shrunk) path none fs root_dir_string) [
          | inl (same, e) ↦ (y, without name names, e)
          | inr (inl (other, same, e)) ↦ absurd (not_root same)
          | inr (inr (other, far, e)) ↦ (z, ns, e ∙ at)
        ];
    listed = λ q k h far.
        let (away, k', at) = node_back q k h in Listed-after q away (T.listed q k' at far);
    leads = names_after;
    sizes = λ q x b h. elim (set_two-cases dir (some shrunk) path none fs q) [
      | inl (same, e) ↦ cc
      | inr (inl (other, same, e)) ↦ absurd (none-ne-some (file x b) (sym e ∙ h))
      | inr (inr (other, far, e)) ↦ T.sizes q x b (sym e ∙ h)
    ];
  }
