-- ===== src/Tree/Adds.antt =====
-- A tree stays a tree when a new node is put under a path, and its parent lists it.
use cbfuse.Prelude.{
  ℕ, ◌≡◌, ◌≢◌, refl, sym, ap, ◌∙◌, true, Option, some, none, List, [], ◌∷◌, ◌++◌, CString, length,
  inl, inr,
}
use cbfuse.Common.{root_dir_string}
use cbfuse.Platform.{Stat, Platform}
use cbfuse.Data.Writes.{bytes_of}
use cbfuse.Cbfuse.{Fuse}
use cbfuse.Tree.{Node, file, directory, Fs, set, lists, IsPosix, Splits, IsTree, Listed, Leads}
use cbfuse.Tree.Names.{
  set_two-cases, lists-append_new, lists-append_old, lists-append-cases, lists-empty,
}

-- A node with no bytes and no children.
pub record IsFresh (n : Node) : Type 0 where
  pub no_children : (y : Stat) (names : List CString) → n ≡ directory y names → names ≡ []
  pub no_bytes : (x : Stat) (b : Option (List ℕ)) → n ≡ file x b → x.size ≡ length (bytes_of b)

module _ {P : Platform} (F : Fuse P) (posix : IsPosix F) (fs : Fs) (T : IsTree F posix fs)
    (path dir name : CString) (n : Node) (y : Stat) (names : List CString)
    (normal : posix.IsNormal path) (splits : Splits F path dir name) (fresh : IsFresh n)
    (free : fs path ≡ none) (parent : fs dir ≡ some (directory y names)) where
  abbrev grown : Node
  grown = directory y (names ++ (name ∷ []))

  abbrev after : Fs
  after = set dir (some grown) (set path (some n) fs)

  -- What a directory listed, it lists still.
  Listed-after : (q : CString) → Listed F posix fs q → Listed F posix after q
  Listed-after q (d, m, z, ns, nq, hd, hb, there, member) =
      elim (set_two-cases dir (some grown) path (some n) fs d) [
        | inl (same, e) ↦
            let here : some (directory y names) ≡ some (directory z ns) = cc in
            let names_eq : names ≡ ns = cc in
            (
              d,
              m,
              y,
              names ++ (name ∷ []),
              nq,
              hd,
              hb,
              e,
              lists-append_old m name names (rw names_eq member),
            )
        | inr (inl (other, same, e)) ↦ cc
        | inr (inr (other, apart, e)) ↦ (d, m, z, ns, nq, hd, hb, e ∙ there, member)
      ]

  -- Where a node was, there is one.
  node_after : (q : CString) (k : Node) → fs q ≡ some k → (k' : Node) × (after q ≡ some k')
  node_after q k h = elim (set_two-cases dir (some grown) path (some n) fs q) [
    | inl (same, e) ↦ (grown, e)
    | inr (inl (other, same, e)) ↦ (n, e)
    | inr (inr (other, apart, e)) ↦ (k, e ∙ h)
  ]

  Leads-after : (d m : CString) → Leads F posix fs d m → Leads F posix after d m
  Leads-after d m (q, k, nq, hd, hb, there) =
      let (k', there') = node_after q k there in (q, k', nq, hd, hb, there')

  new_node : after path ≡ some n
  new_node = elim (set_two-cases dir (some grown) path (some n) fs path) [
    | inl (same, e) ↦ cc
    | inr (inl (other, same, e)) ↦ e
    | inr (inr (other, apart, e)) ↦ absurd (apart refl)
  ]

  parent_after : after dir ≡ some grown
  parent_after = elim (set_two-cases dir (some grown) path (some n) fs dir) [
    | inl (same, e) ↦ e
    | inr (inl (other, same, e)) ↦ absurd (other refl)
    | inr (inr (other, apart, e)) ↦ absurd (other refl)
  ]

  parents_after :
      (q : CString) (k : Node) → after q ≡ some k → q ≢ root_dir_string → Listed F posix after q
  parents_after q k h apart = elim (set_two-cases dir (some grown) path (some n) fs q) [
    | inl (same, e) ↦
        Listed-after q (T.listed q (directory y names) (ap fs (sym same) ∙ parent) apart)
    | inr (inl (other, same, e)) ↦ rw (← same) (
      dir,
      name,
      y,
      names ++ (name ∷ []),
      normal,
      splits.0,
      splits.1,
      parent_after,
      lists-append_new name names,
    )
    | inr (inr (other, away, e)) ↦ Listed-after q (T.listed q k (sym e ∙ h) apart)
  ]

  names_after :
      (d m : CString) (z : Stat) (ns : List CString)
      → after d ≡ some (directory z ns)
      → lists m ns ≡ true
      → Leads F posix after d m
  names_after d m z ns h member = elim (set_two-cases dir (some grown) path (some n) fs d) [
    | inl (same, e) ↦
        let names_eq : ns ≡ names ++ (name ∷ []) = cc in
        elim (lists-append-cases m name names (rw (← names_eq) member)) [
          | inl old ↦ Leads-after d m (T.leads d m y names (ap fs (sym same) ∙ parent) old)
          | inr new ↦ (path, n, normal, splits.0 ∙ ap some same, splits.1 ∙ ap some new, new_node)
        ]
    | inr (inl (other, same, e)) ↦
        let none_listed : ns ≡ [] = fresh.no_children z ns (cc) in
        absurd (lists-empty m ns none_listed member)
    | inr (inr (other, away, e)) ↦ Leads-after d m (T.leads d m z ns (sym e ∙ h) member)
  ]

  pub added-IsTree : IsTree F posix after
  added-IsTree = record {
    root =
        let (z, ns, there) = T.root in
        elim (set_two-cases dir (some grown) path (some n) fs root_dir_string) [
          | inl (same, e) ↦ (y, names ++ (name ∷ []), e)
          | inr (inl (other, same, e)) ↦ cc
          | inr (inr (other, apart, e)) ↦ (z, ns, e ∙ there)
        ];
    listed = parents_after;
    leads = names_after;
    sizes = λ q x b h. elim (set_two-cases dir (some grown) path (some n) fs q) [
      | inl (same, e) ↦ cc
      | inr (inl (other, same, e)) ↦ fresh.no_bytes x b (cc)
      | inr (inr (other, apart, e)) ↦ T.sizes q x b (sym e ∙ h)
    ];
  }
