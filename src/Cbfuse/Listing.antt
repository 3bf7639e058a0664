-- ===== src/Cbfuse/Listing.antt =====
-- readdir over a reliable server and a lawful cJSON: which calls of the callback it makes.
use cbfuse.Prelude.{
  ℕ, suc, ◌+◌, ◌-◌, ℤ, pos, ◌≡◌, refl, ap, ◌∙◌, some, List, [], ◌∷◌, CString, map, drop, drop_all,
  leb, arith, Bool-cases, inl, inr,
}
use cbfuse.Io.{value, ◌>>=◌}
use cbfuse.Io.Rules.{Yields, Yields-then, Yields-next, Yields-finish}
use cbfuse.Platform.{Platform}
use cbfuse.Platform.Reliable.{IsReliable}
use cbfuse.Sync.Rules.{Same}
use cbfuse.Json.{CJson}
use cbfuse.Json.Lawful.{IsLawful}
use cbfuse.Dentries.Entries.{HasChildren, get_dentry_json-found, if_not_array-Ends}
use cbfuse.Dentries.Removal.{cons-head, cons-tail}
use cbfuse.Cbfuse.{Fuse, fill_names, cbfuse_readdir}

-- Each name with the offset behind it.
abbrev pub numbered : ℕ → List CString → List (CString × ℕ)
numbered n [] = []
numbered n (name ∷ names) = (name, n + 1) ∷ numbered (n + 1) names

module _ (P : Platform) (J : CJson P) (F : Fuse P) where
  open P use {State}

  -- One call of the callback for each entry, in order; what a call returns is used by no other.
  abbrev pub offer : List (CString × ℕ) → ℤ → State → ℤ × State
  offer [] fr s = (fr, s)
  offer (e ∷ es) fr s = let called = F.filler e.0 e.1 s in offer es called.0 called.1

  -- The loop of readdir skips the children before the offset and offers all others.
  fill_names-offer :
      (offset n : ℕ) (children : List J.Json) (names : List CString) (fr : ℤ) (s : State)
      → map J.string_value children ≡ map some names
      → fill_names P J F offset n children fr s
        ≡ (let r = offer (drop (offset - n) (numbered n names)) fr s in (value r.0, r.1))
  unfolding fill_names ◌>>=◌
  fill_names-offer offset n [] [] fr s h =
      rw (drop_all {A = CString × ℕ} (offset - n) [] (omega arith)) refl
  fill_names-offer offset n [] (x ∷ names) fr s h = cc
  fill_names-offer offset n (c ∷ children) [] fr s h = cc
  fill_names-offer offset n (c ∷ children) (x ∷ names) fr s h = elim (Bool-cases (leb offset n)) [
    | inl reached ↦
        let here : offset - n ≡ 0 = ground arith in
        let next : offset - (n + 1) ≡ 0 = ground arith in
        let rest =
          fill_names-offer offset (n + 1) children names (F.filler x (n + 1) s).0
            (F.filler x (n + 1) s).1 (cons-tail h) in
        rw (reached, cons-head h, here)
          (rest
            ∙ ap
                (λ m.
                  let r =
                    offer (drop m (numbered (n + 1) names)) (F.filler x (n + 1) s).0
                      (F.filler x (n + 1) s).1 in
                  (value r.0, r.1))
                next)
    | inr before ↦
        let here : offset - n ≡ suc (offset - (n + 1)) = ground arith in
        rw (before, here) (fill_names-offer offset (n + 1) children names fr s (cons-tail h))
  ]

module _ (P : Platform) (rel : IsReliable P) (J : CJson P) (F : Fuse P)
    (lawful : IsLawful P rel J) where
  open P use {State}

  -- For a directory whose entry lists some names, readdir calls the callback once for each name
  -- from the offset on, in their order, with the offset behind the name, and returns what the
  -- last call returned, or 0 after none; it goes on whatever a call returns, and before the first
  -- call no document has changed. The platform and cJSON are reliable.
  pub readdir-offers :
      (path : CString) (offset : ℕ) (names : List CString) (s : State)
      → HasChildren P rel J lawful path names s
      → Yields (cbfuse_readdir P J F path offset) s (λ fr t.
        (u : State) × Same P rel s u
        × ((fr, t) ≡ offer P J F (drop offset (numbered 0 names)) (pos 0) u))
  unfolding cbfuse_readdir
  readdir-offers path offset names s (j, entry, (a, member, array, listed)) = Yields-finish (
      Yields-then _ (get_dentry_json-found P rel J lawful path j s entry) λ t same. Yields-next _ (
        rw member (
          Yields-then _ (if_not_array-Ends P rel J lawful a (pos 0) t (Same P rel s) array same)
            λ u same'. record {
              result = (offer P J F (drop offset (numbered 0 names)) (pos 0) u).0;
              after = (offer P J F (drop offset (numbered 0 names)) (pos 0) u).1;
              runs =
                  fill_names-offer P J F offset 0 (J.items a) names (pos 0) u listed
                  ∙ ap
                      (λ m.
                        let r = offer P J F (drop m (numbered 0 names)) (pos 0) u in
                        (value r.0, r.1))
                      (omega arith);
              holds = (u, same', refl);
            })))
