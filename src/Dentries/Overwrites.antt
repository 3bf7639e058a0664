-- ===== src/Dentries/Overwrites.antt =====
-- What a change of an entry is made of, where other clients change the entry too.
use cbfuse.Prelude.{
  ℕ, negate, ◌≡◌, ◌≢◌, inl, inr, refl, sym, ap, ◌∙◌, Option, Option-cases, some, none, some-ne-none,
  none-ne-some, some-injective, List, [], ◌∷◌, ◌++◌, CString, take_all,
}
use mathlib.Core.List.{map-append}
use cbfuse.Common.{dentries, dentry_children, eio}
use cbfuse.Io.Leaves.{
  Leaves, Replied, Leaves-pure, Leaves-jump, Leaves-perform, Leaves-bind, Leaves-call, Leaves-if,
  Leaves-if_null, Leaves-returning, Leaves-or_done,
}
use cbfuse.Platform.{StoreMode, Platform}
use cbfuse.Platform.Shared.{IsShared, Quiet, Change}
use cbfuse.Util.Shared.{Unchanged, code-ne-zero, Quiet-trans, Quiet-refl}
use cbfuse.Sync.{SyncGetResult}
use cbfuse.Sync.Shared.{Carries, get_document-Leaves}
use cbfuse.Sync.Changes.{Torn-Unchanged}
use cbfuse.Sync.Commits.{store_document-Leaves}
use cbfuse.Stats.Shared.{Attempts, Commits, Commits-finish, Attempts-zero}
use cbfuse.Json.{CJson}
use cbfuse.Json.Lawful.{HasNames}
use cbfuse.Json.Local.{IsLocal, IsSound, Lists}
use cbfuse.Dentries.{
  get_dentry_json, if_not_array, children_of, replace_dentry, add_child_to_dentry, dentry_settings,
  sized,
}

module _ (P : Platform) (shared : IsShared P) (J : CJson P) (local : IsLocal P shared J)
    (sound : IsSound J) where
  open P use {State}
  open J use {Json}

  -- A tree that was parsed from a version of the entry that the program was given.
  abbrev pub Parsed : CString → State → Json → Type 0
  Parsed k s p =
      (v : List ℕ) × (n : ℕ) × (u : State) × Quiet P shared s u
      × shared.Issued u dentries k n v
      × ((names : List CString) → Lists J v names → HasNames J p dentry_children names)

  -- The entry that stands there is written over by one that is made of the version that was read.
  abbrev pub Adds : CString → CString → State → Change → Type 0
  Adds k name s ch =
      (ch.collection ≡ dentries)
      × (ch.key ≡ k)
      × (ch.before dentries k ≢ none)
      × (text : CString) × (ch.new ≡ some text)
      × (v : List ℕ) × (n : ℕ) × (u : State) × Quiet P shared s u
      × shared.Issued u dentries k n v
      × ((names : List CString) → Lists J v names → Lists J text (names ++ (name ∷ [])))

  -- The names of an object whose array has got one more.
  grown-HasNames :
      (dentry children item grown : Json) (name : CString) (names : List CString)
      → J.get_member dentry dentry_children ≡ some children
      → J.string_value item ≡ some name
      → J.add_item_to_array (some children) (some item) ≡ some grown
      → HasNames J dentry dentry_children names
      → HasNames J
          (J.set_member dentry dentry_children grown)
          dentry_children
          (names ++ (name ∷ []))
  grown-HasNames dentry children item grown name names member is_name added
        (a, found, array, listed) =
      let same : a ≡ children = some-injective a children (sym found ∙ member) in
      let (array', listed') =
        sound.append_lem children item grown name (rw (← same) array) is_name added in
      (
        grown,
        sound.get-set dentry grown dentry_children (λ e. some-ne-none children (sym member ∙ e)),
        array',
        listed'
            ∙ ap (λ l. l ++ (some name ∷ [])) (rw (← same) listed)
            ∙ sym (map-append some names (name ∷ [])),
      )

  with_name :
      (dentry children grown : Json) (item : Option Json) (name : CString) (names : List CString)
      → J.get_member dentry dentry_children ≡ some children
      → ((j : Json) → item ≡ some j → J.string_value j ≡ some name)
      → J.add_item_to_array (some children) item ≡ some grown
      → HasNames J dentry dentry_children names
      → HasNames J
          (J.set_member dentry dentry_children grown)
          dentry_children
          (names ++ (name ∷ []))
  with_name dentry children grown none name names member named added has =
      absurd (none-ne-some grown (sym (sound.append_null (some children)) ∙ added))
  with_name dentry children grown (some j) name names member named added has =
      grown-HasNames dentry children j grown name names member (named j refl) added has

  module _ (k : CString) (s : State) where
    parsed_version :
        (r : SyncGetResult) (t : State) (p : Json)
        → Carries P shared dentries k (some r) t
        → Quiet P shared s t
        → (J.parse (sized r.value r.nvalue) t).0 ≡ some p
        → Parsed k s p
    parsed_version r t p h q e = elim (Option-cases r.value) [
      | inl gone ↦ absurd (
          none-ne-some p
            (sym (sound.parse_null t) ∙ ap (λ o. (J.parse (sized o r.nvalue) t).0) (sym gone) ∙ e))
      | inr (v, there) ↦
          let (i, l) = h v there in
          let whole : sized r.value r.nvalue ≡ some v = rw (there, l) (ap some (take_all v)) in
          (v, r.cas, t, q, i, λ names lists. lists t p (ap (λ o. (J.parse o t).0) (sym whole) ∙ e))
    ]

    get_dentry_json-Parsed :
        Leaves
          (get_dentry_json P J k)
          s
          (Replied
            (λ j u. Quiet P shared s u × ((p : Json) → j ≡ some p → Parsed k s p))
            (Unchanged P shared s))
          (Unchanged P shared s)
    unfolding get_dentry_json
    get_dentry_json-Parsed = Leaves-returning _ _ (
        Leaves-bind (get_document-Leaves P shared s dentries k (Quiet-refl P shared s))
          λ r u (h, q).
            Leaves-perform _
              (Quiet-trans P shared q (local.parse_quiet _ u), λ p e. parsed_version r u p h q e))

    found_array :
        (o : Option Json) {t : State}
        → Quiet P shared s t
        → Leaves
            (if_not_array P J o (negate eio))
            t
            (λ j u. Quiet P shared s u × (o ≡ some j))
            (Unchanged P shared s)
    unfolding if_not_array
    found_array none q = Leaves-jump _ (q, code-ne-zero 4)
    found_array (some j) q =
        Leaves-if (J.is_array j) _ _ (λ h. Leaves-pure j (q, refl))
          λ h. Leaves-jump _ (q, code-ne-zero 4)

    -- The last part, of a tree that has got the name.
    replaced :
        (name : CString) (p j : Json) {t : State}
        → Quiet P shared s t
        → Parsed k s p
        → ((names : List CString)
            → HasNames J p dentry_children names
            → HasNames J j dentry_children (names ++ (name ∷ [])))
        → Attempts P shared s (replace_dentry P J k j) t (Adds k name s)
    unfolding replace_dentry
    replaced name p j {t} q (v, n, u, q', i, f) g =
        let printed : Quiet P shared s (J.print j t).1 =
          Quiet-trans P shared q (local.print_quiet j t) in
        Leaves-call _ _ (
          Leaves-bind {Q = λ text w. Quiet P shared s w × ((J.print j t).0 ≡ some text)}
            (Leaves-if_null (J.print j t).0 _ (λ text e. (printed, e))
              (inl (printed, code-ne-zero 4)))
            λ text w (q'', e).
              Attempts-zero P shared (Quiet-refl P shared s)
                (λ ch (in_c, at_k, is, (there, current)). (
                  in_c,
                  at_k,
                  there,
                  text,
                  is,
                  v,
                  n,
                  u,
                  q',
                  i,
                  λ names lists.
                      sound.print_lem j t text (names ++ (name ∷ [])) e (g names (f names lists)),
                ))
                (store_document-Leaves P shared s dentries k q'' StoreMode.replace
                  (dentry_settings k text) text refl refl refl refl))

    -- Where add_child_to_dentry returns 0 it has made exactly one change: an entry that stood for
    -- the directory is written over, whatever it was at that moment, by a text that is made of a
    -- version that the program had read before: where the version listed some names, the text
    -- lists these and the new one, so that a name that another client has put in since is lost.
    -- Where it returns another result or faults, it has made this one change or none. The calls
    -- of the platform may fail, and other clients may change documents between any two commands.
    -- What cJSON prints and parses agrees, where it does not fail.
    pub add_child_to_dentry-Adds :
        (name : CString) → Commits P shared s (add_child_to_dentry P J k name) s (Adds k name s)
    unfolding add_child_to_dentry
    add_child_to_dentry-Adds name = Commits-finish P shared (
        Leaves-bind (Torn-Unchanged P shared get_dentry_json-Parsed) λ got u reply.
          Leaves-bind (Torn-Unchanged P shared (Leaves-or_done _ _ got reply))
            λ parsed u' (q, version).
              Leaves-bind {Q = λ d w. Quiet P shared s w × (parsed ≡ some d)}
                (Leaves-if_null parsed _ (λ d e. (q, e)) (inl (q, code-ne-zero 4)))
                λ dentry w (q', is).
                  Leaves-bind (Torn-Unchanged P shared (found_array _ q'))
                    λ children w' (q'', member).
                      let item : Option Json = (J.create_string name w').0 in
                      let q3 : Quiet P shared s (J.create_string name w').1 =
                        Quiet-trans P shared q'' (local.string_quiet name w') in
                      Leaves-call _ _ (
                        Leaves-bind
                          {Q = λ grown x.
                            Quiet P shared s x
                            × (J.add_item_to_array (some children) item ≡ some grown)}
                          (Leaves-if_null _ _ (λ grown e. (q3, e)) (inl (q3, code-ne-zero 4)))
                          λ grown x (q4, added).
                            replaced name dentry _ q4 (version dentry is) λ names.
                              with_name dentry children grown (J.create_string name w').0 name names
                                (ap (children_of P J) (sym is) ∙ member)
                                (sound.create_string_lem name w') added))
